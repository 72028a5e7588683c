-- ===== src/Rtp/Depay/Refeed.antt =====
-- The loop of the depayloader's input, which feeds one datagram over and over.
use vstreamer.Base.{
  ℕ, ◌≡◌, arith, List, ◌+◌, length, ◌∷◌, ap, ◌∙◌, ok, Option, some, none, Outcome, true, refl, suc,
  ◌<◌, sym, zero, Errno, fault, ◌≤◌, err, false, einval, Bool-cases, inl, inr, if◌then◌else◌, subst,
}
use vstreamer.Rtp.Depacketizer.{
  Depacketizer, ParsedRtp, CompletedAu, finish_building_au, process_payload, pop_result, is_late,
  arrive, settle, feed, parse_rtp,
}
use vstreamer.Rtp.Safety.{Safe, parse_rtp-Safe}
use vstreamer.Rtp.Depay.Handed.{take_au-Pushed, Drained, Drained-none, Drained-more, pushed_from}
use vstreamer.Rtp.Depay.{Depay, Clocks, take_au, feed_rounds, input, au_queue_depth}
use vstreamer.Rtp.Depay.Track.{
  Finished-if, nothing, oldest, pop_result-Popped, feed_late, feed_on_time, is_late-newest,
  is_late-same, arrive-Arrived, process_payload-SameTrack, process_payload-Safe, counted_late,
}

-- One round that hands out a unit, and one that does not.
rounds_next :
    (fuel : ℕ) (now : Clocks) (d au : List ℕ) (s : Depay) (t : Depacketizer)
    → feed d s.depay ≡ (t, ok (some au))
    → feed_rounds (suc fuel) now d s
      ≡ feed_rounds fuel now d (take_au now au (record s { depay = t }))
unfolding feed_rounds
rounds_next fuel now d au s t e = ground (arith, e)

rounds_last :
    (fuel : ℕ) (now : Clocks) (d : List ℕ) (s : Depay) (t : Depacketizer)
    → feed d s.depay ≡ (t, ok none)
    → feed_rounds (suc fuel) now d s ≡ (record s { depay = t }, some (ok tt))
unfolding feed_rounds
rounds_last fuel now d s t e = ground (arith, e)

-- From a datagram that is late on, each round hands out one unit and counts one late datagram.
late_rounds :
    (fuel : ℕ) (now : Clocks) (d : List ℕ) (rtp : ParsedRtp) (aus : List CompletedAu) (s : Depay)
    → parse_rtp d ≡ ok rtp
    → is_late rtp.seq s.depay ≡ true
    → s.depay.completed_aus ≡ aus
    → length s.au_queue ≤ au_queue_depth
    → length aus < fuel
    → Drained aus (length aus + 1) s (feed_rounds fuel now d s)
late_rounds zero now d rtp aus s e late ea few h = absurd (omega arith)
late_rounds (suc fuel) now d rtp aus s e late ea few h =
    let f = feed_late d rtp s.depay e late in
    elim (pop_result-Popped aus (counted_late s.depay) ea) [
      | nothing none_left r ↦ rw (rounds_last fuel now d s (counted_late s.depay) (f ∙ r)) (
          subst
            (λ l.
              Drained l (length l + 1) s (record s { depay = counted_late s.depay }, some (ok tt)))
            (sym none_left ∙ ea) (Drained-none 1 s (counted_late s.depay) few none_left refl))
      | oldest item rest t ei r seq have count left ↦
          let p = take_au-Pushed now item.bytes (record s { depay = t }) few in
          let s' = take_au now item.bytes (record s { depay = t }) in
          let n : length aus ≡ suc (length rest) = ap length (sym ea ∙ ei) in
          let ih =
            late_rounds fuel now d rtp rest s' e
              (is_late-same rtp.seq s.depay s'.depay
                (ap (λ (x : Depacketizer). x.last_seq) p.same_depay ∙ seq)
                (ap (λ (x : Depacketizer). x.have_seq) p.same_depay ∙ have) late)
              (ap (λ (x : Depacketizer). x.completed_aus) p.same_depay ∙ left) p.few
              (omega arith) in
          rw (rounds_next fuel now d item.bytes s t (f ∙ r)) (
            subst (λ l. Drained l (length l + 1) s (feed_rounds fuel now d s')) (sym ei ∙ ea)
              (Drained-more item rest (length rest + 1) (length (item ∷ rest) + 1) s s' _
                (pushed_from p)
                (omega
                  (arith, ap (λ (x : Depacketizer). x.rtp_reordered_count) p.same_depay, count))
                ih))
    ]

-- The depacketizer once it has taken the payload of a datagram that comes in time, and the units that
-- wait then: the marker ends one.
abbrev pub taken : ParsedRtp → Depacketizer → Depacketizer × Outcome (Unit {0})
taken rtp s = process_payload rtp.payload (arrive rtp s)

abbrev pub marked : ParsedRtp → Depacketizer → Depacketizer
marked rtp s =
    let p = (taken rtp s).0 in
    if rtp.marker then finish_building_au rtp.ts p.building_capture_rt_ns p else p

-- How a datagram goes through the loop. One that is no RTP, or whose payload is refused, leaves the
-- queue as it is. Of one that is late, the units that waited are handed out; of one in time, those
-- that wait once its payload is taken. `parse_rtp` and the payload tell which of the four it is.
pub data Ran (d : List ℕ) (s : Depay) (r : Depay × Option (Outcome (Unit {0}))) : Type 0 where
  unparsed :
      (e : Errno)
      → parse_rtp d ≡ err e
      → r ≡ (record s { depay = s.depay }, some (err einval))
      → Ran d s r
  refused :
      (rtp : ParsedRtp) (e : Errno)
      → parse_rtp d ≡ ok rtp
      → is_late rtp.seq s.depay ≡ false
      → (taken rtp s.depay).1 ≡ err e
      → r ≡ (record s { depay = (taken rtp s.depay).0 }, some (err e))
      → Ran d s r
  late :
      (rtp : ParsedRtp)
      → parse_rtp d ≡ ok rtp
      → is_late rtp.seq s.depay ≡ true
      → Drained s.depay.completed_aus (length s.depay.completed_aus + 1) s r
      → Ran d s r
  on_time :
      (rtp : ParsedRtp)
      → parse_rtp d ≡ ok rtp
      → is_late rtp.seq s.depay ≡ false
      → (taken rtp s.depay).1 ≡ ok tt
      → Drained (marked rtp s.depay).completed_aus (length (marked rtp s.depay).completed_aus) s r
      → Ran d s r

rounds_refused :
    (fuel : ℕ) (now : Clocks) (d : List ℕ) (s : Depay) (t : Depacketizer) (e : Errno)
    → feed d s.depay ≡ (t, err e)
    → feed_rounds (suc fuel) now d s ≡ (record s { depay = t }, some (err e))
unfolding feed_rounds
rounds_refused fuel now d s t e h = ground (arith, h)

feed_refused :
    (d : List ℕ) (s : Depacketizer) (e : Errno) → parse_rtp d ≡ err e → feed d s ≡ (s, err einval)
unfolding feed
feed_refused d s e h = ground (arith, h)

-- A datagram in time, by what becomes of its payload.
settled :
    (fuel : ℕ) (now : Clocks) (d : List ℕ) (rtp : ParsedRtp) (s : Depay) (o : Outcome (Unit {0}))
    → parse_rtp d ≡ ok rtp
    → is_late rtp.seq s.depay ≡ false
    → (taken rtp s.depay).1 ≡ o
    → Safe (λ u. Unit) o
    → length s.au_queue ≤ au_queue_depth
    → length s.depay.completed_aus + 2 ≤ fuel
    → Ran d s (feed_rounds (suc fuel) now d s)
unfolding settle
settled fuel now d rtp s (err x) e l eo safe few h =
    let p = taken rtp s.depay in
    let f : feed d s.depay ≡ (p.0, err x) =
      feed_on_time d rtp s.depay e l ∙ ap (settle rtp p.0) eo in
    refused rtp x e l eo (rounds_refused fuel now d s p.0 x f)
settled fuel now d rtp s fault e l eo safe few h = absurd safe
settled fuel now d rtp s (ok u) e l eo safe few h =
    let a = arrive-Arrived rtp s.depay in
    let p = taken rtp s.depay in
    let same = process_payload-SameTrack rtp.payload (arrive rtp s.depay) in
    let q = marked rtp s.depay in
    let fin = Finished-if p.0 rtp.marker rtp.ts p.0.building_capture_rt_ns in
    let f : feed d s.depay ≡ pop_result q =
      feed_on_time d rtp s.depay e l ∙ ap (settle rtp p.0) eo in
    let newest_seq : q.last_seq ≡ rtp.seq = fin.kept_seq ∙ same.same_seq ∙ a.newest in
    let started : q.have_seq ≡ true = fin.kept_have ∙ same.same_have ∙ a.started in
    let counted : q.rtp_reordered_count ≡ s.depay.rtp_reordered_count =
      fin.kept_late ∙ same.same_late ∙ a.on_time in
    let most : length q.completed_aus ≤ length s.depay.completed_aus + 2 =
      omega (arith, fin.one_more, ap length same.same_aus, a.at_most) in
    elim (pop_result-Popped q.completed_aus q refl) [
      | nothing none_left r ↦ on_time rtp e l eo (
          rw (rounds_last fuel now d s q (f ∙ r)) (
            subst (λ aus. Drained aus (length aus) s (record s { depay = q }, some (ok tt)))
              (sym none_left) (Drained-none 0 s q few none_left (omega (arith, counted)))))
      | oldest item rest t ei r seq have count left ↦
          let p' = take_au-Pushed now item.bytes (record s { depay = t }) few in
          let s' = take_au now item.bytes (record s { depay = t }) in
          let late_now =
            is_late-newest rtp.seq s'.depay
              (ap (λ (x : Depacketizer). x.have_seq) p'.same_depay ∙ have ∙ started)
              (ap (λ (x : Depacketizer). x.last_seq) p'.same_depay ∙ seq ∙ newest_seq) in
          let ih =
            late_rounds fuel now d rtp rest s' e late_now
              (ap (λ (x : Depacketizer). x.completed_aus) p'.same_depay ∙ left) p'.few
              (omega (arith, most, ap length ei)) in
          on_time rtp e l eo (
            rw (rounds_next fuel now d item.bytes s t (f ∙ r)) (
              subst (λ aus. Drained aus (length aus) s (feed_rounds fuel now d s')) (sym ei)
                (Drained-more item rest (length rest + 1) (length (item ∷ rest)) s s' _
                  (pushed_from p')
                  (omega (
                    arith,
                    ap (λ (x : Depacketizer). x.rtp_reordered_count) p'.same_depay,
                    count,
                    counted,
                  ))
                  ih)))
    ]

outcome_of :
    (fuel : ℕ) (now : Clocks) (d : List ℕ) (o : Outcome ParsedRtp) (s : Depay)
    → parse_rtp d ≡ o
    → Safe (λ (rtp : ParsedRtp). 0 < length rtp.payload) o
    → length s.au_queue ≤ au_queue_depth
    → length s.depay.completed_aus + 2 ≤ fuel
    → Ran d s (feed_rounds (suc fuel) now d s)
outcome_of fuel now d (err x) s e safe few h =
    unparsed x e (rounds_refused fuel now d s s.depay einval (feed_refused d s.depay x e))
outcome_of fuel now d fault s e safe few h = absurd safe
outcome_of fuel now d (ok rtp) s e safe few h = elim (Bool-cases (is_late rtp.seq s.depay)) [
  | inl l ↦
      late rtp e l
        (late_rounds (suc fuel) now d rtp s.depay.completed_aus s e l refl few (omega arith))
  | inr l ↦
      settled fuel now d rtp s (taken rtp s.depay).1 e l refl
        (process_payload-Safe rtp.payload (arrive rtp s.depay)) few h
]

-- The loop of input ends, whatever the datagram and the state are: the fuel given is enough, and
-- nothing outside an array is read. A datagram that is no RTP or whose payload is refused is refused.
-- Of any other, all the access units that wait (for one in time: once its payload is taken) are handed
-- out whole and in order behind a queue of at most 8, which keeps the newest 8. Of a datagram in time
-- each unit counts as a datagram that was late, and of one that is late itself one more.
pub input-Ran :
    (now : Clocks) (d : List ℕ) (s : Depay)
    → length s.au_queue ≤ au_queue_depth
    → Ran d s (input 0 now d s)
unfolding input
input-Ran now d s few =
    let n = length s.depay.completed_aus + 2 in
    let e : suc n ≡ length s.depay.completed_aus + 3 = omega arith in
    subst (λ k. Ran d s (feed_rounds k now d s)) e
      (outcome_of n now d (parse_rtp d) s refl (parse_rtp-Safe d) few (omega arith))
