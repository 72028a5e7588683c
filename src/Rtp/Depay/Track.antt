-- ===== src/Rtp/Depay/Track.antt =====
-- What a call of feed does to the sequence number, to the units that wait and to the count of late
-- datagrams.
use vstreamer.Base.{
  ℕ, ◌≡◌, ◌∙◌, List, ◌∷◌, arith, suc, true, refl, length, [], zero, ◌≤◌, ◌+◌, Bool, bit_or, Outcome,
  ◌&&◌, ◌<<<◌, err, if◌then◌else◌, ◌!=◌, ltb, einval, positive_part, false, drop, ok, ap, take,
  bit_and, ◌==◌, leb, Option, ◌++◌, length-append, none, some, ap₂, ◌||◌, ◌^◌,
}
use vstreamer.Rtp.Safety.{Safe}
use vstreamer.Rtp.Depacketizer.{
  Depacketizer, ParsedRtp, CompletedAu, seq_ahead, abort_fu, note_sequence, begin_au_if_needed,
  append_annexb_nal, finish_building_au, note_au_timestamps, pop_completed_au, append_aggregated,
  take_fragment, process_payload, pop_result, is_late, arrive, settle, feed_parsed, feed, parse_rtp,
}

-- What the loop depends on: the newest sequence number, the units that wait and the count of late
-- datagrams.
pub record SameTrack (s t : Depacketizer) : Type 0 where
  pub same_seq : t.last_seq ≡ s.last_seq
  pub same_have : t.have_seq ≡ s.have_seq
  pub same_aus : t.completed_aus ≡ s.completed_aus
  pub same_late : t.rtp_reordered_count ≡ s.rtp_reordered_count

SameTrack-refl : (s : Depacketizer) → SameTrack s s
SameTrack-refl s = record { same_seq = refl; same_have = refl; same_aus = refl; same_late = refl }

SameTrack-trans : {s t u : Depacketizer} → SameTrack s t → SameTrack t u → SameTrack s u
SameTrack-trans a b = record {
  same_seq = b.same_seq ∙ a.same_seq;
  same_have = b.same_have ∙ a.same_have;
  same_aus = b.same_aus ∙ a.same_aus;
  same_late = b.same_late ∙ a.same_late;
}

SameTrack-if :
    {A : Type 0} (s : Depacketizer) (b : Bool) (x y : Depacketizer × A)
    → SameTrack s x.0
    → SameTrack s y.0
    → SameTrack s (if b then x else y).0
SameTrack-if s true x y hx hy = hx
SameTrack-if s false x y hx hy = hy

append_annexb_nal-SameTrack :
    (nal : List ℕ) (s : Depacketizer) → SameTrack s (append_annexb_nal nal s)
unfolding append_annexb_nal
append_annexb_nal-SameTrack [] s = SameTrack-refl s
append_annexb_nal-SameTrack (b ∷ nal) s = record {
  same_seq = refl;
  same_have = refl;
  same_aus = refl;
  same_late = refl;
}

take_fragment-SameTrack :
    (nal_hdr fu_hdr : ℕ) (body : List ℕ) (s : Depacketizer)
    → SameTrack s (take_fragment nal_hdr fu_hdr body s)
unfolding take_fragment abort_fu append_annexb_nal
take_fragment-SameTrack nal_hdr fu_hdr body s = record {
  same_seq = ground arith;
  same_have = ground arith;
  same_aus = ground arith;
  same_late = ground arith;
}

append_aggregated-SameTrack :
    (fuel : ℕ) (rest : List ℕ) (s : Depacketizer) → SameTrack s (append_aggregated fuel rest s).0
unfolding append_aggregated
append_aggregated-SameTrack zero rest s = SameTrack-refl s
append_aggregated-SameTrack (suc fuel) [] s = SameTrack-refl s
append_aggregated-SameTrack (suc fuel) (hi ∷ []) s = SameTrack-refl s
append_aggregated-SameTrack (suc fuel) (hi ∷ lo ∷ rest) s =
    let sz = bit_or (hi <<< 8) lo in
    SameTrack-if s (ltb (length rest) sz) (s, err einval)
      (append_aggregated fuel (drop sz rest) (append_annexb_nal (take sz rest) s))
      (SameTrack-refl s)
      (SameTrack-trans (append_annexb_nal-SameTrack (take sz rest) s)
        (append_aggregated-SameTrack fuel (drop sz rest) (append_annexb_nal (take sz rest) s)))

pub process_payload-SameTrack :
    (payload : List ℕ) (s : Depacketizer) → SameTrack s (process_payload payload s).0
unfolding process_payload
process_payload-SameTrack [] s = SameTrack-refl s
process_payload-SameTrack (nal_hdr ∷ rest) s =
    let type = bit_and nal_hdr 0x1f in
    SameTrack-if s (type == 24) _ _ (append_aggregated-SameTrack (length rest) rest s) (
      SameTrack-if s (leb 1 type && leb type 23) _ _
        (append_annexb_nal-SameTrack (nal_hdr ∷ rest) s)
        (SameTrack-if s (type != 28) _ _ (SameTrack-refl s) (fragment nal_hdr rest s)))
  where
    fragment :
        (nal_hdr : ℕ) (rest : List ℕ) (s : Depacketizer)
        → SameTrack s
            (elim rest as (λ _. Depacketizer × Outcome (Unit {0})) [
              | [] ↦ (s, err einval)
              | fu_hdr ∷ body ↦ (take_fragment nal_hdr fu_hdr body s, ok tt)
            ]).0
    fragment nal_hdr [] s = SameTrack-refl s
    fragment nal_hdr (fu_hdr ∷ body) s = take_fragment-SameTrack nal_hdr fu_hdr body s

-- The payload of a datagram is taken or refused, without an access outside it.
Taken-if :
    {A : Type 0} (b : Bool) (x y : A × Outcome (Unit {0}))
    → Safe (λ u. Unit) x.1
    → Safe (λ u. Unit) y.1
    → Safe (λ u. Unit) (if b then x else y).1
Taken-if true x y hx hy = hx
Taken-if false x y hx hy = hy

append_aggregated-Safe :
    (fuel : ℕ) (rest : List ℕ) (s : Depacketizer)
    → Safe (λ u. Unit) (append_aggregated fuel rest s).1
unfolding append_aggregated
append_aggregated-Safe zero rest s = tt
append_aggregated-Safe (suc fuel) [] s = tt
append_aggregated-Safe (suc fuel) (hi ∷ []) s = tt
append_aggregated-Safe (suc fuel) (hi ∷ lo ∷ rest) s =
    let sz = bit_or (hi <<< 8) lo in
    Taken-if (ltb (length rest) sz) (s, err einval)
      (append_aggregated fuel (drop sz rest) (append_annexb_nal (take sz rest) s)) tt
      (append_aggregated-Safe fuel (drop sz rest) (append_annexb_nal (take sz rest) s))

pub process_payload-Safe :
    (payload : List ℕ) (s : Depacketizer) → Safe (λ u. Unit) (process_payload payload s).1
unfolding process_payload
process_payload-Safe [] s = tt
process_payload-Safe (nal_hdr ∷ []) s =
    let type = bit_and nal_hdr 0x1f in
    Taken-if (type == 24) _ _ (append_aggregated-Safe 0 [] s)
      (Taken-if (leb 1 type && leb type 23) _ _ tt (Taken-if (type != 28) _ _ tt tt))
process_payload-Safe (nal_hdr ∷ fu_hdr ∷ body) s =
    let type = bit_and nal_hdr 0x1f in
    Taken-if (type == 24) _ _ (append_aggregated-Safe (length (fu_hdr ∷ body)) (fu_hdr ∷ body) s)
      (Taken-if (leb 1 type && leb type 23) _ _ tt (Taken-if (type != 28) _ _ tt tt))

-- A unit that is finished may add one to those that wait.
pub record Finished (s t : Depacketizer) : Type 0 where
  pub kept_seq : t.last_seq ≡ s.last_seq
  pub kept_have : t.have_seq ≡ s.have_seq
  pub kept_late : t.rtp_reordered_count ≡ s.rtp_reordered_count
  pub one_more : length t.completed_aus ≤ length s.completed_aus + 1

finish_building_au-Finished :
    (ts capture : ℕ) (au : List ℕ) (s : Depacketizer)
    → s.building_au ≡ au
    → Finished s (finish_building_au ts capture s)
unfolding finish_building_au
finish_building_au-Finished ts capture [] s e = record {
  kept_seq = ground (arith, e);
  kept_have = ground (arith, e);
  kept_late = ground (arith, e);
  one_more = ground (arith, e);
}
finish_building_au-Finished ts capture (b ∷ au) s e =
    let item : CompletedAu = record {
      bytes = s.building_au;
      ts = ts;
      capture_rt_ns = capture;
      key = s.building_key;
      damaged = s.building_damaged;
    } in
    let more : (finish_building_au ts capture s).completed_aus ≡ s.completed_aus ++ item ∷ [] =
      ground (arith, e) in
    record {
      kept_seq = ground (arith, e);
      kept_have = ground (arith, e);
      kept_late = ground (arith, e);
      one_more = omega (arith, ap length more, length-append s.completed_aus (item ∷ []));
    }

pub Finished-if :
    (s : Depacketizer) (b : Bool) (ts capture : ℕ)
    → Finished s (if b then finish_building_au ts capture s else s)
Finished-if s true ts capture = finish_building_au-Finished ts capture s.building_au s refl
Finished-if s false ts capture = record {
  kept_seq = refl;
  kept_have = refl;
  kept_late = refl;
  one_more = omega arith;
}

note_sequence_lem :
    (seq : ℕ) (s : Depacketizer)
    → ((note_sequence seq s).last_seq ≡ seq)
      × ((note_sequence seq s).have_seq ≡ true)
      × ((note_sequence seq s).rtp_reordered_count ≡ s.rtp_reordered_count)
      × ((note_sequence seq s).completed_aus ≡ s.completed_aus)
unfolding note_sequence abort_fu
note_sequence_lem seq s = (ground arith, ground arith, ground arith, ground arith)

begin_au_if_needed-SameTrack : (ts : ℕ) (s : Depacketizer) → SameTrack s (begin_au_if_needed ts s)
unfolding begin_au_if_needed
begin_au_if_needed-SameTrack ts s = record {
  same_seq = ground arith;
  same_have = ground arith;
  same_aus = ground arith;
  same_late = ground arith;
}

-- What holds of a state that has just taken the number `seq`.
pub record Arrived (seq : ℕ) (s t : Depacketizer) : Type 0 where
  pub newest : t.last_seq ≡ seq
  pub started : t.have_seq ≡ true
  pub on_time : t.rtp_reordered_count ≡ s.rtp_reordered_count
  pub at_most : length t.completed_aus ≤ length s.completed_aus + 1

Arrived-if :
    (seq capture : ℕ) (b : Bool) (s t : Depacketizer)
    → Arrived seq s t
    → Arrived seq s (if b then record t { building_capture_rt_ns = capture } else t)
Arrived-if seq capture true s t h = record {
  newest = h.newest;
  started = h.started;
  on_time = h.on_time;
  at_most = h.at_most;
}
Arrived-if seq capture false s t h = h

pub arrive-Arrived : (rtp : ParsedRtp) (s : Depacketizer) → Arrived rtp.seq s (arrive rtp s)
unfolding arrive
arrive-Arrived rtp s =
    let b = s.have_building_ts && rtp.ts != s.building_ts in
    let s1 = if b then finish_building_au s.building_ts s.building_capture_rt_ns s else s in
    let f = Finished-if s b s.building_ts s.building_capture_rt_ns in
    let (seq, have, late, aus) = note_sequence_lem rtp.seq s1 in
    let g = begin_au_if_needed-SameTrack rtp.ts (note_sequence rtp.seq s1) in
    Arrived-if rtp.seq (positive_part rtp.capture_rt_ns) (ltb 0 (positive_part rtp.capture_rt_ns)) s
      _
      (record {
        newest = g.same_seq ∙ seq;
        started = g.same_have ∙ have;
        on_time = g.same_late ∙ late ∙ f.kept_late;
        at_most = omega (arith, f.one_more, ap length (g.same_aus ∙ aus));
      })

-- What is handed out at the end of a call of feed: nothing, or the oldest unit.
pub data Popped (s : Depacketizer) (r : Depacketizer × Outcome (Option (List ℕ))) : Type 0 where
  nothing : s.completed_aus ≡ [] → r ≡ (s, ok none) → Popped s r
  oldest :
      (item : CompletedAu) (rest : List CompletedAu) (t : Depacketizer)
      → s.completed_aus ≡ item ∷ rest
      → r ≡ (t, ok (some item.bytes))
      → t.last_seq ≡ s.last_seq
      → t.have_seq ≡ s.have_seq
      → t.rtp_reordered_count ≡ s.rtp_reordered_count
      → t.completed_aus ≡ rest
      → Popped s r

pub pop_result-Popped :
    (aus : List CompletedAu) (s : Depacketizer) → s.completed_aus ≡ aus → Popped s (pop_result s)
unfolding pop_result pop_completed_au note_au_timestamps
pop_result-Popped [] s e = nothing e (ground (arith, e))
pop_result-Popped (item ∷ rest) s e =
    oldest item rest (pop_completed_au s).0 e (ground (arith, e)) (ground (arith, e))
      (ground (arith, e)) (ground (arith, e)) (ground (arith, e))

abbrev pub counted_late : Depacketizer → Depacketizer
counted_late s = record s { rtp_reordered_count = s.rtp_reordered_count + 1 }

pub feed_late :
    (d : List ℕ) (rtp : ParsedRtp) (s : Depacketizer)
    → parse_rtp d ≡ ok rtp
    → is_late rtp.seq s ≡ true
    → feed d s ≡ pop_result (counted_late s)
unfolding feed feed_parsed
feed_late d rtp s e late = rw (feed, e, late) refl

pub feed_on_time :
    (d : List ℕ) (rtp : ParsedRtp) (s : Depacketizer)
    → parse_rtp d ≡ ok rtp
    → is_late rtp.seq s ≡ false
    → let r = process_payload rtp.payload (arrive rtp s) in feed d s ≡ settle rtp r.0 r.1
unfolding feed feed_parsed
feed_on_time d rtp s e on_time = rw (feed, e, on_time) refl

-- The newest number is late from then on.
pub is_late-newest :
    (seq : ℕ) (s : Depacketizer) → s.have_seq ≡ true → s.last_seq ≡ seq → is_late seq s ≡ true
unfolding is_late
is_late-newest seq s have e = ground (arith, have, e)

pub is_late-same :
    (seq : ℕ) (s t : Depacketizer)
    → t.last_seq ≡ s.last_seq
    → t.have_seq ≡ s.have_seq
    → is_late seq s ≡ true
    → is_late seq t ≡ true
unfolding is_late
is_late-same seq s t e have late =
    ap₂ (λ h l. h && (seq_ahead seq l == 0 || leb (2 ^ 15) (seq_ahead seq l))) have e ∙ late
