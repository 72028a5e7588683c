-- ===== src/Rtp/Depay/Handed.antt =====
-- What the depayloader hands out: its queue of access units.
use vstreamer.Base.{
  ℕ, ◌≡◌, arith, List, ◌+◌, length, ◌%◌, ◌^◌, ◌∷◌, [], ap, ◌∙◌, ok, Option, dec_le, some, Outcome,
  refl, ◌++◌, length-append, sym, ◌≤◌, map, append-nil, append_assoc, length-drop, length-map, ◌-◌,
  drop,
}
use vstreamer.Rtp.Depacketizer.{Depacketizer, CompletedAu}
use vstreamer.Rtp.Pay.Queue.{newest, newest_few, newest-snoc}
use vstreamer.Rtp.Depay.{
  Depay, AuItem, Clocks, accept_capture_rt_ns, push_au, take_au, au_queue_depth,
}

-- The units that have been put into the queue: those in it and those that it dropped, as the counter
-- of 64 bits has them.
abbrev pub handed : Depay → ℕ
handed s = (s.au_dropped + length s.au_queue) % 2 ^ 64

-- Two states that differ in the clocks' fields alone.
record SameQueue (s t : Depay) : Type 0 where
  same_depay : t.depay ≡ s.depay
  same_queue : t.au_queue ≡ s.au_queue
  same_dropped : t.au_dropped ≡ s.au_dropped

accept-SameQueue :
    (now : Clocks) (capture : ℕ) (s : Depay) → SameQueue s (accept_capture_rt_ns now capture s).0
unfolding accept_capture_rt_ns
accept-SameQueue now capture s = record {
  same_depay = ground arith;
  same_queue = ground arith;
  same_dropped = ground arith;
}

-- The bytes of the units in the queue.
abbrev pub units : Depay → List (List ℕ)
units s = map (λ (item : AuItem). item.buf) s.au_queue

abbrev pub unit_bytes : List CompletedAu → List (List ℕ)
unit_bytes aus = map (λ (item : CompletedAu). item.bytes) aus

-- The last `n` of what is put behind the last `n`.
newest-append :
    {A : Type 0} (n : ℕ) (l ys : List A) → newest n (newest n l ++ ys) ≡ newest n (l ++ ys)
newest-append n l [] =
    ap (newest n) (append-nil (newest n l))
    ∙ newest_few n (newest n l) (omega (arith, length-drop (length l - n) l))
    ∙ sym (ap (newest n) (append-nil l))
newest-append n l (y ∷ ys) =
    ap (newest n) (sym (append_assoc (newest n l) (y ∷ []) ys))
    ∙ sym (newest-append n (newest n l ++ y ∷ []) ys)
    ∙ ap (λ m. newest n (m ++ ys)) (newest-snoc n l y)
    ∙ newest-append n (l ++ y ∷ []) ys
    ∙ ap (newest n) (append_assoc l (y ∷ []) ys)

map-append : {A B : Type 0} (f : A → B) (xs ys : List A) → map f (xs ++ ys) ≡ map f xs ++ map f ys
map-append f [] ys = refl
map-append f (x ∷ xs) ys = ap (λ l. f x ∷ l) (map-append f xs ys)

-- What one more unit does to the queue.
pub record Pushed (buf : List ℕ) (s t : Depay) : Type 0 where
  pub same_depay : t.depay ≡ s.depay
  pub one_more : handed t ≡ (handed s + 1) % 2 ^ 64
  pub behind : units t ≡ newest au_queue_depth (units s ++ buf ∷ [])
  pub few : length t.au_queue ≤ au_queue_depth

push_au-Pushed :
    (item : AuItem) (queue : List AuItem) (s : Depay)
    → s.au_queue ≡ queue
    → length s.au_queue ≤ au_queue_depth
    → Pushed item.buf s (push_au item s)
unfolding push_au
push_au-Pushed item [] s e h =
    let queue : (push_au item s).au_queue ≡ item ∷ [] = ground (arith, e) in
    let dropped : (push_au item s).au_dropped ≡ s.au_dropped = ground (arith, e) in
    record {
      same_depay = ground (arith, e);
      one_more = omega (arith, ap length queue, dropped, ap length e);
      behind =
          ap (map (λ (i : AuItem). i.buf)) queue
          ∙ sym
              (ap (λ q. newest au_queue_depth (map (λ (i : AuItem). i.buf) q ++ item.buf ∷ [])) e);
      few = omega (arith, ap length queue);
    }
push_au-Pushed item (x ∷ rest) s e h = elim (dec_le au_queue_depth (length s.au_queue)) [
  | yes full ↦
      let queue : (push_au item s).au_queue ≡ rest ++ item ∷ [] = ground (arith, e, full) in
      let dropped : (push_au item s).au_dropped ≡ (s.au_dropped + 1) % 2 ^ 64 =
        ground (arith, e, full) in
      let long = ap length e in
      let all = map (λ (i : AuItem). i.buf) (x ∷ rest) ++ item.buf ∷ [] in
      let bytes = length-map (λ (i : AuItem). i.buf) (x ∷ rest) in
      let cut : length all - au_queue_depth ≡ 1 =
        omega
          (arith, length-append (map (λ (i : AuItem). i.buf) (x ∷ rest)) (item.buf ∷ []), bytes) in
      record {
        same_depay = ground (arith, e);
        one_more = omega (arith, ap length queue, dropped, long, length-append rest (item ∷ []));
        behind =
            ap (map (λ (i : AuItem). i.buf)) queue
            ∙ map-append (λ (i : AuItem). i.buf) rest (item ∷ [])
            ∙ sym (ap (λ k. drop k all) cut)
            ∙ sym (
                ap (λ q. newest au_queue_depth (map (λ (i : AuItem). i.buf) q ++ item.buf ∷ [])) e);
        few = omega (arith, ap length queue, long, length-append rest (item ∷ []));
      }
  | no room ↦
      let queue : (push_au item s).au_queue ≡ s.au_queue ++ item ∷ [] = ground (arith, e, room) in
      let dropped : (push_au item s).au_dropped ≡ s.au_dropped = ground (arith, e, room) in
      let bytes = length-map (λ (i : AuItem). i.buf) s.au_queue in
      record {
        same_depay = ground (arith, e);
        one_more = omega (arith, ap length queue, dropped, length-append s.au_queue (item ∷ []));
        behind =
            ap (map (λ (i : AuItem). i.buf)) queue
            ∙ map-append (λ (i : AuItem). i.buf) s.au_queue (item ∷ [])
            ∙ sym (
                newest_few au_queue_depth (units s ++ item.buf ∷ [])
                  (omega (arith, length-append (units s) (item.buf ∷ []), bytes, room)));
        few = omega (arith, ap length queue, length-append s.au_queue (item ∷ []), room);
      }
]

pub take_au-Pushed :
    (now : Clocks) (au : List ℕ) (s : Depay)
    → length s.au_queue ≤ au_queue_depth
    → Pushed au s (take_au now au s)
unfolding take_au
take_au-Pushed now au s h =
    let accepted = accept_capture_rt_ns now s.depay.last_au_capture_rt_ns s in
    let same = accept-SameQueue now s.depay.last_au_capture_rt_ns s in
    let p =
      push_au-Pushed _ accepted.0.au_queue accepted.0 refl
        (omega (arith, ap length same.same_queue)) in
    record {
      same_depay = p.same_depay ∙ same.same_depay;
      one_more = omega (arith, p.one_more, same.same_dropped, ap length same.same_queue);
      behind =
          p.behind
          ∙ ap (λ q. newest au_queue_depth (map (λ (i : AuItem). i.buf) q ++ au ∷ []))
              same.same_queue;
      few = p.few;
    }

-- The loop has returned, and no unit waits: `aus` have been handed out whole and in order, of which
-- the queue keeps the newest with those it had, and `late` datagrams counted.
pub record Drained (aus : List CompletedAu) (late : ℕ) (s : Depay)
    (r : Depay × Option (Outcome (Unit {0}))) : Type 0 where
  pub returned : r.1 ≡ some (ok tt)
  pub emptied : r.0.depay.completed_aus ≡ []
  pub counted : r.0.depay.rtp_reordered_count ≡ s.depay.rtp_reordered_count + late
  pub queued : units r.0 ≡ newest au_queue_depth (units s ++ unit_bytes aus)
  pub all_counted : handed r.0 ≡ (handed s + length aus) % 2 ^ 64

-- Nothing was left to hand out.
pub Drained-none :
    (late : ℕ) (s : Depay) (t : Depacketizer)
    → length s.au_queue ≤ au_queue_depth
    → t.completed_aus ≡ []
    → t.rtp_reordered_count ≡ s.depay.rtp_reordered_count + late
    → Drained [] late s (record s { depay = t }, some (ok tt))
Drained-none late s t few none_left count = record {
  returned = refl;
  emptied = none_left;
  counted = count;
  queued = sym (
      ap (newest au_queue_depth) (append-nil (units s))
      ∙ newest_few au_queue_depth (units s)
          (omega (arith, length-map (λ (i : AuItem). i.buf) s.au_queue)));
  all_counted = omega arith;
}

-- What `Drained-more` needs of a push.
pub record PushedFrom (buf : List ℕ) (s t : Depay) : Type 0 where
  pub one_more : handed t ≡ (handed s + 1) % 2 ^ 64
  pub behind : units t ≡ newest au_queue_depth (units s ++ buf ∷ [])

-- One unit is handed out, and then the others.
pub Drained-more :
    (item : CompletedAu) (rest : List CompletedAu) (l late : ℕ) (s s' : Depay)
    (r : Depay × Option (Outcome (Unit {0})))
    → PushedFrom item.bytes s s'
    → s'.depay.rtp_reordered_count + l ≡ s.depay.rtp_reordered_count + late
    → Drained rest l s' r
    → Drained (item ∷ rest) late s r
Drained-more item rest l late s s' r p count ih = record {
  returned = ih.returned;
  emptied = ih.emptied;
  counted = omega (arith, ih.counted, count);
  queued =
      ih.queued
      ∙ ap (λ q. newest au_queue_depth (q ++ unit_bytes rest)) p.behind
      ∙ newest-append au_queue_depth (units s ++ item.bytes ∷ []) (unit_bytes rest)
      ∙ ap (newest au_queue_depth) (append_assoc (units s) (item.bytes ∷ []) (unit_bytes rest));
  all_counted = omega (arith, ih.all_counted, p.one_more);
}

-- The state before a unit is pushed, but for its depacketizer.
pub pushed_from :
    {buf : List ℕ} {s s' : Depay} {t : Depacketizer}
    → Pushed buf (record s { depay = t }) s'
    → PushedFrom buf s s'
pushed_from p = record { one_more = p.one_more; behind = p.behind }
