-- ===== src/Fec/Receiver/Invariant.antt =====
-- The receiver stays within its bounds.
use vstreamer.Base.{
  ℕ, zero, suc, ◌<◌, ◌≤◌, ◌≡◌, arith, length, ap, List, Option-cases, Bool-cases, inl, inr, take,
  not, ◌-◌, drop, ◌&&◌, ◌∙◌, none, leb, ◌||◌, false, subst, ◌+◌, sym,
}
use vstreamer.Fec.Codec.{frag_to_app}
use vstreamer.Fec.Map.{
  AllValues, AllValues-erase, AllValues-put, AllValues-find, find, length-erase, erase, Map,
  contains, put, length-put_found,
}
use vstreamer.Fec.Receiver.{
  RxBlock, emit_payload, Receiver, done_max, emit_from, try_stream_head_systematic, mark_done,
  block_max, ReadyBlock, expected_sdus, stream_frags,
}
use vstreamer.Fec.Receiver.Emit.{
  Round, again, stop, stream_head, release_ready, maybe_give_up_head, emit_round, rounds,
  run_emit_engine, work, waited, nearest_ready,
}
use vstreamer.Fec.Receiver.Finished.{Tidy}
use vstreamer.Fec.Receiver.Moves.{
  Keeps, Moves, emit_all-Keeps, stream_frags-Keeps, mark_done-Moves, Keeps-Moves, abandon-Moves,
}

-- The `k` and `n` of a block have a slot in the cache of the tables.
abbrev pub IsSmall : RxBlock → Type 0
IsSmall b = (b.k < 16) × (b.n < 16)

pub stream_frags-IsSmall :
    (t count : ℕ) (b : RxBlock) (s : Receiver) → IsSmall b → IsSmall (stream_frags t count b s).0
unfolding stream_frags
stream_frags-IsSmall t zero b s h = h
stream_frags-IsSmall t (suc count) b s h = elim (Option-cases (find b.released b.frags)) [
  | inl e ↦ rw (stream_frags, e) h
  | inr (frag, e) ↦
      rw (stream_frags, e)
        (elim (Option-cases (frag_to_app frag)) [
          | inl f ↦ rw (f) h
          | inr (app, f) ↦ rw (f) (
              stream_frags-IsSmall t count (record b { released = b.released + 1 })
                (emit_payload t app s) h)
        ])
]

-- The head is an id of the ring, the blocks and the queue of the finished ids are within their
-- limits, and the map of the finished ids has each key once, and none that is not in the queue. No access has left an array, and no
-- block is one that would make decode_block do so.
pub record Sane (s : Receiver) : Type 0 where
  pub head : s.emit_next < 256
  pub order : length s.done_order ≤ done_max
  pub tidy : Tidy s.done_order s.done
  pub sound : AllValues IsSmall s.rx_blocks × (s.faulted ≡ false)
  pub rx : length s.rx_blocks ≤ block_max

pub Moves-Sane : {s s' : Receiver} → Moves s s' → Sane s → Sane s'
Moves-Sane m i = record {
  head = m.head i.head;
  order = m.order i.order;
  tidy = m.tidy i.tidy;
  sound = (subst (λ l. AllValues IsSmall l) (sym m.rx) i.sound.0, m.fault ∙ i.sound.1);
  rx = omega (arith, ap length m.rx, i.rx);
}

pub emit_from-Keeps :
    (t r n : ℕ) (ps : List (List ℕ)) (s : Receiver) → Keeps s (emit_from t r n ps s)
emit_from-Keeps t r n ps s = emit_all-Keeps t (take (n - r) (drop r ps)) s

-- Taking a block out, to abandon it or to decode it.
pub erase-Sane :
    (id : ℕ) (s : Receiver) → Sane s → Sane (record s { rx_blocks = erase id s.rx_blocks })
erase-Sane id s i = record {
  head = i.head;
  order = i.order;
  tidy = i.tidy;
  sound = (AllValues-erase IsSmall id s.rx_blocks i.sound.0, i.sound.1);
  rx = omega (arith, length-erase id s.rx_blocks, i.rx);
}

SaneRound : Round → Type 0
SaneRound (again s) = Sane s
SaneRound (stop s) = Sane s

stream_head-Sane : (t : ℕ) (s : Receiver) → Sane s → Sane (stream_head t s)
unfolding stream_head try_stream_head_systematic
stream_head-Sane t s i = elim (Option-cases (find s.emit_next s.rx_blocks)) [
  | inl e ↦ rw (stream_head, e) i
  | inr (b, e) ↦
      let k = stream_frags-Keeps t (expected_sdus b - b.released) b s in
      let q = stream_frags t (expected_sdus b - b.released) b s in
      let same : length (put s.emit_next q.0 q.1.rx_blocks) ≡ length s.rx_blocks =
        ap (λ m. length (put s.emit_next q.0 m)) k.rx
        ∙ length-put_found s.emit_next q.0 b s.rx_blocks e in
      let j = Moves-Sane (Keeps-Moves k) i in
      rw (stream_head, e)
        (record {
          head = j.head;
          order = j.order;
          tidy = j.tidy;
          sound = (
            AllValues-put IsSmall s.emit_next q.0 q.1.rx_blocks
                (stream_frags-IsSmall t (expected_sdus b - b.released) b s
                  (AllValues-find IsSmall s.emit_next b s.rx_blocks e i.sound.0))
                j.sound.0,
            j.sound.1,
          );
          rx = omega (arith, same, i.rx);
        })
]

release_ready-Sane : (t : ℕ) (rb : ReadyBlock) (s : Receiver) → Sane s → Sane (release_ready t rb s)
unfolding release_ready mark_done
release_ready-Sane t rb s i =
    let k = emit_from-Keeps t rb.released rb.sdu_n rb.payloads s in
    let emitted = emit_from t rb.released rb.sdu_n rb.payloads s in
    let j =
      Moves-Sane
        (mark_done-Moves t s.emit_next
          (record emitted { ready_blocks = erase s.emit_next emitted.ready_blocks }))
        (Moves-Sane-same (Moves-Sane (Keeps-Moves k) i)) in
    record { head = omega arith; order = j.order; tidy = j.tidy; sound = j.sound; rx = j.rx }
  where
    Moves-Sane-same :
        {q : Receiver} {m : Map ReadyBlock} → Sane q → Sane (record q { ready_blocks = m })
    Moves-Sane-same i = record {
      head = i.head;
      order = i.order;
      tidy = i.tidy;
      sound = i.sound;
      rx = i.rx;
    }

give_up-Sane : (t : ℕ) (s : Receiver) → Sane s → SaneRound (maybe_give_up_head t s)
unfolding maybe_give_up_head SaneRound
give_up-Sane t s i = elim (Option-cases (find s.emit_next s.rx_blocks)) [
  | inl e ↦
      rw (maybe_give_up_head, e)
        (elim (Bool-cases (not (contains s.emit_next s.ready_blocks) && waited t s)) [
          | inl h ↦ rw (h) (elim (Option-cases (nearest_ready s.emit_next s.ready_blocks none)) [
            | inl f ↦ rw (f) (record {
              head = omega arith;
              order = i.order;
              tidy = i.tidy;
              sound = i.sound;
              rx = i.rx;
            })
            | inr (target, f) ↦ rw (f) (record {
              head = omega arith;
              order = i.order;
              tidy = i.tidy;
              sound = i.sound;
              rx = i.rx;
            })
          ])
          | inr h ↦ rw (h) i
        ])
  | inr (b, e) ↦
      rw (maybe_give_up_head, e)
        (elim (Bool-cases (leb b.n (length b.frags) || waited t s)) [
          | inl h ↦ rw (h) (
              Moves-Sane
                (abandon-Moves t b s.emit_next
                  (record s { rx_blocks = erase s.emit_next s.rx_blocks }))
                (erase-Sane s.emit_next s i))
          | inr h ↦ rw (h) i
        ])
]

emit_round-Sane : (t : ℕ) (s : Receiver) → Sane s → SaneRound (emit_round t s)
unfolding emit_round SaneRound
emit_round-Sane t s i = elim (Bool-cases s.emit_base_set) [
  | inr e ↦
      rw (emit_round, e)
        (record { head = i.head; order = i.order; tidy = i.tidy; sound = i.sound; rx = i.rx })
  | inl e ↦ elim (Option-cases (find s.emit_next s.ready_blocks)) [
    | inl f ↦ rw (emit_round, e, f) (give_up-Sane t (stream_head t s) (stream_head-Sane t s i))
    | inr (rb, f) ↦ rw (emit_round, e, f) (release_ready-Sane t rb s i)
  ]
]

rounds-Sane : (t fuel : ℕ) (s : Receiver) → Sane s → Sane (rounds fuel t s)
unfolding rounds SaneRound
rounds-Sane t zero s i = i
rounds-Sane t (suc fuel) s i =
    go (emit_round t s) (emit_round-Sane t s i) (λ q j. rounds-Sane t fuel q j)
  where
    go :
        (r : Round)
        → SaneRound r
        → ((q : Receiver) → Sane q → Sane (rounds fuel t q))
        → Sane (elim r as (λ x. Receiver) [ stop s' ↦ s' | again s' ↦ rounds fuel t s' ])
    go (stop q) j step = j
    go (again q) j step = step q j

pub run_emit_engine-Sane : (t : ℕ) (s : Receiver) → Sane s → Sane (run_emit_engine t s)
unfolding run_emit_engine
run_emit_engine-Sane t s i = rounds-Sane t (suc (work s)) s i
