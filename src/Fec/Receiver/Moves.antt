-- ===== src/Fec/Receiver/Moves.antt =====
-- What the operations of the emit queue change of the receiver, and what they leave alone.
use vstreamer.Base.{
  ℕ, zero, suc, ◌+◌, ◌<◌, ◌≤◌, ◌≡◌, arith, ◌∙◌, List, refl, ◌∷◌, [], Option-cases, length, ap, inl,
  inr, ◌-◌, Bool-cases, ◌==◌, subst, sym,
}
use vstreamer.Fec.Map.{find, Map, erase}
use vstreamer.Fec.Receiver.Emit.{waits}
use vstreamer.Fec.Receiver.Finished.{Tidy, trim_done-Tidy, put-Tidy}
use vstreamer.Fec.Receiver.{
  Receiver, emit_payload, emit_all, stream_frags, emit_frags, RxBlock, Frags,
  account_missing_shards, note_rx_block_output_shortfall, trim_done, mark_done, advance_head,
  abandon_partial_block, expected_sdus, frag_to_app, wire_block_id,
}

-- What the operations of the emit queue leave alone.
pub record Keeps (s s' : Receiver) : Type 0 where
  pub rx : s'.rx_blocks ≡ s.rx_blocks
  pub ready : s'.ready_blocks ≡ s.ready_blocks
  pub base : s'.emit_base_set ≡ s.emit_base_set
  pub head : s'.emit_next ≡ s.emit_next
  pub since : s'.later_block_since ≡ s.later_block_since
  pub order : s'.done_order ≡ s.done_order
  pub done : s'.done ≡ s.done
  pub fault : s'.faulted ≡ s.faulted

Keeps-refl : (s : Receiver) → Keeps s s
Keeps-refl s = record {
  rx = refl;
  ready = refl;
  base = refl;
  head = refl;
  since = refl;
  order = refl;
  done = refl;
  fault = refl;
}

Keeps-trans : {s q r : Receiver} → Keeps s q → Keeps q r → Keeps s r
Keeps-trans a b = record {
  rx = b.rx ∙ a.rx;
  ready = b.ready ∙ a.ready;
  base = b.base ∙ a.base;
  head = b.head ∙ a.head;
  since = b.since ∙ a.since;
  order = b.order ∙ a.order;
  done = b.done ∙ a.done;
  fault = b.fault ∙ a.fault;
}

pub emit_payload-Keeps : (t : ℕ) (app : List ℕ) (s : Receiver) → Keeps s (emit_payload t app s)
unfolding emit_payload
emit_payload-Keeps t [] s = Keeps-refl s
emit_payload-Keeps t (b ∷ bytes) s = record {
  rx = refl;
  ready = refl;
  base = refl;
  head = refl;
  since = refl;
  order = refl;
  done = refl;
  fault = refl;
}

pub emit_all-Keeps : (t : ℕ) (apps : List (List ℕ)) (s : Receiver) → Keeps s (emit_all t apps s)
unfolding emit_all
emit_all-Keeps t [] s = Keeps-refl s
emit_all-Keeps t (app ∷ apps) s =
    Keeps-trans (emit_payload-Keeps t app s) (emit_all-Keeps t apps (emit_payload t app s))

pub stream_frags-Keeps :
    (t count : ℕ) (b : RxBlock) (s : Receiver) → Keeps s (stream_frags t count b s).1
unfolding stream_frags
stream_frags-Keeps t zero b s = Keeps-refl s
stream_frags-Keeps t (suc count) b s = elim (Option-cases (find b.released b.frags)) [
  | inl e ↦ rw (stream_frags, e) (Keeps-refl s)
  | inr (frag, e) ↦
      rw (stream_frags, e)
        (elim (Option-cases (frag_to_app frag)) [
          | inl f ↦ rw (f) (Keeps-refl s)
          | inr (app, f) ↦ rw (f) (
              Keeps-trans (emit_payload-Keeps t app s) (
                stream_frags-Keeps t count (record b { released = b.released + 1 })
                  (emit_payload t app s)))
        ])
]

pub emit_frags-Keeps :
    (t count i : ℕ) (frags : Frags) (s : Receiver) → Keeps s (emit_frags t count i frags s).0
unfolding emit_frags
emit_frags-Keeps t zero i frags s = Keeps-refl s
emit_frags-Keeps t (suc count) i frags s = elim (Option-cases (find i frags)) [
  | inl e ↦ rw (emit_frags, e) (emit_frags-Keeps t count (i + 1) frags s)
  | inr (frag, e) ↦
      rw (emit_frags, e)
        (elim (Option-cases (frag_to_app frag)) [
          | inl f ↦ rw (f) (emit_frags-Keeps t count (i + 1) frags s)
          | inr (app, f) ↦ rw (f) (
              Keeps-trans (emit_payload-Keeps t app s)
                (emit_frags-Keeps t count (i + 1) frags (emit_payload t app s)))
        ])
]

-- What the accounting leaves alone.
pub account-Keeps : (b : RxBlock) (s : Receiver) → Keeps s (account_missing_shards b s)
unfolding account_missing_shards
account-Keeps b s = record {
  rx = ground arith;
  ready = ground arith;
  base = ground arith;
  head = ground arith;
  since = ground arith;
  order = ground arith;
  done = ground arith;
  fault = ground arith;
}

pub shortfall-Keeps : (e a : ℕ) (s : Receiver) → Keeps s (note_rx_block_output_shortfall e a s)
unfolding note_rx_block_output_shortfall
shortfall-Keeps e a s = record {
  rx = ground arith;
  ready = ground arith;
  base = ground arith;
  head = ground arith;
  since = ground arith;
  order = ground arith;
  done = ground arith;
  fault = ground arith;
}

-- What abandoning a block may change of the queue: the head moves on, and the wait ends with it.
pub record Moves (s s' : Receiver) : Type 0 where
  pub rx : s'.rx_blocks ≡ s.rx_blocks
  pub ready : s'.ready_blocks ≡ s.ready_blocks
  pub since : waits s'.later_block_since ≤ waits s.later_block_since
  pub head : s.emit_next < 256 → s'.emit_next < 256
  pub order : length s.done_order ≤ 128 → length s'.done_order ≤ 128
  pub tidy : Tidy s.done_order s.done → Tidy s'.done_order s'.done
  pub fault : s'.faulted ≡ s.faulted

pub Keeps-Moves : {s s' : Receiver} → Keeps s s' → Moves s s'
Keeps-Moves {s} {s'} k = record {
  rx = k.rx;
  ready = k.ready;
  since = omega (arith, ap waits k.since);
  fault = k.fault;
  head = λ h. omega (arith, k.head);
  order = λ h. omega (arith, ap length k.order);
  tidy = λ h.
      subst (λ d. Tidy s'.done_order d) (sym k.done) (subst (λ o. Tidy o s.done) (sym k.order) h);
}

pub Moves-trans : {s q r : Receiver} → Moves s q → Moves q r → Moves s r
Moves-trans a b = record {
  rx = b.rx ∙ a.rx;
  ready = b.ready ∙ a.ready;
  since = omega (arith, a.since, b.since);
  fault = b.fault ∙ a.fault;
  head = λ h. b.head (a.head h);
  order = λ h. b.order (a.order h);
  tidy = λ h. b.tidy (a.tidy h);
}

trim_done-length : (order : List ℕ) (done : Map ℕ) → length (trim_done order done).0 ≤ 128
unfolding trim_done
trim_done-length [] done = omega arith
trim_done-length (id ∷ order) done = ground (arith, trim_done-length order (erase id done))

pub mark_done-Moves : (t id : ℕ) (s : Receiver) → Moves s (mark_done t id s)
unfolding mark_done
mark_done-Moves t id s = record {
  rx = refl;
  ready = refl;
  since = omega arith;
  fault = refl;
  head = λ h. h;
  order = λ h. trim_done-length _ _;
  tidy = λ h. trim_done-Tidy _ _ (put-Tidy t id s.done_order s.done h);
}

pub advance_head-Moves : (t : ℕ) (s : Receiver) → Moves s (advance_head t s)
unfolding advance_head mark_done
advance_head-Moves t s = record {
  rx = refl;
  ready = refl;
  since = omega arith;
  fault = refl;
  head = λ h. omega arith;
  order = λ h. trim_done-length _ _;
  tidy = λ h. trim_done-Tidy _ _ (put-Tidy t s.emit_next s.done_order s.done h);
}

pub abandon-Moves :
    (t : ℕ) (b : RxBlock) (id : ℕ) (s : Receiver) → Moves s (abandon_partial_block t b id s)
unfolding abandon_partial_block
abandon-Moves t b id s =
    let sn = expected_sdus b in
    let s1 = account_missing_shards b s in
    let emitted = emit_frags t (sn - b.released) b.released b.frags s1 in
    let noted = note_rx_block_output_shortfall sn (b.released + emitted.1) emitted.0 in
    let kept : Keeps s noted = Keeps-trans (account-Keeps b s) (
      Keeps-trans (emit_frags-Keeps t (sn - b.released) b.released b.frags s1)
        (shortfall-Keeps sn (b.released + emitted.1) emitted.0)) in
    elim (Bool-cases (wire_block_id id == noted.emit_next)) [
      | inl e ↦ rw (e) (Moves-trans (Keeps-Moves kept) (advance_head-Moves t noted))
      | inr e ↦ rw (e) (Keeps-Moves kept)
    ]
