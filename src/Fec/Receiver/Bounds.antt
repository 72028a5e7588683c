-- ===== src/Fec/Receiver/Bounds.antt =====
-- Each call of the receiver keeps its bounds.
use vstreamer.Base.{
  ℕ, ◌≤◌, arith, List, [], ◌∷◌, Bool, true, false, not, ◌&&◌, length, Bool-cases, Option-cases, inl,
  inr, if◌then◌else◌, ◌≡◌, subst, ◌∙◌,
}
use vstreamer.Fec.Map.{
  AllValues, AllValues-erase, AllValues-filter_keys, Map, find, contains, erase, length-erase,
  length-filter_keys,
}
use vstreamer.Fec.Ring.{ring_dist, is_negative, is_positive, is_zero, wire_block_id}
use vstreamer.Fec.Sender.{ms}
use vstreamer.Fec.Receiver.{
  RxBlock, Receiver, bump, abandon_partial_block, rx_hold_ms, done_hold_ms,
}
use vstreamer.Fec.Receiver.Resync.{
  note_emit_base, touch_newest, remove, drop_done, clear_state_behind, maybe_resync_on_late_shard,
  silent, dist_from_emit, maybe_rebase_after_silence, evict_blocks, ring_evict_stale, expire_ids,
  expire_done, expire_rx,
}
use vstreamer.Fec.Receiver.Finished.{Tidy, nothing-Tidy, drop_done-Tidy, expire_ids-Tidy}
use vstreamer.Fec.Receiver.Moves.{abandon-Moves}
use vstreamer.Fec.Receiver.Invariant.{Sane, IsSmall, Moves-Sane}
use vstreamer.Fec.Receiver.Air.{note_later}

pub note_emit_base-Sane : (id : ℕ) (s : Receiver) → Sane s → Sane (note_emit_base id s)
unfolding note_emit_base
note_emit_base-Sane id s i = elim (Bool-cases s.emit_base_set) [
  | inl e ↦
      rw (note_emit_base, e)
        (record { head = i.head; order = i.order; tidy = i.tidy; sound = i.sound; rx = i.rx })
  | inr e ↦
      rw (note_emit_base, e)
        (record { head = omega arith; order = i.order; tidy = i.tidy; sound = i.sound; rx = i.rx })
]

pub touch_newest-Sane : (id : ℕ) (s : Receiver) → Sane s → Sane (touch_newest id s)
unfolding touch_newest
touch_newest-Sane id s i =
    let order : s.done_order ≡ (touch_newest id s).done_order = ground arith in
    let done : s.done ≡ (touch_newest id s).done = ground arith in
    let blocks : s.rx_blocks ≡ (touch_newest id s).rx_blocks = ground arith in
    let fault : (touch_newest id s).faulted ≡ s.faulted = ground arith in
    record {
      head = ground (arith, i.head);
      order = ground (arith, i.order);
      tidy =
          subst (λ o. Tidy o (touch_newest id s).done) order
            (subst (λ d. Tidy s.done_order d) done i.tidy);
      sound = (subst (λ l. AllValues IsSmall l) blocks i.sound.0, fault ∙ i.sound.1);
      rx = ground (arith, i.rx);
    }

length-remove : (p : ℕ → Bool) (ids : List ℕ) → length (remove p ids) ≤ length ids
unfolding remove
length-remove p [] = omega arith
length-remove p (id ∷ ids) = ground (arith, length-remove p ids)

drop_done-Sane : (stale : ℕ → Bool) (s : Receiver) → Sane s → Sane (drop_done stale s)
unfolding drop_done
drop_done-Sane stale s i = record {
  head = i.head;
  order = omega (arith, length-remove (λ id. stale id && contains id s.done) s.done_order, i.order);
  tidy = drop_done-Tidy stale s.done_order s.done i.tidy;
  sound = i.sound;
  rx = i.rx;
}

clear_state_behind-Sane : (id : ℕ) (s : Receiver) → Sane s → Sane (clear_state_behind id s)
unfolding clear_state_behind
clear_state_behind-Sane id s i = drop_done-Sane _ _ (record {
  head = i.head;
  order = i.order;
  tidy = i.tidy;
  sound = (
    AllValues-filter_keys IsSmall
        (λ j. not (is_negative (ring_dist (wire_block_id j) (wire_block_id id)))) s.rx_blocks
        i.sound.0,
    i.sound.1,
  );
  rx = omega (
    arith,
    length-filter_keys (λ j. not (is_negative (ring_dist (wire_block_id j) (wire_block_id id))))
        s.rx_blocks,
    i.rx,
  );
})

pub resync-Sane : (t id : ℕ) (s : Receiver) → Sane s → Sane (maybe_resync_on_late_shard t id s)
unfolding maybe_resync_on_late_shard
resync-Sane t id s i =
    let at = record s { emit_next = wire_block_id id } in
    let j =
      clear_state_behind-Sane id at (record {
        head = omega arith;
        order = i.order;
        tidy = i.tidy;
        sound = i.sound;
        rx = i.rx;
      }) in
    elim (Bool-cases
      (is_negative (dist_from_emit id s) && silent t s.last_payload_emit (rx_hold_ms s))) [
        | inl e ↦
            rw (e)
              (record { head = j.head; order = j.order; tidy = j.tidy; sound = j.sound; rx = j.rx })
        | inr e ↦ rw (e) i
      ]

pub rebase-Sane : (t id : ℕ) (s : Receiver) → Sane s → Sane (maybe_rebase_after_silence t id s)
unfolding maybe_rebase_after_silence
rebase-Sane t id s i =
    elim (Bool-cases (
      silent t s.last_shard_rx (rx_hold_ms s)
      && s.emit_base_set
      && not (is_zero (dist_from_emit id s)))) [
        | inl e ↦ rw (e) (record {
          head = omega arith;
          order = omega arith;
          tidy = nothing-Tidy;
          sound = (tt, i.sound.1);
          rx = omega arith;
        })
        | inr e ↦
            rw (e)
              (record { head = i.head; order = i.order; tidy = i.tidy; sound = i.sound; rx = i.rx })
      ]

evict_blocks-Sane :
    (t : ℕ) (stale : ℕ → RxBlock → Bool) (m : Map RxBlock) (s : Receiver)
    → Sane s
    → Sane (evict_blocks t stale m s)
unfolding evict_blocks
evict_blocks-Sane t stale [] s i = i
evict_blocks-Sane t stale ((id, b) ∷ m) s i = evict_blocks-Sane t stale m _ (step (stale id b))
  where
    evicted : Receiver
    evicted = record s {
      rx_blocks = erase id s.rx_blocks;
      evicted_blocks = bump 1 s.evicted_blocks;
    }

    step : (c : Bool) → Sane (if c then abandon_partial_block t b id evicted else s)
    step true = Moves-Sane (abandon-Moves t b id evicted) (record {
      head = i.head;
      order = i.order;
      tidy = i.tidy;
      sound = (AllValues-erase IsSmall id s.rx_blocks i.sound.0, i.sound.1);
      rx = omega (arith, length-erase id s.rx_blocks, i.rx);
    })
    step false = i

pub ring_evict-Sane : (t : ℕ) (s : Receiver) → Sane s → Sane (ring_evict_stale t s)
unfolding ring_evict_stale
ring_evict-Sane t s i = elim (Option-cases s.newest) [
  | inl e ↦
      rw (ring_evict_stale, e)
        (record { head = i.head; order = i.order; tidy = i.tidy; sound = i.sound; rx = i.rx })
  | inr (newest, e) ↦
      simp (ring_evict_stale, e) (drop_done-Sane _ _ (evict_blocks-Sane t _ s.rx_blocks s i))
]

expire_ids-length :
    (t hold : ℕ) (order : List ℕ) (done : Map ℕ)
    → length (expire_ids t hold order done).0 ≤ length order
unfolding expire_ids
expire_ids-length t hold [] done = omega arith
expire_ids-length t hold (id ∷ order) done = elim (Option-cases (find id done)) [
  | inl e ↦ rw (expire_ids, e) (omega (arith, expire_ids-length t hold order done))
  | inr (at, e) ↦
      rw (expire_ids, e) (ground (arith, expire_ids-length t hold order (erase id done)))
]

pub expire_rx-Sane : (t : ℕ) (s : Receiver) → Sane s → Sane (expire_rx t s)
unfolding expire_rx expire_done
expire_rx-Sane t s i = evict_blocks-Sane t _ s.rx_blocks (expire_done t s) (record {
  head = i.head;
  order = omega (arith, expire_ids-length t (ms (done_hold_ms s)) s.done_order s.done, i.order);
  tidy = expire_ids-Tidy t (ms (done_hold_ms s)) s.done_order s.done i.tidy;
  sound = i.sound;
  rx = i.rx;
})

pub note_later-Sane : (t id : ℕ) (s : Receiver) → Sane s → Sane (note_later t id s)
note_later-Sane t id s i = elim (Bool-cases (is_positive (dist_from_emit id s))) [
  | inr e ↦ rw (note_later, e) i
  | inl e ↦ elim (Option-cases s.later_block_since) [
    | inl f ↦
        rw (note_later, e, f)
          (record { head = i.head; order = i.order; tidy = i.tidy; sound = i.sound; rx = i.rx })
    | inr (since, f) ↦
        rw (note_later, e, f)
          (record { head = i.head; order = i.order; tidy = i.tidy; sound = i.sound; rx = i.rx })
  ]
]
