-- ===== src/Fec/Receiver/Resync.antt =====
-- Where the ring of block ids starts, moves and restarts: `note_emit_base`, `touch_newest`,
-- `clear_state_behind`, `maybe_resync_on_late_shard`, `maybe_rebase_after_silence`,
-- `ring_evict_stale`, `expire_done` and `expire_rx`.
use vstreamer.Base.{
  ℕ, ◌+◌, List, [], ◌∷◌, Bool, true, false, not, ◌&&◌, ltb, leb, if◌then◌else◌, Option, none, some,
  length, ℤ,
}
use vstreamer.Fec.Map.{Map, find, contains, erase, filter_keys}
use vstreamer.Fec.Ring.{ring_dist, is_negative, is_positive, is_zero, is_below_minus, wire_block_id}
use vstreamer.Fec.Sender.{ms}
use vstreamer.Fec.Receiver.{
  RxBlock, Receiver, rx_hold_ms, done_hold_ms, bump, abandon_partial_block, ring_evict_dist,
}

abbrev pub dist_from_emit : ℕ → Receiver → ℤ
dist_from_emit id s = ring_dist (wire_block_id id) s.emit_next

unfoldable pub note_emit_base : ℕ → Receiver → Receiver
note_emit_base id s = if s.emit_base_set then s else record s {
  emit_base_set = true;
  emit_next = wire_block_id id;
  newest = some (wire_block_id id);
}

unfoldable pub touch_newest : ℕ → Receiver → Receiver
touch_newest id s =
    let bid = wire_block_id id in
    elim s.newest [
      | none ↦ record s { newest = some bid }
      | some newest ↦
          if is_positive (ring_dist bid newest) then record s { newest = some bid } else s
    ]

-- `std::remove` with `erase`.
unfoldable pub remove : (ℕ → Bool) → List ℕ → List ℕ
remove p [] = []
remove p (id ∷ ids) = let rest = remove p ids in if p id then rest else id ∷ rest

-- Takes the stale ids out of `done` and `done_order`.
unfoldable pub drop_done : (ℕ → Bool) → Receiver → Receiver
drop_done stale s = record s {
  done = filter_keys (λ id. not (stale id)) s.done;
  done_order = remove (λ id. stale id && contains id s.done) s.done_order;
}

unfoldable pub clear_state_behind : ℕ → Receiver → Receiver
clear_state_behind base_id s =
    let behind = λ (id : ℕ). is_negative (ring_dist (wire_block_id id) (wire_block_id base_id)) in
    drop_done behind (record s {
      rx_blocks = filter_keys (λ id. not (behind id)) s.rx_blocks;
      ready_blocks = filter_keys (λ id. not (behind id)) s.ready_blocks;
    })

-- `have && t - last >= hold`.
abbrev pub silent : ℕ → Option ℕ → ℕ → Bool
silent t none hold = false
silent t (some last) hold = leb (last + ms hold) t

unfoldable pub maybe_resync_on_late_shard : ℕ → ℕ → Receiver → Receiver
maybe_resync_on_late_shard t id s =
    let moved = clear_state_behind id (record s { emit_next = wire_block_id id }) in
    if is_negative (dist_from_emit id s) && silent t s.last_payload_emit (rx_hold_ms s)
    then record moved { later_block_since = none }
    else s

unfoldable pub maybe_rebase_after_silence : ℕ → ℕ → Receiver → Receiver
maybe_rebase_after_silence t id s =
    let seen = record s { last_shard_rx = some t } in
    if silent t s.last_shard_rx (rx_hold_ms s)
      && s.emit_base_set
      && not (is_zero (dist_from_emit id s))
    then record seen {
      evicted_blocks = bump (length s.rx_blocks) s.evicted_blocks;
      rx_blocks = [];
      ready_blocks = [];
      done = [];
      done_order = [];
      emit_next = wire_block_id id;
      newest = some (wire_block_id id);
      later_block_since = none;
    }
    else seen

-- Abandons the blocks of a walk that a test picks.
unfoldable pub evict_blocks : ℕ → (ℕ → RxBlock → Bool) → Map RxBlock → Receiver → Receiver
evict_blocks t stale [] s = s
evict_blocks t stale ((id, b) ∷ m) s =
    let evicted = record s {
      rx_blocks = erase id s.rx_blocks;
      evicted_blocks = bump 1 s.evicted_blocks;
    } in
    evict_blocks t stale m (if stale id b then abandon_partial_block t b id evicted else s)

unfoldable pub ring_evict_stale : ℕ → Receiver → Receiver
ring_evict_stale t s = elim s.newest [
  | none ↦ s
  | some newest ↦
      let stale =
        λ (id : ℕ). is_below_minus ring_evict_dist (ring_dist (wire_block_id id) newest) in
      drop_done stale (evict_blocks t (λ id b. stale id) s.rx_blocks s)
]

-- The loop of `expire_done`.
unfoldable pub expire_ids : ℕ → ℕ → List ℕ → Map ℕ → List ℕ × Map ℕ
expire_ids t hold [] done = ([], done)
expire_ids t hold (id ∷ order) done = elim (find id done) [
  | none ↦ expire_ids t hold order done
  | some at ↦
      let rest = expire_ids t hold order (erase id done) in
      if ltb (at + hold) t then rest else (id ∷ order, done)
]

unfoldable pub expire_done : ℕ → Receiver → Receiver
expire_done t s =
    let kept = expire_ids t (ms (done_hold_ms s)) s.done_order s.done in
    record s { done_order = kept.0; done = kept.1 }

unfoldable pub expire_rx : ℕ → Receiver → Receiver
expire_rx t s =
    evict_blocks t (λ id b. ltb (b.last_seen + ms (rx_hold_ms s)) t) s.rx_blocks (expire_done t s)
