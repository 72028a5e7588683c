-- ===== src/Fec/Receiver/Emit.antt =====
-- `run_emit_engine` and `maybe_give_up_head`, which call each other.
use vstreamer.Base.{
  ℕ, zero, suc, ◌+◌, [], ◌∷◌, Bool, true, false, not, ◌&&◌, ◌||◌, ltb, leb, if◌then◌else◌, Option,
  none, some, length, pos, negsuc, ℤ, positive_part,
}
use vstreamer.Fec.Map.{Map, find, contains, erase, put}
use vstreamer.Fec.Ring.{ring_dist, wire_block_id}
use vstreamer.Fec.Sender.{ms}
use vstreamer.Fec.Receiver.{
  ReadyBlock, Receiver, emit_hold_ms, emit_from, mark_done, abandon_partial_block,
  try_stream_head_systematic,
}

-- `later_block_waiting && t - later_block_since > hold`.
abbrev pub overdue : ℕ → Option ℕ → ℕ → Bool
overdue t none hold = false
overdue t (some since) hold = ltb (since + hold) t

abbrev pub waited : ℕ → Receiver → Bool
waited t s = overdue t s.later_block_since (ms (emit_hold_ms s))

-- `d > 0 && (!jump || d < best_d)`.
abbrev pub is_better : ℤ → Option ℕ → Bool
is_better (pos (suc d)) none = true
is_better (pos (suc d)) (some best_d) = ltb (suc d) best_d
is_better (pos zero) best = false
is_better (negsuc d) best = false

-- The decoded block that is nearest ahead of the head: its id and its distance.
unfoldable pub nearest_ready : ℕ → Map ReadyBlock → Option (ℕ × ℕ) → Option (ℕ × ℕ)
nearest_ready head [] best = best
nearest_ready head ((id, rb) ∷ m) best =
    let d = ring_dist (wire_block_id id) head in
    let best_d : Option ℕ = elim best [ none ↦ none | some b ↦ some b.1 ] in
    nearest_ready head m (if is_better d best_d then some (id, positive_part d) else best)

-- One round of the two functions: it goes on with a new state, or it stops.
pub data Round : Type 0 where
  again : Receiver → Round
  stop : Receiver → Round

-- `maybe_give_up_head`.
unfoldable pub maybe_give_up_head : ℕ → Receiver → Round
maybe_give_up_head t s = elim (find s.emit_next s.rx_blocks) [
  | some b ↦
      if leb b.n (length b.frags) || waited t s
      then again (
          abandon_partial_block t b s.emit_next
            (record s { rx_blocks = erase s.emit_next s.rx_blocks }))
      else stop s
  | none ↦
      if not (contains s.emit_next s.ready_blocks) && waited t s
      then again (record s {
        emit_next = elim (nearest_ready s.emit_next s.ready_blocks none) [
          | none ↦ wire_block_id (s.emit_next + 1)
          | some target ↦ wire_block_id target.0
        ];
        later_block_since = none;
      })
      else stop s
]

-- The head of the queue is decoded: what it has not streamed yet goes out.
unfoldable pub release_ready : ℕ → ReadyBlock → Receiver → Receiver
release_ready t rb s =
    let emitted = emit_from t rb.released rb.sdu_n rb.payloads s in
    let marked =
      mark_done t s.emit_next
        (record emitted { ready_blocks = erase s.emit_next emitted.ready_blocks }) in
    record marked { emit_next = wire_block_id (s.emit_next + 1) }

-- The head of the queue is incomplete: what comes next in it goes out.
unfoldable pub stream_head : ℕ → Receiver → Receiver
stream_head t s = elim (find s.emit_next s.rx_blocks) [
  | none ↦ s
  | some b ↦
      let streamed = try_stream_head_systematic t b s in
      record streamed.1 { rx_blocks = put s.emit_next streamed.0 streamed.1.rx_blocks }
]

-- A round of `run_emit_engine`. Streaming the head a second time would find nothing more.
unfoldable pub emit_round : ℕ → Receiver → Round
unfolding maybe_give_up_head release_ready stream_head
emit_round t s = if not s.emit_base_set then stop s else elim (find s.emit_next s.ready_blocks) [
  | some rb ↦ again (release_ready t rb s)
  | none ↦ maybe_give_up_head t (stream_head t s)
]

unfoldable pub rounds : ℕ → ℕ → Receiver → Receiver
rounds zero t s = s
rounds (suc fuel) t s = elim (emit_round t s) [ stop s' ↦ s' | again s' ↦ rounds fuel t s' ]

abbrev pub waits : Option ℕ → ℕ
waits none = 0
waits (some since) = 1

-- Each round but the last takes a block away or ends the wait for a later block.
abbrev pub work : Receiver → ℕ
work s = length s.ready_blocks + length s.rx_blocks + waits s.later_block_since

unfoldable pub run_emit_engine : ℕ → Receiver → Receiver
run_emit_engine t s = rounds (suc (work s)) t s
