-- ===== src/Fec/Receiver/Air.antt =====
-- A shard comes in: `push_air`, `try_decode_block`, `on_block_decoded`; and `poll_rx`, `on_tick`.
use vstreamer.Base.{
  ok, err, fault, true, ℕ, zero, suc, ◌+◌, ◌-◌, List, [], ◌∷◌, not, ◌&&◌, ◌||◌, ◌==◌, ltb, leb,
  if◌then◌else◌, Option, none, some, length,
}
use vstreamer.Fec.Map.{Map, find, contains, erase, put}
use vstreamer.Fec.Ring.{is_negative, is_positive, wire_block_id}
use vstreamer.Fec.Header.{ShardHeader, unpack_header, header_len}
use vstreamer.Fec.Codec.{Isal, absent}
use vstreamer.Fec.Decode.{decode_block}
use vstreamer.Fec.Sender.{Sender, flush_due}
use vstreamer.Fec.Receiver.{
  RxBlock, Receiver, block_max, bump, emit_from, expected_sdus, note_rx_block_output_shortfall,
  mark_done, advance_head, abandon_partial_block, try_stream_head_systematic,
}
use vstreamer.Fec.Receiver.Emit.{run_emit_engine}
use vstreamer.Fec.Receiver.Resync.{
  dist_from_emit, note_emit_base, touch_newest, maybe_resync_on_late_shard,
  maybe_rebase_after_silence, ring_evict_stale, expire_rx,
}

-- `if (d > 0 && !later_block_waiting)`: the wait for the head starts.
abbrev pub note_later : ℕ → ℕ → Receiver → Receiver
note_later t id s =
    if is_positive (dist_from_emit id s)
    then elim s.later_block_since [
      | none ↦ record s { later_block_since = some t }
      | some since ↦ s
    ]
    else s

unfoldable pub on_block_decoded : ℕ → ℕ → ℕ → List (List ℕ) → ℕ → Receiver → Receiver
on_block_decoded t id released payloads sdu_n s =
    if is_negative (dist_from_emit id s)
    then mark_done t id
        (emit_from t released sdu_n payloads (record s { late_blocks = bump 1 s.late_blocks }))
    else if wire_block_id id == s.emit_next
    then run_emit_engine t (advance_head t (emit_from t released sdu_n payloads s))
    else note_later t id (record s {
      ready_blocks =
          put id (record { payloads = payloads; released = released; sdu_n = sdu_n })
            s.ready_blocks;
    })

-- `oldest`: the block that was written to the longest ago.
unfoldable pub oldest_block : ℕ → RxBlock → Map RxBlock → ℕ × RxBlock
oldest_block id b [] = (id, b)
oldest_block id b ((j, c) ∷ m) =
    if ltb c.last_seen b.last_seen then oldest_block j c m else oldest_block id b m

unfoldable pub oldest_of : Map RxBlock → Option (ℕ × RxBlock)
oldest_of [] = none
oldest_of ((id, b) ∷ m) = some (oldest_block id b m)

-- `while (rx_blocks.size() >= k_block_max)`: a round takes a block away, so as many rounds as
-- there are blocks are enough.
unfoldable pub make_room : ℕ → ℕ → Receiver → Receiver
make_room zero t s = s
make_room (suc fuel) t s = elim (oldest_of s.rx_blocks) [
  | none ↦ s
  | some (id, b) ↦
      let evicted = record s {
        evicted_blocks = bump 1 s.evicted_blocks;
        rx_blocks = erase id s.rx_blocks;
      } in
      let rest = make_room fuel t (abandon_partial_block t b id evicted) in
      if leb block_max (length s.rx_blocks) then rest else s
]

-- A block at the head streams what comes next in it; one ahead of the head waits.
unfoldable pub stream_or_wait : ℕ → ℕ → RxBlock → Receiver → RxBlock × Receiver
stream_or_wait t id b s =
    if wire_block_id id == s.emit_next
    then try_stream_head_systematic t b s
    else (b, note_later t id s)

module _ (isal : Isal) where
  -- `try_decode_block`; `none` is `false`.
  unfoldable pub try_decode_block : ℕ → ℕ → RxBlock → Receiver → Option Receiver
  try_decode_block t id b s =
      let taken = record s { rx_blocks = erase id s.rx_blocks } in
      if ltb (length b.frags) b.sdu_n
        || ltb (length b.frags + absent (b.k - b.sdu_n) b.sdu_n b.frags) b.k
      then none
      else elim (decode_block isal b.k b.n b.sdu_n b.frags) [
        | fault ↦ some (record taken { faulted = true })
        | err e ↦ some (
            run_emit_engine t (
              abandon_partial_block t b id
                (record taken { rs_failures = bump 1 taken.rs_failures })))
        | ok (decoded, rec) ↦ some (
            on_block_decoded t id b.released decoded b.sdu_n (
              note_rx_block_output_shortfall (expected_sdus b) (length decoded) (record taken {
                recovered = bump rec taken.recovered;
                blocks = bump 1 taken.blocks;
              })))
      ]

  -- The end of `push_air`: the block is decoded, or the engine runs.
  unfoldable pub finish_shard : ℕ → ℕ → RxBlock → Receiver → Receiver
  finish_shard t id b s = elim (try_decode_block t id b s) [
    | none ↦ run_emit_engine t s
    | some s' ↦ s'
  ]

  -- The shard is new to its block `b`.
  unfoldable pub store_shard : ℕ → ℕ → ℕ → List ℕ → RxBlock → Receiver → Receiver
  store_shard t id index frag b s =
      let stored = record b { frags = put index frag b.frags; last_seen = t } in
      let streamed = stream_or_wait t id stored s in
      finish_shard t id streamed.0
        (record streamed.1 { rx_blocks = put id streamed.0 streamed.1.rx_blocks })

  -- `push_air` once the ring of ids stands: duplicates go, a new block gets its place, and a block
  -- whose shards disagree is abandoned.
  unfoldable pub place_shard : ℕ → ShardHeader → List ℕ → Receiver → Receiver
  place_shard t h frag s =
      let id = h.block_id in
      let fresh : RxBlock = record {
        k = h.k;
        n = h.n;
        sdu_n = h.sdu_n;
        released = 0;
        frags = [];
        last_seen = t;
      } in
      if is_negative (dist_from_emit id s) && contains id s.done || contains id s.ready_blocks
      then s
      else elim (find id s.rx_blocks) [
        | none ↦
            let roomy = make_room (length s.rx_blocks) t s in
            store_shard t id h.index frag fresh
              (record roomy { rx_blocks = put id fresh roomy.rx_blocks })
        | some b ↦
            if not (b.k == h.k && b.n == h.n && b.sdu_n == h.sdu_n)
            then abandon_partial_block t b id
                (record s { kn_mismatch = bump 1 s.kn_mismatch; rx_blocks = erase id s.rx_blocks })
            else if contains h.index b.frags
            then s
            else store_shard t id h.index frag b s
      ]

  -- `push_air` between the header and its `push_air_finish`.
  unfoldable pub accept_shard : ℕ → ShardHeader → List ℕ → Receiver → Receiver
  accept_shard t h frag s =
      let id = h.block_id in
      place_shard t h frag (
        ring_evict_stale t (
          maybe_resync_on_late_shard t id
            (touch_newest id (maybe_rebase_after_silence t id (note_emit_base id s)))))

  -- `push_air` of the bytes of a shard at the instant `t`.
  unfoldable pub push_air : ℕ → List ℕ → Receiver → Receiver
  push_air t [] s = record s { out = [] }
  push_air t (b ∷ bytes) s =
      let s0 = record s { out = [] } in
      let bad = record s0 { hdr_errors = bump 1 s0.hdr_errors } in
      if ltb (length (b ∷ bytes)) header_len
      then bad
      else run_emit_engine t (
          expire_rx t (elim (unpack_header (b ∷ bytes)) [
            | none ↦ bad
            | some h ↦ accept_shard t h (b ∷ bytes) s0
          ]))

unfoldable pub poll_rx : ℕ → Receiver → Receiver
poll_rx t s = run_emit_engine t (expire_rx t (record s { out = [] }))

-- `on_tick` of an object at the instant `t`, by its halves: it expires blocks of the receiver, whose
-- packets go nowhere, and flushes a block of the sender that is due.
unfoldable pub on_tick : Isal → ℕ → Sender × Receiver → (Sender × Receiver) × List (List ℕ)
on_tick isal t (s, r) =
    let flushed = flush_due isal t s in
    ((flushed.0, record (expire_rx t r) { out = r.out }), flushed.1)
