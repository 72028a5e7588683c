-- ===== src/Fec/Sender.antt =====
-- The sending half of `rs_block_erasure`: `init`, `disable`, `push_app`, `flush`, `next_deadline`
-- and the sender's part of `on_tick`. The clock counts nanoseconds.
use vstreamer.Base.{
  ℕ, ◌+◌, ◌*◌, List, [], ◌∷◌, ◌++◌, true, false, not, ◌&&◌, ◌||◌, ltb, leb, if◌then◌else◌, Option,
  none, some, u16, u64, length,
}
use vstreamer.Fec.Header.{header_k_n_min, header_k_n_max, header_len}
use vstreamer.Fec.Codec.{Isal, Setup, max_original, encode_block, len_prefix}

abbrev pub ms : ℕ → ℕ
ms n = n * 1000000

-- `deadline` is there when `deadline_set`.
pub record Sender : Type 0 where
  pub setup : Setup
  pub timeout_ms : ℕ
  pub pending : List (List ℕ)
  pub deadline : Option ℕ
  pub block_id : ℕ
  pub blocks_count : ℕ
  pub oversized_count : ℕ

-- `init`: `none` is `false`, with nothing changed.
unfoldable pub init : ℕ → ℕ → ℕ → ℕ → Sender → Option Sender
init k n timeout_ms max_shard_bytes s =
    if ltb k header_k_n_min
      || ltb n k
      || ltb header_k_n_max n
      || ltb header_k_n_max k
      || ltb max_shard_bytes (header_len + len_prefix + 1)
    then none
    else some (record s {
      setup = record { active = true; cfg_k = k; cfg_n = n; max_shard_bytes = max_shard_bytes };
      timeout_ms = timeout_ms;
      pending = [];
      deadline = none;
      blocks_count = 0;
      oversized_count = 0;
    })

unfoldable pub disable : Sender → Sender
disable s = record s {
  setup = record {
    active = false;
    cfg_k = 0;
    cfg_n = 0;
    max_shard_bytes = s.setup.max_shard_bytes;
  };
  pending = [];
  deadline = none;
}

-- A deadline that is set stays.
abbrev pub deadline_from : ℕ → Option ℕ → ℕ
deadline_from new none = new
deadline_from new (some d) = d

module _ (isal : Isal) where
  -- `flush`: the shards of the pending packets, of all or of none.
  unfoldable pub flush_pending : Sender → List (List ℕ) → Sender × List (List ℕ)
  flush_pending s [] = (s, [])
  flush_pending s (packet ∷ packets) =
      if not s.setup.active
      then (s, [])
      else elim (encode_block isal s.setup (packet ∷ packets) s.block_id) [
        | none ↦ (
          record s { oversized_count = u64 (s.oversized_count + 1); pending = []; deadline = none },
          [],
        )
        | some shards ↦ (
          record s {
            block_id = u16 (s.block_id + 1);
            pending = [];
            deadline = none;
            blocks_count = u64 (s.blocks_count + 1);
          },
          shards,
        )
      ]

  abbrev pub flush : Sender → Sender × List (List ℕ)
  flush s = flush_pending s s.pending

  -- `push_app` of an active sender at the instant `t`.
  unfoldable pub push_active : ℕ → List ℕ → Sender → Sender × List (List ℕ)
  push_active t packet s =
      let held = record s {
        pending = s.pending ++ packet ∷ [];
        deadline = some (deadline_from (t + ms s.timeout_ms) s.deadline);
      } in
      if ltb (max_original s.setup) (length packet)
      then (record s { oversized_count = u64 (s.oversized_count + 1) }, [])
      else if leb s.setup.cfg_k (length held.pending)
      then flush held
      else (held, [])

  unfoldable pub push_app : ℕ → List ℕ → Sender → Sender × List (List ℕ)
  push_app t packet s = if not s.setup.active then (s, []) else push_active t packet s

  -- `next_deadline`.
  unfoldable pub next_deadline : Sender → Option ℕ
  next_deadline s = if s.setup.active && ltb 0 s.timeout_ms then s.deadline else none

  -- The end of `on_tick`: a partial block is flushed at its deadline.
  unfoldable pub flush_due : ℕ → Sender → Sender × List (List ℕ)
  unfolding next_deadline
  flush_due t s = elim (next_deadline s) [
    | none ↦ (s, [])
    | some d ↦ if ltb t d then (s, []) else flush s
  ]
