-- ===== src/StreamHeader/Laws.antt =====
-- A datagram is its sequence number and its shard.
use vstreamer.Base.{ℕ, List, ◌<◌, ◌≡◌, ◌^◌, ◌≤◌, length, ◌++◌, arith, ok, some, ap}
use vstreamer.StreamHeader.{store_be16, sequence_be16, fec_shard}
use vstreamer.Telemetry.Bytes.{be16_of_bytes}

-- A datagram made of the stored sequence number and a shard of at least four bytes gives both back.
pub parts-of_datagram :
    (seq : ℕ) (shard : List ℕ)
    → seq < 2 ^ 16
    → 4 ≤ length shard
    → (sequence_be16 (store_be16 seq ++ shard) ≡ ok seq)
      × (fec_shard (store_be16 seq ++ shard) ≡ some shard)
unfolding store_be16 sequence_be16 fec_shard
parts-of_datagram seq shard h long = (ap ok (be16_of_bytes seq h), ground arith)
