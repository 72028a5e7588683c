-- ===== src/StreamHeader/Examples.antt =====
-- The stream header at concrete values.
use vstreamer.Base.{ℕ, List, [], ◌∷◌, ◌++◌, ◌≡◌, arith, ok, some}
use vstreamer.StreamHeader.{store_be16, sequence_be16, fec_shard}
use vstreamer.StreamHeader.Laws.{parts-of_datagram}

abbrev shard : List ℕ
shard = 7 ∷ 0 ∷ 0x21 ∷ 1 ∷ 0 ∷ 1 ∷ 9 ∷ []

parts-of_datagram_example :
    (sequence_be16 (store_be16 0xabcd ++ shard) ≡ ok 0xabcd)
    × (fec_shard (store_be16 0xabcd ++ shard) ≡ some shard)
parts-of_datagram_example = parts-of_datagram 0xabcd shard (omega arith) (omega arith)
