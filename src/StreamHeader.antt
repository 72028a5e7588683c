-- ===== src/StreamHeader.antt =====
-- src/core/stream_header.hpp: the two-byte sequence number before the FEC shard of each datagram.
pub mod Laws
pub mod Examples
use vstreamer.Base.{
  ℕ, List, [], ◌∷◌, Bool, Option, none, some, leb, if◌then◌else◌, u8, u16, ◌<<<◌, ◌>>>◌, bit_and,
  bit_or, length, drop, Outcome, ok, ◌>>=◌, read, ◌+◌,
}

abbrev pub stream_header_len : ℕ
stream_header_len = 2

-- `rs_block_erasure::k_header_len`.
abbrev pub shard_header_len : ℕ
shard_header_len = 4

-- `stream_header_store_be16`: the two bytes that are written at `wire`.
unfoldable pub store_be16 : ℕ → List ℕ
store_be16 seq = u8 (bit_and (seq >>> 8) 0xff) ∷ u8 (bit_and seq 0xff) ∷ []

unfoldable pub sequence_be16 : List ℕ → Outcome ℕ
sequence_be16 wire = do w0 ← read wire 0; w1 ← read wire 1; ok (u16 (bit_or (w0 <<< 8) w1))

unfoldable pub datagram_len_ok : ℕ → Bool
datagram_len_ok len = leb (stream_header_len + shard_header_len) len

-- `stream_fec_shard`: the shard is the rest of the payload; `none` is the null pointer.
unfoldable pub fec_shard : List ℕ → Option (List ℕ)
unfolding datagram_len_ok
fec_shard payload =
    if datagram_len_ok (length payload) then some (drop stream_header_len payload) else none
