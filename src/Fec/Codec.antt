-- ===== src/Fec/Codec.antt =====
-- `encode_block`, `decode_block` and `gen_decode_matrix`. A shard is its bytes, header included.
use vstreamer.Base.{
  ℕ, zero, suc, ◌+◌, ◌-◌, ◌*◌, List, [], ◌∷◌, ◌++◌, map, Bool, not, ◌||◌, ◌==◌, ltb, leb,
  if◌then◌else◌, Option, none, some, bit_or, ◌<<<◌, ◌>>>◌, u8, u16, length, take, drop, replicate,
  ◌&&◌,
}
use vstreamer.Fec.Map.{Map, contains}
use vstreamer.Fec.Header.{ShardHeader, pack_header, header_len, flag_parity}

abbrev pub len_prefix : ℕ
len_prefix = 2

abbrev pub min_shard : ℕ
min_shard = 16

abbrev pub max_n : ℕ
max_n = 255

-- What the code calls of ISA-L: a matrix is its bytes row by row, and `encode_data` takes the
-- length of a row, the numbers of source and of coding rows, the tables and the source rows.
pub record Isal : Type 0 where
  pub gen_cauchy1_matrix : ℕ → ℕ → List ℕ
  pub init_tables : ℕ → ℕ → List ℕ → List ℕ
  pub encode_data : ℕ → ℕ → ℕ → List ℕ → List (List ℕ) → List (List ℕ)
  pub invert_matrix : List ℕ → ℕ → Option (List ℕ)
  pub gf_mul : ℕ → ℕ → ℕ

-- The part of `rs_block_erasure` that `init` sets for the sender.
pub record Setup : Type 0 where
  pub active : Bool
  pub cfg_k : ℕ
  pub cfg_n : ℕ
  pub max_shard_bytes : ℕ

abbrev pub max_of : ℕ → ℕ → ℕ
max_of a b = if ltb a b then b else a

abbrev pub store_be16 : ℕ → List ℕ
store_be16 v = u8 (v >>> 8) ∷ u8 v ∷ []

abbrev pub load_be16 : List ℕ → ℕ
load_be16 (a ∷ b ∷ rest) = bit_or (a <<< 8) b
load_be16 bytes = 0

abbrev pub align_shard : ℕ → ℕ
align_shard row = if ltb row min_shard then min_shard else row

-- `resize(len, 0)` of a row that is no longer than `len`.
abbrev pub pad : ℕ → List ℕ → List ℕ
pad len row = row ++ replicate (len - length row) 0

unfoldable pub max_original : Setup → ℕ
max_original c =
    if leb c.max_shard_bytes (header_len + len_prefix)
    then 0
    else c.max_shard_bytes - header_len - len_prefix

-- The systematic row of a packet, before it is padded.
abbrev pub data_row : List ℕ → List ℕ
data_row packet = store_be16 (u16 (length packet)) ++ packet

-- The rows of the `left` slots of a block, the slots past the packets empty; `none` if a packet
-- is too long.
unfoldable pub data_rows : ℕ → ℕ → List (List ℕ) → Option (List (List ℕ))
data_rows zero limit packets = some []
data_rows (suc left) limit [] = elim (data_rows left limit []) [
  | none ↦ none
  | some rows ↦ some (data_row [] ∷ rows)
]
data_rows (suc left) limit (packet ∷ packets) =
    let rest = data_rows left limit packets in
    if ltb limit (length packet)
    then none
    else elim rest [ none ↦ none | some rows ↦ some (data_row packet ∷ rows) ]

unfoldable pub longest : List (List ℕ) → ℕ → ℕ
longest [] len = len
longest (row ∷ rows) len = longest rows (max_of len (length row))

abbrev pub headed : Option (List ℕ) → List ℕ → List ℕ
headed none body = 0 ∷ 0 ∷ 0 ∷ 0 ∷ body
headed (some wire) body = wire ++ body

-- A shard: its header before its body. The header's fields are in range by `init`.
abbrev pub shard : ShardHeader → List ℕ → List ℕ
shard h body = headed (pack_header h) body

-- The systematic shards of the packets, from index `i`: the row without the padding.
unfoldable pub systematic : Setup → ℕ → ℕ → ℕ → List (List ℕ) → List (List ℕ)
systematic c block_id sdu_n i [] = []
systematic c block_id sdu_n i (packet ∷ packets) =
    shard
      (record {
        block_id = block_id;
        index = i;
        k = c.cfg_k;
        n = c.cfg_n;
        flags = 0;
        sdu_n = sdu_n;
      })
      (data_row packet)
    ∷ systematic c block_id sdu_n (i + 1) packets

unfoldable pub parity_shards : Setup → ℕ → ℕ → ℕ → List (List ℕ) → List (List ℕ)
parity_shards c block_id sdu_n i [] = []
parity_shards c block_id sdu_n i (row ∷ rows) =
    shard
      (record {
        block_id = block_id;
        index = i;
        k = c.cfg_k;
        n = c.cfg_n;
        flags = flag_parity;
        sdu_n = sdu_n;
      })
      row
    ∷ parity_shards c block_id sdu_n (i + 1) rows

-- `frag_to_app`: the packet in a systematic shard, empty for a pad.
unfoldable pub frag_to_app : List ℕ → Option (List ℕ)
frag_to_app frag =
    let body = drop header_len frag in
    let orig_len = load_be16 body in
    if ltb (length frag) (header_len + len_prefix)
    then none
    else if orig_len == 0
    then some []
    else if ltb (length body) (len_prefix + orig_len)
    then none
    else some (take orig_len (drop len_prefix body))

-- The fragments of a block by their index.
abbrev pub Frags : Type 0
Frags = Map (List ℕ)

-- How many of the slots `i`, ..., `i + count - 1` have no fragment.
unfoldable pub absent : ℕ → ℕ → Frags → ℕ
absent zero i frags = 0
absent (suc count) i frags = (if contains i frags then 0 else 1) + absent count (i + 1) frags

-- Whether the cache of 16 by 16 tables has a slot for `k` and `n`.
abbrev pub cached : ℕ → ℕ → Bool
cached k n = ltb k 16 && ltb n 16

module _ (isal : Isal) where
  -- `kn_encode_tables_for`: the generator matrix and the tables of its parity rows. The code keeps
  -- them in a cache, which has no slot outside `cached`.
  abbrev pub encode_matrix_for : ℕ → ℕ → List ℕ
  encode_matrix_for k n = isal.gen_cauchy1_matrix n k

  abbrev pub tables_for : ℕ → ℕ → List ℕ
  tables_for k n = isal.init_tables k (n - k) (drop (k * k) (encode_matrix_for k n))

  unfoldable pub parity_rows : Setup → ℕ → List (List ℕ) → List (List ℕ)
  parity_rows c shard_len rows =
      let p = c.cfg_n - c.cfg_k in
      if ltb 0 p
      then isal.encode_data shard_len c.cfg_k p (tables_for c.cfg_k c.cfg_n)
          (map (pad shard_len) rows)
      else []

  unfoldable pub encode_rows : Setup → List (List ℕ) → ℕ → List (List ℕ) → Option (List (List ℕ))
  encode_rows c packets block_id rows =
      let shard_len = align_shard (longest rows 0) in
      let sdu_n = length packets in
      if ltb c.max_shard_bytes (header_len + shard_len)
      then none
      else some (
          systematic c block_id sdu_n 0 packets
          ++ parity_shards c block_id sdu_n c.cfg_k (parity_rows c shard_len rows))

  unfoldable pub encode_block : Setup → List (List ℕ) → ℕ → Option (List (List ℕ))
  encode_block c packets block_id =
      if not c.active || ltb c.cfg_k (length packets)
      then none
      else elim (data_rows c.cfg_k (max_original c) packets) [
        | none ↦ none
        | some rows ↦ encode_rows c packets block_id rows
      ]
