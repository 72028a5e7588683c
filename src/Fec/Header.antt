-- ===== src/Fec/Header.antt =====
-- The 4 byte header of a shard: `pack_header` and `unpack_header`. The `int` arguments are not
-- negative here (the code refuses a negative one).
pub mod RoundTrip
use vstreamer.Base.{
  ℕ, ◌-◌, ◌*◌, ◌+◌, ◌^◌, ◌≤◌, ◌<◌, ◌≡◌, List, [], ◌∷◌, ◌++◌, Bool, true, false, ◌||◌, ◌!=◌, ltb,
  leb, if◌then◌else◌, Option, none, some, bit_and, bit_or, ◌<<<◌, ◌>>>◌, u8, length, All, IsByte,
  arith,
}

abbrev pub header_len : ℕ
header_len = 4

abbrev pub flag_parity : ℕ
flag_parity = 0x80

abbrev pub wire_index_mask : ℕ
wire_index_mask = 0x0f

abbrev pub wire_index_reserved : ℕ
wire_index_reserved = 0x70

abbrev pub wire_sdu_n_reserved : ℕ
wire_sdu_n_reserved = 0xf0

abbrev pub header_k_n_min : ℕ
header_k_n_min = 1

abbrev pub header_k_n_max : ℕ
header_k_n_max = 15

-- `0 != (flags & k_flag_parity) ? k_flag_parity : 0`.
abbrev pub parity_of : ℕ → ℕ
parity_of flags = if bit_and flags flag_parity != 0 then flag_parity else 0

-- The output parameters of `unpack_header`.
pub record ShardHeader : Type 0 where
  pub block_id : ℕ
  pub index : ℕ
  pub k : ℕ
  pub n : ℕ
  pub flags : ℕ
  pub sdu_n : ℕ

unfoldable pub pack_header : ShardHeader → Option (List ℕ)
pack_header h =
    let index_flag = bit_and h.index wire_index_mask in
    if leb h.n h.index
      || ltb wire_index_mask h.index
      || ltb h.k header_k_n_min
      || ltb header_k_n_max h.k
      || ltb h.n h.k
      || ltb header_k_n_max h.n
      || ltb h.k h.sdu_n
    then none
    else some (
        u8 (bit_and h.block_id 0xff)
        ∷ (if bit_and h.flags flag_parity != 0
            then u8 (bit_or index_flag flag_parity)
            else u8 index_flag)
        ∷ u8 (bit_or (bit_and h.n 0xf <<< 4) (bit_and h.k 0xf))
        ∷ u8 (bit_and h.sdu_n wire_index_mask)
        ∷ [])

-- The checks of `unpack_header` on the fields of bytes 1 to 3.
unfoldable pub accept_header : ℕ → ℕ → ℕ → ℕ → Option ShardHeader
accept_header d0 index_flag kn d3 =
    let kk = bit_and kn 0xf in
    let nn = bit_and (kn >>> 4) 0xf in
    let idx = bit_and index_flag wire_index_mask in
    let sn = bit_and d3 wire_index_mask in
    if bit_and index_flag wire_index_reserved != 0 || bit_and d3 wire_sdu_n_reserved != 0
    then none
    else if ltb kk header_k_n_min
        || ltb header_k_n_max kk
        || ltb nn kk
        || ltb header_k_n_max nn
        || leb nn idx
        || ltb kk sn
    then none
    else some (record {
      block_id = d0;
      index = idx;
      k = kk;
      n = nn;
      flags = parity_of index_flag;
      sdu_n = sn;
    })

unfoldable pub unpack_header : List ℕ → Option ShardHeader
unfolding accept_header
unpack_header (d0 ∷ d1 ∷ d2 ∷ d3 ∷ body) = accept_header d0 d1 d2 d3
unpack_header bytes = none
