-- ===== src/Fec/Decode.antt =====
-- `decode_block` and `gen_decode_matrix` of the block erasure code.
use vstreamer.Base.{
  ℕ, zero, suc, ◌+◌, ◌-◌, ◌*◌, List, [], ◌∷◌, ◌++◌, map, Bool, ◌&&◌, ◌||◌, ◌==◌, ltb, leb,
  if◌then◌else◌, Option, none, some, length, take, drop, get_elem?, replicate, bit_xor, Outcome,
  err, einval, not, fault, ok,
}
use vstreamer.Fec.Map.{find, contains}
use vstreamer.Fec.Header.{header_len}
use vstreamer.Fec.Codec.{
  Isal, Frags, absent, frag_to_app, load_be16, len_prefix, max_n, max_of, align_shard, pad,
  encode_matrix_for, cached,
}

-- The indices `i`, ..., `i + count - 1`.
abbrev pub range : ℕ → ℕ → List ℕ
range zero i = []
range (suc count) i = i ∷ range count (i + 1)

-- `have[i]`: the fragment is there, or it is a pad past the packets of the block.
abbrev pub have : ℕ → ℕ → Frags → ℕ → Bool
have k sdu_n frags i = contains i frags || (leb sdu_n i && ltb i k)

-- The first loop over the fragments: the longest body, or `none` for a bad index or a short one.
unfoldable pub longest_body : ℕ → Frags → ℕ → Option ℕ
longest_body n [] len = some len
longest_body n ((i, frag) ∷ frags) len =
    let rest = longest_body n frags (max_of len (length frag - header_len)) in
    if leb n i || ltb (length frag) header_len then none else rest

-- `row_ref`: the body padded to the row length; a pad is a row of zeros.
unfoldable pub row_ref : ℕ → Frags → ℕ → List ℕ
row_ref shard_len frags i = elim (find i frags) [
  | none ↦ replicate shard_len 0
  | some frag ↦ pad shard_len (drop header_len frag)
]

-- The indices of `is` without a fragment or a pad.
unfoldable pub missing : (ℕ → Bool) → List ℕ → List ℕ
missing has [] = []
missing has (i ∷ is) = (if has i then [] else i ∷ []) ++ missing has is

-- The rows that the decoder inverts: the first `k` indices that are not erased, or `none`.
unfoldable pub first_present : ℕ → (ℕ → Bool) → List ℕ → Option (List ℕ)
first_present zero has is = some []
first_present (suc k) has [] = none
first_present (suc k) has (i ∷ is) =
    let skipped = first_present (suc k) has is in
    let taken = first_present k has is in
    if has i then elim taken [ none ↦ none | some js ↦ some (i ∷ js) ] else skipped

abbrev pub matrix_row : ℕ → List ℕ → ℕ → List ℕ
matrix_row k matrix r = take k (drop (k * r) matrix)

abbrev pub entry : List ℕ → ℕ → ℕ
entry row i = elim (get_elem? row i) [ none ↦ 0 | some x ↦ x ]

unfoldable pub rows_of : ℕ → List ℕ → List ℕ → List ℕ
rows_of k matrix [] = []
rows_of k matrix (r ∷ rs) = matrix_row k matrix r ++ rows_of k matrix rs

-- What `gen_decode_matrix` gives: the rows for the erased indices, and `decode_index`.
pub record Plan : Type 0 where
  pub matrix : List ℕ
  pub index : List ℕ

-- The rows recovered, by index; the others are the received ones.
unfoldable pub recovered_row : List ℕ → List (List ℕ) → ℕ → Option (List ℕ)
recovered_row [] rows i = none
recovered_row (e ∷ es) [] i = none
recovered_row (e ∷ es) (row ∷ rows) i =
    let rest = recovered_row es rows i in if e == i then some row else rest

-- The packet of a row; a length of 0 is a pad, and a length past the row is refused.
unfoldable pub row_to_app : List ℕ → Option (List ℕ)
row_to_app row =
    let orig_len = load_be16 row in
    if ltb (length row) len_prefix
    then none
    else if orig_len == 0
    then some []
    else if ltb (length row) (len_prefix + orig_len)
    then none
    else some (take orig_len (drop len_prefix row))

-- The last loop: the packets of the indices, without the empty ones.
unfoldable pub collect : (ℕ → Option (List ℕ)) → List ℕ → Option (List (List ℕ))
collect app [] = some []
collect app (i ∷ is) =
    let rest = collect app is in
    elim (app i) [
      | none ↦ none
      | some [] ↦ rest
      | some (b ∷ bytes) ↦ elim rest [ none ↦ none | some packets ↦ some ((b ∷ bytes) ∷ packets) ]
    ]

-- The slot `i` when all systematic ones are there.
unfoldable pub systematic_app : Frags → ℕ → Option (List ℕ)
systematic_app frags i = elim (find i frags) [ none ↦ some [] | some frag ↦ frag_to_app frag ]

module _ (isal : Isal) where
  -- The sum over the `js` of `invert[j][i] * encode_matrix[idx][j]`, from `s` on.
  unfoldable pub dot : ℕ → List ℕ → List ℕ → ℕ → List ℕ → ℕ → ℕ
  dot k invert row i [] s = s
  dot k invert row i (j ∷ js) s =
      dot k invert row i js (bit_xor s (isal.gf_mul (entry invert (j * k + i)) (entry row j)))

  -- The row of the decoding matrix for the erased index `idx`.
  unfoldable pub decode_row : ℕ → List ℕ → List ℕ → ℕ → List ℕ
  decode_row k matrix invert idx =
      if ltb idx k
      then matrix_row k invert idx
      else map (λ i. dot k invert (matrix_row k matrix idx) i (range k 0) 0) (range k 0)

  unfoldable pub decode_rows : ℕ → List ℕ → List ℕ → List ℕ → List ℕ
  decode_rows k matrix invert [] = []
  decode_rows k matrix invert (idx ∷ es) =
      decode_row k matrix invert idx ++ decode_rows k matrix invert es

  unfoldable pub gen_decode_matrix : ℕ → ℕ → List ℕ → (ℕ → Bool) → List ℕ → Option Plan
  gen_decode_matrix k n matrix has es =
      if ltb k 1 || leb n k then none else elim (first_present k has (range n 0)) [
        | none ↦ none
        | some index ↦ elim (isal.invert_matrix (rows_of k matrix index) k) [
          | none ↦ none
          | some invert ↦ some (record { matrix = decode_rows k matrix invert es; index = index })
        ]
      ]

  -- The branch with erased systematic shards: the rows of the erased indices `es`.
  unfoldable pub recover : ℕ → ℕ → ℕ → Frags → (ℕ → Bool) → List ℕ → Option (List (List ℕ))
  recover k n shard_len frags has es =
      if ltb (n - k) (length es)
      then none
      else elim (gen_decode_matrix k n (encode_matrix_for isal k n) has es) [
        | none ↦ none
        | some plan ↦ some (
            isal.encode_data shard_len k (length es) (isal.init_tables k (length es) plan.matrix)
              (map (row_ref shard_len frags) plan.index))
      ]

  -- The end of `decode_block`: the packets, and how many rows were recovered. `none` is `false`.
  unfoldable pub decode_rest : ℕ → ℕ → ℕ → Frags → ℕ → Option (List (List ℕ) × ℕ)
  decode_rest k n sdu_n frags len =
      let shard_len = align_shard len in
      let has = have k sdu_n frags in
      let es = missing has (range n 0) in
      let lost = missing has (range k 0) in
      elim lost [
        | [] ↦ elim (collect (systematic_app frags) (range k 0)) [
          | none ↦ none
          | some packets ↦ some (packets, 0)
        ]
        | i ∷ is ↦ elim (recover k n shard_len frags has es) [
          | none ↦ none
          | some rows ↦
              elim (collect
                (λ i. elim (recovered_row es rows i) [
                  | none ↦ row_to_app (row_ref shard_len frags i)
                  | some row ↦ row_to_app row
                ])
                (range k 0)) [ none ↦ none | some packets ↦ some (packets, length (i ∷ is)) ]
        ]
      ]

  -- `decode_block`: `err einval` is `false`, and `fault` an index outside the cache of the tables.
  unfoldable pub decode_block : ℕ → ℕ → ℕ → Frags → Outcome (List (List ℕ) × ℕ)
  decode_block k n sdu_n frags =
      if ltb k 1 || ltb n k || ltb max_n n || ltb k sdu_n
      then err einval
      else if ltb (length frags + absent (k - sdu_n) sdu_n frags) k
      then err einval
      else if not (cached k n)
      then fault
      else elim (longest_body n frags len_prefix) [
        | none ↦ err einval
        | some len ↦ elim (decode_rest k n sdu_n frags len) [
          | none ↦ err einval
          | some decoded ↦ ok decoded
        ]
      ]
