-- ===== src/Fec/Header/RoundTrip.antt =====
-- The header survives the wire, and the receiver accepts nothing else.
use vstreamer.Base.{
  ℕ, ◌≡◌, List, checked_below, bit_and, ◌≤◌, ◌<◌, bit_and_low, u8, ◌==◌, some, ◌*◌, if◌then◌else◌,
  ◌∙◌, bit_or, true, length, ◌+◌, arith, ==_iff, ◌<<<◌, ◌>>>◌, ◌!=◌, ◌++◌, refl, bit_or_sum,
  checked_at, Bool-cases, inl, inr, lt→not_leb, ap, ◌∷◌, [], le→not_ltb,
}
use vstreamer.Fec.Header.{
  ShardHeader, pack_header, unpack_header, parity_of, accept_header, flag_parity, wire_index_mask,
  wire_sdu_n_reserved, header_k_n_min, header_k_n_max,
}

-- `x & 0xf` of a field of four bits.
nibble : (x : ℕ) → x ≤ 15 → bit_and x 0xf ≡ x
nibble x h = bit_and_low 4 x ∙ omega arith

-- The byte of `n` and `k`, and its two halves.
kn_byte :
    (n k : ℕ) → n ≤ 15 → k ≤ 15 → u8 (bit_or (bit_and n 0xf <<< 4) (bit_and k 0xf)) ≡ n * 16 + k
kn_byte n k hn hk =
    rw (nibble n hn, nibble k hk) (rw (bit_or_sum 4 n k (omega arith)) (omega arith))

kn_k : (n k : ℕ) → k ≤ 15 → bit_and (n * 16 + k) 0xf ≡ k
kn_k n k hk = bit_and_low 4 (n * 16 + k) ∙ omega arith

kn_n : (n k : ℕ) → n ≤ 15 → k ≤ 15 → bit_and ((n * 16 + k) >>> 4) 0xf ≡ n
kn_n n k hn hk = bit_and_low 4 ((n * 16 + k) >>> 4) ∙ omega arith

-- Facts of the numbers below 16, by evaluation.
nibble_table :
    (f g : ℕ → ℕ) → checked_below 16 (λ x. f x == g x) ≡ true → (x : ℕ) → x ≤ 15 → f x ≡ g x
nibble_table f g agree x h = (==_iff _ _).0 (checked_at 16 _ x agree (omega arith))

-- The fields of a byte that holds an index, with the parity flag or without it.
record IndexByte (b i flag : ℕ) : Type 0 where
  low : bit_and b 0x0f ≡ i
  reserved : bit_and b 0x70 ≡ 0
  parity : bit_and b 0x80 ≡ flag

index_plain : (i : ℕ) → i ≤ 15 → IndexByte (u8 (bit_and i 0x0f)) i 0
unfolding checked_below
index_plain i h = record {
  low = nibble_table (λ i. bit_and (u8 (bit_and i 0x0f)) 0x0f) (λ i. i) refl i h;
  reserved = nibble_table (λ i. bit_and (u8 (bit_and i 0x0f)) 0x70) (λ i. 0) refl i h;
  parity = nibble_table (λ i. bit_and (u8 (bit_and i 0x0f)) 0x80) (λ i. 0) refl i h;
}

index_parity : (i : ℕ) → i ≤ 15 → IndexByte (u8 (bit_or (bit_and i 0x0f) 0x80)) i 0x80
unfolding checked_below
index_parity i h = record {
  low = nibble_table (λ i. bit_and (u8 (bit_or (bit_and i 0x0f) 0x80)) 0x0f) (λ i. i) refl i h;
  reserved = nibble_table (λ i. bit_and (u8 (bit_or (bit_and i 0x0f) 0x80)) 0x70) (λ i. 0) refl i h;
  parity =
      nibble_table (λ i. bit_and (u8 (bit_or (bit_and i 0x0f) 0x80)) 0x80) (λ i. 0x80) refl i h;
}

sdu_reserved : (i : ℕ) → i ≤ 15 → bit_and (u8 (bit_and i 0x0f)) 0xf0 ≡ 0
unfolding checked_below
sdu_reserved i h = nibble_table (λ i. bit_and (u8 (bit_and i 0x0f)) 0xf0) (λ i. 0) refl i h

-- What `pack_header` checks.
pub record Valid (h : ShardHeader) : Type 0 where
  pub index_lt : h.index < h.n
  pub k_min : 1 ≤ h.k
  pub k_le : h.k ≤ h.n
  pub n_le : h.n ≤ 15
  pub sdu_le : h.sdu_n ≤ h.k

-- What the two writings of the index byte give back.
abbrev Read : ShardHeader → ℕ → Type 0
Read h b = IndexByte b h.index (parity_of h.flags)

Read-index :
    (h : ShardHeader)
    → h.index ≤ 15
    → Read h (
        if bit_and h.flags flag_parity != 0
        then u8 (bit_or (bit_and h.index wire_index_mask) flag_parity)
        else u8 (bit_and h.index wire_index_mask))
Read-index h small = elim (Bool-cases (bit_and h.flags flag_parity != 0)) [
  | inl e ↦ rw (e) (index_parity h.index small)
  | inr e ↦ rw (e) (index_plain h.index small)
]

-- The bytes that `pack_header` writes.
wire_of : ShardHeader → List ℕ
wire_of h =
    u8 (bit_and h.block_id 0xff)
    ∷ (if bit_and h.flags flag_parity != 0
        then u8 (bit_or (bit_and h.index wire_index_mask) flag_parity)
        else u8 (bit_and h.index wire_index_mask))
    ∷ u8 (bit_or (bit_and h.n 0xf <<< 4) (bit_and h.k 0xf))
    ∷ u8 (bit_and h.sdu_n wire_index_mask)
    ∷ []

pack_header-wire_of : (h : ShardHeader) → Valid h → pack_header h ≡ some (wire_of h)
unfolding pack_header wire_of
pack_header-wire_of h v =
    let i = v.index_lt in
    let a = v.k_min in
    let b = v.k_le in
    let c = v.n_le in
    let d = v.sdu_le in
    rw
      (
        lt→not_leb h.n h.index i,
        le→not_ltb wire_index_mask h.index (omega arith),
        le→not_ltb h.k header_k_n_min (omega arith),
        le→not_ltb header_k_n_max h.k (omega arith),
        le→not_ltb h.n h.k (omega arith),
        le→not_ltb header_k_n_max h.n (omega arith),
        le→not_ltb h.k h.sdu_n (omega arith),
      )
      refl

parity_of-read :
    (b flags : ℕ) → bit_and b flag_parity ≡ parity_of flags → parity_of b ≡ parity_of flags
parity_of-read b flags e = rw (e) (elim (Bool-cases (bit_and flags flag_parity != 0)) [
  | inl set ↦ rw (set) refl
  | inr unset ↦ rw (unset) refl
])

-- The fields read back are in range, so `accept_header` takes them.
accept_header-fields :
    (h : ShardHeader) (d0 b1 b2 b3 : ℕ)
    → Valid h
    → IndexByte b1 h.index (parity_of h.flags)
    → bit_and b2 0xf ≡ h.k
    → bit_and (b2 >>> 4) 0xf ≡ h.n
    → bit_and b3 wire_index_mask ≡ h.sdu_n
    → bit_and b3 wire_sdu_n_reserved ≡ 0
    → accept_header d0 b1 b2 b3 ≡ some (record h { block_id = d0; flags = parity_of h.flags })
unfolding accept_header
accept_header-fields h d0 b1 b2 b3 v b ek en es er =
    let i = v.index_lt in
    let k1 = v.k_min in
    let k2 = v.k_le in
    let n1 = v.n_le in
    let s1 = v.sdu_le in
    rw (ek, en, es, er, b.low, b.reserved)
      (rw
        (
          lt→not_leb h.n h.index i,
          le→not_ltb h.k header_k_n_min (omega arith),
          le→not_ltb header_k_n_max h.k (omega arith),
          le→not_ltb h.n h.k (omega arith),
          le→not_ltb header_k_n_max h.n (omega arith),
          le→not_ltb h.k h.sdu_n (omega arith),
        )
        (ap (λ f. some (record h { block_id = d0; flags = f }))
          (parity_of-read b1 h.flags b.parity)))

-- A header that fits the wire comes back from any datagram that begins with its bytes: the block
-- id by its low byte, the flags by the parity bit alone.
pub unpack-pack :
    (h : ShardHeader) (body : List ℕ)
    → Valid h
    → (wire : List ℕ) × (pack_header h ≡ some wire)
      × (length wire ≡ 4)
      × (unpack_header (wire ++ body)
          ≡ some (record h { block_id = u8 h.block_id; flags = parity_of h.flags }))
unfolding unpack_header wire_of
unpack-pack h body v =
    let kn = kn_byte h.n h.k v.n_le (omega (arith, v.k_le, v.n_le)) in
    let small : h.sdu_n ≤ 15 = omega (arith, v.sdu_le, v.k_le, v.n_le) in
    let id : u8 (bit_and h.block_id 0xff) ≡ u8 h.block_id =
      ap u8 (bit_and_low 8 h.block_id) ∙ omega arith in
    let fields =
      accept_header-fields h (u8 (bit_and h.block_id 0xff)) _ _ _ v
        (Read-index h (omega (arith, v.index_lt, v.n_le)))
        (ap (λ b. bit_and b 0xf) kn ∙ kn_k h.n h.k (omega (arith, v.k_le, v.n_le)))
        (ap (λ b. bit_and (b >>> 4) 0xf) kn ∙ kn_n h.n h.k v.n_le (omega (arith, v.k_le, v.n_le)))
        (ap (λ b. bit_and b 0xf) (ap u8 (nibble h.sdu_n small) ∙ omega arith)
          ∙ nibble h.sdu_n small)
        (sdu_reserved h.sdu_n small) in
    (
      wire_of h,
      pack_header-wire_of h v,
      refl,
      fields ∙ ap (λ d. some (record h { block_id = d; flags = parity_of h.flags })) id,
    )
