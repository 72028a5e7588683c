-- ===== src/Fec/Systematic.antt =====
-- A receiver reads from the systematic shards of a block what the sender put into them.
use vstreamer.Base.{
  ℕ, zero, suc, ◌+◌, ◌<◌, ◌≤◌, ◌≡◌, ◌^◌, arith, List, length, drop, some, be16_sum, u8, u16, ◌>>>◌,
  length-append, ◌∙◌, ap, ◌++◌, sym, drop-append_left, le→not_ltb, ◌∷◌, take_all, subst, All,
  Bool-cases, [], ltb, inl, inr, Option-cases, take, not, refl, ◌||◌, ◌==◌, false,
}
use vstreamer.Fec.Header.{ShardHeader, unpack_header, parity_of, header_len}
use vstreamer.Fec.Header.RoundTrip.{Valid, unpack-pack}
use vstreamer.Fec.Codec.{
  Isal, Setup, shard, data_row, frag_to_app, encode_block, load_be16, headed, systematic, data_rows,
  encode_rows, max_original, align_shard, longest, parity_shards, parity_rows,
}

-- What `init` admits, with shards of a size that the two bytes of the length hold.
pub record Ready (c : Setup) : Type 0 where
  pub k_min : 1 ≤ c.cfg_k
  pub k_le : c.cfg_k ≤ c.cfg_n
  pub n_le : c.cfg_n ≤ 15
  pub max_le : c.max_shard_bytes < 2 ^ 16

-- The length before a packet reads back.
load-data_row :
    (packet : List ℕ) → length packet < 2 ^ 16 → load_be16 (data_row packet) ≡ length packet
load-data_row packet h =
    be16_sum (u8 (u16 (length packet) >>> 8)) (u8 (u16 (length packet))) (omega arith) ∙ omega arith

app-of_body :
    (frag body : List ℕ) (n : ℕ)
    → 6 ≤ length frag
    → drop 4 frag ≡ body
    → load_be16 body ≡ suc n
    → length body ≡ 2 + suc n
    → frag_to_app frag ≡ some (take (suc n) (drop 2 body))
unfolding frag_to_app
app-of_body frag body n long cut size whole =
    rw
      (
        cut,
        size,
        positive,
        le→not_ltb (length frag) 6 (omega arith),
        le→not_ltb (length body) (2 + suc n) (omega arith),
      )
      refl
  where
    positive : (suc n == 0) ≡ false
    positive = ground arith

-- A fragment that holds the row of a packet after its header.
app-of_row :
    (frag packet : List ℕ)
    → length frag ≡ 6 + length packet
    → drop 4 frag ≡ data_row packet
    → length packet < 2 ^ 16
    → frag_to_app frag ≡ some packet
unfolding frag_to_app
app-of_row frag [] long body small = rw (body, le→not_ltb (length frag) 6 (omega arith)) refl
app-of_row frag (b ∷ packet) long body small =
    app-of_body frag (data_row (b ∷ packet)) (length packet) (omega arith) body
      (load-data_row (b ∷ packet) small) (omega arith)
    ∙ ap (λ p. some (b ∷ p)) (take_all packet (length packet) (omega arith))

-- The shard of a packet: its header and its packet read back.
pub record Carries (h : ShardHeader) (packet frag : List ℕ) : Type 0 where
  pub header :
      unpack_header frag ≡ some (record h { block_id = u8 h.block_id; flags = parity_of h.flags })
  pub app : frag_to_app frag ≡ some packet

shard-Carries :
    (h : ShardHeader) (packet : List ℕ)
    → Valid h
    → length packet < 2 ^ 16
    → Carries h packet (shard h (data_row packet))
shard-Carries h packet v small =
    let (wire, packed, four, read) = unpack-pack h (data_row packet) v in
    let whole : shard h (data_row packet) ≡ wire ++ data_row packet =
      ap (λ o. headed o (data_row packet)) packed in
    subst (λ frag. Carries h packet frag) (sym whole)
      (record {
        header = read;
        app =
            app-of_row (wire ++ data_row packet) packet
              (omega (arith, length-append wire (data_row packet), four))
              (ap (λ n. drop n (wire ++ data_row packet)) (sym four)
                ∙ drop-append_left wire (data_row packet))
              small;
      })

-- The shards of the packets, from index `i`, and others after them.
abbrev pub AllCarry : Setup → ℕ → ℕ → ℕ → List (List ℕ) → List (List ℕ) → Type 0
AllCarry c block_id sdu_n i [] frags = Unit
AllCarry c block_id sdu_n i (packet ∷ packets) [] = ⊥
AllCarry c block_id sdu_n i (packet ∷ packets) (frag ∷ frags) =
    Carries
      (record {
        block_id = block_id;
        index = i;
        k = c.cfg_k;
        n = c.cfg_n;
        flags = 0;
        sdu_n = sdu_n;
      })
      packet frag
    × AllCarry c block_id sdu_n (i + 1) packets frags

systematic-AllCarry :
    (c : Setup) (block_id sdu_n i : ℕ) (packets rest : List (List ℕ))
    → Ready c
    → sdu_n ≤ c.cfg_k
    → i + length packets ≤ sdu_n
    → All (λ packet. length packet < 2 ^ 16) packets
    → AllCarry c block_id sdu_n i packets (systematic c block_id sdu_n i packets ++ rest)
unfolding systematic
systematic-AllCarry c block_id sdu_n i [] rest r hs hi small = tt
systematic-AllCarry c block_id sdu_n i (packet ∷ packets) rest r hs hi (small, smalls) = (
  shard-Carries _ packet
      (record {
        index_lt = omega (arith, r.k_le);
        k_min = r.k_min;
        k_le = r.k_le;
        n_le = r.n_le;
        sdu_le = hs;
      })
      small,
  systematic-AllCarry c block_id sdu_n (i + 1) packets rest r hs (omega arith) smalls,
)

-- The rows are made only if each packet fits.
data_rows-small :
    (left limit : ℕ) (packets rows : List (List ℕ))
    → limit < 2 ^ 16
    → length packets ≤ left
    → data_rows left limit packets ≡ some rows
    → All (λ packet. length packet < 2 ^ 16) packets
unfolding data_rows
data_rows-small left limit [] rows h hl e = tt
data_rows-small zero limit (packet ∷ packets) rows h hl e = absurd (omega arith)
data_rows-small (suc left) limit (packet ∷ packets) rows h hl e =
    elim (Bool-cases (ltb limit (length packet))) [
      | inl f ↦ absurd (ground (arith, e, f))
      | inr f ↦ elim (Option-cases (data_rows left limit packets)) [
        | inl g ↦ absurd (ground (arith, e, f, g))
        | inr (more, g) ↦
            (ground (arith, f), data_rows-small left limit packets more h (omega arith) g)
      ]
    ]

max_original_lt : (c : Setup) → Ready c → max_original c < 2 ^ 16
unfolding max_original
max_original_lt c r = ground (arith, r.max_le)

-- A block whose setup `init` admits puts the packets into its first shards: the header of the shard
-- of a packet reads back, with the packet's index, and its body gives the packet back.
pub encode_block-AllCarry :
    (isal : Isal) (c : Setup) (packets shards : List (List ℕ)) (block_id : ℕ)
    → Ready c
    → encode_block isal c packets block_id ≡ some shards
    → AllCarry c block_id (length packets) 0 packets shards
unfolding encode_block encode_rows
encode_block-AllCarry isal c packets shards block_id r e =
    elim (Bool-cases (not c.active || ltb c.cfg_k (length packets))) [
      | inl f ↦ absurd (ground (arith, e, f))
      | inr f ↦ elim (Option-cases (data_rows c.cfg_k (max_original c) packets)) [
        | inl g ↦ absurd (ground (arith, e, f, g))
        | inr (rows, g) ↦
            let few : length packets ≤ c.cfg_k = ground (arith, f) in
            let smalls =
              data_rows-small c.cfg_k (max_original c) packets rows (max_original_lt c r) few g in
            elim (Bool-cases (ltb c.max_shard_bytes (header_len + align_shard (longest rows 0)))) [
              | inl h ↦ absurd (ground (arith, e, f, g, h))
              | inr h ↦
                  subst (λ l. AllCarry c block_id (length packets) 0 packets l)
                    (ground (arith, e, f, g, h))
                    (systematic-AllCarry c block_id (length packets) 0 packets
                      (parity_shards c block_id (length packets) c.cfg_k
                        (parity_rows isal c (align_shard (longest rows 0)) rows))
                      r few (omega arith) smalls)
            ]
      ]
    ]
