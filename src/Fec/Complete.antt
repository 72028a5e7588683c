-- ===== src/Fec/Complete.antt =====
-- A block that lost none of its systematic shards is decoded without its parity.
use vstreamer.Base.{
  ℕ, ◌+◌, ◌≤◌, ◌≡◌, arith, List, [], ◌∷◌, some, length, ◌∙◌, refl, le→not_ltb, ◌-◌, true, ◌<◌, Bool,
  ◌==◌, suc, dec_lt, none, false, Option-cases, zero, subst, Bool-cases, inl, ok, inr, lt→ltb,
}
use vstreamer.Fec.Map.{find, contains, erase, length-erase_lt}
use vstreamer.Fec.Codec.{Isal, Frags, frag_to_app, absent}
use vstreamer.Fec.Decode.{
  decode_block, range, have, missing, collect, systematic_app, longest_body, decode_rest,
}

-- The fragments with the indices from `i` on hold the packets.
abbrev pub AllHeld : Frags → ℕ → List (List ℕ) → Type 0
AllHeld frags i [] = Unit {0}
AllHeld frags i (packet ∷ packets) =
    ((frag : List ℕ) × (find i frags ≡ some frag) × (frag_to_app frag ≡ some packet))
    × AllHeld frags (i + 1) packets

-- The packets that the application gets: the empty ones are left out.
abbrev pub nonempty : List (List ℕ) → List (List ℕ)
nonempty [] = []
nonempty ([] ∷ packets) = nonempty packets
nonempty ((b ∷ packet) ∷ packets) = (b ∷ packet) ∷ nonempty packets

-- A fragment is there for each packet.
held-contains :
    (frags : Frags) (i j : ℕ) (packets : List (List ℕ))
    → AllHeld frags i packets
    → i ≤ j
    → j < i + length packets
    → contains j frags ≡ true
held-contains frags i j [] held lo hi = absurd (omega arith)
held-contains frags i j (packet ∷ packets) ((frag, e, app), held) lo hi = elim (dec_lt i j) [
  | yes past ↦ held-contains frags (i + 1) j packets held (omega arith) (omega arith)
  | no here ↦
      let at : find j frags ≡ some frag = subst (λ l. find l frags ≡ some frag) (omega arith) e in
      ground (arith, at)
]

none-missing :
    (has : ℕ → Bool) (count i : ℕ)
    → ((j : ℕ) → i ≤ j → j < i + count → has j ≡ true)
    → missing has (range count i) ≡ []
unfolding missing
none-missing has zero i all = refl
none-missing has (suc count) i all =
    rw (all i (omega arith) (omega arith))
      (none-missing has count (i + 1) (λ j lo hi. all j (omega arith) (omega arith)))

collect-packets :
    (frags : Frags) (count i : ℕ) (packets : List (List ℕ))
    → length packets ≤ count
    → AllHeld frags i packets
    → ((j : ℕ) → i + length packets ≤ j → j < i + count → find j frags ≡ none)
    → collect (systematic_app frags) (range count i) ≡ some (nonempty packets)
unfolding collect systematic_app
collect-packets frags zero i [] few held pads = refl
collect-packets frags zero i (packet ∷ packets) few held pads = absurd (omega arith)
collect-packets frags (suc count) i [] few held pads =
    rw (collect, pads i (omega arith) (omega arith))
      (collect-packets frags count (i + 1) [] (omega arith) held
        (λ j lo hi. pads j (omega arith) (omega arith)))
collect-packets frags (suc count) i ([] ∷ packets) few ((frag, e, app), held) pads =
    rw (collect, e, app)
      (collect-packets frags count (i + 1) packets (omega arith) held
        (λ j lo hi. pads j (omega arith) (omega arith)))
collect-packets frags (suc count) i ((b ∷ packet) ∷ packets) few ((frag, e, app), held) pads =
    rw
      (
        collect,
        e,
        app,
        collect-packets frags count (i + 1) packets (omega arith) held
            (λ j lo hi. pads j (omega arith) (omega arith)),
      )
      refl

find-erase : (j i : ℕ) (frags : Frags) → (j == i) ≡ false → find j (erase i frags) ≡ find j frags
find-erase j i [] other = refl
find-erase j i ((l, frag) ∷ frags) other =
    let ih = find-erase j i frags other in
    elim (Bool-cases (i == l)) [
      | inl e ↦ let past : (j == l) ≡ false = ground (arith, e, other) in rw (e, past) ih
      | inr e ↦ rw (e) (ground (arith, ih))
    ]

absent_there :
    (count i : ℕ) (frags : Frags)
    → contains i frags ≡ true
    → absent (suc count) i frags ≡ absent count (i + 1) frags
unfolding absent
absent_there count i frags e = rw (e) (omega arith)

absent_not :
    (count i : ℕ) (frags : Frags)
    → find i frags ≡ none
    → absent (suc count) i frags ≡ suc (absent count (i + 1) frags)
unfolding absent
absent_not count i frags e =
    let c : contains i frags ≡ false = ground (arith, e) in rw (c) (omega arith)

absent-erase :
    (count i k : ℕ) (frags : Frags) → k < i → absent count i (erase k frags) ≡ absent count i frags
unfolding absent
absent-erase zero i k frags h = refl
absent-erase (suc count) i k frags h =
    let same = find-erase i k frags (ground arith) in
    let rest = absent-erase count (i + 1) k frags (omega arith) in
    elim (Option-cases (find i frags)) [
      | inl e ↦
          omega
            (arith, absent_not count i (erase k frags) (same ∙ e), absent_not count i frags e, rest)
      | inr (frag, e) ↦
          let e' : find i (erase k frags) ≡ some frag = same ∙ e in
          omega (
            arith,
            absent_there count i (erase k frags) (ground (arith, e')),
            absent_there count i frags (ground (arith, e)),
            rest,
          )
    ]

-- Different slots hold different fragments.
slots_lem : (count i : ℕ) (frags : Frags) → count ≤ length frags + absent count i frags
slots_lem zero i frags = omega arith
slots_lem (suc count) i frags = elim (Option-cases (find i frags)) [
  | inl e ↦ omega (arith, absent_not count i frags e, slots_lem count (i + 1) frags)
  | inr (frag, e) ↦ omega (
    arith,
    absent_there count i frags (ground (arith, e)),
    slots_lem count (i + 1) (erase i frags),
    absent-erase count (i + 1) i frags (omega arith),
    length-erase_lt i frags frag e,
  )
]

absent-all :
    (count i : ℕ) (frags : Frags)
    → ((j : ℕ) → i ≤ j → j < i + count → contains j frags ≡ true)
    → absent count i frags ≡ 0
unfolding absent
absent-all zero i frags all = refl
absent-all (suc count) i frags all = omega (
  arith,
  absent_there count i frags (all i (omega arith) (omega arith)),
  absent-all count (i + 1) frags (λ j lo hi. all j (omega arith) (omega arith)),
)

absent-none :
    (count i : ℕ) (frags : Frags)
    → ((j : ℕ) → i ≤ j → j < i + count → find j frags ≡ none)
    → absent count i frags ≡ count
unfolding absent
absent-none zero i frags pads = refl
absent-none (suc count) i frags pads = omega (
  arith,
  absent_not count i frags (pads i (omega arith) (omega arith)),
  absent-none count (i + 1) frags (λ j lo hi. pads j (omega arith) (omega arith)),
)

decode_rest_complete :
    (isal : Isal) (k n len : ℕ) (frags : Frags) (packets : List (List ℕ))
    → length packets ≤ k
    → AllHeld frags 0 packets
    → ((i : ℕ) → length packets ≤ i → i < k → find i frags ≡ none)
    → decode_rest isal k n (length packets) frags len ≡ some (nonempty packets, 0)
unfolding decode_rest
decode_rest_complete isal k n len frags packets few held pads =
    let sdu_n = length packets in
    let present : (j : ℕ) → 0 ≤ j → j < 0 + k → have k sdu_n frags j ≡ true = λ j lo hi.
      elim (dec_lt j sdu_n) [
        | yes early ↦
            let there = held-contains frags 0 j packets held lo (omega arith) in
            ground (arith, there)
        | no late ↦ ground (arith, late, hi)
      ] in
    rw
      (
        decode_rest,
        none-missing (have k sdu_n frags) k 0 present,
        collect-packets frags k 0 packets few held (λ j lo hi. pads j (omega arith) (omega arith)),
      )
      refl

-- A block with all its systematic shards, each of which holds a packet, and with no shard for the
-- slots past its packets, decodes to the packets that are not empty, in the order of their indices,
-- with none recovered: also a block that was flushed before it was full, whatever other shards came
-- and in whatever order, and without a call of the erasure code. `n` is at most 15, as a header has
-- it; the indices of the shards are in range and each shard has a header.
pub decode_block_complete :
    (isal : Isal) (k n len : ℕ) (frags : Frags) (packets : List (List ℕ))
    → 1 ≤ k
    → k ≤ n
    → n ≤ 15
    → length packets ≤ k
    → longest_body n frags 2 ≡ some len
    → AllHeld frags 0 packets
    → ((i : ℕ) → length packets ≤ i → i < k → find i frags ≡ none)
    → decode_block isal k n (length packets) frags ≡ ok (nonempty packets, 0)
unfolding decode_block
decode_block_complete isal k n len frags packets hk hn h15 few long held pads =
    let sdu_n = length packets in
    let slots : k ≤ length frags + absent (k - sdu_n) sdu_n frags = omega (
      arith,
      slots_lem sdu_n 0 frags,
      absent-all sdu_n 0 frags (λ j lo hi. held-contains frags 0 j packets held lo hi),
      absent-none (k - sdu_n) sdu_n frags (λ j lo hi. pads j lo (omega arith)),
    ) in
    rw
      (
        decode_block,
        le→not_ltb k 1 hk,
        le→not_ltb n k hn,
        le→not_ltb 255 n (omega arith),
        le→not_ltb k sdu_n few,
        le→not_ltb (length frags + absent (k - sdu_n) sdu_n frags) k slots,
        lt→ltb k 16 (omega arith),
        lt→ltb n 16 (omega arith),
        long,
        decode_rest_complete isal k n len frags packets few held pads,
      )
      refl
