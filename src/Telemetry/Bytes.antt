-- ===== src/Telemetry/Bytes.antt =====
-- The bytes of a number in network order, and the number of the bytes.
use vstreamer.Telemetry.{put_be16, put_be32, put_be64}
use vstreamer.Base.{
  ℕ, ◌%◌, ◌^◌, ◌<◌, ◌≡◌, arith, u8, u16, u32, ◌<<<◌, ◌>>>◌, bit_and, bit_or, bit_and_low,
  bit_or_sum, be16_sum, be32_sum, IsByte, ◌∷◌, [], ◌*◌, ◌+◌, All, ap₂, ◌++◌, ap, ◌∙◌,
}

abbrev pub byte_of : ℕ → ℕ
byte_of v = u8 (bit_and v 0xff)

abbrev pub be32_of : ℕ → ℕ → ℕ → ℕ → ℕ
be32_of a b c d = bit_or (bit_or (bit_or (a <<< 24) (b <<< 16)) (c <<< 8)) d

pub byte_of_lem : (v : ℕ) → byte_of v ≡ v % 256
byte_of_lem v = omega (arith, bit_and_low 8 v)

pub be16_of_bytes : (v : ℕ) → v < 2 ^ 16 → u16 (bit_or (byte_of (v >>> 8) <<< 8) (byte_of v)) ≡ v
be16_of_bytes v h = omega (
  arith,
  be16_sum (byte_of (v >>> 8)) (byte_of v) (omega arith),
  byte_of_lem v,
  byte_of_lem (v >>> 8),
)

pub be32_of_bytes :
    (v : ℕ)
    → v < 2 ^ 32
    → be32_of (byte_of (v >>> 24)) (byte_of (v >>> 16)) (byte_of (v >>> 8)) (byte_of v) ≡ v
be32_of_bytes v h = omega (
  arith,
  be32_sum (byte_of (v >>> 24)) (byte_of (v >>> 16)) (byte_of (v >>> 8)) (byte_of v) (omega arith)
      (omega arith) (omega arith),
  byte_of_lem v,
  byte_of_lem (v >>> 8),
  byte_of_lem (v >>> 16),
  byte_of_lem (v >>> 24),
)

pub be64_of_halves : (v : ℕ) → v < 2 ^ 64 → bit_or (u32 (v >>> 32) <<< 32) (u32 (v % 2 ^ 32)) ≡ v
be64_of_halves v h = omega (arith, bit_or_sum 32 (u32 (v >>> 32)) (u32 (v % 2 ^ 32)) (omega arith))

pub be64_of_bytes :
    (v : ℕ)
    → v < 2 ^ 64
    → bit_or
        (be32_of
            (byte_of (u32 (v >>> 32) >>> 24))
            (byte_of (u32 (v >>> 32) >>> 16))
            (byte_of (u32 (v >>> 32) >>> 8))
            (byte_of (u32 (v >>> 32)))
          <<< 32)
        (be32_of
          (byte_of (u32 (v % 2 ^ 32) >>> 24))
          (byte_of (u32 (v % 2 ^ 32) >>> 16))
          (byte_of (u32 (v % 2 ^ 32) >>> 8))
          (byte_of (u32 (v % 2 ^ 32))))
      ≡ v
be64_of_bytes v h =
    rw
      (be32_of_bytes (u32 (v >>> 32)) (omega arith), be32_of_bytes (u32 (v % 2 ^ 32)) (omega arith))
      (be64_of_halves v h)

-- The other way round: the bytes of a number that was put together from bytes.
pub bytes_of_be16 :
    (a b : ℕ) → IsByte a → IsByte b → put_be16 (u16 (bit_or (a <<< 8) b)) ≡ a ∷ b ∷ []
unfolding put_be16
bytes_of_be16 a b ha hb =
    rw
      (
        be16_sum a b hb,
        byte_of_lem ((a * 256 + b) % 2 ^ 16),
        byte_of_lem (((a * 256 + b) % 2 ^ 16) >>> 8),
      )
      (ground arith)

pub bytes_of_be32 :
    (a b c d : ℕ)
    → IsByte a
    → IsByte b
    → IsByte c
    → IsByte d
    → put_be32 (be32_of a b c d) ≡ a ∷ b ∷ c ∷ d ∷ []
unfolding put_be32
bytes_of_be32 a b c d ha hb hc hd =
    let e = be32_sum a b c d hb hc hd in
    ground (
      arith,
      e,
      byte_of_lem (be32_of a b c d),
      byte_of_lem (be32_of a b c d >>> 8),
      byte_of_lem (be32_of a b c d >>> 16),
      byte_of_lem (be32_of a b c d >>> 24),
    )

be32_of-lt : (a b c d : ℕ) → IsByte a → IsByte b → IsByte c → IsByte d → be32_of a b c d < 2 ^ 32
be32_of-lt a b c d ha hb hc hd = omega (arith, be32_sum a b c d hb hc hd)

pub bytes_of_be64 :
    (a b c d e f g h : ℕ)
    → All IsByte (a ∷ b ∷ c ∷ d ∷ e ∷ f ∷ g ∷ h ∷ [])
    → put_be64 (bit_or (be32_of a b c d <<< 32) (be32_of e f g h))
      ≡ a ∷ b ∷ c ∷ d ∷ e ∷ f ∷ g ∷ h ∷ []
bytes_of_be64 a b c d e f g h (ha, (hb, (hc, (hd, (he, (hf, (hg, (hh, _)))))))) =
    let hi = be32_of-lt a b c d ha hb hc hd in
    let lo = be32_of-lt e f g h he hf hg hh in
    let sum = bit_or_sum 32 (be32_of a b c d) (be32_of e f g h) lo in
    let top : u32 (bit_or (be32_of a b c d <<< 32) (be32_of e f g h) >>> 32) ≡ be32_of a b c d =
      omega (arith, sum) in
    let low : u32 (bit_or (be32_of a b c d <<< 32) (be32_of e f g h) % 2 ^ 32) ≡ be32_of e f g h =
      omega (arith, sum) in
    unfold put_be64 in
    ap₂ ◌++◌ (ap put_be32 top ∙ bytes_of_be32 a b c d ha hb hc hd)
      (ap put_be32 low ∙ bytes_of_be32 e f g h he hf hg hh)
