-- ===== src/Base/Bits.antt =====
-- Casts to the fixed widths, shifts, and `&` and `|` on fields of bits.
use Prim.Native.Nat.{ℕ, zero, suc, ◌+◌, ◌-◌, ◌*◌, ◌/◌, ◌%◌, ◌^◌, ◌≤◌, ◌<◌, min, max}
use Prim.Native.Nat.{bit_and, bit_or, digits, bit_or-bitwise, bit_and-bitwise}
use mathlib.Core.Path.{◌≡◌, refl, sym, ap, subst, ◌∙◌}
use mathlib.Core.Bool.{Bool, true, false, ◌&&◌}
use native.Mathlib.Nat.{pow-suc, one-le-pow, mod-lt, div-add-mod'}
use native.Mathlib.Omega.{arith}
use native.Mathlib.Decide.{dec_lt}
use vstreamer.Base.Tests.{◌==◌, ==_iff}

abbrev pub u8 : ℕ → ℕ
u8 n = n % 2 ^ 8

abbrev pub u16 : ℕ → ℕ
u16 n = n % 2 ^ 16

abbrev pub u32 : ℕ → ℕ
u32 n = n % 2 ^ 32

abbrev pub u64 : ℕ → ℕ
u64 n = n % 2 ^ 64

infixl 75 ◌<<<◌ ◌>>>◌
abbrev pub ◌<<<◌ : ℕ → ℕ → ℕ
x <<< k = x * 2 ^ k

abbrev pub ◌>>>◌ : ℕ → ℕ → ℕ
x >>> k = x / 2 ^ k

abbrev pub IsByte : ℕ → Type 0
IsByte x = x < 256

-- Digits of `a` above bit `k`, digits of `r` below it: the two do not meet.
or_digits : (n k a q r : ℕ) → a ≤ n → a ≡ q * 2 ^ k → r < 2 ^ k → digits (λ b. b) max n a r ≡ a + r
or_digits zero k zero q r le e lt = omega arith
or_digits zero k (suc a) q r le e lt = absurd (omega arith)
or_digits (suc n) k zero q r le e lt = omega arith
or_digits (suc n) zero (suc a) q r le e lt = omega (
  arith,
  or_digits n zero (suc a / 2) (suc a / 2) (r / 2) (omega arith) (omega arith) (omega arith),
)
or_digits (suc n) (suc k) (suc a) q r le e lt =
    let double : suc a ≡ 2 * (q * 2 ^ k) = omega (arith, ap (λ (t : ℕ). q * t) (pow-suc 2 k)) in
    omega (
      arith,
      pow-suc 2 k,
      double,
      or_digits n k (suc a / 2) q (r / 2) (omega arith) (omega arith) (omega (arith, pow-suc 2 k)),
    )

-- `(q << k) | r` is a sum when `r` fits `k` bits.
pub bit_or_sum : (k q r : ℕ) → r < 2 ^ k → bit_or (q <<< k) r ≡ q * 2 ^ k + r
bit_or_sum k q r h =
    bit_or-bitwise (q <<< k) r ∙ or_digits (q <<< k) k (q <<< k) q r (omega arith) refl h

and_left : (a b : Bool) → a && b ≡ true → a ≡ true
and_left true b h = refl
and_left false b h = h

and_right : (a b : Bool) → a && b ≡ true → b ≡ true
and_right true b h = h
and_right false b h = ground (arith, h)

-- A test that passes on 0, 1, 2 and so on up to a bound, as it is evaluated.
unfoldable pub checked_below : ℕ → (ℕ → Bool) → Bool
checked_below zero passes = true
checked_below (suc m) passes = checked_below m passes && passes m

pub checked_at :
    (bound : ℕ) (passes : ℕ → Bool) (at : ℕ)
    → checked_below bound passes ≡ true
    → at < bound
    → passes at ≡ true
unfolding checked_below
checked_at zero passes at all inside = absurd (omega arith)
checked_at (suc m) passes at all inside = elim (dec_lt at m) [
  | yes below ↦ checked_at m passes at (and_left (checked_below m passes) (passes m) all) below
  | no above ↦
      subst (λ n. passes n ≡ true) (omega arith) (and_right (checked_below m passes) (passes m) all)
]

pub byte_table :
    (f g : ℕ → ℕ) → checked_below 256 (λ x. f x == g x) ≡ true → (x : ℕ) → IsByte x → f x ≡ g x
byte_table f g agree x h = (==_iff _ _).0 (checked_at 256 _ x agree h)

-- A mask of ones keeps the digits below its length.
and_digits :
    (n k a m q r : ℕ)
    → a ≤ n
    → a ≡ q * 2 ^ k + r
    → r < 2 ^ k
    → suc m ≡ 2 ^ k
    → digits (λ b. zero) min n a m ≡ r
and_digits zero k zero m q r le e lt ones = omega arith
and_digits zero k (suc a) m q r le e lt ones = absurd (omega arith)
and_digits (suc n) k zero m q r le e lt ones = omega arith
and_digits (suc n) zero (suc a) m q r le e lt ones = omega (
  arith,
  and_digits n zero (suc a / 2) (m / 2) (suc a / 2) 0 (omega arith) (omega arith) (omega arith)
      (omega arith),
)
and_digits (suc n) (suc k) (suc a) m q r le e lt ones =
    let double : suc a ≡ 2 * (q * 2 ^ k) + r = omega (arith, ap (λ (t : ℕ). q * t) (pow-suc 2 k)) in
    omega (
      arith,
      pow-suc 2 k,
      double,
      and_digits n k (suc a / 2) (m / 2) q (r / 2) (omega arith) (omega arith)
          (omega (arith, pow-suc 2 k)) (omega (arith, pow-suc 2 k)),
    )

-- `a & (2 ^ k - 1)` is the remainder by `2 ^ k`.
pub bit_and_low : (k a : ℕ) → bit_and a (2 ^ k - 1) ≡ a % 2 ^ k
bit_and_low k a =
    bit_and-bitwise a (2 ^ k - 1)
    ∙ and_digits a k a (2 ^ k - 1) (a / 2 ^ k) (a % 2 ^ k) (omega arith)
        (sym (div-add-mod' a (2 ^ k))) (mod-lt a (one-le-pow k 2 (omega arith)))
        (omega (arith, one-le-pow k 2 (omega arith)))

-- Two and four bytes in network order, `(a << 8) | b` and so on, are the sums of their weights.
pub be16_sum : (a b : ℕ) → IsByte b → bit_or (a <<< 8) b ≡ a * 256 + b
be16_sum a b hb = bit_or_sum 8 a b hb

pub be32_sum :
    (a b c d : ℕ)
    → IsByte b
    → IsByte c
    → IsByte d
    → bit_or (bit_or (bit_or (a <<< 24) (b <<< 16)) (c <<< 8)) d
      ≡ a * 2 ^ 24 + b * 2 ^ 16 + c * 2 ^ 8 + d
be32_sum a b c d hb hc hd =
    rw
      (
        bit_or_sum 24 a (b <<< 16) (omega arith),
        three,
        bit_or_sum 16 (a * 2 ^ 8 + b) (c <<< 8) (omega arith),
        two,
        bit_or_sum 8 ((a * 2 ^ 8 + b) * 2 ^ 8 + c) d (omega arith),
      )
      (omega arith)
  where
    three : a * 2 ^ 24 + (b <<< 16) ≡ (a * 2 ^ 8 + b) <<< 16
    three = omega arith

    two : (a * 2 ^ 8 + b) * 2 ^ 16 + (c <<< 8) ≡ ((a * 2 ^ 8 + b) * 2 ^ 8 + c) <<< 8
    two = omega arith
