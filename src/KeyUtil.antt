-- ===== src/KeyUtil.antt =====
-- src/core/key_util.hpp: decimal integers in the keys of the components. A string is its bytes.
pub mod RoundTrip
pub mod Examples
use vstreamer.Base.{
  ℕ, Bool, List, ℤ, Option, leb, ◌∷◌, if◌then◌else◌, none, pos, some, Outcome, [], ◌&&◌, ◌*◌, suc,
  ◌==◌, err, negsuc, ◌+◌, ◌^◌, einval, ◌/◌, zero, ◌-◌, ok, ltb, ◌++◌, take, ◌%◌,
}

abbrev pub is_digit : ℕ → Bool
is_digit c = leb 48 c && leb c 57

-- The digits at the start, as a number beside `acc`, and what follows them.
unfoldable pub read_digits : ℕ → List ℕ → ℕ × List ℕ
read_digits acc [] = (acc, [])
read_digits acc (c ∷ s) =
    let rest = read_digits (acc * 10 + (c - 48)) s in if is_digit c then rest else (acc, c ∷ s)

-- Without a digit, or above the bound, there is no value.
abbrev pub in_range : ℕ → ℕ × List ℕ → Option (ℕ × List ℕ)
in_range bound r = if leb r.0 bound then some r else none

unfoldable pub magnitude : ℕ → List ℕ → Option (ℕ × List ℕ)
unfolding read_digits
magnitude bound [] = none
magnitude bound (c ∷ s) = if is_digit c then in_range bound (read_digits 0 (c ∷ s)) else none

abbrev pub negate : ℕ → ℤ
negate zero = pos 0
negate (suc n) = negsuc n

abbrev pub positive : Option (ℕ × List ℕ) → Option (ℤ × List ℕ)
positive none = none
positive (some (n, rest)) = some (pos n, rest)

abbrev pub negative : Option (ℕ × List ℕ) → Option (ℤ × List ℕ)
negative none = none
negative (some (n, rest)) = some (negate n, rest)

-- std::from_chars of an int64_t in base 10: no space and no '+' before it, and `none` for an error.
unfoldable pub from_chars : List ℕ → Option (ℤ × List ℕ)
unfolding magnitude
from_chars [] = none
from_chars (c ∷ s) =
    if c == 45 then negative (magnitude (2 ^ 63) s) else positive (magnitude (2 ^ 63 - 1) (c ∷ s))

abbrev pub whole_value : Option (ℤ × List ℕ) → Outcome ℤ
whole_value none = err einval
whole_value (some (v, [])) = ok v
whole_value (some (v, c ∷ rest)) = err einval

-- key_parse_i64, `out` not null.
unfoldable pub key_parse_i64 : List ℕ → Outcome ℤ
unfolding from_chars
key_parse_i64 [] = err einval
key_parse_i64 (c ∷ s) = if c == 43 then err einval else whole_value (from_chars (c ∷ s))

-- The decimal digits; an int64_t has 19 at most.
unfoldable pub digits : ℕ → ℕ → List ℕ
digits zero n = []
digits (suc fuel) n =
    let rest = digits fuel (n / 10) in
    if ltb n 10 then (48 + n) ∷ [] else rest ++ (48 + n % 10) ∷ []

unfoldable pub decimal : ℤ → List ℕ
decimal (pos n) = digits 19 n
decimal (negsuc n) = 45 ∷ digits 19 (suc n)

-- key_format_i64 into a buffer of `n` bytes: the string that is in it then. snprintf cuts it off.
unfoldable pub key_format_i64 : ℤ → ℕ → Outcome (List ℕ)
key_format_i64 v n = if n == 0 then err einval else ok (take (n - 1) (decimal v))
