-- ===== src/KeyUtil/RoundTrip.antt =====
-- A number that is written reads back.
use vstreamer.Base.{
  ℕ, List, length, ◌≤◌, ℤ, ◌<◌, suc, arith, pos, ◌≡◌, ok, ◌+◌, ◌^◌, ◌∷◌, ◌/◌, dec_lt, length-append,
  some, negsuc, ◌*◌, ◌++◌, ap, [], ◌-◌, ◌%◌, le→leb, lt→ltb, zero, ◌∙◌, refl, le→not_ltb,
  append_assoc, sym, take_all, append-nil, take,
}
use vstreamer.KeyUtil.{
  read_digits, magnitude, from_chars, key_parse_i64, digits, decimal, key_format_i64,
}

read_digit :
    (acc d : ℕ) (s : List ℕ)
    → d < 10
    → read_digits acc ((48 + d) ∷ s) ≡ read_digits (acc * 10 + d) s
unfolding read_digits
read_digit acc d s h =
    let e : 48 + d - 48 ≡ d = omega arith in
    rw (le→leb 48 (48 + d) (omega arith), le→leb (48 + d) 57 (omega arith), e) refl

read_digits-digits :
    (fuel n : ℕ) (rest : List ℕ)
    → n < 10 ^ fuel
    → read_digits 0 (digits fuel n ++ rest) ≡ read_digits n rest
unfolding digits
read_digits-digits zero n rest h = ap (λ k. read_digits k rest) (omega arith)
read_digits-digits (suc fuel) n rest h = elim (dec_lt n 10) [
  | yes small ↦
      rw (lt→ltb n 10 small)
        (read_digit 0 n rest small ∙ ap (λ k. read_digits k rest) (omega arith))
  | no large ↦
      let e : n / 10 * 10 + n % 10 ≡ n = omega arith in
      rw (le→not_ltb n 10 (omega (arith, large))) (
        ap (read_digits 0) (append_assoc (digits fuel (n / 10)) ((48 + n % 10) ∷ []) rest)
        ∙ read_digits-digits fuel (n / 10) ((48 + n % 10) ∷ rest) (omega arith)
        ∙ read_digit (n / 10) (n % 10) rest (omega arith)
        ∙ ap (λ k. read_digits k rest) e)
]

-- The digits start with one.
pub digits_start :
    (fuel n : ℕ) → (c : ℕ) × (s : List ℕ) × (digits (suc fuel) n ≡ c ∷ s) × (48 ≤ c) × (c ≤ 57)
unfolding digits
digits_start zero n = elim (dec_lt n 10) [
  | yes small ↦ (48 + n, [], rw (lt→ltb n 10 small) refl, omega arith, omega arith)
  | no large ↦
      (48 + n % 10, [], rw (le→not_ltb n 10 (omega (arith, large))) refl, omega arith, omega arith)
]
digits_start (suc fuel) n = elim (dec_lt n 10) [
  | yes small ↦ (48 + n, [], rw (lt→ltb n 10 small) refl, omega arith, omega arith)
  | no large ↦
      let (c, s, e, lo, hi) = digits_start fuel (n / 10) in
      (
        c,
        s ++ (48 + n % 10) ∷ [],
        rw (le→not_ltb n 10 (omega (arith, large))) (ap (λ l. l ++ (48 + n % 10) ∷ []) e),
        lo,
        hi,
      )
]

length-digits : (fuel n : ℕ) → length (digits fuel n) ≤ fuel
unfolding digits
length-digits zero n = omega arith
length-digits (suc fuel) n =
    let ih = length-digits fuel (n / 10) in
    let sum = length-append (digits fuel (n / 10)) ((48 + n % 10) ∷ []) in ground arith

read_none : (n : ℕ) → read_digits n [] ≡ (n, [])
unfolding read_digits
read_none n = refl

magnitude_lem :
    (bound c n : ℕ) (s : List ℕ)
    → 48 ≤ c
    → c ≤ 57
    → read_digits 0 (c ∷ s) ≡ (n, [])
    → n ≤ bound
    → magnitude bound (c ∷ s) ≡ some (n, [])
unfolding magnitude
magnitude_lem bound c n s lo hi e h = ground (arith, e)

-- What from_chars makes of the digits of a number.
magnitude-digits :
    (bound n : ℕ) → n ≤ bound → n < 10 ^ 19 → magnitude bound (digits 19 n) ≡ some (n, [])
unfolding magnitude
magnitude-digits bound n h l =
    let (c, s, e, lo, hi) = digits_start 18 n in
    let read : read_digits 0 (c ∷ s) ≡ (n, []) =
      ap (read_digits 0) (sym (append-nil (digits 19 n) ∙ e))
      ∙ read_digits-digits 19 n [] l
      ∙ read_none n in
    ap (magnitude bound) e ∙ magnitude_lem bound c n s lo hi read h

-- The range of an int64_t.
abbrev pub IsInt64 : ℤ → Type 0
IsInt64 (pos n) = n < 2 ^ 63
IsInt64 (negsuc n) = n < 2 ^ 63

parse_magnitude :
    (c n : ℕ) (s : List ℕ)
    → 48 ≤ c
    → magnitude (2 ^ 63 - 1) (c ∷ s) ≡ some (n, [])
    → key_parse_i64 (c ∷ s) ≡ ok (pos n)
unfolding key_parse_i64 from_chars
parse_magnitude c n s lo e = ground (arith, e)

parse_negative :
    (n : ℕ) (s : List ℕ)
    → magnitude (2 ^ 63) s ≡ some (suc n, [])
    → key_parse_i64 (45 ∷ s) ≡ ok (negsuc n)
unfolding key_parse_i64 from_chars
parse_negative n s e = ground (arith, e)

pub key_parse_i64-decimal : (v : ℤ) → IsInt64 v → key_parse_i64 (decimal v) ≡ ok v
unfolding decimal
key_parse_i64-decimal (pos n) h =
    let (c, s, e, lo, hi) = digits_start 18 n in
    let m : magnitude (2 ^ 63 - 1) (c ∷ s) ≡ some (n, []) =
      ap (magnitude (2 ^ 63 - 1)) (sym e)
      ∙ magnitude-digits (2 ^ 63 - 1) n (omega arith) (omega arith) in
    ap key_parse_i64 e ∙ parse_magnitude c n s lo m
key_parse_i64-decimal (negsuc n) h =
    parse_negative n (digits 19 (suc n))
      (magnitude-digits (2 ^ 63) (suc n) (omega arith) (omega arith))

pub length-decimal : (v : ℤ) → length (decimal v) ≤ 20
unfolding decimal
length-decimal (pos n) = omega (arith, length-digits 19 n)
length-decimal (negsuc n) = omega (arith, length-digits 19 (suc n))

-- Every int64_t that key_format_i64 writes into a buffer of at least 21 bytes, key_parse_i64 reads
-- back.
pub key_parse_i64-key_format_i64 :
    (v : ℤ) (size : ℕ)
    → IsInt64 v
    → 21 ≤ size
    → (s : List ℕ) × (key_format_i64 v size ≡ ok s) × (key_parse_i64 s ≡ ok v)
unfolding key_format_i64
key_parse_i64-key_format_i64 v size h room =
    let whole = take_all (decimal v) (size - 1) (omega (arith, length-decimal v)) in
    (take (size - 1) (decimal v), ground arith, ap key_parse_i64 whole ∙ key_parse_i64-decimal v h)
