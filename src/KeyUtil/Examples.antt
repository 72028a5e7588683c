-- ===== src/KeyUtil/Examples.antt =====
-- Tests of the decimal integers.
use vstreamer.Base.{ℕ, pos, List, ◌∷◌, [], ◌≡◌, negsuc, ok, err, einval, arith, refl}
use vstreamer.KeyUtil.{
  key_parse_i64, key_format_i64, from_chars, magnitude, read_digits, decimal, digits,
}
use vstreamer.KeyUtil.RoundTrip.{key_parse_i64-key_format_i64}

-- "-1200" and the refused "12x", "+5" and "-".
test_negative : key_parse_i64 (45 ∷ 49 ∷ 50 ∷ 48 ∷ 48 ∷ []) ≡ ok (negsuc 1199)
unfolding key_parse_i64 from_chars magnitude read_digits
test_negative = refl

test_tail : key_parse_i64 (49 ∷ 50 ∷ 120 ∷ []) ≡ err einval
unfolding key_parse_i64 from_chars magnitude read_digits
test_tail = refl

test_plus : key_parse_i64 (43 ∷ 53 ∷ []) ≡ err einval
unfolding key_parse_i64
test_plus = refl

test_sign : key_parse_i64 (45 ∷ []) ≡ err einval
unfolding key_parse_i64 from_chars magnitude
test_sign = refl

-- A buffer of 4 bytes cuts "12345" to "123".
test_cut : key_format_i64 (pos 12345) 4 ≡ ok (49 ∷ 50 ∷ 51 ∷ [])
unfolding key_format_i64 decimal digits
test_cut = refl

key_parse_i64-key_format_i64_example :
    (s : List ℕ) × (key_format_i64 (negsuc 41) 32 ≡ ok s) × (key_parse_i64 s ≡ ok (negsuc 41))
key_parse_i64-key_format_i64_example =
    key_parse_i64-key_format_i64 (negsuc 41) 32 (omega arith) (omega arith)
