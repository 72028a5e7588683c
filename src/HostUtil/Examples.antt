-- ===== src/HostUtil/Examples.antt =====
-- A host with its port at concrete values.
use vstreamer.Base.{ℕ, List, ap, ◌∷◌, Outcome, ℤ, pos, ok, ◌≡◌, [], err, arith, fault, einval, refl}
use vstreamer.KeyUtil.{decimal, digits, key_parse_i64}
use vstreamer.KeyUtil.RoundTrip.{key_parse_i64-decimal}
use vstreamer.CpuMap.{split_at}
use vstreamer.HostUtil.{parse_host_port, c_string, parse_sides, take_host, checked_port}
use vstreamer.HostUtil.Parsed.{IsParsed, parse_host_port-IsParsed}
use vstreamer.HostUtil.RoundTrip.{ReadsDecimal, parse_host_port-join}

abbrev read_value : List ℕ → Outcome ℤ → ℤ × List ℕ
read_value s (ok v) = (v, [])
read_value s (err e) = (pos 0, s)
read_value s fault = (pos 0, s)

-- A strtol that reads a whole string or nothing of it.
abbrev whole_strtol : List ℕ → ℤ × List ℕ
whole_strtol s = read_value s (key_parse_i64 s)

whole_strtol-ReadsDecimal : ReadsDecimal whole_strtol
whole_strtol-ReadsDecimal n h = ap (read_value (decimal (pos n))) (key_parse_i64-decimal (pos n) h)

-- The host `pi`, port 5004.
parse_host_port-join_example :
    parse_host_port whole_strtol 64 (112 ∷ 105 ∷ 58 ∷ decimal (pos 5004))
    ≡ ok (112 ∷ 105 ∷ [], 5004)
unfolding decimal digits
parse_host_port-join_example =
    parse_host_port-join whole_strtol 64 5004 112 (105 ∷ []) whole_strtol-ReadsDecimal
      ((λ e. omega arith, λ e. omega arith), ((λ e. omega arith, λ e. omega arith), tt))
      (omega arith) (omega arith) (omega arith) (omega arith)

parse_host_port-IsParsed_example :
    IsParsed 64
      (112 ∷ 105 ∷ 58 ∷ 56 ∷ 48 ∷ [])
      (parse_host_port whole_strtol 64 (112 ∷ 105 ∷ 58 ∷ 56 ∷ 48 ∷ []))
parse_host_port-IsParsed_example =
    parse_host_port-IsParsed whole_strtol 64 (112 ∷ 105 ∷ 58 ∷ 56 ∷ 48 ∷ [])

-- A buffer of two bytes has no room for `pi` and its byte 0.
test_no_room : parse_host_port whole_strtol 2 (112 ∷ 105 ∷ 58 ∷ 56 ∷ 48 ∷ []) ≡ err einval
unfolding parse_host_port c_string split_at parse_sides take_host checked_port key_parse_i64
test_no_room = refl
