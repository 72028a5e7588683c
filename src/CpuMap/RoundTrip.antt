-- ===== src/CpuMap/RoundTrip.antt =====
-- A list of processors that is written reads back.
use vstreamer.Base.{
  ℕ, ℤ, List, suc, pos, ◌≡◌, All, dec_lt, ◌++◌, ◌<◌, negsuc, ◌≤◌, lt→ltb, none, ◌≢◌, [], ◌∷◌, arith,
  ◌^◌, le→not_ltb, refl, All-append, ◌/◌, ◌+◌, ◌%◌, zero, ok, ap, false, length, ◌-◌, ◌∙◌, true,
  length-append, ◌>>=◌, sym, not, append-nil, append_assoc,
}
use vstreamer.KeyUtil.{decimal, digits}
use vstreamer.KeyUtil.RoundTrip.{IsInt64, digits_start, key_parse_i64-decimal}
use vstreamer.Queues.{is_empty}
use vstreamer.CpuMap.{
  to_int, skip_separators, token, find_dash, splits, parse_single, parse_token, parse_tokens,
  parse_cpulist, format_more, format_cpulist,
}

-- The range of an int.
abbrev pub IsInt32 : ℤ → Type 0
IsInt32 (pos n) = n < 2 ^ 31
IsInt32 (negsuc n) = n < 2 ^ 31

to_int_same : (v : ℤ) → IsInt32 v → to_int v ≡ v
unfolding to_int
to_int_same (pos n) h = let low : n % 2 ^ 32 ≡ n = omega arith in rw (low, lt→ltb n (2 ^ 31) h) refl
to_int_same (negsuc n) h =
    let low : n % 2 ^ 32 ≡ n = omega arith in
    rw (low, le→not_ltb (2 ^ 32 - 1 - n) (2 ^ 31) (omega arith)) (ap negsuc (omega arith))

abbrev pub Digits : List ℕ → Type 0
Digits = All (λ c. (48 ≤ c) × (c ≤ 57))

pub digits-Digits : (fuel n : ℕ) → Digits (digits fuel n)
unfolding digits
digits-Digits zero n = tt
digits-Digits (suc fuel) n = elim (dec_lt n 10) [
  | yes small ↦ rw (lt→ltb n 10 small) ((omega arith, omega arith), tt)
  | no large ↦ rw (le→not_ltb n 10 (omega (arith, large))) (
      All-append (λ c. (48 ≤ c) × (c ≤ 57)) (digits fuel (n / 10)) ((48 + n % 10) ∷ [])
        (digits-Digits fuel (n / 10)) ((omega arith, omega arith), tt))
]

find_dash-Digits : (s : List ℕ) → Digits s → find_dash s ≡ none
unfolding find_dash
find_dash-Digits [] h = refl
find_dash-Digits (c ∷ s) ((lo, hi), h) = let ih = find_dash-Digits s h in ground (arith, ih)

-- No comma in it.
abbrev NoComma : List ℕ → Type 0
NoComma = All (λ c. c ≢ 44)

token_end : (s : List ℕ) → NoComma s → token s ≡ (s, [])
unfolding token
token_end [] h = refl
token_end (c ∷ s) (ne, h) = let ih = token_end s h in ground (arith, ih, ne)

token_comma : (s rest : List ℕ) → NoComma s → token (s ++ 44 ∷ rest) ≡ (s, rest)
unfolding token
token_comma [] rest h = refl
token_comma (c ∷ s) rest (ne, h) = let ih = token_comma s rest h in ground (arith, ih, ne)

Digits-NoComma : (s : List ℕ) → Digits s → NoComma s
Digits-NoComma [] h = tt
Digits-NoComma (c ∷ s) ((lo, hi), h) = (λ e. omega arith, Digits-NoComma s h)

decimal-NoComma : (v : ℤ) → NoComma (decimal v)
unfolding decimal
decimal-NoComma (pos n) = Digits-NoComma (digits 19 n) (digits-Digits 19 n)
decimal-NoComma (negsuc n) =
    (λ e. omega arith, Digits-NoComma (digits 19 (suc n)) (digits-Digits 19 (suc n)))

-- The first byte of a number separates nothing.
decimal_start : (v : ℤ) → (c : ℕ) × (s : List ℕ) × (decimal v ≡ c ∷ s) × (c ≢ 44) × (c ≢ 32)
unfolding decimal
decimal_start (pos n) =
    let (c, s, e, lo, hi) = digits_start 18 n in (c, s, e, λ f. omega arith, λ f. omega arith)
decimal_start (negsuc n) = (45, digits 19 (suc n), refl, λ f. omega arith, λ f. omega arith)

parse_single-decimal : (v : ℤ) → IsInt64 v → IsInt32 v → parse_single (decimal v) ≡ ok (v ∷ [])
unfolding parse_single
parse_single-decimal v wide h =
    ap (λ o. o >>= (λ w. ok (to_int w ∷ []))) (key_parse_i64-decimal v wide)
    ∙ ap (λ w. ok (w ∷ [])) (to_int_same v h)

no_split : (v : ℤ) → splits (decimal v) (find_dash (decimal v)) ≡ none
unfolding decimal find_dash
no_split (pos n) = ap (splits (digits 19 n)) (find_dash-Digits (digits 19 n) (digits-Digits 19 n))
no_split (negsuc n) = refl

parse_token_single : (t : List ℕ) → splits t (find_dash t) ≡ none → parse_token t ≡ parse_single t
unfolding parse_token
parse_token_single t e = ground (arith, e)

widen : (v : ℤ) → IsInt32 v → IsInt64 v
widen (pos n) h = omega arith
widen (negsuc n) h = omega arith

parse_token-decimal : (v : ℤ) → IsInt32 v → parse_token (decimal v) ≡ ok (v ∷ [])
parse_token-decimal v h =
    parse_token_single (decimal v) (no_split v) ∙ parse_single-decimal v (widen v h) h

skip_none : (c : ℕ) (s : List ℕ) → c ≢ 44 → c ≢ 32 → skip_separators (c ∷ s) ≡ c ∷ s
unfolding skip_separators
skip_none c s n44 n32 = ground arith

round_lem :
    (fuel c : ℕ) (s t rest : List ℕ) (vs out : List ℤ)
    → skip_separators (c ∷ s) ≡ c ∷ s
    → token (c ∷ s) ≡ (t, rest)
    → parse_token t ≡ ok vs
    → parse_tokens (suc fuel) (c ∷ s) out ≡ parse_tokens fuel rest (out ++ vs)
unfolding parse_tokens
round_lem fuel c s t rest vs out e et ep = ground (arith, e, et, ep)

-- One number and what follows it.
number_lem :
    (fuel : ℕ) (v : ℤ) (more rest : List ℕ) (out : List ℤ)
    → IsInt32 v
    → token (decimal v ++ more) ≡ (decimal v, rest)
    → parse_tokens (suc fuel) (decimal v ++ more) out ≡ parse_tokens fuel rest (out ++ v ∷ [])
number_lem fuel v more rest out h et =
    let (c, s, e, n44, n32) = decimal_start v in
    let at : decimal v ++ more ≡ c ∷ (s ++ more) = ap (λ l. l ++ more) e in
    ap (λ l. parse_tokens (suc fuel) l out) at
    ∙ round_lem fuel c (s ++ more) (decimal v) rest (v ∷ []) out (skip_none c (s ++ more) n44 n32)
        (ap token (sym at) ∙ et) (parse_token-decimal v h)

is_empty-snoc : (out : List ℤ) (v : ℤ) → is_empty (out ++ v ∷ []) ≡ false
is_empty-snoc [] v = refl
is_empty-snoc (x ∷ out) v = refl

parse_tokens_done :
    (fuel : ℕ) (out : List ℤ) (v : ℤ)
    → parse_tokens fuel [] (out ++ v ∷ []) ≡ ok (out ++ v ∷ [], true)
unfolding parse_tokens skip_separators
parse_tokens_done zero out v = ap (λ b. ok (out ++ v ∷ [], not b)) (is_empty-snoc out v)
parse_tokens_done (suc fuel) out v = ap (λ b. ok (out ++ v ∷ [], not b)) (is_empty-snoc out v)

parse_tokens-format :
    (fuel : ℕ) (v : ℤ) (vs out : List ℤ)
    → length vs < fuel
    → All IsInt32 (v ∷ vs)
    → parse_tokens fuel (decimal v ++ format_more vs) out ≡ ok (out ++ v ∷ vs, true)
unfolding format_more
parse_tokens-format zero v vs out h all = absurd (omega arith)
parse_tokens-format (suc fuel) v [] out h (hv, all) =
    number_lem fuel v [] [] out hv
      (ap token (append-nil (decimal v)) ∙ token_end (decimal v) (decimal-NoComma v))
    ∙ parse_tokens_done fuel out v
parse_tokens-format (suc fuel) v (w ∷ ws) out h (hv, all) =
    number_lem fuel v (44 ∷ decimal w ++ format_more ws) (decimal w ++ format_more ws) out hv
      (token_comma (decimal v) (decimal w ++ format_more ws) (decimal-NoComma v))
    ∙ parse_tokens-format fuel w ws (out ++ v ∷ []) (omega arith) all
    ∙ ap (λ l. ok (l, true)) (append_assoc out (v ∷ []) (w ∷ ws))

format_long : (v : ℤ) (vs : List ℤ) → length vs < length (decimal v ++ format_more vs)
unfolding format_more
format_long v [] =
    let (c, s, e, n44, n32) = decimal_start v in
    omega (arith, length-append (decimal v) [], ap length e)
format_long v (w ∷ ws) =
    let ih = format_long w ws in
    let (c, s, e, n44, n32) = decimal_start v in
    omega (arith, length-append (decimal v) (44 ∷ decimal w ++ format_more ws), ap length e)

-- A list of ints, one at least, that format_cpulist writes is read back by parse_cpulist.
pub parse_cpulist-format_cpulist :
    (v : ℤ) (vs : List ℤ)
    → All IsInt32 (v ∷ vs)
    → parse_cpulist (format_cpulist (v ∷ vs)) ≡ ok (v ∷ vs, true)
unfolding parse_cpulist format_cpulist
parse_cpulist-format_cpulist v vs all =
    let spec = decimal v ++ format_more vs in
    let (c, s, e, n44, n32) = decimal_start v in
    let some_bytes : is_empty spec ≡ false = ap (λ l. is_empty (l ++ format_more vs)) e in
    rw some_bytes (parse_tokens-format (length spec) v vs [] (format_long v vs) all)
