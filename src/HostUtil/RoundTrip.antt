-- ===== src/HostUtil/RoundTrip.antt =====
-- A host and a port that are joined by a colon read back.
use vstreamer.Base.{
  ℕ, List, pos, ℤ, All, ◌≡◌, ◌++◌, ◌<◌, length, ◌^◌, ◌≢◌, ◌∷◌, ◌≤◌, some, [], arith, ap, ok, ◌==◌,
  sym, ◌∙◌, ◌||◌, refl, leb, false,
}
use vstreamer.Queues.{is_empty}
use vstreamer.CpuMap.{split_at}
use vstreamer.KeyUtil.{decimal, digits}
use vstreamer.KeyUtil.RoundTrip.{digits_start}
use vstreamer.CpuMap.RoundTrip.{Digits, digits-Digits}
use vstreamer.HostUtil.{c_string, checked_port, take_host, parse_sides, parse_host_port}

-- strtol reads the digits of a long and leaves nothing of them.
abbrev pub ReadsDecimal : (List ℕ → ℤ × List ℕ) → Type 0
ReadsDecimal strtol = (n : ℕ) → n < 2 ^ 63 → strtol (decimal (pos n)) ≡ (pos n, [])

-- A name without the byte 0 and without a colon.
abbrev pub IsName : List ℕ → Type 0
IsName = All (λ c. (c ≢ 0) × (c ≢ 58))

c_string-Digits : (s : List ℕ) → Digits s → c_string s ≡ s
unfolding c_string
c_string-Digits [] h = refl
c_string-Digits (c ∷ s) ((lo, hi), h) = let ih = c_string-Digits s h in ground (arith, ih)

c_string-decimal : (p : ℕ) → c_string (decimal (pos p)) ≡ decimal (pos p)
unfolding decimal
c_string-decimal p = c_string-Digits (digits 19 p) (digits-Digits 19 p)

c_string-join :
    (host s : List ℕ) → IsName host → c_string s ≡ s → c_string (host ++ 58 ∷ s) ≡ host ++ 58 ∷ s
unfolding c_string
c_string-join [] s h e = ap (λ l. 58 ∷ l) e
c_string-join (c ∷ host) s ((n0, n58), h) e =
    let ih = c_string-join host s h e in ground (arith, ih, n0)

split_at-join : (host s : List ℕ) → IsName host → split_at 58 (host ++ 58 ∷ s) ≡ some (host, s)
unfolding split_at
split_at-join [] s h = refl
split_at-join (c ∷ host) s ((n0, n58), h) =
    let ih = split_at-join host s h in ground (arith, ih, n58)

checked_port_lem :
    (c p : ℕ) (s : List ℕ) → 0 < p → p ≤ 65535 → checked_port (c ∷ s) (pos p, []) ≡ some p
unfolding checked_port
checked_port_lem c p s lo hi = ground (arith, lo, hi)

take_host_lem :
    (host_cap p : ℕ) (host : List ℕ)
    → length host < host_cap
    → take_host host_cap host (some p) ≡ ok (host, p)
unfolding take_host
take_host_lem host_cap p host h = ground (arith, h)

parse_sides_lem :
    (strtol : List ℕ → ℤ × List ℕ) (host_cap p h : ℕ) (host : List ℕ)
    → ReadsDecimal strtol
    → 0 < p
    → p ≤ 65535
    → length (h ∷ host) < host_cap
    → parse_sides strtol host_cap (some (h ∷ host, decimal (pos p))) ≡ ok (h ∷ host, p)
unfolding parse_sides decimal
parse_sides_lem strtol host_cap p h host reads lo hi room =
    let (c, s, e, l, u) = digits_start 18 p in
    let value : strtol (c ∷ s) ≡ (pos p, []) = ap strtol (sym e) ∙ reads p (omega arith) in
    ap (λ l. parse_sides strtol host_cap (some (h ∷ host, l))) e
    ∙ ap (λ r. take_host host_cap (h ∷ host) (checked_port (c ∷ s) r)) value
    ∙ ap (take_host host_cap (h ∷ host)) (checked_port_lem c p s lo hi)
    ∙ take_host_lem host_cap p (h ∷ host) room

spec_tests :
    (host_cap h : ℕ) (s : List ℕ)
    → 0 < host_cap
    → length (h ∷ s) < 256
    → (host_cap == 0 || is_empty (h ∷ s) || leb 256 (length (h ∷ s))) ≡ false
spec_tests host_cap h s room short = ground (arith, room, short)

-- A host that is not empty, has no colon and no byte 0 and fits the caller's buffer, and a port from
-- 1 to 65535, joined by a colon into fewer than 256 bytes, are read back by parse_host_port, given
-- that strtol reads decimal digits.
pub parse_host_port-join :
    (strtol : List ℕ → ℤ × List ℕ) (host_cap p h : ℕ) (host : List ℕ)
    → ReadsDecimal strtol
    → IsName (h ∷ host)
    → length (h ∷ host) < host_cap
    → 0 < p
    → p ≤ 65535
    → length (h ∷ host ++ 58 ∷ decimal (pos p)) < 256
    → parse_host_port strtol host_cap (h ∷ host ++ 58 ∷ decimal (pos p)) ≡ ok (h ∷ host, p)
unfolding parse_host_port
parse_host_port-join strtol host_cap p h host reads name room lo hi short =
    let tail = host ++ 58 ∷ decimal (pos p) in
    let whole = c_string-join (h ∷ host) (decimal (pos p)) name (c_string-decimal p) in
    rw (spec_tests host_cap h tail (omega arith) short) (
      ap (λ l. parse_sides strtol host_cap (split_at 58 l)) whole
      ∙ ap (parse_sides strtol host_cap) (split_at-join (h ∷ host) (decimal (pos p)) name)
      ∙ parse_sides_lem strtol host_cap p h host reads lo hi room)
