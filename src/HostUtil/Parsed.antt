-- ===== src/HostUtil/Parsed.antt =====
-- What parse_host_port accepts, whatever strtol does.
use vstreamer.Base.{
  ℕ, List, Option, Bool, ltb, Outcome, some, ◌≡◌, ◌∷◌, All, ℤ, ◌&&◌, ok, ◌≢◌, true, ◌<◌, leb, pos,
  false, ◌++◌, subst, ◌==◌, if◌then◌else◌, length, [], arith, ◌≤◌, negsuc, err, ◌||◌, none, einval,
  ap, refl, fault,
}
use vstreamer.Queues.{is_empty}
use vstreamer.CpuMap.{split_at}
use vstreamer.HostUtil.{c_string, checked_port, take_host, parse_sides, parse_host_port}
use vstreamer.HostUtil.RoundTrip.{IsName}

-- The string up to its first byte 0 is the host, a colon and a port's text. The host is a name that
-- fits the caller's buffer with the byte 0 behind it. Nothing else is accepted or read.
abbrev pub IsParsed : ℕ → List ℕ → Outcome (List ℕ × ℕ) → Type 0
IsParsed host_cap spec (ok (host, p)) =
    ((s : List ℕ) × (c_string spec ≡ host ++ 58 ∷ s) × (0 < length s))
    × IsName host
    × (0 < length host)
    × (length host < host_cap)
    × (0 < p)
    × (p ≤ 65535)
IsParsed host_cap spec (err e) = e ≡ einval
IsParsed host_cap spec fault = ⊥

abbrev IsSplit : ℕ → List ℕ → Option (List ℕ × List ℕ) → Type 0
IsSplit b s none = Unit
IsSplit b s (some r) = All (λ c. c ≢ b) r.0 × (s ≡ r.0 ++ b ∷ r.1)

cons-IsSplit :
    (b c : ℕ) (s : List ℕ) (t : Bool) (r : Option (List ℕ × List ℕ))
    → (t ≡ true → c ≡ b)
    → (t ≡ false → c ≢ b)
    → IsSplit b s r
    → IsSplit b
        (c ∷ s)
        (if t then some ([], s) else elim r [ none ↦ none | some r ↦ some (c ∷ r.0, r.1) ])
cons-IsSplit b c s true r same other h = (tt, ap (λ x. x ∷ s) (same refl))
cons-IsSplit b c s false none same other h = tt
cons-IsSplit b c s false (some r) same other h = ((other refl, h.0), ap (λ l. c ∷ l) h.1)

split_at-IsSplit : (b : ℕ) (s : List ℕ) → IsSplit b s (split_at b s)
unfolding split_at
split_at-IsSplit b [] = tt
split_at-IsSplit b (c ∷ s) =
    cons-IsSplit b c s (c == b) (split_at b s) (λ e. ground (arith, e)) (λ e. ground (arith, e))
      (split_at-IsSplit b s)

cut_no_zero :
    (c : ℕ) (s : List ℕ) (t : Bool)
    → (t ≡ false → c ≢ 0)
    → All (λ c. c ≢ 0) s
    → All (λ c. c ≢ 0) (if t then [] else c ∷ s)
cut_no_zero c s true other h = tt
cut_no_zero c s false other h = (other refl, h)

c_string_no_zero : (s : List ℕ) → All (λ c. c ≢ 0) (c_string s)
unfolding c_string
c_string_no_zero [] = tt
c_string_no_zero (c ∷ s) =
    cut_no_zero c (c_string s) (c == 0) (λ e. ground (arith, e)) (c_string_no_zero s)

IsName-both : (host : List ℕ) → All (λ c. c ≢ 0) host → All (λ c. c ≢ 58) host → IsName host
IsName-both [] h g = tt
IsName-both (c ∷ host) (n0, h) (n58, g) = ((n0, n58), IsName-both host h g)

All-prefix : (xs ys : List ℕ) → All (λ c. c ≢ 0) (xs ++ ys) → All (λ c. c ≢ 0) xs
All-prefix [] ys h = tt
All-prefix (x ∷ xs) ys (h, hs) = (h, All-prefix xs ys hs)

abbrev IsPort : Option ℕ → Type 0
IsPort none = Unit
IsPort (some p) = (0 < p) × (p ≤ 65535)

tested-IsPort :
    (e t : Bool) (p : ℕ)
    → (t ≡ true → (0 < p) × (p ≤ 65535))
    → IsPort (if e then none else if t then some p else none)
tested-IsPort true t p h = tt
tested-IsPort false true p h = h refl
tested-IsPort false false p h = tt

port_range : (p : ℕ) → ltb 0 p && leb p 65535 ≡ true → (0 < p) × (p ≤ 65535)
port_range p e = ground (arith, e)

checked_port-IsPort : (s : List ℕ) (r : ℤ × List ℕ) → IsPort (checked_port s r)
unfolding checked_port
checked_port-IsPort s (pos p, []) =
    tested-IsPort (is_empty s) (ltb 0 p && leb p 65535) p (port_range p)
checked_port-IsPort s (negsuc p, []) = tt
checked_port-IsPort s (pos p, c ∷ end) = tt
checked_port-IsPort s (negsuc p, c ∷ end) = tt

-- The last guard, over its test.
kept-IsParsed :
    (host_cap p : ℕ) (spec host : List ℕ) (t : Bool)
    → (t ≡ false → length host < host_cap)
    → (s : List ℕ) × (c_string spec ≡ host ++ 58 ∷ s) × (0 < length s)
    → IsName host
    → 0 < length host
    → IsPort (some p)
    → IsParsed host_cap spec (if t then err einval else ok (host, p))
kept-IsParsed host_cap p spec host true room at name some_bytes port = refl
kept-IsParsed host_cap p spec host false room at name some_bytes (lo, hi) =
    (at, name, some_bytes, room refl, lo, hi)

take_host-IsParsed :
    (host_cap : ℕ) (spec host : List ℕ) (port : Option ℕ)
    → (s : List ℕ) × (c_string spec ≡ host ++ 58 ∷ s) × (0 < length s)
    → IsName host
    → 0 < length host
    → IsPort port
    → IsParsed host_cap spec (take_host host_cap host port)
unfolding take_host
take_host-IsParsed host_cap spec host none at name some_bytes port = refl
take_host-IsParsed host_cap spec host (some p) at name some_bytes port =
    kept-IsParsed host_cap p spec host (leb host_cap (length host)) (λ e. ground (arith, e)) at name
      some_bytes port

parse_sides-IsParsed :
    (strtol : List ℕ → ℤ × List ℕ) (host_cap : ℕ) (spec : List ℕ) (r : Option (List ℕ × List ℕ))
    → IsSplit 58 (c_string spec) r
    → IsParsed host_cap spec (parse_sides strtol host_cap r)
unfolding parse_sides
parse_sides-IsParsed strtol host_cap spec none h = refl
parse_sides-IsParsed strtol host_cap spec (some ([], s)) h = refl
parse_sides-IsParsed strtol host_cap spec (some (b ∷ host, [])) h = refl
parse_sides-IsParsed strtol host_cap spec (some (b ∷ host, c ∷ s)) (n58, at) =
    let n0 = subst (λ l. All (λ c. c ≢ 0) l) at (c_string_no_zero spec) in
    take_host-IsParsed host_cap spec (b ∷ host) (checked_port (c ∷ s) (strtol (c ∷ s)))
      (c ∷ s, at, omega arith) (IsName-both (b ∷ host) (All-prefix (b ∷ host) (58 ∷ c ∷ s) n0) n58)
      (omega arith) (checked_port-IsPort (c ∷ s) (strtol (c ∷ s)))

guarded-IsParsed :
    (host_cap : ℕ) (spec : List ℕ) (t : Bool) (o : Outcome (List ℕ × ℕ))
    → IsParsed host_cap spec o
    → IsParsed host_cap spec (if t then err einval else o)
guarded-IsParsed host_cap spec true o h = refl
guarded-IsParsed host_cap spec false o h = h

-- For every string and every strtol, parse_host_port fails with EINVAL or gives a port from 1 to
-- 65535 and the text before the first colon, which is not empty, has no byte 0 and fits the
-- caller's buffer with a byte 0 behind it; text stands behind the colon too.
pub parse_host_port-IsParsed :
    (strtol : List ℕ → ℤ × List ℕ) (host_cap : ℕ) (spec : List ℕ)
    → IsParsed host_cap spec (parse_host_port strtol host_cap spec)
unfolding parse_host_port
parse_host_port-IsParsed strtol host_cap spec =
    guarded-IsParsed host_cap spec (host_cap == 0 || is_empty spec || leb 256 (length spec))
      (parse_sides strtol host_cap (split_at 58 (c_string spec)))
      (parse_sides-IsParsed strtol host_cap spec (split_at 58 (c_string spec))
        (split_at-IsSplit 58 (c_string spec)))
