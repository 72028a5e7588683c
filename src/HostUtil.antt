-- ===== src/HostUtil.antt =====
-- src/core/host_util.hpp: the host and the port in one string. A string is its bytes, and strtol is
-- a parameter that gives the value beside what it leaves unread.
pub mod RoundTrip
pub mod Parsed
pub mod Examples
use vstreamer.Base.{
  ℕ, List, ◌∷◌, ℤ, Option, if◌then◌else◌, pos, Outcome, ◌==◌, none, err, [], ltb, einval, ◌||◌,
  ◌&&◌, some, leb, negsuc, length, ok,
}
use vstreamer.Queues.{is_empty}
use vstreamer.CpuMap.{split_at}

-- The buffer as strlen and strchr read it: up to the first byte 0.
unfoldable pub c_string : List ℕ → List ℕ
c_string [] = []
c_string (c ∷ s) = let rest = c_string s in if c == 0 then [] else c ∷ rest

-- The value, unless nothing was read, something is left, or it is no port.
unfoldable pub checked_port : List ℕ → ℤ × List ℕ → Option ℕ
checked_port s (pos p, []) =
    if is_empty s then none else if ltb 0 p && leb p 65535 then some p else none
checked_port s (negsuc p, []) = none
checked_port s (p, c ∷ end) = none

unfoldable pub take_host : ℕ → List ℕ → Option ℕ → Outcome (List ℕ × ℕ)
take_host host_cap host none = err einval
take_host host_cap host (some p) = if leb host_cap (length host) then err einval else ok (host, p)

-- The two sides of the colon.
unfoldable pub parse_sides :
    (List ℕ → ℤ × List ℕ) → ℕ → Option (List ℕ × List ℕ) → Outcome (List ℕ × ℕ)
parse_sides strtol host_cap none = err einval
parse_sides strtol host_cap (some ([], s)) = err einval
parse_sides strtol host_cap (some (h ∷ host, [])) = err einval
parse_sides strtol host_cap (some (h ∷ host, c ∷ s)) =
    take_host host_cap (h ∷ host) (checked_port (c ∷ s) (strtol (c ∷ s)))

-- parse_host_port, no pointer null: the host and the port.
unfoldable pub parse_host_port : (List ℕ → ℤ × List ℕ) → ℕ → List ℕ → Outcome (List ℕ × ℕ)
parse_host_port strtol host_cap spec =
    if host_cap == 0 || is_empty spec || leb 256 (length spec)
    then err einval
    else parse_sides strtol host_cap (split_at 58 (c_string spec))
