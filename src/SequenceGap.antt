-- ===== src/SequenceGap.antt =====
-- src/core/sequence_gap.hpp: gaps in a sequence number that wraps, of `w` bits.
pub mod Step
pub mod Total
pub mod Examples
use vstreamer.Base.{ℕ, ◌+◌, ◌-◌, ◌%◌, ◌^◌, Bool, true, false, leb, ◌==◌, if◌then◌else◌}

-- The two reference arguments of `note_forward_gap`.
pub record Track : Type 0 where
  pub last : ℕ
  pub have : Bool

-- `note_forward_gap<T>` at a `T` of `w` bits: the new `last` and `have`, and the gap.
unfoldable pub note_forward_gap : ℕ → ℕ → Track → Track × ℕ
note_forward_gap w seq t =
    let next = (t.last + 1) % 2 ^ w in
    let forward = (seq + 2 ^ w - next) % 2 ^ w in
    let half_ring = 2 ^ (w - 1) in
    if t.have
    then (if seq == next
        then (record t { last = seq }, 0)
        else if leb half_ring forward
        then (t, 0)
        else (record t { last = seq }, forward))
    else (record { last = seq; have = true }, 0)

unfoldable pub note_u16_forward_gap : ℕ → Track → Track × ℕ
unfolding note_forward_gap
note_u16_forward_gap seq t = note_forward_gap 16 seq t

unfoldable pub note_u8_forward_gap : ℕ → Track → Track × ℕ
unfolding note_forward_gap
note_u8_forward_gap seq t = note_forward_gap 8 seq t
