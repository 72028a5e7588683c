-- ===== src/Base/Int.antt =====
-- Signed integers over the native numbers, and the reading of a 64-bit pattern as one.
use Prim.Native.Nat.{ℕ, ◌-◌, ◌^◌}
use vstreamer.Base.Tests.{ltb, if◌then◌else◌}

-- `negsuc n` is -(n + 1).
pub data ℤ : Type 0 where
  pos : ℕ → ℤ
  negsuc : ℕ → ℤ

-- `x > 0 ? x : 0`.
abbrev pub positive_part : ℤ → ℕ
positive_part (pos n) = n
positive_part (negsuc n) = 0

-- `static_cast<int64_t>(w)` of a `w` below 2 ^ 64.
abbrev pub signed64 : ℕ → ℤ
signed64 w = if ltb w (2 ^ 63) then pos w else negsuc (2 ^ 64 - w - 1)
