-- ===== src/Fec/Ring.antt =====
-- The ring of the 256 block ids on the wire: `ring_dist` and `wire_block_id`.
use vstreamer.Base.{
  ℕ, zero, suc, ◌+◌, ◌-◌, ◌^◌, ◌%◌, ◌<◌, ◌≡◌, Bool, true, false, ltb, leb, if◌then◌else◌, u8, ℤ,
  pos, negsuc, arith, ap, lt→ltb, le→not_ltb, refl,
}

abbrev pub wire_block_id_mod : ℕ
wire_block_id_mod = 256

abbrev pub wire_block_id : ℕ → ℕ
wire_block_id id = id % wire_block_id_mod

-- `static_cast<int8_t>(b)` of a byte.
abbrev pub signed8 : ℕ → ℤ
signed8 b = if ltb b 128 then pos b else negsuc (255 - b)

-- `ring_dist` of two bytes: their difference, read as a signed byte.
unfoldable pub ring_dist : ℕ → ℕ → ℤ
ring_dist a b = signed8 (u8 (a + 2 ^ 8 - b))

abbrev pub is_negative : ℤ → Bool
is_negative (pos n) = false
is_negative (negsuc n) = true

abbrev pub is_positive : ℤ → Bool
is_positive (pos zero) = false
is_positive (pos (suc n)) = true
is_positive (negsuc n) = false

abbrev pub is_zero : ℤ → Bool
is_zero (pos zero) = true
is_zero (pos (suc n)) = false
is_zero (negsuc n) = false

-- `d < -m`.
abbrev pub is_below_minus : ℕ → ℤ → Bool
is_below_minus m (pos n) = false
is_below_minus m (negsuc n) = leb m n

-- The ring distance is the step between two ids: `d` steps ahead of a base for `d` below 128, and
-- `d` steps behind it for `d` from 1 to 128, across the wrap too.
pub ring_dist-step :
    (base d : ℕ)
    → base < 256
    → (d < 128 → ring_dist (wire_block_id (base + d)) base ≡ pos d)
      × (d < 128 → ring_dist (wire_block_id (base + 255 - d)) base ≡ negsuc d)
unfolding ring_dist
ring_dist-step base d hb = (λ h. ahead h, λ h. behind h)
  where
    ahead : d < 128 → ring_dist (wire_block_id (base + d)) base ≡ pos d
    ahead h = rw (near) (rw (small) refl)
      where
        near : u8 ((base + d) % 256 + 2 ^ 8 - base) ≡ d
        near = omega arith

        small : ltb d 128 ≡ true
        small = lt→ltb d 128 h

    behind : d < 128 → ring_dist (wire_block_id (base + 255 - d)) base ≡ negsuc d
    behind h = rw (near) (rw (large) (ap negsuc (omega arith)))
      where
        near : u8 ((base + 255 - d) % 256 + 2 ^ 8 - base) ≡ 255 - d
        near = omega arith

        large : ltb (255 - d) 128 ≡ false
        large = le→not_ltb (255 - d) 128 (omega arith)
