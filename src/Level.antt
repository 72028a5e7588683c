-- ===== src/Level.antt =====
-- src/core/h264_level.cpp: the H.264 level of a picture size, a rate and a bit rate.
pub mod Order
pub mod Examples
use vstreamer.Base.{
  ℕ, List, ◌^◌, Outcome, Bool, ℤ, ◌∷◌, ◌-◌, if◌then◌else◌, ◌+◌, not, [], leb, ◌>>=◌, ltb, ok, ◌&&◌,
  positive_part, fault, ◌/◌, ◌*◌, ◌||◌,
}

pub record LevelRow : Type 0 where
  pub level_idc : ℕ
  pub max_mbps : ℕ
  pub max_fs : ℕ
  pub max_br_kbps : ℕ

abbrev row : ℕ → ℕ → ℕ → ℕ → LevelRow
row level_idc max_mbps max_fs max_br_kbps = record {
  level_idc = level_idc;
  max_mbps = max_mbps;
  max_fs = max_fs;
  max_br_kbps = max_br_kbps;
}

unfoldable pub levels : List LevelRow
levels =
    row 10 1485 99 64
    ∷ row 11 3000 396 192
    ∷ row 12 6000 396 384
    ∷ row 13 11880 396 768
    ∷ row 20 11880 396 2000
    ∷ row 21 19800 792 4000
    ∷ row 22 20250 1620 4000
    ∷ row 30 40500 1620 10000
    ∷ row 31 108000 3600 14000
    ∷ row 32 216000 5120 20000
    ∷ row 40 245760 8192 20000
    ∷ row 41 245760 8192 50000
    ∷ row 42 522240 8704 50000
    ∷ row 50 589824 22080 135000
    ∷ row 51 983040 36864 240000
    ∷ row 52 2073600 36864 240000
    ∷ []

-- An `int` result, which overflows undefined. Both operands are not negative here.
abbrev int_max : ℕ
int_max = 2 ^ 31 - 1

abbrev pub checked_int : ℕ → Outcome ℕ
checked_int n = if leb n int_max then ok n else fault

unfoldable pub ceil_div16 : ℕ → Outcome ℕ
ceil_div16 v = checked_int (v + 15) >>= (λ s. ok (s / 16))

-- The three tests that pass a row over. 1.25 times the limit is exact in a double.
unfoldable pub admits : ℕ → ℕ → ℕ → LevelRow → Bool
admits fs mbps kbps row =
    not (ltb row.max_fs fs)
    && not (ltb row.max_mbps mbps)
    && not (ltb 0 kbps && ltb (5 * row.max_br_kbps) (4 * kbps))

unfoldable pub first_level : ℕ → ℕ → ℕ → List LevelRow → ℕ
first_level fs mbps kbps [] = 52
first_level fs mbps kbps (row ∷ rest) =
    if admits fs mbps kbps row then row.level_idc else first_level fs mbps kbps rest

-- A negative width, height or rate is below the limit as 0 is, and a negative bit rate is as none.
unfoldable pub h264_level_for_size : ℤ → ℤ → ℤ → ℤ → Outcome ℕ
unfolding ceil_div16
h264_level_for_size w h fps kbps =
    if ltb (positive_part w) 2 || ltb (positive_part h) 2 || leb (positive_part fps) 0
    then ok 31
    else (ceil_div16 (positive_part w) >>= (λ mb_w. ceil_div16 (positive_part h) >>= (λ mb_h.
        checked_int (mb_w * mb_h) >>= (λ max_fs.
          checked_int (max_fs * positive_part fps)
          >>= (λ mbps. ok (first_level max_fs mbps (positive_part kbps) levels))))))
