-- ===== src/Level/Examples.antt =====
-- Tests of the level.
use vstreamer.Base.{ℕ, pos, ◌≡◌, negsuc, ok, ◌≤◌, refl, arith}
use vstreamer.Level.{h264_level_for_size, ceil_div16, first_level, admits, levels}
use vstreamer.Level.Order.{h264_level_for_size_monotone, h264_level_for_size_bounds}

test_full_hd : h264_level_for_size (pos 1920) (pos 1080) (pos 30) (pos 8000) ≡ ok 40
unfolding h264_level_for_size ceil_div16 first_level admits levels
test_full_hd = refl

test_too_small : h264_level_for_size (pos 1) (negsuc 0) (pos 30) (pos 8000) ≡ ok 31
unfolding h264_level_for_size
test_too_small = refl

test_large : h264_level_for_size (pos 3840) (pos 2160) (pos 60) (pos 0) ≡ ok 52
unfolding h264_level_for_size ceil_div16 first_level admits levels
test_large = refl

h264_level_for_size_monotone_example :
    (l : ℕ) × (h264_level_for_size (pos 1280) (pos 720) (pos 30) (pos 4000) ≡ ok l) × (l ≤ 40)
unfolding h264_level_for_size ceil_div16 first_level admits levels
h264_level_for_size_monotone_example =
    h264_level_for_size_monotone 1280 1920 720 1080 30 30 4000 8000 40 (omega arith) (omega arith)
      (omega arith) (omega arith) (omega arith) (omega arith) (omega arith) refl

h264_level_for_size_bounds_example :
    (l : ℕ) × (h264_level_for_size (pos 640) (pos 480) (pos 25) (pos 0) ≡ ok l)
    × (10 ≤ l)
    × (l ≤ 52)
h264_level_for_size_bounds_example =
    h264_level_for_size_bounds 640 480 25 0 (omega arith) (omega arith) (omega arith) (omega arith)
      (omega arith) (omega arith)
