-- ===== src/SequenceGap/Step.antt =====
-- One call of `note_forward_gap`, against the sender's counter that the wire number is cut from.
use vstreamer.Base.{ℕ, ◌≡◌, ◌<◌, ◌≤◌, ◌%◌, ◌⊎◌, ◌^◌, true, ◌-◌, inl, ◌+◌, arith, inr}
use vstreamer.SequenceGap.{Track, note_forward_gap}

-- `seq` and `last` are the low bits of counters that do not wrap.
abbrev pub at_counter : ℕ → ℕ → Track
at_counter w c = record { last = c % 2 ^ w; have = true }

-- The widths that the code calls it at.
abbrev pub IsWidth : ℕ → Type 0
IsWidth w = (w ≡ 8) ⊎ (w ≡ 16)

pub forward_step :
    (w c g : ℕ)
    → IsWidth w
    → g < 2 ^ (w - 1)
    → note_forward_gap w ((c + 1 + g) % 2 ^ w) (at_counter w c) ≡ (at_counter w (c + 1 + g), g)
unfolding note_forward_gap
forward_step w c g (inl e) h = rw e (let h' : g < 128 = rw e at h in ground arith)
forward_step w c g (inr e) h = rw e (let h' : g < 32768 = rw e at h in ground arith)

pub stale_step :
    (w c b : ℕ)
    → IsWidth w
    → b ≤ c
    → b < 2 ^ (w - 1)
    → note_forward_gap w ((c - b) % 2 ^ w) (at_counter w c) ≡ (at_counter w c, 0)
unfolding note_forward_gap
stale_step w c b (inl e) le h = rw e (let h' : b < 128 = rw e at h in ground arith)
stale_step w c b (inr e) le h = rw e (let h' : b < 32768 = rw e at h in ground arith)
