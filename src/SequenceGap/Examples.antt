-- ===== src/SequenceGap/Examples.antt =====
-- A run of arrivals across the wrap of the eight bit number.
use vstreamer.Base.{ℕ, List, [], ◌∷◌, ◌≡◌, ◌+◌, false, refl, arith, inl}
use vstreamer.SequenceGap.Step.{at_counter}
use vstreamer.SequenceGap.Total.{
  Arrival, fresh, stale, newest, counters, fresh_count, note_all, note_all-missing,
}

-- After 254: 255, then 258 (two are missing), then the late 257, then 259.
abbrev run : List Arrival
run = fresh 0 ∷ fresh 2 ∷ stale 1 ∷ fresh 0 ∷ []

note_all-missing_example :
    (n : ℕ) × (note_all 8 (record { last = 0; have = false }) 0 (254 ∷ counters 254 run)
      ≡ (at_counter 8 (newest 254 run), n))
    × (n + 254 + fresh_count run ≡ newest 254 run)
note_all-missing_example =
    note_all-missing 8 0 254 run (inl refl)
      (omega arith, (omega arith, (omega arith, omega arith, (omega arith, tt))))
