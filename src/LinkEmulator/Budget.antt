-- ===== src/LinkEmulator/Budget.antt =====
-- How much the limit of the rate lets through.
use vstreamer.Base.{ℕ, List, ◌≤◌, ◌*◌, ◌+◌, ◌∷◌, ◌≡◌, length, []}
use vstreamer.LinkEmulator.{Limits, Direction}
use vstreamer.LinkEmulator.Accounted.{Event, arrives, flushes}

-- The bytes of the datagrams.
abbrev pub bytes_of : List (List ℕ) → ℕ
bytes_of [] = 0
bytes_of (pkt ∷ pkts) = length pkt + bytes_of pkts

-- The bits that one window has, and its length in nanoseconds.
abbrev pub window_bits : Limits → ℕ
window_bits l = l.max_kbps * l.drop_dt_ms

abbrev pub window_ns : Limits → ℕ
window_ns l = l.drop_dt_ms * 1000000

abbrev pub IsWithin : Limits → Direction → Type 0
IsWithin l s = 8 * s.window_bytes ≤ window_bits l

-- No clock is read later than at `until`.
abbrev pub ReadBy : ℕ → List Event → Type 0
ReadBy until [] = Unit
ReadBy until (arrives pkt try ∷ es) = (try.now ≤ until) × ReadBy until es
ReadBy until (flushes tries ∷ es) = ((k : ℕ) → (tries k).now ≤ until) × ReadBy until es

module _ (l : Limits) (until : ℕ) (on : 1 ≤ l.max_kbps) (some_time : 1 ≤ l.drop_dt_ms) where
  -- From `s` to `t` the window was renewed a number of times, each time a window's length later at
  -- least, and what was sent, with `extra` bytes more, was paid for by the windows.
  record Charged (extra : ℕ) (s t : Direction) : Type 0 where
    renewals : ℕ
    start : s.window_start + renewals * window_ns l ≤ t.window_start
    paid :
        8 * (bytes_of t.sent + extra + s.window_bytes)
        ≤ 8 * bytes_of s.sent + renewals * window_bits l + 8 * t.window_bytes
    within : IsWithin l t
    in_time : t.window_start ≤ until

  -- What the charge depends on.
  record SameWindow (t u : Direction) : Type 0 where
    same_start : u.window_start ≡ t.window_start
    same_bytes : u.window_bytes ≡ t.window_bytes
    same_sent : u.sent ≡ t.sent
