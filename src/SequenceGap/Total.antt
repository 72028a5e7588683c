-- ===== src/SequenceGap/Total.antt =====
-- A whole run of arrivals: the gaps add up to the packets that are missing.
use vstreamer.Base.{ℕ, List, suc, ◌<◌, ◌∷◌, ◌≡◌, false, ◌+◌, arith, ◌-◌, ◌^◌, ◌%◌, ◌≤◌, [], refl}
use vstreamer.SequenceGap.{Track, note_forward_gap}
use vstreamer.SequenceGap.Step.{at_counter, IsWidth, forward_step, stale_step}

-- What arrives, seen from the newest counter so far: the packet after the next `g`, or the one `b`
-- behind, which is late or a duplicate.
pub data Arrival : Type 0 where
  fresh : ℕ → Arrival
  stale : ℕ → Arrival

abbrev pub newest : ℕ → List Arrival → ℕ
newest c [] = c
newest c (fresh g ∷ rest) = newest (c + 1 + g) rest
newest c (stale b ∷ rest) = newest c rest

abbrev pub counters : ℕ → List Arrival → List ℕ
counters c [] = []
counters c (fresh g ∷ rest) = (c + 1 + g) ∷ counters (c + 1 + g) rest
counters c (stale b ∷ rest) = (c - b) ∷ counters c rest

abbrev pub fresh_count : List Arrival → ℕ
fresh_count [] = 0
fresh_count (fresh g ∷ rest) = suc (fresh_count rest)
fresh_count (stale b ∷ rest) = fresh_count rest

-- Every arrival is within half the ring of the newest.
abbrev pub Near : ℕ → ℕ → List Arrival → Type 0
Near w c [] = Unit {0}
Near w c (fresh g ∷ rest) = (g < 2 ^ (w - 1)) × Near w (c + 1 + g) rest
Near w c (stale b ∷ rest) = (b ≤ c) × (b < 2 ^ (w - 1)) × Near w c rest

-- `note_forward_gap` on each wire number in turn, with the gaps added to `total`.
unfoldable pub note_all : ℕ → Track → ℕ → List ℕ → Track × ℕ
note_all w t total [] = (t, total)
note_all w t total (c ∷ cs) =
    let (t', gap) = note_forward_gap w (c % 2 ^ w) t in note_all w t' (total + gap) cs

note_all_from :
    (w c total : ℕ) (rest : List Arrival)
    → IsWidth w
    → Near w c rest
    → (n : ℕ) × (note_all w (at_counter w c) total (counters c rest)
        ≡ (at_counter w (newest c rest), n))
      × (n + c + fresh_count rest ≡ total + newest c rest)
unfolding note_all
note_all_from w c total [] width near = (total, refl, omega arith)
note_all_from w c total (fresh g ∷ rest) width near =
    let (n, run, sum) = note_all_from w (c + 1 + g) (total + g) rest width near.1 in
    (n, rw (forward_step w c g width near.0, note_all) run, omega arith)
note_all_from w c total (stale b ∷ rest) width near =
    let (n, run, sum) = note_all_from w c (total + 0) rest width near.2 in
    (n, rw (stale_step w c b width near.0 near.1, note_all) run, omega arith)

-- From the first packet on, when every packet is within half the ring of the newest so far, the
-- gaps add up to the packets between the first and the newest that had not come in order, and the
-- tracker ends at the newest; late and duplicate packets change nothing.
pub note_all-missing :
    (w last first : ℕ) (rest : List Arrival)
    → IsWidth w
    → Near w first rest
    → (n : ℕ) × (note_all w (record { last = last; have = false }) 0 (first ∷ counters first rest)
        ≡ (at_counter w (newest first rest), n))
      × (n + first + fresh_count rest ≡ newest first rest)
unfolding note_all note_forward_gap
note_all-missing w last first rest width near =
    let (n, run, sum) = note_all_from w first (0 + 0) rest width near in (n, run, omega arith)
