-- ===== src/Queues/Stopped.antt =====
-- After the programs have cleared the run flag.
use vstreamer.Base.{
  ℕ, List, Option, ℤ, none, Bool, ◌∷◌, false, some, length, ◌≡◌, [], suc, arith, ap, refl,
}
use vstreamer.Queues.Timeout.{pop_cons, pop_stopped}
use vstreamer.Queues.Journal.{Call, Reply, pops, popped, answers}

module _ {A : Type 0} where
  -- Pops, each with a timeout of its own.
  unfoldable pub pops_after : List (ℤ × Bool) → List (Call A)
  pops_after [] = []
  pops_after ((t, e) ∷ ts) = pops false t e ∷ pops_after ts

  unfoldable pub all_popped : List A → List (Reply A)
  all_popped [] = popped none ∷ []
  all_popped (x ∷ xs) = popped (some x) ∷ all_popped xs

  -- Once the run flag is cleared no consumer waits, whatever its timeout: as many pops as there are
  -- packets return them in order, and the next one returns nothing.
  pub answers-pops_after :
      (limit : ℕ) (d : Option ℕ) (items : List A) (ts : List (ℤ × Bool))
      → length ts ≡ suc (length items)
      → answers (pops_after ts) (d, record { capacity = limit; items = items }) ≡ all_popped items
  unfolding answers pops_after all_popped
  answers-pops_after limit d items [] h = absurd (omega arith)
  answers-pops_after limit d [] ((t, e) ∷ []) h = rw (pop_stopped {A = A} limit t e) refl
  answers-pops_after limit d [] ((t, e) ∷ t' ∷ ts) h = absurd (omega arith)
  answers-pops_after limit d (x ∷ items) ((t, e) ∷ ts) h =
      rw (pop_cons limit false t e x items)
        (ap (◌∷◌ (popped (some x))) (answers-pops_after limit d items ts (omega arith)))
