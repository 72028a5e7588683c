-- ===== src/Queues/Timeout.antt =====
-- How the waits of the queues end, and what a call that waits comes to.
use vstreamer.Base.{
  ℕ, ℤ, List, Bool, negsuc, true, ◌≡◌, false, length, ◌≤◌, ◌∷◌, pos, arith, ◌<◌, ◌⊎◌, some, [],
  refl, suc, Bool-cases, none, ◌++◌, not, lt→ltb, inl, zero, inr, le→not_ltb,
}
use vstreamer.Queues.{
  Queue, returns, waits, push_wait, pop, push_back, take_front, has_room, wait_until, go, give_up,
  keep_waiting, is_positive,
}

-- Whether a call with this timeout waits, having found that it cannot go on.
abbrev pub holds_on : ℤ → Bool → Bool
holds_on (negsuc n) expired = true
holds_on (pos zero) expired = false
holds_on (pos (suc n)) expired = not expired

-- A wait ends at once where its predicate holds, and `holds_on` says how it ends where it does not.
pub wait_ready : (t : ℤ) (e : Bool) → wait_until t e true ≡ go
unfolding wait_until
wait_ready (negsuc n) e = refl
wait_ready (pos zero) e = refl
wait_ready (pos (suc n)) e = refl

pub wait_hold : (t : ℤ) (e : Bool) → holds_on t e ≡ true → wait_until t e false ≡ keep_waiting
unfolding wait_until
wait_hold (negsuc n) e h = refl
wait_hold (pos zero) e h = ground arith
wait_hold (pos (suc n)) false h = refl
wait_hold (pos (suc n)) true h = ground arith

pub wait_stop : (t : ℤ) (e : Bool) → holds_on t e ≡ false → wait_until t e false ≡ give_up
unfolding wait_until
wait_stop (negsuc n) e h = ground arith
wait_stop (pos zero) e h = refl
wait_stop (pos (suc n)) false h = ground arith
wait_stop (pos (suc n)) true h = refl

module _ {A : Type 0} where
  abbrev pub queue_of : ℕ → List A → Queue A
  queue_of limit items = record { capacity = limit; items = items }

  pub push_wait_stopped :
      (t : ℤ) (e : Bool) (pkt : A) (q : Queue A) → push_wait false t e pkt q ≡ returns (false, q)
  unfolding push_wait
  push_wait_stopped t e pkt q = rw (push_wait, wait_ready t e) refl

  pub push_wait_room :
      (limit : ℕ) (t : ℤ) (e : Bool) (pkt : A) (items : List A)
      → length items < limit
      → push_wait true t e pkt (queue_of limit items)
        ≡ returns (true, queue_of limit (items ++ (pkt ∷ [])))
  unfolding push_wait push_back has_room
  push_wait_room limit t e pkt items h =
      rw (push_wait, lt→ltb (length items) limit h, wait_ready t e) refl

  pub push_wait_full :
      (limit : ℕ) (t : ℤ) (e : Bool) (pkt : A) (items : List A)
      → limit ≤ length items
      → (push_wait true t e pkt (queue_of limit items) ≡ returns (false, queue_of limit items))
        ⊎ (push_wait true t e pkt (queue_of limit items) ≡ waits)
  unfolding push_wait has_room
  push_wait_full limit t e pkt items h = elim (Bool-cases (holds_on t e)) [
    | inl w ↦ inr (rw (push_wait, le→not_ltb (length items) limit h, wait_hold t e w) refl)
    | inr w ↦ inl (rw (push_wait, le→not_ltb (length items) limit h, wait_stop t e w) refl)
  ]

  pub pop_cons :
      (limit : ℕ) (run : Bool) (t : ℤ) (e : Bool) (x : A) (rest : List A)
      → pop run t e (queue_of limit (x ∷ rest)) ≡ returns (some x, queue_of limit rest)
  unfolding pop take_front
  pop_cons limit true t e x rest = rw (pop, wait_ready t e) refl
  pop_cons limit false t e x rest = rw (pop, wait_ready t e) refl

  pub pop_stopped :
      (limit : ℕ) (t : ℤ) (e : Bool)
      → pop false t e (queue_of limit []) ≡ returns (none, queue_of limit [])
  unfolding pop take_front
  pop_stopped limit t e = rw (pop, wait_ready t e) refl

  pub pop_empty :
      (limit : ℕ) (t : ℤ) (e : Bool)
      → (pop true t e (queue_of limit []) ≡ returns (none, queue_of limit []))
        ⊎ (pop true t e (queue_of limit []) ≡ waits)
  unfolding pop take_front
  pop_empty limit t e = elim (Bool-cases (holds_on t e)) [
    | inl w ↦ inr (rw (pop, wait_hold t e w) refl)
    | inr w ↦ inl (
        rw (pop, wait_stop t e w)
          (elim (Bool-cases (is_positive t)) [ inl p ↦ rw p refl | inr p ↦ rw p refl ]))
  ]
