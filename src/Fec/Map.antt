-- ===== src/Fec/Map.antt =====
-- The `std::unordered_map`s of the block erasure code, as association lists. The order of a walk,
-- which the library leaves open, is the order of the list.
use vstreamer.Base.{
  ℕ, suc, ◌≡◌, ◌≤◌, ◌<◌, List, [], ◌∷◌, Bool, true, false, ◌==◌, if◌then◌else◌, Option, none, some,
  length, arith, Bool-cases, inl, ==_self, inr, refl, subst,
}

abbrev pub Map {ℓ} : Type ℓ → Type ℓ
Map A = List (ℕ × A)

module _ {ℓ} {A : Type ℓ} where
  abbrev pub find : ℕ → Map A → Option A
  find i [] = none
  find i ((j, a) ∷ m) = let rest = find i m in if i == j then some a else rest

  abbrev pub contains : ℕ → Map A → Bool
  contains i m = elim (find i m) [ none ↦ false | some a ↦ true ]

  abbrev pub erase : ℕ → Map A → Map A
  erase i [] = []
  erase i ((j, a) ∷ m) = let rest = erase i m in if i == j then rest else (j, a) ∷ rest

  -- `m[i] = a`.
  abbrev pub put : ℕ → A → Map A → Map A
  put i a [] = (i, a) ∷ []
  put i a ((j, b) ∷ m) = let rest = put i a m in if i == j then (i, a) ∷ m else (j, b) ∷ rest

  -- Keeps the entries whose keys pass a test.
  abbrev pub filter_keys : (ℕ → Bool) → Map A → Map A
  filter_keys p [] = []
  filter_keys p ((j, a) ∷ m) = let rest = filter_keys p m in if p j then (j, a) ∷ rest else rest

  pub length-erase : (i : ℕ) (m : Map A) → length (erase i m) ≤ length m
  length-erase i [] = omega arith
  length-erase i ((j, a) ∷ m) = ground (arith, length-erase i m)

  -- Erasing a key that is there takes an entry away.
  pub length-erase_lt :
      (i : ℕ) (m : Map A) (a : A) → find i m ≡ some a → length (erase i m) < length m
  length-erase_lt i [] a e = ground arith
  length-erase_lt i ((j, b) ∷ m) a e = ground (arith, length-erase i m, length-erase_lt i m a)

  pub length-filter_keys : (p : ℕ → Bool) (m : Map A) → length (filter_keys p m) ≤ length m
  length-filter_keys p [] = omega arith
  length-filter_keys p ((j, a) ∷ m) = ground (arith, length-filter_keys p m)

  pub length-put : (i : ℕ) (a : A) (m : Map A) → length (put i a m) ≤ suc (length m)
  length-put i a [] = omega arith
  length-put i a ((j, b) ∷ m) = ground (arith, length-put i a m)

  -- Writing to a key that is there keeps the number of entries.
  pub length-put_found :
      (i : ℕ) (a b : A) (m : Map A) → find i m ≡ some b → length (put i a m) ≡ length m
  length-put_found i a b [] e = ground arith
  length-put_found i a b ((j, c) ∷ m) e = ground (arith, length-put_found i a b m)

  -- A key that was just written is there.
  pub find-put : (i : ℕ) (a : A) (m : Map A) → find i (put i a m) ≡ some a
  find-put i a [] = ground arith
  find-put i a ((j, b) ∷ m) = elim (Bool-cases (i == j)) [
    | inl e ↦ rw (e) (rw (==_self i) refl)
    | inr e ↦ rw (e) (rw (e) (find-put i a m))
  ]

  -- A property of every value.
  abbrev pub AllValues : (A → Type 0) → Map A → Type 0
  AllValues P [] = Unit
  AllValues P ((j, a) ∷ m) = P a × AllValues P m

  pub AllValues-erase :
      (P : A → Type 0) (i : ℕ) (m : Map A) → AllValues P m → AllValues P (erase i m)
  AllValues-erase P i [] h = tt
  AllValues-erase P i ((j, a) ∷ m) (ha, h) = elim (Bool-cases (i == j)) [
    | inl e ↦ rw (e) (AllValues-erase P i m h)
    | inr e ↦ rw (e) (ha, AllValues-erase P i m h)
  ]

  pub AllValues-put :
      (P : A → Type 0) (i : ℕ) (a : A) (m : Map A) → P a → AllValues P m → AllValues P (put i a m)
  AllValues-put P i a [] p h = (p, tt)
  AllValues-put P i a ((j, b) ∷ m) p (hb, h) = elim (Bool-cases (i == j)) [
    | inl e ↦ rw (e) (p, h)
    | inr e ↦ rw (e) (hb, AllValues-put P i a m p h)
  ]

  pub AllValues-filter_keys :
      (P : A → Type 0) (p : ℕ → Bool) (m : Map A) → AllValues P m → AllValues P (filter_keys p m)
  AllValues-filter_keys P p [] h = tt
  AllValues-filter_keys P p ((j, a) ∷ m) (ha, h) = elim (Bool-cases (p j)) [
    | inl e ↦ rw (e) (ha, AllValues-filter_keys P p m h)
    | inr e ↦ rw (e) (AllValues-filter_keys P p m h)
  ]

  pub AllValues-find :
      (P : A → Type 0) (i : ℕ) (a : A) (m : Map A) → find i m ≡ some a → AllValues P m → P a
  AllValues-find P i a [] e h = absurd (ground (arith, e))
  AllValues-find P i a ((j, b) ∷ m) e (hb, h) = elim (Bool-cases (i == j)) [
    | inl f ↦ let same : b ≡ a = ground (arith, e, f) in subst P same hb
    | inr f ↦ AllValues-find P i a m (ground (arith, e, f)) h
  ]
