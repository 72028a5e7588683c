-- ===== src/Fec/Receiver/Finished.antt =====
-- The finished ids of the receiver: the queue `done_order` and the map `done` that `find` asks.
use vstreamer.Base.{
  ℕ, List, ◌≡◌, Bool, length, ◌==◌, false, true, ◌≤◌, ◌∷◌, none, ◌++◌, if◌then◌else◌, ◌&&◌, arith,
  Bool-cases, suc, [], not, Option-cases, ◌||◌, inl, ltb, refl, inr, subst, ◌+◌,
}
use vstreamer.Fec.Map.{Map, find, contains, erase, put, filter_keys}
use vstreamer.Fec.Receiver.{trim_done}
use vstreamer.Fec.Receiver.Resync.{remove, expire_ids}

abbrev pub member : ℕ → List ℕ → Bool
member j [] = false
member j (i ∷ is) = let rest = member j is in j == i || rest

-- No key stands twice.
abbrev pub Distinct : Map ℕ → Type 0
Distinct [] = Unit
Distinct ((j, a) ∷ m) = (contains j m ≡ false) × Distinct m

-- Every key of the map is in the queue, and stands in the map once.
pub record Tidy (order : List ℕ) (done : Map ℕ) : Type 0 where
  pub covered : (j : ℕ) → contains j done ≡ true → member j order ≡ true
  pub distinct : Distinct done

pub nothing-Tidy : Tidy [] []
nothing-Tidy = record { covered = λ j c. absurd (ground (arith, c)); distinct = tt }

contains-erase :
    (j i : ℕ) (m : Map ℕ)
    → contains j (erase i m) ≡ true
    → (contains j m ≡ true) × ((j == i) ≡ false)
contains-erase j i [] e = absurd (ground (arith, e))
contains-erase j i ((l, a) ∷ m) e = let ih = contains-erase j i m in ground (arith, ih, e)

contains-put :
    (j i a : ℕ) (m : Map ℕ) → contains j (put i a m) ≡ true → (j == i) || contains j m ≡ true
contains-put j i a [] e = ground (arith, e)
contains-put j i a ((l, b) ∷ m) e = let ih = contains-put j i a m in ground (arith, ih, e)

contains-filter_keys :
    (p : ℕ → Bool) (j : ℕ) (m : Map ℕ)
    → contains j (filter_keys p m) ≡ true
    → (contains j m ≡ true) × (p j ≡ true)
contains-filter_keys p j [] e = absurd (ground (arith, e))
contains-filter_keys p j ((l, a) ∷ m) e =
    let ih = contains-filter_keys p j m in ground (arith, ih, e)

absent-erase : (j i : ℕ) (m : Map ℕ) → contains j m ≡ false → contains j (erase i m) ≡ false
absent-erase j i m e = elim (Bool-cases (contains j (erase i m))) [
  | inl c ↦ absurd (let (there, other) = contains-erase j i m c in ground (arith, there, e))
  | inr c ↦ c
]

absent-filter_keys :
    (p : ℕ → Bool) (j : ℕ) (m : Map ℕ) → contains j m ≡ false → contains j (filter_keys p m) ≡ false
absent-filter_keys p j m e = elim (Bool-cases (contains j (filter_keys p m))) [
  | inl c ↦ absurd (let (there, kept) = contains-filter_keys p j m c in ground (arith, there, e))
  | inr c ↦ c
]

absent-put :
    (j i a : ℕ) (m : Map ℕ)
    → (j == i) ≡ false
    → contains j m ≡ false
    → contains j (put i a m) ≡ false
absent-put j i a m other e = elim (Bool-cases (contains j (put i a m))) [
  | inl c ↦ absurd (let here = contains-put j i a m c in ground (arith, here, other, e))
  | inr c ↦ c
]

erase-Distinct : (i : ℕ) (m : Map ℕ) → Distinct m → Distinct (erase i m)
erase-Distinct i [] d = tt
erase-Distinct i ((j, a) ∷ m) (once, d) = elim (Bool-cases (i == j)) [
  | inl e ↦ rw (e) (erase-Distinct i m d)
  | inr e ↦ rw (e) (absent-erase j i m once, erase-Distinct i m d)
]

put-Distinct : (i a : ℕ) (m : Map ℕ) → Distinct m → Distinct (put i a m)
put-Distinct i a [] d = (refl, tt)
put-Distinct i a ((j, b) ∷ m) (once, d) = elim (Bool-cases (i == j)) [
  | inl e ↦ rw (e) (subst (λ k. contains k m ≡ false) (ground (arith, e)) once, d)
  | inr e ↦ rw (e) (absent-put j i a m (ground (arith, e)) once, put-Distinct i a m d)
]

filter_keys-Distinct : (p : ℕ → Bool) (m : Map ℕ) → Distinct m → Distinct (filter_keys p m)
filter_keys-Distinct p [] d = tt
filter_keys-Distinct p ((j, a) ∷ m) (once, d) = elim (Bool-cases (p j)) [
  | inl e ↦ rw (e) (absent-filter_keys p j m once, filter_keys-Distinct p m d)
  | inr e ↦ rw (e) (filter_keys-Distinct p m d)
]

-- A key that is not there is not erased, and one that is takes one entry.
length-erase_absent : (i : ℕ) (m : Map ℕ) → contains i m ≡ false → length (erase i m) ≡ length m
length-erase_absent i [] e = refl
length-erase_absent i ((j, a) ∷ m) e = let ih = length-erase_absent i m in ground (arith, ih, e)

length-erase-Distinct : (i : ℕ) (m : Map ℕ) → Distinct m → length m ≤ suc (length (erase i m))
length-erase-Distinct i [] d = omega arith
length-erase-Distinct i ((j, a) ∷ m) (once, d) = elim (Bool-cases (i == j)) [
  | inl e ↦
      let none_left =
        length-erase_absent i m (subst (λ k. contains k m ≡ false) (ground (arith, e)) once) in
      rw (e) (omega (arith, none_left))
  | inr e ↦ rw (e) (omega (arith, length-erase-Distinct i m d))
]

-- An id leaves the queue and the map.
pub Tidy-erase :
    (id : ℕ) (order : List ℕ) (done : Map ℕ) → Tidy (id ∷ order) done → Tidy order (erase id done)
Tidy-erase id order done t = record {
  covered = λ j c.
      let (there, other) = contains-erase j id done c in
      let before = t.covered j there in ground (arith, before, other);
  distinct = erase-Distinct id done t.distinct;
}

-- The map is no larger than the queue.
pub Tidy-length : (order : List ℕ) (done : Map ℕ) → Tidy order done → length done ≤ length order
Tidy-length [] [] t = omega arith
Tidy-length [] ((j, a) ∷ m) t = let before = t.covered j in absurd (ground (arith, before))
Tidy-length (id ∷ order) done t = omega (
  arith,
  length-erase-Distinct id done t.distinct,
  Tidy-length order (erase id done) (Tidy-erase id order done t),
)

pub trim_done-Tidy :
    (order : List ℕ) (done : Map ℕ)
    → Tidy order done
    → Tidy (trim_done order done).0 (trim_done order done).1
unfolding trim_done
trim_done-Tidy [] done t = t
trim_done-Tidy (id ∷ order) done t = elim (Bool-cases (ltb 128 (length (id ∷ order)))) [
  | inl e ↦ rw (e) (trim_done-Tidy order (erase id done) (Tidy-erase id order done t))
  | inr e ↦ rw (e) t
]

member-snoc :
    (j id : ℕ) (order : List ℕ) → member j (order ++ id ∷ []) ≡ (member j order || j == id)
member-snoc j id [] = ground arith
member-snoc j id (i ∷ order) = let ih = member-snoc j id order in ground (arith, ih)

-- What `mark_done` adds.
pub put-Tidy :
    (t id : ℕ) (order : List ℕ) (done : Map ℕ)
    → Tidy order done
    → Tidy (if contains id done then order else order ++ id ∷ []) (put id t done)
put-Tidy t id order done tidy = elim (Bool-cases (contains id done)) [
  | inl e ↦ rw (e) (record {
    covered = λ j c. elim (Bool-cases (j == id)) [
      | inl same ↦ tidy.covered j (subst (λ k. contains k done ≡ true) (ground (arith, same)) e)
      | inr other ↦
          let here = contains-put j id t done c in tidy.covered j (ground (arith, here, other))
    ];
    distinct = put-Distinct id t done tidy.distinct;
  })
  | inr e ↦ rw (e) (record {
    covered = λ j c.
        let here = contains-put j id t done c in
        let before = tidy.covered j in
        let after = member-snoc j id order in ground (arith, here, before, after);
    distinct = put-Distinct id t done tidy.distinct;
  })
]

member-remove :
    (p : ℕ → Bool) (j : ℕ) (order : List ℕ)
    → member j order ≡ true
    → p j ≡ false
    → member j (remove p order) ≡ true
unfolding remove
member-remove p j [] e keep = absurd (ground (arith, e))
member-remove p j (i ∷ order) e keep =
    let ih = member-remove p j order in
    elim (Bool-cases (j == i)) [
      | inl same ↦
          let gone : p i ≡ false = subst (λ k. p k ≡ false) (ground (arith, same)) keep in
          rw (remove, gone, same) refl
      | inr other ↦ ground (arith, ih, e, keep, other)
    ]

pub drop_done-Tidy :
    (stale : ℕ → Bool) (order : List ℕ) (done : Map ℕ)
    → Tidy order done
    → Tidy
        (remove (λ id. stale id && contains id done) order)
        (filter_keys (λ id. not (stale id)) done)
drop_done-Tidy stale order done t = record {
  covered = λ j c.
      let (there, kept) = contains-filter_keys (λ id. not (stale id)) j done c in
      member-remove (λ id. stale id && contains id done) j order (t.covered j there)
        (ground (arith, kept));
  distinct = filter_keys-Distinct (λ id. not (stale id)) done t.distinct;
}

-- An id that is only in the queue leaves it.
Tidy-absent :
    (id : ℕ) (order : List ℕ) (done : Map ℕ)
    → find id done ≡ none
    → Tidy (id ∷ order) done
    → Tidy order done
Tidy-absent id order done e t = record {
  covered = λ j c. elim (Bool-cases (j == id)) [
    | inl same ↦
        let gone : find j done ≡ none = subst (λ k. find k done ≡ none) (ground (arith, same)) e in
        absurd (ground (arith, gone, c))
    | inr other ↦ let before = t.covered j c in ground (arith, before, other)
  ];
  distinct = t.distinct;
}

pub expire_ids-Tidy :
    (t hold : ℕ) (order : List ℕ) (done : Map ℕ)
    → Tidy order done
    → Tidy (expire_ids t hold order done).0 (expire_ids t hold order done).1
unfolding expire_ids
expire_ids-Tidy t hold [] done tidy = tidy
expire_ids-Tidy t hold (id ∷ order) done tidy = elim (Option-cases (find id done)) [
  | inl e ↦
      rw (expire_ids, e) (expire_ids-Tidy t hold order done (Tidy-absent id order done e tidy))
  | inr (at, e) ↦ elim (Bool-cases (ltb (at + hold) t)) [
    | inl old ↦
        rw (expire_ids, e, old)
          (expire_ids-Tidy t hold order (erase id done) (Tidy-erase id order done tidy))
    | inr new ↦ rw (expire_ids, e, new) tidy
  ]
]
