-- ===== src/Buffers/Heap.antt =====
-- The heap of the buffers: what a new storage and a write change.
use vstreamer.Base.{
  ℕ, Option, ◌≡◌, List, ◌+◌, some, ◌≤◌, ◌<◌, get_elem?, length, ◌≢◌, ◌++◌, ◌∷◌, arith, take, none,
  [], suc, ap, ◌∙◌, refl, zero, drop, length-append, get_elem?_in, subst, sym,
}
use vstreamer.Buffers.{Heap, View, storage, contents, overwrite, write, or_none, write_to}

abbrev pub HasStore : Heap → Option ℕ → Type 0
HasStore h none = Unit {0}
HasStore h (some i) = i < length h

-- A view lies inside its storage.
abbrev pub IsValid : Heap → View → Type 0
IsValid h v = (v.off + v.len ≤ length (storage h v.store)) × HasStore h v.store

-- Every view there was still shows what it showed.
abbrev pub Kept : Heap → Heap → Type 0
Kept h h' = (w : View) → IsValid h w → IsValid h' w × (contents h' w ≡ contents h w)

get_elem?_append :
    {A : Type 0} (h : List A) (s : A) (i : ℕ)
    → i < length h
    → get_elem? (h ++ (s ∷ [])) i ≡ get_elem? h i
get_elem?_append [] s i l = absurd (omega arith)
get_elem?_append (x ∷ h) s zero l = refl
get_elem?_append (x ∷ h) s (suc i) l = get_elem?_append h s i (omega arith)

get_elem?_new : {A : Type 0} (h : List A) (s : A) → get_elem? (h ++ (s ∷ [])) (length h) ≡ some s
get_elem?_new [] s = refl
get_elem?_new (x ∷ h) s = get_elem?_new h s

pub length-write : (i : ℕ) (new : List (Option ℕ)) (h : Heap) → length (write i new h) ≡ length h
unfolding write
length-write i new [] = refl
length-write zero new (s ∷ h) = refl
length-write (suc i) new (s ∷ h) = ap suc (length-write i new h)

get_elem?-write_other :
    (i j : ℕ) (new : List (Option ℕ)) (h : Heap)
    → i ≢ j
    → get_elem? (write i new h) j ≡ get_elem? h j
unfolding write
get_elem?-write_other i j new [] ne = refl
get_elem?-write_other zero zero new (s ∷ h) ne = absurd (ne refl)
get_elem?-write_other zero (suc j) new (s ∷ h) ne = refl
get_elem?-write_other (suc i) zero new (s ∷ h) ne = refl
get_elem?-write_other (suc i) (suc j) new (s ∷ h) ne =
    get_elem?-write_other i j new h (λ e. ne (ap suc e))

get_elem?-write_same :
    (i : ℕ) (new s : List (Option ℕ)) (h : Heap)
    → get_elem? h i ≡ some s
    → get_elem? (write i new h) i ≡ some (overwrite new s)
unfolding write
get_elem?-write_same i new s [] e = absurd (ground (arith, e))
get_elem?-write_same zero new s (x ∷ h) e = ground (arith, e)
get_elem?-write_same (suc i) new s (x ∷ h) e = get_elem?-write_same i new s h e

pub length-overwrite : (new s : List (Option ℕ)) → length (overwrite new s) ≡ length s
unfolding overwrite
length-overwrite new [] = refl
length-overwrite [] (y ∷ s) = refl
length-overwrite (x ∷ new) (y ∷ s) = ap suc (length-overwrite new s)

pub take-overwrite :
    (new s : List (Option ℕ)) → length new ≤ length s → take (length new) (overwrite new s) ≡ new
unfolding overwrite
take-overwrite [] [] h = refl
take-overwrite [] (y ∷ s) h = refl
take-overwrite (x ∷ new) [] h = absurd (omega arith)
take-overwrite (x ∷ new) (y ∷ s) h = ap (◌∷◌ x) (take-overwrite new s (omega arith))

-- A heap that has grown, with the old storages as they were.
module _ (h h' : Heap) (grown : length h ≤ length h')
    (same : (i : ℕ) → i < length h → storage h' (some i) ≡ storage h (some i)) where
  same_storage : (o : Option ℕ) → HasStore h o → storage h' o ≡ storage h o
  unfolding storage
  same_storage none l = refl
  same_storage (some i) l = same i l

  HasStore-grown : (o : Option ℕ) → HasStore h o → HasStore h' o
  HasStore-grown none l = tt
  HasStore-grown (some i) l = omega arith

  pub Kept-grown : Kept h h'
  unfolding contents
  Kept-grown w (fits, has) =
      let e = same_storage w.store has in
      ((rw e fits, HasStore-grown w.store has), ap (λ s. take w.len (drop w.off s)) e)

-- A heap that has one storage more, `s`.
module _ (h : Heap) (s : List (Option ℕ)) where
  pub storage_old : (i : ℕ) → i < length h → storage (h ++ (s ∷ [])) (some i) ≡ storage h (some i)
  unfolding storage
  storage_old i l = ap or_none (get_elem?_append h s i l)

  pub storage_new : storage (h ++ (s ∷ [])) (some (length h)) ≡ s
  unfolding storage
  storage_new = ap or_none (get_elem?_new h s)

  -- And then is written to, in the new storage.
  pub storage_written_old :
      (new : List (Option ℕ)) (i : ℕ)
      → i < length h
      → storage (write (length h) new (h ++ (s ∷ []))) (some i) ≡ storage h (some i)
  unfolding storage
  storage_written_old new i l = ap or_none (
      get_elem?-write_other (length h) i new (h ++ (s ∷ [])) (λ e. ground arith)
      ∙ get_elem?_append h s i l)

  pub storage_written_new :
      (new : List (Option ℕ))
      → storage (write (length h) new (h ++ (s ∷ []))) (some (length h)) ≡ overwrite new s
  unfolding storage
  storage_written_new new =
      ap or_none (get_elem?-write_same (length h) new s (h ++ (s ∷ [])) (get_elem?_new h s))

  pub Kept-new : Kept h (h ++ (s ∷ []))
  Kept-new = Kept-grown h (h ++ (s ∷ [])) (omega (arith, length-append h (s ∷ []))) storage_old

  pub Kept-written : (new : List (Option ℕ)) → Kept h (write (length h) new (h ++ (s ∷ [])))
  Kept-written new =
      Kept-grown h (write (length h) new (h ++ (s ∷ [])))
        (omega (arith, length-write (length h) new (h ++ (s ∷ [])), length-append h (s ∷ [])))
        (storage_written_old new)

shown :
    (new : List (Option ℕ)) (h : Heap) (o : Option ℕ) (len : ℕ)
    → len ≤ length (storage h o)
    → HasStore h o
    → len ≡ length new
    → take len (storage (write_to o new h) o) ≡ new
unfolding storage write_to
shown [] h none len fits has e = ap (λ k. take k (storage h none)) e
shown (x ∷ new) h none len fits has e = absurd (omega arith)
shown new h (some i) len fits has e =
    let (s, at) = get_elem?_in h i has in
    let stored : or_none (get_elem? (write i new h) i) ≡ overwrite new s =
      ap or_none (get_elem?-write_same i new s h at) in
    ap (take len) stored
    ∙ ap (λ k. take k (overwrite new s)) e
    ∙ take-overwrite new s (omega (arith, fits, e, ap (λ o. length (or_none o)) at))

-- What is written to the start of a storage shows in the views of it.
pub contents-write_to :
    (new : List (Option ℕ)) (h : Heap) (v : View)
    → IsValid h v
    → v.off ≡ 0
    → v.len ≡ length new
    → contents (write_to v.store new h) v ≡ new
unfolding contents
contents-write_to new h v (fits, has) start size =
    subst (λ o. take v.len (drop o (storage (write_to v.store new h) v.store)) ≡ new) (sym start)
      (shown new h v.store v.len (omega (arith, fits, start)) has size)
