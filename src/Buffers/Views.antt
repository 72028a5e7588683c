-- ===== src/Buffers/Views.antt =====
-- What the operations of a buffer do to it and to the views beside it.
use vstreamer.Base.{
  zero, suc, ℕ, ◌≡◌, Option, List, take, ◌<◌, map, some, ◌∷◌, ◌+◌, ◌≤◌, [], drop, replicate, length,
  true, false, ◌++◌, none, arith, le→not_ltb, lt→ltb, ◌∙◌, refl, length-take, ap, length-replicate,
  ◌-◌, lt→not_leb, length-append, sym, take_all, dec_le, subst, Bool-cases, inl, inr, length-map,
  drop-drop, take-drop-take,
}
use vstreamer.Buffers.{
  Heap, View, no_view, storage, contents, capacity, empty, overwrite, write, write_to, allocate,
  regrow, reserve, resize, copy_from, subview,
}
use vstreamer.Buffers.Heap.{
  IsValid, HasStore, Kept, Kept-new, Kept-written, storage_new, storage_written_new, length-write,
  length-overwrite, take-overwrite,
}

-- A view of `n` bytes that starts with those of `v`, beside which no other view has changed.
pub record Resized (n : ℕ) (h : Heap) (v : View) (r : View × Heap) : Type 0 where
  pub valid : IsValid r.1 r.0
  pub sized : r.0.len ≡ n
  pub at_start : r.0.off ≡ 0
  pub starts : take v.len (contents r.1 r.0) ≡ take n (contents h v)
  pub others : Kept h r.1

take_comm : {A : Type 0} (m n : ℕ) (xs : List A) → take m (take n xs) ≡ take n (take m xs)
take_comm zero zero [] = refl
take_comm zero zero (x ∷ xs) = refl
take_comm zero (suc n) [] = refl
take_comm zero (suc n) (x ∷ xs) = refl
take_comm (suc m) zero [] = refl
take_comm (suc m) zero (x ∷ xs) = refl
take_comm (suc m) (suc n) [] = refl
take_comm (suc m) (suc n) (x ∷ xs) = ap (◌∷◌ x) (take_comm m n xs)

-- A view at the start of its storage, and the heap with one storage of `n` bytes more.
abbrev pub whole : Option ℕ → ℕ → View
whole o len = record { store = o; off = 0; len = len }

abbrev pub blank : ℕ → List (Option ℕ)
blank n = replicate n none

abbrev pub extended : ℕ → Heap → Heap
extended n h = h ++ (blank n ∷ [])

abbrev filled : ℕ → List (Option ℕ) → Heap → Heap
filled n new h = write (length h) new (extended n h)

pub allocate_lem :
    (n : ℕ) (h : Heap) → 0 < n → allocate n h ≡ (whole (some (length h)) 0, extended n h)
unfolding allocate
allocate_lem n h pos_n = ground arith

pub resize_inside :
    (n len : ℕ) (o : Option ℕ) (h : Heap)
    → n ≤ length (storage h o)
    → resize n (whole o len) h ≡ (whole o n, h)
unfolding resize capacity
resize_inside n len o h fits = rw (le→not_ltb (length (storage h o) - 0) n (omega arith)) refl

resize_beyond :
    (n len : ℕ) (o : Option ℕ) (h : Heap)
    → length (storage h o) < n
    → resize n (whole o len) h
      ≡ (record (regrow n (whole o len) h).0 { len = n }, (regrow n (whole o len) h).1)
unfolding resize reserve capacity
resize_beyond n len o h more =
    rw
      (
        lt→ltb (length (storage h o) - 0) n (omega arith),
        lt→not_leb n (length (storage h o) - 0) (omega arith),
      )
      refl

regrow-empty :
    (n len : ℕ) (o : Option ℕ) (h : Heap)
    → 0 < n
    → empty (whole o len) ≡ true
    → regrow n (whole o len) h ≡ (whole (some (length h)) 0, extended n h)
unfolding regrow
regrow-empty n len o h pos_n e = rw (e) (allocate_lem n h pos_n)

regrow_full :
    (n len : ℕ) (o : Option ℕ) (h : Heap)
    → 0 < n
    → empty (whole o len) ≡ false
    → regrow n (whole o len) h
      ≡ (whole (some (length h)) len, filled n (contents h (whole o len)) h)
unfolding regrow write_to
regrow_full n len o h pos_n e = rw (e, allocate_lem n h pos_n) refl

-- An empty view of valid size has no bytes.
empty-len :
    (len : ℕ) (o : Option ℕ) (h : Heap)
    → IsValid h (whole o len)
    → empty (whole o len) ≡ true
    → len ≡ 0
unfolding empty storage
empty-len len none h (fits, has) e = omega arith
empty-len len (some i) h (fits, has) e = ground arith

length-contents :
    (len : ℕ) (o : Option ℕ) (h : Heap)
    → IsValid h (whole o len)
    → length (contents h (whole o len)) ≡ len
unfolding contents
length-contents len o h (fits, has) = omega (arith, length-take len (storage h o))

module _ (n len : ℕ) (o : Option ℕ) (h : Heap) (valid : IsValid h (whole o len)) where
  abbrev v : View
  v = whole o len

  inside-Resized : n ≤ length (storage h o) → Resized n h v (whole o n, h)
  unfolding contents
  inside-Resized fits = record {
    valid = (omega (arith, fits), valid.1);
    sized = refl;
    at_start = refl;
    starts = take_comm len n (storage h o);
    others = λ w ok_w. (ok_w, refl);
  }

  empty-Resized : 0 < n → len ≡ 0 → Resized n h v (whole (some (length h)) n, extended n h)
  unfolding contents
  empty-Resized pos_n e = record {
    valid = (
      omega (arith, ap length (storage_new h (blank n)), length-replicate {A = Option ℕ} n none),
      omega (arith, length-append h (blank n ∷ [])),
    );
    sized = refl;
    at_start = refl;
    starts = rw e (sym (take_all [] n (omega arith)));
    others = Kept-new h (blank n);
  }

  full-Resized : len ≤ n → Resized n h v (whole (some (length h)) n, filled n (contents h v) h)
  unfolding contents
  full-Resized more =
      let new = contents h v in
      let stored = storage_written_new h (blank n) new in
      let long : length new ≡ len = length-contents len o h valid in
      let short : length new ≤ length (blank n) =
        omega (arith, long, length-replicate {A = Option ℕ} n none) in
      let size : length (overwrite new (blank n)) ≡ n =
        length-overwrite new (blank n) ∙ length-replicate {A = Option ℕ} n none in
      record {
        valid = (
          omega (arith, ap length stored, size),
          omega (arith, length-write (length h) new (extended n h), length-append h (blank n ∷ [])),
        );
        sized = refl;
        at_start = refl;
        starts =
            ap (λ s. take len (take n s)) stored
            ∙ ap (take len) (take_all (overwrite new (blank n)) n (omega (arith, size)))
            ∙ subst (λ k. take k (overwrite new (blank n)) ≡ new) long
                (take-overwrite new (blank n) short)
            ∙ sym (take_all new n (omega (arith, long)));
        others = Kept-written h (blank n) new;
      }

whole-Resized :
    (n len : ℕ) (o : Option ℕ) (h : Heap)
    → IsValid h (whole o len)
    → Resized n h (whole o len) (resize n (whole o len) h)
whole-Resized n len o h valid = elim (dec_le n (length (storage h o))) [
  | yes fits ↦ rw (resize_inside n len o h fits) (inside-Resized n len o h valid fits)
  | no beyond ↦
      let more : length (storage h o) < n = omega (arith, beyond) in
      let r = resize_beyond n len o h more in
      elim (Bool-cases (empty (whole o len))) [
        | inl e ↦
            rw (r, regrow-empty n len o h (omega arith) e)
              (empty-Resized n len o h valid (omega arith) (empty-len len o h valid e))
        | inr e ↦
            rw (r, regrow_full n len o h (omega arith) e)
              (full-Resized n len o h valid (omega (arith, valid.0)))
      ]
]

-- resize of a view at the start of its storage makes it of the size asked for, keeps the bytes it
-- had as far as they fit, and changes no other view.
pub resize-Resized :
    (n : ℕ) (h : Heap) (v : View) → IsValid h v → v.off ≡ 0 → Resized n h v (resize n v h)
resize-Resized n h v (fits, has) start =
    let same : whole v.store v.len ≡ v =
      ap (λ o. record { store = v.store; off = o; len = v.len }) (sym start) in
    subst (λ w. Resized n h w (resize n w h)) same
      (whole-Resized n v.len v.store h (omega (arith, fits, start), has))

no_storage : (h : Heap) → length (storage h none) ≡ 0
unfolding storage
no_storage h = refl

-- copy_from makes a view of its own that shows the bytes, and changes no other.
pub copy_from-contents :
    (bytes : List ℕ) (h : Heap)
    → let r = copy_from bytes h in
      IsValid r.1 r.0 × (contents r.1 r.0 ≡ map some bytes) × Kept h r.1
unfolding copy_from contents write_to
copy_from-contents [] h = ((omega arith, tt), refl, λ w v. (v, refl))
copy_from-contents (b ∷ bs) h =
    let n = length (b ∷ bs) in
    let new = map some (b ∷ bs) in
    let made : resize n no_view h ≡ (whole (some (length h)) n, extended n h) =
      resize_beyond n 0 none h (omega (arith, no_storage h))
      ∙ ap (λ (r : View × Heap). (record r.0 { len = n }, r.1))
          (regrow-empty n 0 none h (omega arith) refl) in
    let stored = storage_written_new h (blank n) new in
    let size : length (overwrite new (blank n)) ≡ n =
      length-overwrite new (blank n) ∙ length-replicate {A = Option ℕ} n none in
    let long : length new ≡ n = length-map some (b ∷ bs) in
    let made_of : View × Heap → Type 0 = λ r.
      let h' = write_to r.0.store new r.1 in IsValid h' r.0 × (contents h' r.0 ≡ new) × Kept h h' in
    subst made_of (sym made) (
      (
        omega (arith, ap length stored, size),
        omega (arith, length-write (length h) new (extended n h), length-append h (blank n ∷ [])),
      ),
      ap (take n) stored
          ∙ take_all (overwrite new (blank n)) n (omega (arith, size))
          ∙ sym (take_all (overwrite new (blank n)) (length new) (omega (arith, size, long)))
          ∙ take-overwrite new (blank n)
              (omega (arith, long, length-replicate {A = Option ℕ} n none)),
      Kept-written h (blank n) new,
    )

-- A view of a view shows the bytes it names, inside the same storage.
pub subview-contents :
    (h : Heap) (v : View) (i rel n : ℕ)
    → IsValid h v
    → v.store ≡ some i
    → rel + n ≤ v.len
    → IsValid h (subview rel n v)
      × (contents h (subview rel n v) ≡ take n (drop rel (contents h v)))
unfolding subview contents
subview-contents h v i rel n (inside, has) e fits =
    let s = storage h (some i) in
    let at : subview rel n v ≡ record { store = some i; off = v.off + rel; len = n } =
      rw (subview, e, le→not_ltb v.len rel (omega arith), le→not_ltb (v.len - rel) n (omega arith))
        refl in
    rw (at, e)
      (
        (
          omega (arith, subst (λ o. v.off + v.len ≤ length (storage h o)) e inside),
          subst (HasStore h) e has,
        ),
        ap (take n) (sym (drop-drop v.off rel s))
            ∙ sym (take-drop-take n rel v.len (drop v.off s) fits),
      )
