-- ===== src/Buffers.antt =====
-- src/core/shared_sized_buffer.hpp: views of shared storage. `Pool` is src/core/buffer_pool.cpp.
pub mod Pool
pub mod Loans
pub mod Moves
pub mod Lending
pub mod Examples
pub mod Heap
pub mod Views
use vstreamer.Base.{
  ℕ, List, Option, none, length, Bool, if◌then◌else◌, [], ◌-◌, true, take, ◌∷◌, ◌==◌, ◌!=◌, ltb,
  some, get_elem?, drop, suc, ◌++◌, leb, map, ◌||◌, replicate, ◌+◌, zero,
}

-- The storages that have been made, each as its bytes, `none` for a byte that is not written yet. A
-- `store` pointer is the place of its storage in this list.
abbrev pub Heap : Type 0
Heap = List (List (Option ℕ))

-- shared_sized_buffer: `store`, `off` and `len`.
pub record View : Type 0 where
  pub store : Option ℕ
  pub off : ℕ
  pub len : ℕ

-- A buffer without storage, as the default constructor, clear and a move out leave it.
abbrev pub no_view : View
no_view = record { store = none; off = 0; len = 0 }

abbrev or_none : Option (List (Option ℕ)) → List (Option ℕ)
or_none none = []
or_none (some bytes) = bytes

unfoldable pub storage : Heap → Option ℕ → List (Option ℕ)
storage h none = []
storage h (some i) = or_none (get_elem? h i)

unfoldable pub capacity : Heap → View → ℕ
capacity h v = length (storage h v.store) - v.off

unfoldable pub empty : View → Bool
empty v = elim v.store [ none ↦ true | some i ↦ v.len == 0 ]

-- data() and size(): the bytes that the view shows.
unfoldable pub contents : Heap → View → List (Option ℕ)
contents h v = take v.len (drop v.off (storage h v.store))

-- `std::memcpy` to the start of storage `i`.
unfoldable pub overwrite : List (Option ℕ) → List (Option ℕ) → List (Option ℕ)
overwrite new [] = []
overwrite [] (y ∷ ys) = y ∷ ys
overwrite (x ∷ xs) (y ∷ ys) = x ∷ overwrite xs ys

unfoldable pub write : ℕ → List (Option ℕ) → Heap → Heap
unfolding overwrite
write i new [] = []
write zero new (s ∷ h) = overwrite new s ∷ h
write (suc i) new (s ∷ h) = s ∷ write i new h

-- The same through a view's data().
unfoldable pub write_to : Option ℕ → List (Option ℕ) → Heap → Heap
unfolding write
write_to none new h = h
write_to (some i) new h = write i new h

unfoldable pub allocate : ℕ → Heap → View × Heap
allocate n h =
    if n == 0
    then (no_view, h)
    else (record { store = some (length h); off = 0; len = 0 }, h ++ replicate n none ∷ [])

-- What reserve does once it needs new storage: the bytes go along if there are any.
unfoldable pub regrow : ℕ → View → Heap → View × Heap
unfolding allocate write_to contents empty
regrow n v h =
    let next = allocate n h in
    if empty v
    then next
    else (record next.0 { len = v.len }, write_to next.0.store (contents h v) next.1)

unfoldable pub reserve : ℕ → View → Heap → View × Heap
unfolding capacity regrow
reserve n v h = if v.off != 0 then (v, h) else if leb n (capacity h v) then (v, h) else regrow n v h

unfoldable pub resize : ℕ → View → Heap → View × Heap
unfolding capacity reserve
resize n v h =
    let grown = if ltb (capacity h v) n then reserve n v h else (v, h) in
    if v.off != 0 then (v, h) else (record grown.0 { len = n }, grown.1)

-- copy_from, the pointer not null.
unfoldable pub copy_from : List ℕ → Heap → View × Heap
unfolding resize write_to
copy_from [] h = (no_view, h)
copy_from (b ∷ bs) h =
    let out = resize (length (b ∷ bs)) no_view h in
    (out.0, write_to out.0.store (map some (b ∷ bs)) out.1)

-- adopt of bytes that are already in the heap as storage `i`, of `n` bytes; `none` where it hands the
-- bytes to the release function at once.
unfoldable pub adopt : ℕ → ℕ → ℕ → Option View
adopt i n size =
    if n == 0 || ltb n size then none else some (record { store = some i; off = 0; len = size })

unfoldable pub subview : ℕ → ℕ → View → View
subview rel_offset sub_len v = elim v.store [
  | none ↦ no_view
  | some i ↦
      if ltb v.len rel_offset || ltb (v.len - rel_offset) sub_len
      then no_view
      else record { store = some i; off = v.off + rel_offset; len = sub_len }
]
