-- ===== src/Buffers/Examples.antt =====
-- Tests of the buffers and of the pool.
use vstreamer.Base.{some, ◌≡◌, arith, [], ◌∷◌, refl, none, map, take, true, drop, replicate}
use vstreamer.Buffers.{
  Heap, View, storage, contents, capacity, empty, overwrite, write, write_to, allocate, regrow,
  reserve, resize, copy_from, subview, adopt,
}
use vstreamer.Buffers.Heap.{IsValid, Kept}
use vstreamer.Buffers.Views.{Resized, resize-Resized, copy_from-contents, subview-contents}
use vstreamer.Buffers.Pool.{make_blocks, make_pool, recycle, acquire, available}
use vstreamer.Buffers.Loans.{World, acquired, Reach, here, next, new_world, IsConserved}
use vstreamer.Buffers.Lending.{Reach-IsConserved, acquire-IsValid}

abbrev two_bytes : Heap
two_bytes = (some 7 ∷ some 8 ∷ []) ∷ []

abbrev all_of_it : View
all_of_it = record { store = some 0; off = 0; len = 2 }

test_resize :
    contents (resize 3 all_of_it two_bytes).1 (resize 3 all_of_it two_bytes).0
    ≡ some 7 ∷ some 8 ∷ none ∷ []
unfolding contents resize reserve regrow allocate write_to write overwrite capacity empty storage
test_resize = refl

resize-Resized_example : Resized 3 two_bytes all_of_it (resize 3 all_of_it two_bytes)
unfolding storage
resize-Resized_example = resize-Resized 3 two_bytes all_of_it (omega arith, omega arith) refl

copy_from-contents_example :
    let r = copy_from (5 ∷ 6 ∷ []) two_bytes in
    IsValid r.1 r.0 × (contents r.1 r.0 ≡ map some (5 ∷ 6 ∷ [])) × Kept two_bytes r.1
copy_from-contents_example = copy_from-contents (5 ∷ 6 ∷ []) two_bytes

subview-contents_example :
    IsValid two_bytes (subview 1 1 all_of_it)
    × (contents two_bytes (subview 1 1 all_of_it) ≡ take 1 (drop 1 (contents two_bytes all_of_it)))
unfolding storage
subview-contents_example =
    subview-contents two_bytes all_of_it 0 1 1 (omega arith, omega arith) refl (omega arith)

-- A pool of two blocks of four bytes, one of which is lent and comes back.
abbrev start : World
start = new_world 4 2 []

abbrev one_lent : World
one_lent = record {
  pool = record {
    block_bytes = 4;
    blocks = 0 ∷ 1 ∷ [];
    free_list = 0 ∷ [];
    accepting = true;
    misses = 0;
  };
  heap = replicate 4 none ∷ replicate 4 none ∷ [];
  lent = 1 ∷ [];
}

one_lent_from_start : Reach start one_lent
unfolding acquire make_pool make_blocks adopt
one_lent_from_start = next here (acquired 3 refl)

Reach-IsConserved_example : IsConserved 2 one_lent
Reach-IsConserved_example = Reach-IsConserved 4 2 [] one_lent one_lent_from_start

acquire-IsValid_example :
    let r = acquire 3 one_lent.pool one_lent.heap in
    IsValid r.1.1 r.0 × (r.0.len ≡ 3) × (r.0.off ≡ 0)
acquire-IsValid_example =
    acquire-IsValid 2 3 one_lent (Reach-IsConserved 4 2 [] one_lent one_lent_from_start)

test_available : available (recycle 1 one_lent.pool) ≡ 2
unfolding available recycle
test_available = refl
