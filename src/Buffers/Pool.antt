-- ===== src/Buffers/Pool.antt =====
-- src/core/buffer_pool.cpp: blocks that are lent out as storage and come back with its end.
use vstreamer.Base.{
  ℕ, List, suc, [], Option, length, if◌then◌else◌, ◌+◌, Bool, true, ◌%◌, some, ◌++◌, ◌∷◌, ◌==◌,
  replicate, ◌^◌, ltb, none, zero,
}
use vstreamer.Buffers.{Heap, View, no_view, allocate, resize, adopt}

-- buffer_pool::state. A block is the number of its storage in the heap. The back of `free_list` is
-- the head of the list here. `mu` makes each method one step.
pub record Pool : Type 0 where
  pub block_bytes : ℕ
  pub blocks : List ℕ
  pub free_list : List ℕ
  pub accepting : Bool
  pub misses : ℕ

-- The constructor's loop: `depth` new blocks, each pushed to the back of the list.
unfoldable pub make_blocks : ℕ → ℕ → Pool → Heap → Pool × Heap
make_blocks zero block_bytes s h = (s, h)
make_blocks (suc depth) block_bytes s h =
    make_blocks depth block_bytes
      (record s { blocks = s.blocks ++ length h ∷ []; free_list = length h ∷ s.free_list })
      (h ++ replicate block_bytes none ∷ [])

unfoldable pub make_pool : ℕ → ℕ → Heap → Pool × Heap
unfolding make_blocks
make_pool block_bytes depth h =
    make_blocks depth block_bytes
      (record {
        block_bytes = block_bytes;
        blocks = [];
        free_list = [];
        accepting = true;
        misses = 0;
      })
      h

unfoldable pub recycle : ℕ → Pool → Pool
recycle p s = if s.accepting then record s { free_list = p ∷ s.free_list } else s

-- The way to the heap, counted as a miss.
unfoldable pub fall_back : ℕ → Pool → Heap → View × (Pool × Heap)
unfolding allocate resize
fall_back need s h =
    let buf = allocate need h in
    let grown = resize need buf.0 buf.1 in
    (grown.0, (record s { misses = (s.misses + 1) % 2 ^ 64 }, grown.1))

abbrev pub or_empty : Option View → View
or_empty none = no_view
or_empty (some v) = v

unfoldable pub acquire : ℕ → Pool → Heap → View × (Pool × Heap)
unfolding fall_back adopt
acquire need s h =
    if need == 0
    then (no_view, (s, h))
    else if ltb s.block_bytes need
    then fall_back need s h
    else elim s.free_list [
      | [] ↦ fall_back need s h
      | raw ∷ rest ↦ (or_empty (adopt raw s.block_bytes need), (record s { free_list = rest }, h))
    ]

unfoldable pub available : Pool → ℕ
available s = length s.free_list
