-- ===== src/Buffers/Lending.antt =====
-- The blocks of a pool over any run of acquisitions and returns.
use vstreamer.Base.{
  ℕ, List, ◌≡◌, subst, All, ◌<◌, [], arith, ◌≤◌, ◌∷◌, suc, true, sym, ◌+◌, ℕ_discrete, ap, ◌++◌,
  refl, length, ◌∙◌, some, zero, length-replicate, Option, none, All-append, length-append,
}
use vstreamer.Buffers.{Heap, storage}
use vstreamer.Buffers.Heap.{IsValid, storage_new}
use vstreamer.Buffers.Views.{blank, extended}
use vstreamer.Buffers.Pool.{Pool, make_blocks, make_pool, acquire}
use vstreamer.Buffers.Loans.{
  times, times-append, times_above, World, Reach, new_world, IsConserved, acquire_from, here, next,
  nothing, taken, fresh,
}
use vstreamer.Buffers.Moves.{times_self, made-extended, sized-extended, Step-IsConserved}

once_more :
    (b n : ℕ) (xs : List ℕ) → All (λ x. x < n) xs → times b xs ≤ 1 → times b (xs ++ n ∷ []) ≤ 1
once_more b n xs all old =
    let split = times-append b xs (n ∷ []) in
    elim (ℕ_discrete b n) [
      | yes e ↦
          let above : times b xs ≡ 0 = subst (λ m. times m xs ≡ 0) (sym e) (times_above n xs all) in
          ground arith
      | no ne ↦ ground arith
    ]

-- A block that is in a list has what all there have.
times_found : (P : ℕ → Type 0) (b : ℕ) (xs : List ℕ) → 0 < times b xs → All P xs → P b
times_found P b [] l all = absurd (omega arith)
times_found P b (x ∷ xs) l (p, all) = elim (ℕ_discrete b x) [
  | yes e ↦ subst P (sym e) p
  | no ne ↦ times_found P b xs (ground arith) all
]

-- One block more, at the end of the heap.
grown-IsConserved :
    (k block_bytes : ℕ) (s : Pool) (h : Heap)
    → s.block_bytes ≡ block_bytes
    → IsConserved k (record { pool = s; heap = h; lent = [] })
    → IsConserved (suc k) (record {
      pool = record s { blocks = s.blocks ++ length h ∷ []; free_list = length h ∷ s.free_list };
      heap = extended block_bytes h;
      lent = [];
    })
grown-IsConserved k block_bytes s h e c =
    let n = length h in
    let above = times_above n s.blocks c.made in
    let size : length (storage (extended block_bytes h) (some n)) ≡ s.block_bytes =
      ap length (storage_new h (blank block_bytes))
      ∙ length-replicate {A = Option ℕ} block_bytes none
      ∙ sym e in
    record {
      accepts = c.accepts;
      size = omega (arith, c.size);
      once = λ b. once_more b n s.blocks c.made (c.once b);
      whereabouts = λ b.
          let split = times-append b s.blocks (n ∷ []) in let old = c.whereabouts b in ground arith;
      made =
          All-append (λ b. b < length (extended block_bytes h)) s.blocks (n ∷ [])
            (made-extended block_bytes h s.blocks c.made)
            (omega (arith, length-append h (blank block_bytes ∷ [])), tt);
      sized =
          All-append (λ b. length (storage (extended block_bytes h) (some b)) ≡ s.block_bytes)
            s.blocks (n ∷ []) (sized-extended block_bytes s.block_bytes h s.blocks c.made c.sized)
            (size, tt);
    }

make_blocks-IsConserved :
    (depth k block_bytes : ℕ) (s : Pool) (h : Heap)
    → s.block_bytes ≡ block_bytes
    → IsConserved k (record { pool = s; heap = h; lent = [] })
    → IsConserved (k + depth) (record {
      pool = (make_blocks depth block_bytes s h).0;
      heap = (make_blocks depth block_bytes s h).1;
      lent = [];
    })
unfolding make_blocks
make_blocks-IsConserved zero k block_bytes s h e c =
    subst (λ n. IsConserved n (record { pool = s; heap = h; lent = [] })) (omega arith) c
make_blocks-IsConserved (suc depth) k block_bytes s h e c =
    let s' : Pool = record s {
      blocks = s.blocks ++ length h ∷ [];
      free_list = length h ∷ s.free_list;
    } in
    let h' = extended block_bytes h in
    subst
      (λ n. IsConserved n (record {
        pool = (make_blocks depth block_bytes s' h').0;
        heap = (make_blocks depth block_bytes s' h').1;
        lent = [];
      }))
      (omega arith)
      (make_blocks-IsConserved depth (suc k) block_bytes s' h' e
        (grown-IsConserved k block_bytes s h e c))

new_world-IsConserved :
    (block_bytes depth : ℕ) (h : Heap) → IsConserved depth (new_world block_bytes depth h)
unfolding make_pool
new_world-IsConserved block_bytes depth h =
    subst (λ n. IsConserved n (new_world block_bytes depth h)) (omega arith)
      (make_blocks-IsConserved depth 0 block_bytes
        (record {
          block_bytes = block_bytes;
          blocks = [];
          free_list = [];
          accepting = true;
          misses = 0;
        })
        h refl
        (record {
          accepts = refl;
          size = refl;
          once = λ b. omega arith;
          whereabouts = λ b. refl;
          made = tt;
          sized = tt;
        }))

-- Over any run of acquisitions and returns of a pool of `depth` blocks, each block is free or lent
-- and never both or twice, the free and the lent ones are `depth`, and the storage of a block has the
-- size of a block.
pub Reach-IsConserved :
    (block_bytes depth : ℕ) (h : Heap) (s : World)
    → Reach (new_world block_bytes depth h) s
    → IsConserved depth s
Reach-IsConserved block_bytes depth h s here = new_world-IsConserved block_bytes depth h
Reach-IsConserved block_bytes depth h s (next r st) =
    Step-IsConserved depth st (Reach-IsConserved block_bytes depth h _ r)

-- Whatever the pool has left, acquire gives a buffer of exactly the size asked for, at the
-- start of its storage and inside it, and one without storage for 0 bytes.
pub acquire-IsValid :
    (depth need : ℕ) (s : World)
    → IsConserved depth s
    → let r = acquire need s.pool s.heap in IsValid r.1.1 r.0 × (r.0.len ≡ need) × (r.0.off ≡ 0)
acquire-IsValid depth need s c = elim (acquire_from need s.pool.free_list s.pool s.heap refl) [
  | nothing z e ↦ rw e ((omega arith, tt), sym z, refl)
  | taken raw rest e pos_need fits er ↦
      let front : times raw s.pool.free_list ≡ suc (times raw rest) =
        ap (times raw) e ∙ times_self raw rest in
      let block : 0 < times raw s.pool.blocks = omega (arith, front, c.whereabouts raw) in
      let size =
        times_found (λ b. length (storage s.heap (some b)) ≡ s.pool.block_bytes) raw s.pool.blocks
          block c.sized in
      rw er (
        (
          omega (arith, size, fits),
          times_found (λ b. b < length s.heap) raw s.pool.blocks block c.made,
        ),
        refl,
        refl,
      )
  | fresh pos_need er ↦
      let size =
        ap length (storage_new s.heap (blank need)) ∙ length-replicate {A = Option ℕ} need none in
      rw er
        ((omega (arith, size), omega (arith, length-append s.heap (blank need ∷ []))), refl, refl)
]
