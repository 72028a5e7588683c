-- ===== src/Buffers/Moves.antt =====
-- One acquisition or return keeps each block free or lent.
use vstreamer.Base.{
  ℕ, List, ◌+◌, All, ◌≡◌, ◌%◌, subst, ◌∷◌, ◌++◌, suc, arith, ◌<◌, some, ◌^◌, sym, length, ap,
  length-append, ◌∙◌, le→not_ltb, [], lt→ltb, refl,
}
use vstreamer.Buffers.{Heap, storage}
use vstreamer.Buffers.Heap.{storage_old}
use vstreamer.Buffers.Views.{blank, extended}
use vstreamer.Buffers.Pool.{recycle}
use vstreamer.Buffers.Loans.{
  times, times-append, times_above, World, lend, IsConserved, acquire_from, Step, recycle_open,
  acquired, returned, nothing, taken, fresh, Step,
}

pub times_self : (b : ℕ) (xs : List ℕ) → times b (b ∷ xs) ≡ suc (times b xs)
times_self b xs = ground arith

-- A block goes from the lent ones to the free ones.
moved :
    (a b : ℕ) (before after free blocks : List ℕ)
    → times a free + times a (before ++ b ∷ after) ≡ times a blocks
    → times a (b ∷ free) + times a (before ++ after) ≡ times a blocks
moved a b before after free blocks e =
    let one = times-append a before (b ∷ after) in
    let two = times-append a before after in ground arith

pub made-extended :
    (need : ℕ) (h : Heap) (blocks : List ℕ)
    → All (λ b. b < length h) blocks
    → All (λ b. b < length (extended need h)) blocks
made-extended need h [] all = tt
made-extended need h (b ∷ blocks) (l, all) =
    (omega (arith, length-append h (blank need ∷ [])), made-extended need h blocks all)

pub sized-extended :
    (need size : ℕ) (h : Heap) (blocks : List ℕ)
    → All (λ b. b < length h) blocks
    → All (λ b. length (storage h (some b)) ≡ size) blocks
    → All (λ b. length (storage (extended need h) (some b)) ≡ size) blocks
sized-extended need size h [] made all = tt
sized-extended need size h (b ∷ blocks) (l, made) (e, all) =
    (ap length (storage_old h (blank need) b l) ∙ e, sized-extended need size h blocks made all)

recycled-IsConserved :
    (depth : ℕ) (s : World) (before after : List ℕ) (b : ℕ)
    → s.lent ≡ before ++ b ∷ after
    → IsConserved depth s
    → IsConserved depth (record s { pool = recycle b s.pool; lent = before ++ after })
recycled-IsConserved depth s before after b e c =
    let open_pool : recycle b s.pool ≡ record s.pool { free_list = b ∷ s.pool.free_list } =
      recycle_open b s.pool c.accepts in
    rw open_pool (record {
      accepts = c.accepts;
      size = omega (
        arith,
        c.size,
        ap length e,
        length-append before (b ∷ after),
        length-append before after,
      );
      once = c.once;
      whereabouts = λ a.
          moved a b before after s.pool.free_list s.pool.blocks
            (ap (λ n. times a s.pool.free_list + n) (sym (ap (times a) e)) ∙ c.whereabouts a);
      made = c.made;
      sized = c.sized;
    })

taken-IsConserved :
    (depth raw : ℕ) (rest : List ℕ) (s : World)
    → s.pool.free_list ≡ raw ∷ rest
    → IsConserved depth s
    → IsConserved depth (record s {
      pool = record s.pool { free_list = rest };
      lent = lend (some raw) s.pool.blocks s.lent;
    })
taken-IsConserved depth raw rest s e c =
    let front : times raw s.pool.free_list ≡ suc (times raw rest) =
      ap (times raw) e ∙ times_self raw rest in
    let block : 0 < times raw s.pool.blocks = omega (arith, front, c.whereabouts raw) in
    rw (lt→ltb 0 (times raw s.pool.blocks) block) (record {
      accepts = c.accepts;
      size = omega (arith, c.size, ap length e);
      once = c.once;
      whereabouts = λ a. let at = ap (times a) e in let all = c.whereabouts a in ground arith;
      made = c.made;
      sized = c.sized;
    })

fresh-IsConserved :
    (depth need : ℕ) (s : World)
    → IsConserved depth s
    → IsConserved depth (record {
      pool = record s.pool { misses = (s.pool.misses + 1) % 2 ^ 64 };
      heap = extended need s.heap;
      lent = lend (some (length s.heap)) s.pool.blocks s.lent;
    })
fresh-IsConserved depth need s c =
    rw
      (le→not_ltb 0 (times (length s.heap) s.pool.blocks)
        (omega (arith, times_above (length s.heap) s.pool.blocks c.made)))
      (record {
        accepts = c.accepts;
        size = c.size;
        once = c.once;
        whereabouts = c.whereabouts;
        made = made-extended need s.heap s.pool.blocks c.made;
        sized = sized-extended need s.pool.block_bytes s.heap s.pool.blocks c.made c.sized;
      })

pub Step-IsConserved :
    {s t : World} (depth : ℕ) → Step s t → IsConserved depth s → IsConserved depth t
Step-IsConserved depth (returned before after b e te) c =
    subst (IsConserved depth) (sym te) (recycled-IsConserved depth _ before after b e c)
Step-IsConserved {s = s} depth (acquired need te) c =
    subst (IsConserved depth) (sym te)
      (elim (acquire_from need s.pool.free_list s.pool s.heap refl) [
        | nothing z e ↦ rw e c
        | taken raw rest e pos_need fits er ↦ rw er (taken-IsConserved depth raw rest s e c)
        | fresh pos_need er ↦ rw er (fresh-IsConserved depth need s c)
      ])
