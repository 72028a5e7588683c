-- ===== src/Buffers/Loans.antt =====
-- A pool with its loans, and what acquire comes to.
use vstreamer.Base.{
  ℕ, List, Option, ◌≡◌, [], ◌<◌, ◌∷◌, All, some, true, arith, ◌++◌, length, ◌≤◌, if◌then◌else◌, ◌+◌,
  refl, ltb, ◌%◌, ◌==◌, suc, ◌^◌, none, ap, length-replicate, ◌∙◌, dec_le, zero,
}
use vstreamer.Buffers.{Heap, View, no_view, storage, resize, adopt}
use vstreamer.Buffers.Heap.{storage_new}
use vstreamer.Buffers.Views.{whole, blank, extended, allocate_lem, resize_inside}
use vstreamer.Buffers.Pool.{Pool, make_pool, recycle, fall_back, acquire}

-- How often `b` is in a list.
abbrev pub times : ℕ → List ℕ → ℕ
times b [] = 0
times b (x ∷ xs) = if b == x then suc (times b xs) else times b xs

pub times-append : (b : ℕ) (xs ys : List ℕ) → times b (xs ++ ys) ≡ times b xs + times b ys
times-append b [] ys = omega arith
times-append b (x ∷ xs) ys = let ih = times-append b xs ys in ground arith

pub times_above : (n : ℕ) (xs : List ℕ) → All (λ x. x < n) xs → times n xs ≡ 0
times_above n [] h = refl
times_above n (x ∷ xs) (h, hs) = let ih = times_above n xs hs in ground arith

-- `lent` are the blocks whose storage is alive.
pub record World : Type 0 where
  pub pool : Pool
  pub heap : Heap
  pub lent : List ℕ

-- A buffer that a pool has handed out holds a block, or storage of its own.
abbrev pub lend : Option ℕ → List ℕ → List ℕ → List ℕ
lend none blocks lent = lent
lend (some i) blocks lent = if ltb 0 (times i blocks) then i ∷ lent else lent

-- A thread acquires, and the last view of a block goes.
pub data Step (s t : World) : Type 0 where
  acquired :
      (need : ℕ)
      → (let r = acquire need s.pool s.heap in
          t ≡ record { pool = r.1.0; heap = r.1.1; lent = lend r.0.store s.pool.blocks s.lent })
      → Step s t
  returned :
      (before after : List ℕ) (b : ℕ)
      → s.lent ≡ before ++ b ∷ after
      → t ≡ record s { pool = recycle b s.pool; lent = before ++ after }
      → Step s t

pub data Reach (s : World) : World → Type 0 where
  here : Reach s s
  next : {t u : World} → Reach s t → Step t u → Reach s u

abbrev pub new_world : ℕ → ℕ → Heap → World
new_world block_bytes depth h =
    let r = make_pool block_bytes depth h in record { pool = r.0; heap = r.1; lent = [] }

-- Each block is free or lent, once; a free one is storage of `block_bytes` bytes.
pub record IsConserved (depth : ℕ) (s : World) : Type 0 where
  pub accepts : s.pool.accepting ≡ true
  pub size : length s.pool.free_list + length s.lent ≡ depth
  pub once : (b : ℕ) → times b s.pool.blocks ≤ 1
  pub whereabouts : (b : ℕ) → times b s.pool.free_list + times b s.lent ≡ times b s.pool.blocks
  pub made : All (λ b. b < length s.heap) s.pool.blocks
  pub sized : All (λ b. length (storage s.heap (some b)) ≡ s.pool.block_bytes) s.pool.blocks

fall_back_lem :
    (need : ℕ) (s : Pool) (h : Heap)
    → 0 < need
    → fall_back need s h ≡ (
      whole (some (length h)) need,
      (record s { misses = (s.misses + 1) % 2 ^ 64 }, extended need h),
    )
unfolding fall_back
fall_back_lem need s h pos_need =
    let fits : need ≤ length (storage (extended need h) (some (length h))) =
      omega (
        arith,
        ap length (storage_new h (blank need)),
        length-replicate {A = Option ℕ} need none,
      ) in
    let counted : Pool = record s { misses = (s.misses + 1) % 2 ^ 64 } in
    ap (λ (r : View × Heap). let g = resize need r.0 r.1 in (g.0, (counted, g.1)))
      (allocate_lem need h pos_need)
    ∙ ap (λ (g : View × Heap). (g.0, (counted, g.1)))
        (resize_inside need 0 (some (length h)) (extended need h) fits)

acquire_taken :
    (need raw : ℕ) (rest : List ℕ) (s : Pool) (h : Heap)
    → s.free_list ≡ raw ∷ rest
    → 0 < need
    → need ≤ s.block_bytes
    → acquire need s h ≡ (whole (some raw) need, (record s { free_list = rest }, h))
unfolding acquire adopt
acquire_taken need raw rest s h e pos_need fits = ground (arith, e)

acquire_empty :
    (need : ℕ) (s : Pool) (h : Heap)
    → s.free_list ≡ []
    → 0 < need
    → acquire need s h ≡ fall_back need s h
unfolding acquire
acquire_empty need s h e pos_need = ground (arith, e)

acquire_large :
    (need : ℕ) (s : Pool) (h : Heap) → s.block_bytes < need → acquire need s h ≡ fall_back need s h
unfolding acquire
acquire_large need s h large = ground arith

-- What an acquisition comes to.
pub data Acquired (need : ℕ) (s : Pool) (h : Heap) (r : View × (Pool × Heap)) : Type 0 where
  nothing : need ≡ 0 → r ≡ (no_view, (s, h)) → Acquired need s h r
  taken :
      (raw : ℕ) (rest : List ℕ)
      → s.free_list ≡ raw ∷ rest
      → 0 < need
      → need ≤ s.block_bytes
      → r ≡ (whole (some raw) need, (record s { free_list = rest }, h))
      → Acquired need s h r
  fresh :
      0 < need
      → r ≡ (
        whole (some (length h)) need,
        (record s { misses = (s.misses + 1) % 2 ^ 64 }, extended need h),
      )
      → Acquired need s h r

pub acquire_from :
    (need : ℕ) (free : List ℕ) (s : Pool) (h : Heap)
    → s.free_list ≡ free
    → Acquired need s h (acquire need s h)
unfolding acquire
acquire_from zero free s h e = nothing refl refl
acquire_from (suc n) free s h e = elim (dec_le (suc n) s.block_bytes) [
  | yes fits ↦
      elim free as (λ f. s.free_list ≡ f → Acquired (suc n) s h (acquire (suc n) s h)) [
        | [] ↦ λ e.
            fresh (omega arith)
              (acquire_empty (suc n) s h e (omega arith) ∙ fall_back_lem (suc n) s h (omega arith))
        | raw ∷ rest ↦ λ e.
            taken raw rest e (omega arith) fits
              (acquire_taken (suc n) raw rest s h e (omega arith) fits)
      ]
        e
  | no large ↦
      fresh (omega arith)
        (acquire_large (suc n) s h (omega (arith, large)) ∙ fall_back_lem (suc n) s h (omega arith))
]

pub recycle_open :
    (b : ℕ) (s : Pool) → s.accepting ≡ true → recycle b s ≡ record s { free_list = b ∷ s.free_list }
unfolding recycle
recycle_open b s e = ground (arith, e)
