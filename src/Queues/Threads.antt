-- ===== src/Queues/Threads.antt =====
-- Any number of threads over one queue and one counter, in any order of their critical sections.
use vstreamer.Base.{
  ℕ, Bool, Option, true, List, some, [], suc, ◌≡◌, ◌++◌, ok, length, ◌∷◌, ℤ, ◌≤◌, false, none, ◌%◌,
  ◌^◌, ◌<◌, ◌+◌, fault, arith, dec_lt, lt→not_leb, le→leb, sym, refl, ◌∙◌, subst, inl, inr,
  append_assoc, length-append, ap,
}
use vstreamer.Queues.Timeout.{
  queue_of, push_wait_stopped, push_wait_room, push_wait_full, pop_cons, pop_stopped, pop_empty,
}
use vstreamer.Queues.{Queue, returns, push, push_wait, pop, pop_front, push_back, bump}

-- The objects that the threads share, and what has been put in and taken out so far.
pub record System (A : Type 0) : Type 0 where
  pub run : Bool
  pub queue : Queue A
  pub drops : ℕ
  pub accepted : List A
  pub popped : List A

module _ {A : Type 0} where
  abbrev pub noted : Bool → A → List A → List A
  noted true pkt l = l ++ (pkt ∷ [])
  noted false pkt l = l

  abbrev pub taken : Option A → List A → List A
  taken none l = l
  taken (some x) l = l ++ (x ∷ [])

  pub data Step (s t : System A) : Type 0 where
    producer :
        (pkt : A) (b : Bool) (d : ℕ) (q : Queue A)
        → push s.run pkt (some s.drops) s.queue ≡ ok (b, some d, q)
        → t ≡ record s { queue = q; drops = d; accepted = noted b pkt s.accepted }
        → Step s t
    patient_producer :
        (pkt : A) (timeout : ℤ) (expired b : Bool) (q : Queue A)
        → push_wait s.run timeout expired pkt s.queue ≡ returns (b, q)
        → t ≡ record s { queue = q; accepted = noted b pkt s.accepted }
        → Step s t
    consumer :
        (timeout : ℤ) (expired : Bool) (out : Option A) (q : Queue A)
        → pop s.run timeout expired s.queue ≡ returns (out, q)
        → t ≡ record s { queue = q; popped = taken out s.popped }
        → Step s t
    shutdown : t ≡ record s { run = false } → Step s t

  pub data Reach (s : System A) : System A → Type 0 where
    here : Reach s s
    next : {t u : System A} → Reach s t → Step t u → Reach s u

  abbrev pub start : ℕ → System A
  start limit = record {
    run = true;
    queue = record { capacity = limit; items = [] };
    drops = 0;
    accepted = [];
    popped = [];
  }

  -- `xs` in the order of `ys`, with `n` values of `ys` left out.
  pub data Thinned : ℕ → List A → List A → Type 0 where
    none_left : Thinned 0 [] []
    kept : {n : ℕ} {xs ys : List A} (x : A) → Thinned n xs ys → Thinned n (x ∷ xs) (x ∷ ys)
    left_out : {n : ℕ} {xs ys : List A} (y : A) → Thinned n xs ys → Thinned (suc n) xs (y ∷ ys)

  pub Thinned-kept :
      {n : ℕ} {xs ys : List A} (x : A)
      → Thinned n xs ys
      → Thinned n (xs ++ (x ∷ [])) (ys ++ (x ∷ []))
  Thinned-kept x none_left = kept x none_left
  Thinned-kept x (kept y t) = kept y (Thinned-kept x t)
  Thinned-kept x (left_out y t) = left_out y (Thinned-kept x t)

  pub Thinned-left_out :
      {n : ℕ} {xs ys : List A} (x : A) → Thinned n xs ys → Thinned (suc n) xs (ys ++ (x ∷ []))
  Thinned-left_out x none_left = left_out x none_left
  Thinned-left_out x (kept y t) = kept y (Thinned-left_out x t)
  Thinned-left_out x (left_out y t) = left_out y (Thinned-left_out x t)

  -- What has been accepted has left the queue or waits in it, in order; of what has left, all was
  -- popped but for as many as the counter says; and the queue holds no more than its capacity.
  pub data IsAccounted (limit : ℕ) (s : System A) : Type 0 where
    account :
        (gone : List A) (lost : ℕ)
        → s.queue.capacity ≡ limit
        → length s.queue.items ≤ limit
        → s.accepted ≡ gone ++ s.queue.items
        → Thinned lost s.popped gone
        → s.drops ≡ lost % 2 ^ 64
        → IsAccounted limit s

  -- What a push that returns has done.
  data Pushed (limit : ℕ) (items : List A) (pkt : A) (d : ℕ) (b : Bool) (d' : ℕ) (q : Queue A)
      : Type 0 where
    refused : b ≡ false → d' ≡ d → q ≡ queue_of limit items → Pushed limit items pkt d b d' q
    appended :
        length items < limit
        → b ≡ true
        → d' ≡ d
        → q ≡ queue_of limit (items ++ (pkt ∷ []))
        → Pushed limit items pkt d b d' q
    replaced :
        (x : A) (rest : List A)
        → items ≡ x ∷ rest
        → b ≡ true
        → d' ≡ (d + 1) % 2 ^ 64
        → q ≡ queue_of limit (rest ++ (pkt ∷ []))
        → Pushed limit items pkt d b d' q

  push_below :
      (limit : ℕ) (items : List A) (pkt : A) (d : ℕ)
      → length items < limit
      → push true pkt (some d) (queue_of limit items)
        ≡ ok (true, some d, queue_of limit (items ++ (pkt ∷ [])))
  unfolding push push_back
  push_below limit items pkt d lt = rw (lt→not_leb limit (length items) lt) refl

  push_above :
      (limit : ℕ) (x : A) (rest : List A) (pkt : A) (d : ℕ)
      → limit ≤ length (x ∷ rest)
      → push true pkt (some d) (queue_of limit (x ∷ rest))
        ≡ ok (true, some ((d + 1) % 2 ^ 64), queue_of limit (rest ++ (pkt ∷ [])))
  unfolding push pop_front push_back bump
  push_above limit x rest pkt d ge = rw (le→leb limit (suc (length rest)) ge) refl

  push_nowhere : (pkt : A) (d : ℕ) → push true pkt (some d) (queue_of 0 []) ≡ fault
  unfolding push pop_front
  push_nowhere pkt d = refl

  push-Pushed :
      (limit : ℕ) (run : Bool) (items : List A) (pkt : A) (d d' : ℕ) (b : Bool) (q : Queue A)
      → push run pkt (some d) (queue_of limit items) ≡ ok (b, some d', q)
      → Pushed limit items pkt d b d' q
  unfolding push
  push-Pushed limit false items pkt d d' b q e =
      refused (ground (arith, e)) (ground (arith, e)) (ground (arith, e))
  push-Pushed limit true [] pkt d d' b q e = elim (dec_lt 0 limit) [
    | yes lt ↦
        let e' = sym (push_below limit [] pkt d lt) ∙ e in
        appended lt (ground (arith, e')) (ground (arith, e')) (ground (arith, e'))
    | no ge ↦
        let z : limit ≡ 0 = omega (arith, ge) in
        let e' =
          sym (push_nowhere pkt d)
          ∙ subst (λ l. push true pkt (some d) (queue_of l []) ≡ ok (b, some d', q)) z e in
        absurd (ground (arith, e'))
  ]
  push-Pushed limit true (x ∷ rest) pkt d d' b q e = elim (dec_lt (length (x ∷ rest)) limit) [
    | yes lt ↦
        let e' = sym (push_below limit (x ∷ rest) pkt d lt) ∙ e in
        appended lt (ground (arith, e')) (ground (arith, e')) (ground (arith, e'))
    | no ge ↦
        let e' = sym (push_above limit x rest pkt d (omega (arith, ge))) ∙ e in
        replaced x rest refl (ground (arith, e')) (ground (arith, e')) (ground (arith, e'))
  ]

  data Waiting (limit : ℕ) (items : List A) (pkt : A) (b : Bool) (q : Queue A) : Type 0 where
    refused : b ≡ false → q ≡ queue_of limit items → Waiting limit items pkt b q
    appended :
        length items < limit
        → b ≡ true
        → q ≡ queue_of limit (items ++ (pkt ∷ []))
        → Waiting limit items pkt b q

  push_wait-Waiting :
      (limit : ℕ) (run : Bool) (t : ℤ) (x : Bool) (items : List A) (pkt : A) (b : Bool)
      (q : Queue A)
      → push_wait run t x pkt (queue_of limit items) ≡ returns (b, q)
      → Waiting limit items pkt b q
  push_wait-Waiting limit false t x items pkt b q e =
      let e' = sym (push_wait_stopped t x pkt (queue_of limit items)) ∙ e in
      refused (ground (arith, e')) (ground (arith, e'))
  push_wait-Waiting limit true t x items pkt b q e = elim (dec_lt (length items) limit) [
    | yes lt ↦
        let e' = sym (push_wait_room limit t x pkt items lt) ∙ e in
        appended lt (ground (arith, e')) (ground (arith, e'))
    | no ge ↦ elim (push_wait_full limit t x pkt items (omega (arith, ge))) [
      | inl f ↦ let e' = sym f ∙ e in refused (ground (arith, e')) (ground (arith, e'))
      | inr f ↦ absurd (ground (arith, sym f ∙ e))
    ]
  ]

  data Taken (limit : ℕ) (items : List A) (out : Option A) (q : Queue A) : Type 0 where
    nothing : out ≡ none → q ≡ queue_of limit items → Taken limit items out q
    front :
        (x : A) (rest : List A)
        → items ≡ x ∷ rest
        → out ≡ some x
        → q ≡ queue_of limit rest
        → Taken limit items out q

  pop-Taken :
      (limit : ℕ) (run : Bool) (t : ℤ) (x : Bool) (items : List A) (out : Option A) (q : Queue A)
      → pop run t x (queue_of limit items) ≡ returns (out, q)
      → Taken limit items out q
  pop-Taken limit run t x (y ∷ rest) out q e =
      let e' = sym (pop_cons limit run t x y rest) ∙ e in
      front y rest refl (ground (arith, e')) (ground (arith, e'))
  pop-Taken limit false t x [] out q e =
      let e' = sym (pop_stopped limit t x) ∙ e in nothing (ground (arith, e')) (ground (arith, e'))
  pop-Taken limit true t x [] out q e = elim (pop_empty limit t x) [
    | inl f ↦ let e' = sym f ∙ e in nothing (ground (arith, e')) (ground (arith, e'))
    | inr f ↦ absurd (ground (arith, sym f ∙ e))
  ]

  pub move_along :
      (gone rest : List A) (x pkt : A)
      → (gone ++ (x ∷ rest)) ++ (pkt ∷ []) ≡ (gone ++ (x ∷ [])) ++ (rest ++ (pkt ∷ []))
  move_along gone rest x pkt =
      append_assoc gone (x ∷ rest) (pkt ∷ [])
      ∙ sym (append_assoc gone (x ∷ []) (rest ++ (pkt ∷ [])))

  length-snoc : (xs : List A) (x : A) → length (xs ++ (x ∷ [])) ≡ length xs + 1
  length-snoc xs x = length-append xs (x ∷ [])

  Step-IsAccounted :
      {limit : ℕ} {s t : System A} → Step s t → IsAccounted limit s → IsAccounted limit t
  Step-IsAccounted {s = s} (producer pkt b d q e te) (account gone lost c len acc th dr) =
      subst (IsAccounted _) (sym te)
        (elim (push-Pushed s.queue.capacity s.run s.queue.items pkt s.drops d b q e) [
          | refused hb hd hq ↦ rw (hb, hd, hq) (account gone lost c len acc th dr)
          | appended lt hb hd hq ↦
              rw (hb, hd, hq)
                (account gone lost c (omega (arith, length-snoc s.queue.items pkt))
                  (ap (λ l. l ++ (pkt ∷ [])) acc ∙ append_assoc gone s.queue.items (pkt ∷ [])) th
                  dr)
          | replaced x rest hi hb hd hq ↦
              rw (hb, hd, hq)
                (account (gone ++ (x ∷ [])) (suc lost) c
                  (omega (arith, length-snoc rest pkt, ap length hi))
                  (ap (λ l. l ++ (pkt ∷ [])) (acc ∙ ap (λ l. gone ++ l) hi)
                    ∙ move_along gone rest x pkt)
                  (Thinned-left_out x th) (rw dr omega arith))
        ])
  Step-IsAccounted {s = s} (patient_producer pkt t x b q e te) (account gone lost c len acc th dr) =
      subst (IsAccounted _) (sym te)
        (elim (push_wait-Waiting s.queue.capacity s.run t x s.queue.items pkt b q e) [
          | refused hb hq ↦ rw (hb, hq) (account gone lost c len acc th dr)
          | appended lt hb hq ↦
              rw (hb, hq)
                (account gone lost c (omega (arith, length-snoc s.queue.items pkt))
                  (ap (λ l. l ++ (pkt ∷ [])) acc ∙ append_assoc gone s.queue.items (pkt ∷ [])) th
                  dr)
        ])
  Step-IsAccounted {s = s} (consumer t x out q e te) (account gone lost c len acc th dr) =
      subst (IsAccounted _) (sym te)
        (elim (pop-Taken s.queue.capacity s.run t x s.queue.items out q e) [
          | nothing ho hq ↦ rw (ho, hq) (account gone lost c len acc th dr)
          | front y rest hi ho hq ↦
              rw (ho, hq)
                (account (gone ++ (y ∷ [])) lost c (omega (arith, ap length hi))
                  (acc ∙ ap (λ l. gone ++ l) hi ∙ sym (append_assoc gone (y ∷ []) rest))
                  (Thinned-kept y th) dr)
        ])
  Step-IsAccounted (shutdown te) (account gone lost c len acc th dr) =
      subst (IsAccounted _) (sym te) (account gone lost c len acc th dr)

  -- From an empty queue of any capacity, in any order of the critical sections of the threads: the
  -- queue stays within its capacity, what has been accepted is what has left and then what waits,
  -- each in the order of arrival, and what has left was popped but for the values that the counter of
  -- drops, which wraps at 2 ^ 64, says.
  pub Reach-IsAccounted : (limit : ℕ) (s : System A) → Reach (start limit) s → IsAccounted limit s
  Reach-IsAccounted limit s here = account [] 0 refl (omega arith) refl none_left refl
  Reach-IsAccounted limit s (next r st) = Step-IsAccounted st (Reach-IsAccounted limit _ r)
