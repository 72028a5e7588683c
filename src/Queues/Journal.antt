-- ===== src/Queues/Journal.antt =====
-- What a queue promises, without its deque: a journal of all that was put in, and a cursor.
use vstreamer.Base.{
  ℕ, Bool, List, Option, length, ℤ, ◌++◌, ◌+◌, Outcome, ◌∷◌, ◌-◌, some, ◌≡◌, ◌≤◌, if◌then◌else◌, ok,
  [], true, not, arith, none, false, err, ltb, length-append, suc, ◌&&◌, ◌==◌, get_elem?, ap, ap₂,
  refl, fault, append_assoc, sym, ◌<◌, le→leb, dec_lt, lt→not_leb, le→not_ltb, lt→ltb, Bool-cases,
  inl, inr, ◌∙◌,
}
use vstreamer.Queues.Timeout.{holds_on, wait_ready, wait_hold, wait_stop}
use vstreamer.Queues.{
  Queue, Wait, returns, waits, push, push_wait, pop, push_back, pop_front, take_front, has_room,
  wait_until, bump, is_positive, returns,
}

-- A call, with the run flag and the end of its time as it meets them.
pub data Call (A : Type 0) : Type 0 where
  pushes : Bool → A → Call A
  push_waits : Bool → ℤ → Bool → A → Call A
  pops : Bool → ℤ → Bool → Call A

pub data Reply (A : Type 0) : Type 0 where
  pushed : Bool → Reply A
  popped : Option A → Reply A
  waiting : Reply A
  undefined : Reply A

pub record Journal (A : Type 0) : Type 0 where
  pub all : List A
  pub gone : ℕ

suc_==_zero : (n : ℕ) → (suc n == 0) ≡ false
suc_==_zero n = ground arith

module _ {A : Type 0} where
  -- The answers of the code, and the state after each call.
  abbrev pub pushing :
      Option ℕ × Queue A → Outcome (Bool × Option ℕ × Queue A) → Reply A × (Option ℕ × Queue A)
  pushing s (ok (b, d, s')) = (pushed b, (d, s'))
  pushing s (err e) = (undefined, s)
  pushing s fault = (undefined, s)

  abbrev pub offering : Option ℕ × Queue A → Wait (Bool × Queue A) → Reply A × (Option ℕ × Queue A)
  offering (d, s) (returns (b, s')) = (pushed b, (d, s'))
  offering s waits = (waiting, s)

  abbrev pub popping :
      Option ℕ × Queue A → Wait (Option A × Queue A) → Reply A × (Option ℕ × Queue A)
  popping (d, s) (returns (out, s')) = (popped out, (d, s'))
  popping s waits = (waiting, s)

  abbrev pub answer : Call A → Option ℕ × Queue A → Reply A × (Option ℕ × Queue A)
  answer (pushes run pkt) s = pushing s (push run pkt s.0 s.1)
  answer (push_waits run t expired pkt) s = offering s (push_wait run t expired pkt s.1)
  answer (pops run t expired) s = popping s (pop run t expired s.1)

  unfoldable pub answers : List (Call A) → Option ℕ × Queue A → List (Reply A)
  answers [] s = []
  answers (c ∷ cs) s = let r = answer c s in r.0 ∷ answers cs r.1

  -- The same of a journal that keeps at most `limit` values ahead of the cursor.
  abbrev pub ahead : Journal A → ℕ
  ahead j = length j.all - j.gone

  abbrev pub write : A → Journal A → Journal A
  write pkt j = record j { all = j.all ++ (pkt ∷ []) }

  abbrev pub skip : Journal A → Journal A
  skip j = record j { gone = j.gone + 1 }

  abbrev pub fetched : Journal A → Option A → Reply A × Journal A
  fetched j none = (popped none, j)
  fetched j (some x) = (popped (some x), skip j)

  abbrev pub respond : ℕ → Call A → Option ℕ × Journal A → Reply A × (Option ℕ × Journal A)
  respond limit (pushes run pkt) (d, j) =
      if not run
      then (pushed false, (d, j))
      else if ltb (ahead j) limit
      then (pushed true, (d, write pkt j))
      else (pushed true, (bump d, write pkt (skip j)))
  respond limit (push_waits run t expired pkt) (d, j) =
      if not run
      then (pushed false, (d, j))
      else if ltb (ahead j) limit
      then (pushed true, (d, write pkt j))
      else if holds_on t expired
      then (waiting, (d, j))
      else (pushed false, (d, j))
  respond limit (pops run t expired) (d, j) =
      if run && (ahead j == 0) && holds_on t expired
      then (waiting, (d, j))
      else (let r = fetched j (get_elem? j.all j.gone) in (r.0, (d, r.1)))

  unfoldable pub responses : ℕ → List (Call A) → Option ℕ × Journal A → List (Reply A)
  responses limit [] s = []
  responses limit (c ∷ cs) s = let r = respond limit c s in r.0 ∷ responses limit cs r.1

  -- The journal of a queue that has let `passed` go.
  abbrev journal : List A → List A → Journal A
  journal passed items = record { all = passed ++ items; gone = length passed }

  abbrev queue : ℕ → List A → Queue A
  queue limit items = record { capacity = limit; items = items }

  abbrev at_queue : ℕ → Option ℕ → List A → Option ℕ × Queue A
  at_queue limit d items = (d, queue limit items)

  abbrev at_journal : Option ℕ → List A → List A → Option ℕ × Journal A
  at_journal d passed items = (d, journal passed items)

  -- A call on both sides: the same answer, and the queue is still what is ahead of the cursor.
  data Match (limit : ℕ) (x : Reply A × (Option ℕ × Queue A)) (y : Reply A × (Option ℕ × Journal A))
      : Type 0 where
    agree :
        (r : Reply A) (d : Option ℕ) (passed items : List A)
        → x ≡ (r, at_queue limit d items)
        → y ≡ (r, at_journal d passed items)
        → Match limit x y

  ahead-journal : (passed items : List A) → ahead (journal passed items) ≡ length items
  ahead-journal passed items = omega (arith, length-append passed items)

  write-journal :
      (pkt : A) (passed items : List A)
      → write pkt (journal passed items) ≡ journal passed (items ++ (pkt ∷ []))
  write-journal pkt passed items =
      ap (λ l. record { all = l; gone = length passed }) (append_assoc passed items (pkt ∷ []))

  skip-journal :
      (x : A) (passed rest : List A)
      → skip (journal passed (x ∷ rest)) ≡ journal (passed ++ (x ∷ [])) rest
  skip-journal x passed rest =
      ap₂ (λ l n. record { all = l; gone = n }) (sym (append_assoc passed (x ∷ []) rest))
        (sym (length-append passed (x ∷ [])))

  get-journal :
      (passed items : List A) → get_elem? (passed ++ items) (length passed) ≡ get_elem? items 0
  get-journal [] items = refl
  get-journal (p ∷ passed) items = get-journal passed items

  push_room :
      (limit : ℕ) (pkt : A) (d : Option ℕ) (passed items : List A)
      → length items < limit
      → Match limit
          (answer (pushes true pkt) (at_queue limit d items))
          (respond limit (pushes true pkt) (at_journal d passed items))
  unfolding push push_back
  push_room limit pkt d passed items h =
      rw
        (
          lt→not_leb limit (length items) h,
          ahead-journal passed items,
          lt→ltb (length items) limit h,
        )
        (agree (pushed true) d passed (items ++ (pkt ∷ [])) refl
          (ap (λ j. (pushed true, (d, j))) (write-journal pkt passed items)))

  push_full :
      (limit : ℕ) (pkt x : A) (d : Option ℕ) (passed rest : List A)
      → limit ≤ length (x ∷ rest)
      → Match limit
          (answer (pushes true pkt) (at_queue limit d (x ∷ rest)))
          (respond limit (pushes true pkt) (at_journal d passed (x ∷ rest)))
  unfolding push push_back pop_front
  push_full limit pkt x d passed rest h =
      rw
        (
          le→leb limit (suc (length rest)) h,
          ahead-journal passed (x ∷ rest),
          le→not_ltb (suc (length rest)) limit h,
        )
        (agree (pushed true) (bump d) (passed ++ (x ∷ [])) (rest ++ (pkt ∷ [])) refl (
          ap (λ j. (pushed true, (bump d, write pkt j))) (skip-journal x passed rest)
          ∙ ap (λ j. (pushed true, (bump d, j))) (write-journal pkt (passed ++ (x ∷ [])) rest)))

  push-Match :
      (limit : ℕ) (run : Bool) (pkt : A) (d : Option ℕ) (passed items : List A)
      → 1 ≤ limit
      → Match limit
          (answer (pushes run pkt) (at_queue limit d items))
          (respond limit (pushes run pkt) (at_journal d passed items))
  unfolding push
  push-Match limit false pkt d passed items h = agree (pushed false) d passed items refl refl
  push-Match limit true pkt d passed [] h = push_room limit pkt d passed [] h
  push-Match limit true pkt d passed (x ∷ rest) h = elim (dec_lt (length (x ∷ rest)) limit) [
    | yes lt ↦ push_room limit pkt d passed (x ∷ rest) lt
    | no ge ↦ push_full limit pkt x d passed rest (omega (arith, ge))
  ]

  push_wait-Match :
      (limit : ℕ) (run : Bool) (t : ℤ) (e : Bool) (pkt : A) (d : Option ℕ) (passed items : List A)
      → Match limit
          (answer (push_waits run t e pkt) (at_queue limit d items))
          (respond limit (push_waits run t e pkt) (at_journal d passed items))
  unfolding push_wait push_back has_room wait_until
  push_wait-Match limit false t e pkt d passed items =
      rw (push_wait, wait_ready t e) (agree (pushed false) d passed items refl refl)
  push_wait-Match limit true t e pkt d passed items = elim (Bool-cases (ltb (length items) limit)) [
    | inl lt ↦
        rw (ahead-journal passed items, lt, push_wait, wait_ready t e)
          (agree (pushed true) d passed (items ++ (pkt ∷ [])) refl
            (ap (λ j. (pushed true, (d, j))) (write-journal pkt passed items)))
    | inr ge ↦ elim (Bool-cases (holds_on t e)) [
      | inl h ↦
          rw (ahead-journal passed items, ge, push_wait, wait_hold t e h, h)
            (agree waiting d passed items refl refl)
      | inr h ↦
          rw (ahead-journal passed items, ge, push_wait, wait_stop t e h, h)
            (agree (pushed false) d passed items refl refl)
    ]
  ]

  pop-Match :
      (limit : ℕ) (run : Bool) (t : ℤ) (e : Bool) (d : Option ℕ) (passed items : List A)
      → Match limit
          (answer (pops run t e) (at_queue limit d items))
          (respond limit (pops run t e) (at_journal d passed items))
  unfolding pop take_front
  pop-Match limit false t e d passed [] =
      rw (get-journal passed [], pop, wait_ready t e) (agree (popped none) d passed [] refl refl)
  pop-Match limit true t e d passed [] = elim (Bool-cases (holds_on t e)) [
    | inl h ↦
        rw (ahead-journal passed [], pop, wait_hold t e h, h) (agree waiting d passed [] refl refl)
    | inr h ↦
        rw (ahead-journal passed [], get-journal passed [], pop, wait_stop t e h, h)
          (elim (Bool-cases (is_positive t)) [
            | inl p ↦ rw p (agree (popped none) d passed [] refl refl)
            | inr p ↦ rw p (agree (popped none) d passed [] refl refl)
          ])
  ]
  pop-Match limit false t e d passed (x ∷ rest) =
      rw (get-journal passed (x ∷ rest), pop, wait_ready t e)
        (agree (popped (some x)) d (passed ++ (x ∷ [])) rest refl
          (ap (λ j. (popped (some x), (d, j))) (skip-journal x passed rest)))
  pop-Match limit true t e d passed (x ∷ rest) =
      rw
        (
          ahead-journal passed (x ∷ rest),
          suc_==_zero (length rest),
          get-journal passed (x ∷ rest),
          pop,
          wait_ready t e,
        )
        (agree (popped (some x)) d (passed ++ (x ∷ [])) rest refl
          (ap (λ j. (popped (some x), (d, j))) (skip-journal x passed rest)))

  answer-Match :
      (limit : ℕ) (c : Call A) (d : Option ℕ) (passed items : List A)
      → 1 ≤ limit
      → Match limit
          (answer c (at_queue limit d items))
          (respond limit c (at_journal d passed items))
  answer-Match limit (pushes run pkt) d passed items h = push-Match limit run pkt d passed items h
  answer-Match limit (push_waits run t e pkt) d passed items h =
      push_wait-Match limit run t e pkt d passed items
  answer-Match limit (pops run t e) d passed items h = pop-Match limit run t e d passed items

  answers_from :
      (limit : ℕ) (cs : List (Call A)) (d : Option ℕ) (passed items : List A)
      → 1 ≤ limit
      → answers cs (at_queue limit d items) ≡ responses limit cs (at_journal d passed items)
  unfolding answers responses
  answers_from limit [] d passed items h = refl
  answers_from limit (c ∷ cs) d passed items h = elim (answer-Match limit c d passed items h) [
    | agree r d' passed' items' e e' ↦
        rw (e, e') (ap (◌∷◌ r) (answers_from limit cs d' passed' items' h))
  ]

  -- A queue that has room for one packet at least answers every run of calls as the journal does:
  -- what is popped is what the journal holds at its cursor, which a push moves on by one exactly when
  -- it finds the queue full.
  pub answers-responses :
      (limit : ℕ) (drops : Option ℕ) (calls : List (Call A))
      → 1 ≤ limit
      → answers calls (drops, record { capacity = limit; items = [] })
        ≡ responses limit calls (drops, record { all = []; gone = 0 })
  answers-responses limit drops calls h = answers_from limit calls drops [] [] h
