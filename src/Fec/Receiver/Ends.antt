-- ===== src/Fec/Receiver/Ends.antt =====
-- The emit engine ends: the fuel of `run_emit_engine` is enough from every state.
use vstreamer.Base.{
  ℕ, zero, suc, ◌<◌, ◌≡◌, arith, length, true, Option-cases, some, inl, inr, take, ◌-◌, drop, ap,
  ◌∙◌, refl, Option, Bool-cases, not, subst, none, ◌&&◌, leb, ◌||◌, ◌≤◌, sym,
}
use vstreamer.Fec.Map.{find, length-erase_lt, put, erase, length-put_found, contains}
use vstreamer.Fec.Receiver.{
  Receiver, mark_done, try_stream_head_systematic, ReadyBlock, emit_from, expected_sdus,
  stream_frags, emit_hold_ms,
}
use vstreamer.Fec.Sender.{ms}
use vstreamer.Fec.Receiver.Emit.{
  Round, again, stop, emit_round, rounds, work, waits, overdue, run_emit_engine, release_ready,
  stream_head, waited, maybe_give_up_head,
}
use vstreamer.Fec.Receiver.Moves.{emit_all-Keeps, stream_frags-Keeps, abandon-Moves}

-- A round that goes on has less to do.
abbrev ShrinksBelow : ℕ → Round → Type 0
ShrinksBelow n (again s') = work s' < n
ShrinksBelow n (stop s') = Unit

abbrev Shrinks : Receiver → Round → Type 0
Shrinks s r = ShrinksBelow (work s) r

release_ready-work :
    (t : ℕ) (rb : ReadyBlock) (s : Receiver)
    → find s.emit_next s.ready_blocks ≡ some rb
    → work (release_ready t rb s) < work s
unfolding release_ready mark_done
release_ready-work t rb s e =
    let emitted = emit_from t rb.released rb.sdu_n rb.payloads s in
    let k = emit_all-Keeps t (take (rb.sdu_n - rb.released) (drop rb.released rb.payloads)) s in
    let fewer = length-erase_lt s.emit_next s.ready_blocks rb e in
    omega (
      arith,
      ap (λ m. length (erase s.emit_next m)) k.ready,
      ap length k.rx,
      ap waits k.since,
      fewer,
    )

stream_head-work : (t : ℕ) (s : Receiver) → work (stream_head t s) ≡ work s
unfolding stream_head try_stream_head_systematic
stream_head-work t s = elim (Option-cases (find s.emit_next s.rx_blocks)) [
  | inl e ↦ rw (stream_head, e) refl
  | inr (b, e) ↦
      let k = stream_frags-Keeps t (expected_sdus b - b.released) b s in
      let q = stream_frags t (expected_sdus b - b.released) b s in
      let same : length (put s.emit_next q.0 q.1.rx_blocks) ≡ length s.rx_blocks =
        ap (λ m. length (put s.emit_next q.0 m)) k.rx
        ∙ length-put_found s.emit_next q.0 b s.rx_blocks e in
      rw (stream_head, e) (omega (arith, same, ap length k.ready, ap waits k.since))
]

overdue-waits : (t : ℕ) (o : Option ℕ) (hold : ℕ) → overdue t o hold ≡ true → waits o ≡ 1
overdue-waits t none hold h = ground arith
overdue-waits t (some since) hold h = refl

give_up-Shrinks : (t : ℕ) (s : Receiver) → Shrinks s (maybe_give_up_head t s)
unfolding maybe_give_up_head
give_up-Shrinks t s = elim (Option-cases (find s.emit_next s.rx_blocks)) [
  | inl e ↦
      rw (maybe_give_up_head, e)
        (elim (Bool-cases (not (contains s.emit_next s.ready_blocks) && waited t s)) [
          | inl h ↦ rw (h) (
              omega (
                arith,
                overdue-waits t s.later_block_since (ms (emit_hold_ms s)) (ground (arith, h)),
              ))
          | inr h ↦ rw (h) tt
        ])
  | inr (b, e) ↦
      rw (maybe_give_up_head, e)
        (elim (Bool-cases (leb b.n (length b.frags) || waited t s)) [
          | inl h ↦
              let erased = record s { rx_blocks = erase s.emit_next s.rx_blocks } in
              let m = abandon-Moves t b s.emit_next erased in
              rw (h) (
                omega (
                  arith,
                  ap length m.rx,
                  ap length m.ready,
                  m.since,
                  length-erase_lt s.emit_next s.rx_blocks b e,
                ))
          | inr h ↦ rw (h) tt
        ])
]

emit_round-Shrinks : (t : ℕ) (s : Receiver) → Shrinks s (emit_round t s)
unfolding emit_round
emit_round-Shrinks t s = elim (Bool-cases s.emit_base_set) [
  | inr e ↦ rw (emit_round, e) tt
  | inl e ↦ elim (Option-cases (find s.emit_next s.ready_blocks)) [
    | inl f ↦
        rw (emit_round, e, f)
          (subst (λ n. ShrinksBelow n (maybe_give_up_head t (stream_head t s)))
            (stream_head-work t s) (give_up-Shrinks t (stream_head t s)))
    | inr (rb, f) ↦ rw (emit_round, e, f) (release_ready-work t rb s f)
  ]
]

-- The rounds of the loop as the code runs them: `n` that go on and one that stops, from `s` to `s'`.
pub data Runs (t : ℕ) : ℕ → Receiver → Receiver → Type 0 where
  last : {s s' : Receiver} → emit_round t s ≡ stop s' → Runs t 0 s s'
  next :
      {n : ℕ} {s q s' : Receiver} → emit_round t s ≡ again q → Runs t n q s' → Runs t (suc n) s s'

rounds_stop : (t fuel : ℕ) (s s' : Receiver) → emit_round t s ≡ stop s' → rounds (suc fuel) t s ≡ s'
unfolding rounds
rounds_stop t fuel s s' e = ground (arith, e)

rounds_again :
    (t fuel : ℕ) (s q : Receiver)
    → emit_round t s ≡ again q
    → rounds (suc fuel) t s ≡ rounds fuel t q
unfolding rounds
rounds_again t fuel s q e = ground (arith, e)

-- Fuel above the work lasts until a round stops.
rounds-Runs :
    (t fuel : ℕ) (s : Receiver)
    → work s < fuel
    → (n : ℕ) × (n ≤ work s) × Runs t n s (rounds fuel t s)
rounds-Runs t zero s h = absurd (omega arith)
rounds-Runs t (suc fuel) s h =
    go (emit_round t s) refl (emit_round-Shrinks t s) (λ q less. rounds-Runs t fuel q (omega arith))
  where
    go :
        (r : Round)
        → emit_round t s ≡ r
        → Shrinks s r
        → ((q : Receiver) → work q < work s → (n : ℕ) × (n ≤ work q) × Runs t n q (rounds fuel t q))
        → (n : ℕ) × (n ≤ work s) × Runs t n s (rounds (suc fuel) t s)
    go (stop s') e less more =
        (0, omega arith, subst (Runs t 0 s) (sym (rounds_stop t fuel s s' e)) (last e))
    go (again q) e less more =
        let (n, few, run) = more q less in
        (
          suc n,
          omega arith,
          subst (Runs t (suc n) s) (sym (rounds_again t fuel s q e)) (next e run),
        )

-- The loop of the emit engine ends in every state: after at most as many rounds that go on as there
-- are blocks, and one for the wait for a later block, a round stops, and what it leaves is the result
-- of `run_emit_engine`.
pub run_emit_engine-ends :
    (t : ℕ) (s : Receiver) → (n : ℕ) × (n ≤ work s) × Runs t n s (run_emit_engine t s)
unfolding run_emit_engine
run_emit_engine-ends t s = rounds-Runs t (suc (work s)) s (omega arith)
