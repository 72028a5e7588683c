-- ===== src/Fec/Pending.antt =====
-- The sender never holds a whole block back.
use vstreamer.Base.{
  ℕ, ◌+◌, ◌<◌, ◌≤◌, ◌≡◌, arith, true, [], List, length, none, ◌∷◌, ◌↔◌, Option-cases, inl, inr,
  ◌++◌, ap, ◌∙◌, some, refl, subst, sym, Bool-cases, ltb, leb,
}
use vstreamer.Fec.Codec.{Isal, Setup, encode_block, max_original}
use vstreamer.Fec.Sender.{Sender, push_app, flush_pending, deadline_from, ms, push_active}

-- An active sender waits with fewer packets than a block takes, a deadline is set while packets
-- wait and only then, and a block takes at least one packet.
pub record Waiting (s : Sender) : Type 0 where
  pub active : s.setup.active ≡ true
  pub k_min : 1 ≤ s.setup.cfg_k
  pub few : length s.pending < s.setup.cfg_k
  pub deadline : (s.deadline ≡ none) ↔ (s.pending ≡ [])

-- What a flush of packets leaves: none of them.
record Flushed (s s' : Sender) : Type 0 where
  setup : s'.setup ≡ s.setup
  none_pending : s'.pending ≡ []
  no_deadline : s'.deadline ≡ none

snoc-cons :
    (xs : List (List ℕ)) (x : List ℕ)
    → (y : List ℕ) × (ys : List (List ℕ)) × (xs ++ x ∷ [] ≡ y ∷ ys)
snoc-cons [] x = (x, [], refl)
snoc-cons (y ∷ ys) x = (y, ys ++ x ∷ [], refl)

Flushed-Waiting :
    (s s' : Sender) → s.setup.active ≡ true → 1 ≤ s.setup.cfg_k → Flushed s s' → Waiting s'
Flushed-Waiting s s' on k_min f = record {
  active = ap (λ (c : Setup). c.active) f.setup ∙ on;
  k_min = omega (arith, k_min, ap (λ (c : Setup). c.cfg_k) f.setup);
  few = omega (arith, k_min, ap (λ (c : Setup). c.cfg_k) f.setup, ap length f.none_pending);
  deadline = (λ h. f.none_pending, λ h. f.no_deadline);
}

module _ (isal : Isal) where
  flush-Flushed :
      (s : Sender) (p : List ℕ) (ps : List (List ℕ))
      → s.setup.active ≡ true
      → Flushed s (flush_pending isal s (p ∷ ps)).0
  unfolding flush_pending
  flush-Flushed s p ps on = elim (Option-cases (encode_block isal s.setup (p ∷ ps) s.block_id)) [
    | inl e ↦ record {
      setup = ground (arith, e, on);
      none_pending = ground (arith, e, on);
      no_deadline = ground (arith, e, on);
    }
    | inr (shards, e) ↦ record {
      setup = ground (arith, e, on);
      none_pending = ground (arith, e, on);
      no_deadline = ground (arith, e, on);
    }
  ]

  push_active-Waiting :
      (t : ℕ) (packet : List ℕ) (s : Sender) → Waiting s → Waiting (push_active isal t packet s).0
  unfolding push_active
  push_active-Waiting t packet s w =
      elim (Bool-cases (ltb (max_original s.setup) (length packet))) [
        | inl e ↦
            rw (push_active, e)
              (record { active = w.active; k_min = w.k_min; few = w.few; deadline = w.deadline })
        | inr e ↦ elim (Bool-cases (leb s.setup.cfg_k (length (s.pending ++ packet ∷ [])))) [
          | inl f ↦
              rw (push_active, e, f) (full (s.pending ++ packet ∷ []) (snoc-cons s.pending packet))
          | inr f ↦
              rw (push_active, e, f)
                (record {
                  active = w.active;
                  k_min = w.k_min;
                  few = ground (arith, f);
                  deadline = (
                    λ h. absurd (some-ne h),
                    λ h. absurd (snoc-ne (snoc-cons s.pending packet) h),
                  );
                })
        ]
      ]
    where
      held : Sender
      held = record s {
        pending = s.pending ++ packet ∷ [];
        deadline = some (deadline_from (t + ms s.timeout_ms) s.deadline);
      }

      full :
          (l : List (List ℕ))
          → (p : List ℕ) × (ps : List (List ℕ)) × (l ≡ p ∷ ps)
          → Waiting (flush_pending isal held l).0
      full l (p, ps, e) =
          subst (λ l. Waiting (flush_pending isal held l).0) (sym e)
            (Flushed-Waiting held _ w.active w.k_min (flush-Flushed held p ps w.active))

      some-ne : {d : ℕ} → some d ≡ none → ⊥
      some-ne h = ground (arith, h)

      snoc-ne :
          {l : List (List ℕ)} → ((p : List ℕ) × (ps : List (List ℕ)) × (l ≡ p ∷ ps)) → l ≡ [] → ⊥
      snoc-ne (p, ps, e) h = ground (arith, sym e ∙ h)

  -- A packet leaves the sender waiting with fewer packets than a block takes, and with a deadline
  -- exactly while packets wait: a full block, or one that cannot be encoded, is not kept.
  pub push_app-Waiting :
      (t : ℕ) (packet : List ℕ) (s : Sender) → Waiting s → Waiting (push_app isal t packet s).0
  unfolding push_app
  push_app-Waiting t packet s w =
      subst (λ (r : Sender × List (List ℕ)). Waiting r.0) on (push_active-Waiting t packet s w)
    where
      on : push_active isal t packet s ≡ push_app isal t packet s
      on = ground (arith, w.active)
