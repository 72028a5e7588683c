-- ===== src/Rtp/Pay/Queue.antt =====
-- The queue of the payloader: what input adds to it.
use vstreamer.Base.{
  ℕ, List, ℤ, drop, length, ◌≤◌, ◌<◌, ◌++◌, ◌-◌, ◌≡◌, ◌∷◌, ◌^◌, ap, suc, [], ◌+◌, arith, ◌%◌,
  length-append, zero, length-drop, refl, sym, ◌∙◌, drop-drop, dec_lt, map, ok, All, lt→ltb,
  append-nil, ap₂, le→not_ltb, subst, true, append_assoc, Outcome,
}
use vstreamer.Rtp.Packer.{Packer, pack_annexb, pop_datagram}
use vstreamer.Rtp.Bounds.{Small, pack_annexb-Small}
use vstreamer.Rtp.Pay.{Pay, PendingDatagram, pending_cap, trim, push_pending, drain, input}

-- The last `n` of a list.
abbrev pub newest {ℓ} : {A : Type ℓ} → ℕ → List A → List A
newest n l = drop (length l - n) l

abbrev pub pending_of : ℤ → List ℕ → PendingDatagram
pending_of pts d = record { bytes = d; pts = pts }

pub newest_few : {A : Type 0} (n : ℕ) (l : List A) → length l ≤ n → newest n l ≡ l
newest_few n l h = let e : length l - n ≡ 0 = omega arith in ap (λ k. drop k l) e

drop-append :
    {A : Type 0} (k : ℕ) (xs ys : List A) → k ≤ length xs → drop k (xs ++ ys) ≡ drop k xs ++ ys
drop-append zero xs ys h = refl
drop-append (suc k) [] ys h = absurd (omega arith)
drop-append (suc k) (x ∷ xs) ys h = drop-append k xs ys (omega arith)

-- One more value after the last `n` is one more after all.
pub newest-snoc :
    {A : Type 0} (n : ℕ) (l : List A) (x : A)
    → newest n (newest n l ++ x ∷ []) ≡ newest n (l ++ x ∷ [])
newest-snoc n l x =
    let k = length l - n in
    let cut = drop-append k l (x ∷ []) (omega arith) in
    let one = length-append (newest n l) (x ∷ []) in
    let all = length-append l (x ∷ []) in
    let rest = length-drop k l in
    ap (drop (length (newest n l ++ x ∷ []) - n)) (sym cut)
    ∙ drop-drop k (length (newest n l ++ x ∷ []) - n) (l ++ x ∷ [])
    ∙ ap (λ m. drop m (l ++ x ∷ [])) (omega arith)

trim_lem :
    (l : List PendingDatagram) (dropped : ℕ)
    → dropped < 2 ^ 64
    → trim l dropped ≡ (newest pending_cap l, (dropped + (length l - pending_cap)) % 2 ^ 64)
unfolding trim
trim_lem [] dropped h = ap (λ n. ([], n)) (omega arith)
trim_lem (x ∷ l) dropped h = elim (dec_lt pending_cap (length (x ∷ l))) [
  | yes over ↦
      let cut : suc (length l - pending_cap) ≡ length (x ∷ l) - pending_cap = omega arith in
      rw (lt→ltb pending_cap (length (x ∷ l)) over) (
        trim_lem l ((dropped + 1) % 2 ^ 64) (omega arith)
        ∙ ap₂ (λ k n. (k, n)) (ap (λ k. drop k (x ∷ l)) cut) (omega arith))
  | no fits ↦ rw (le→not_ltb pending_cap (length (x ∷ l)) (omega (arith, fits))) (
      ap₂ (λ k n. (k, n)) (sym (newest_few pending_cap (x ∷ l) (omega (arith, fits))))
        (omega arith))
]

-- What has come into the queue and how much of it the counter has lost.
pub record Queued (pts : ℤ) (ds : List (List ℕ)) (all : List PendingDatagram) (lost : ℕ) (s t : Pay)
    : Type 0 where
  pub pending_is : t.pending ≡ newest pending_cap (all ++ map (pending_of pts) ds)
  pub dropped_is : t.datagrams_dropped ≡ (lost + (length all + length ds - pending_cap)) % 2 ^ 64
  pub packer_empty : t.packer.queue ≡ []
  pub same_mtu : t.mtu ≡ s.mtu

pop_front_lem :
    (cap : ℕ) (d : List ℕ) (ds : List (List ℕ)) (p : Packer)
    → p.queue ≡ d ∷ ds
    → length d ≤ cap
    → pop_datagram cap p ≡ (record p { queue = ds }, ok d)
unfolding pop_datagram
pop_front_lem cap d ds p e h = ground (arith, e)

pushed :
    (d : List ℕ) (pts : ℤ) (s : Pay) (l : List PendingDatagram) (n : ℕ)
    → trim (s.pending ++ pending_of pts d ∷ []) s.datagrams_dropped ≡ (l, n)
    → push_pending d pts s ≡ record s { pending = l; datagrams_dropped = n }
unfolding push_pending
pushed d pts s l n e =
    ap (λ (k : List PendingDatagram × ℕ). record s { pending = k.0; datagrams_dropped = k.1 }) e

drain_step :
    (fuel : ℕ) (pts : ℤ) (d : List ℕ) (p : Packer) (s : Pay)
    → pop_datagram s.mtu s.packer ≡ (p, ok d)
    → drain (suc fuel) pts s ≡ drain fuel pts (push_pending d pts (record s { packer = p }))
unfolding drain
drain_step fuel pts d p s e = ground (arith, e)

drain-Queued :
    (pts : ℤ) (ds : List (List ℕ)) (all : List PendingDatagram) (lost : ℕ) (s : Pay)
    → s.packer.queue ≡ ds
    → All (λ d. length d ≤ s.mtu) ds
    → s.pending ≡ newest pending_cap all
    → s.datagrams_dropped ≡ (lost + (length all - pending_cap)) % 2 ^ 64
    → Queued pts ds all lost s (drain (length ds) pts s)
unfolding drain
drain-Queued pts [] all lost s e small ep ed = record {
  pending_is = ep ∙ ap (newest pending_cap) (sym (append-nil all));
  dropped_is = ed ∙ ap (λ n. (lost + (n - pending_cap)) % 2 ^ 64) (omega arith);
  packer_empty = e;
  same_mtu = refl;
}
drain-Queued pts (d ∷ ds) all lost s e (fits, small) ep ed =
    let item = pending_of pts d in
    let popped = pop_front_lem s.mtu d ds s.packer e fits in
    let trimmed = trim_lem (s.pending ++ item ∷ []) s.datagrams_dropped (omega (arith, ed)) in
    let next : Pay = record s {
      packer = record s.packer { queue = ds };
      pending = newest pending_cap (s.pending ++ item ∷ []);
      datagrams_dropped =
          (s.datagrams_dropped + (length (s.pending ++ item ∷ []) - pending_cap)) % 2 ^ 64;
    } in
    let had : length s.pending ≡ length all - (length all - pending_cap) =
      ap length ep ∙ length-drop (length all - pending_cap) all in
    let ih =
      drain-Queued pts ds (all ++ item ∷ []) lost next refl small
        (ap (λ l. newest pending_cap (l ++ item ∷ [])) ep ∙ newest-snoc pending_cap all item)
        (omega
          (arith, ed, had, length-append s.pending (item ∷ []), length-append all (item ∷ []))) in
    let step : drain (suc (length ds)) pts s ≡ drain (length ds) pts next =
      drain_step (length ds) pts d (record s.packer { queue = ds }) s popped
      ∙ ap (drain (length ds) pts)
          (pushed d pts (record s { packer = record s.packer { queue = ds } }) _ _ trimmed) in
    subst (Queued pts (d ∷ ds) all lost s) (sym step) (record {
      pending_is =
          ih.pending_is
          ∙ ap (newest pending_cap) (append_assoc all (item ∷ []) (map (pending_of pts) ds));
      dropped_is =
          ih.dropped_is
          ∙ ap (λ n. (lost + (n - pending_cap)) % 2 ^ 64)
              (omega (arith, length-append all (item ∷ [])));
      packer_empty = ih.packer_empty;
      same_mtu = ih.same_mtu;
    })

within :
    (mtu cap : ℕ) (ds : List (List ℕ))
    → mtu ≡ cap
    → All (Small mtu) ds
    → All (λ d. length d ≤ cap) ds
within mtu cap [] e all = tt
within mtu cap (d ∷ ds) e (h, all) = (omega (arith, h.0, e), within mtu cap ds e all)

-- A frame that the packer takes goes into the queue whole and in order, behind what waits there; the
-- oldest datagrams beyond 512 are dropped and counted, and the packer is left with none. The packer
-- was made with the payloader's MTU.
pub input-Queued :
    (bytes : List ℕ) (pts capture_rt : ℤ) (s : Pay) (p : Packer)
    → s.packer.cfg.mtu ≡ s.mtu
    → length s.pending ≤ pending_cap
    → s.datagrams_dropped < 2 ^ 64
    → pack_annexb bytes pts capture_rt s.packer ≡ (p, ok tt)
    → (t : Pay) × (input 0 true bytes pts capture_rt s ≡ (t, ok tt))
      × Queued pts p.queue s.pending s.datagrams_dropped (record s { packer = p }) t
unfolding input
input-Queued bytes pts capture_rt s p em few small e =
    let sized : All (Small s.packer.cfg.mtu) p.queue =
      subst (λ (r : Packer × Outcome (Unit {0})). All (Small s.packer.cfg.mtu) r.0.queue) e
        (pack_annexb-Small bytes pts capture_rt s.packer) in
    let s' : Pay = record s { packer = p } in
    (
      drain (length p.queue) pts s',
      rw e refl,
      drain-Queued pts p.queue s.pending s.datagrams_dropped s' refl
          (within s.packer.cfg.mtu s.mtu p.queue em sized)
          (sym (newest_few pending_cap s.pending few)) (omega arith),
    )
