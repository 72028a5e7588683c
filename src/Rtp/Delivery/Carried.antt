-- ===== src/Rtp/Delivery/Carried.antt =====
-- One datagram at a time: what the packer queues, and what the other end makes of it.
use vstreamer.Base.{
  ℕ, Bool, List, ◌≡◌, Outcome, ◌<◌, ◌∷◌, ok, ◌^◌, [], ◌++◌, ◌+◌, false, length, ◌≤◌, true, u16,
  le→not_ltb, ◌%◌, none, ◌∙◌, some, arith, ap, refl, append_assoc,
}
use vstreamer.Rtp.Packer.{Packer, datagram, hdr_extra, rtp_hdr, max_rtp, append_datagram}
use vstreamer.Rtp.Depacketizer.{Depacketizer, process_payload, feed}
use vstreamer.Rtp.InOrder.{At, arrive-At}
use vstreamer.Rtp.Delivery.Feed.{
  Fits, feed_all, feed_all-quiet, feed_all-last, feed_lem, settle_open, settle_marked, parsed,
}

-- With the marker the unit `au` is handed out; without, it is being built.
abbrev pub Settled : Bool → ℕ → ℕ → List ℕ → Depacketizer → List (List ℕ) → Type 0
Settled true seq ts au s out = (out ≡ au ∷ []) × ((ts' : ℕ) → At seq ts' [] false [] s)
Settled false seq ts au s out = (out ≡ []) × At seq ts au false [] s

-- A call that queued `ds` and returned: fed to a depacketizer in a state `Pre`, they make `au`.
pub record Carried (p : Packer) (marker : Bool) (ts : ℕ) (au : List ℕ) (Pre : Depacketizer → Type 0)
    (r : Packer × Outcome (Unit {0})) : Type 0 where
  pub after : Packer
  pub ds : List (List ℕ)
  pub returns : r ≡ (after, ok tt)
  pub queued : after.queue ≡ p.queue ++ ds
  pub same_cfg : after.cfg ≡ p.cfg
  pub same_sps : after.sps ≡ p.sps
  pub same_pps : after.pps ≡ p.pps
  pub seq_fits : after.seq < 2 ^ 16
  pub arrives :
      (s : Depacketizer)
      → Pre s
      → (s' : Depacketizer) × (out : List (List ℕ)) × (feed_all ds s ≡ (s', ok out))
        × Settled marker after.seq ts au s' out

module _ (p : Packer) (ts capture b : ℕ) (payload : List ℕ) (fits : Fits p.cfg ts capture)
    (small : p.seq < 2 ^ 16) (room : rtp_hdr + hdr_extra capture + length (b ∷ payload) ≤ p.cfg.mtu)
    (room_rtp : rtp_hdr + hdr_extra capture + length (b ∷ payload) ≤ max_rtp) where
  abbrev pub packet : Bool → List ℕ
  packet marker = datagram p.cfg p.seq marker ts capture (b ∷ payload)

  abbrev pub appended : Bool → Packer
  appended marker = record p { seq = u16 (p.seq + 1); queue = p.queue ++ packet marker ∷ [] }

  pub append_returns :
      (marker : Bool) → append_datagram (b ∷ payload) marker ts capture p ≡ (appended marker, ok tt)
  unfolding append_datagram
  append_returns marker = rw (le→not_ltb _ _ room, le→not_ltb _ _ room_rtp)

  module _ (au au' buf buf' : List ℕ) (active active' : Bool)
      (makes : (s : Depacketizer)
        → At ((p.seq + 1) % 2 ^ 16) ts au active buf s
        → (s' : Depacketizer) × (process_payload (b ∷ payload) s ≡ (s', ok tt))
          × At ((p.seq + 1) % 2 ^ 16) ts au' active' buf' s') where
    pub feed_unmarked :
        (s : Depacketizer)
        → At p.seq ts au active buf s
        → (s' : Depacketizer) × (feed (packet false) s ≡ (s', ok none))
          × At ((p.seq + 1) % 2 ^ 16) ts au' active' buf' s'
    feed_unmarked s h =
        let arrived =
          arrive-At p.seq ts au active buf (parsed p.seq ts capture b payload false) s refl refl
            small h in
        let (s', e, h') = makes _ arrived in
        (
          s',
          feed_lem p.cfg p.seq ts capture b payload s s' false au active buf fits small h e
              ∙ settle_open p.cfg p.seq ts capture b payload s s' _ au' active' buf' h',
          h',
        )

  module _ (au : List ℕ) (au' buf xs : List ℕ) (x : ℕ) (active : Bool) (some_bytes : au' ≡ x ∷ xs)
      (makes : (s : Depacketizer)
        → At ((p.seq + 1) % 2 ^ 16) ts au active buf s
        → (s' : Depacketizer) × (process_payload (b ∷ payload) s ≡ (s', ok tt))
          × At ((p.seq + 1) % 2 ^ 16) ts au' false [] s') where
    feed_marked :
        (s : Depacketizer)
        → At p.seq ts au active buf s
        → (s' : Depacketizer) × (feed (packet true) s ≡ (s', ok (some au')))
          × ((ts' : ℕ) → At ((p.seq + 1) % 2 ^ 16) ts' [] false [] s')
    feed_marked s h =
        let arrived =
          arrive-At p.seq ts au active buf (parsed p.seq ts capture b payload true) s refl refl
            small h in
        let (s1, e, h') = makes _ arrived in
        let (s', out, h'') =
          settle_marked p.cfg p.seq ts capture b payload s s1 _ x xs au' some_bytes h' in
        (
          s',
          feed_lem p.cfg p.seq ts capture b payload s s1 true au active buf fits small h e ∙ out,
          h'',
        )

    -- A datagram that closes the unit.
    pub append-Carried :
        (marker : Bool)
        → Carried p marker ts au'
            (At p.seq ts au active buf)
            (append_datagram (b ∷ payload) marker ts capture p)
    unfolding feed_all
    append-Carried true = record {
      after = appended true;
      ds = packet true ∷ [];
      returns = append_returns true;
      queued = refl;
      same_cfg = refl;
      same_sps = refl;
      same_pps = refl;
      seq_fits = omega arith;
      arrives = λ s h.
          let (s', e, h') = feed_marked s h in (s', au' ∷ [], feed_all-last _ _ s s' e, (refl, h'));
    }
    append-Carried false = record {
      after = appended false;
      ds = packet false ∷ [];
      returns = append_returns false;
      queued = refl;
      same_cfg = refl;
      same_sps = refl;
      same_pps = refl;
      seq_fits = omega arith;
      arrives = λ s h.
          let (s', e, h') = feed_unmarked au au' buf [] active false makes s h in
          (s', [], feed_all-quiet _ [] s s' e, (refl, h'));
    }

-- What is queued after a first datagram that left the unit open.
pub Carried-after :
    (p q : Packer) (d : List ℕ) (marker : Bool) (ts : ℕ) (au : List ℕ)
    (Pre Mid : Depacketizer → Type 0) (r : Packer × Outcome (Unit {0}))
    → (q.queue ≡ p.queue ++ d ∷ [])
    → (q.cfg ≡ p.cfg)
    → (q.sps ≡ p.sps)
    → (q.pps ≡ p.pps)
    → ((s : Depacketizer) → Pre s → (s' : Depacketizer) × (feed d s ≡ (s', ok none)) × Mid s')
    → Carried q marker ts au Mid r
    → Carried p marker ts au Pre r
unfolding feed_all
Carried-after p q d marker ts au Pre Mid r eq ec es ep first rest = record {
  after = rest.after;
  ds = d ∷ rest.ds;
  returns = rest.returns;
  queued = rest.queued ∙ ap (λ l. l ++ rest.ds) eq ∙ append_assoc p.queue (d ∷ []) rest.ds;
  same_cfg = rest.same_cfg ∙ ec;
  same_sps = rest.same_sps ∙ es;
  same_pps = rest.same_pps ∙ ep;
  seq_fits = rest.seq_fits;
  arrives = λ s h.
      let (s1, e, h1) = first s h in
      let (s', out, es', done) = rest.arrives s1 h1 in
      (s', out, feed_all-quiet d rest.ds s s1 e ∙ es', done);
}
