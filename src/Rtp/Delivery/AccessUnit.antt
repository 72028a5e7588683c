-- ===== src/Rtp/Delivery/AccessUnit.antt =====
-- `pack_annexb`: all the units of an access unit, the cached parameter sets included.
use vstreamer.Base.{
  ℕ, List, Bool, ◌≡◌, Outcome, ok, false, [], ◌<◌, ◌++◌, ◌^◌, arith, ◌∙◌, ◌∷◌, ap, append_assoc,
  sym, if◌then◌else◌, ◌&&◌, ◌+◌, subst, not, ◌≤◌, refl, ltb, length, true, err, fault, All,
  append-nil, ap₂,
}
use vstreamer.Base.Act.{resume}
use vstreamer.Rtp.Packer.{
  Config, Packer, UnitScan, hdr_extra, rtp_hdr, max_rtp, send_nal, inject, send_units, is_slice,
  inject_if,
}
use vstreamer.Rtp.Depacketizer.{Depacketizer, feed}
use vstreamer.Rtp.InOrder.{At, framed}
use vstreamer.Rtp.Delivery.Feed.{Fits, feed_all}
use vstreamer.Rtp.Delivery.Carried.{Carried}
use vstreamer.Rtp.Delivery.Nal.{Sendable, send_nal-Carried}

feed_all-append :
    (ds es : List (List ℕ)) (s s' : Depacketizer)
    → feed_all ds s ≡ (s', ok [])
    → feed_all (ds ++ es) s ≡ feed_all es s'
unfolding feed_all
feed_all-append [] es s s' e = ground (arith, e)
feed_all-append (d ∷ ds) es s s' e = ground (arith, e, feed_all-append ds es (feed d s).0 s')

-- Two calls in a row: the first leaves the unit open.
Carried-then :
    (p : Packer) (marker : Bool) (ts : ℕ) (au au' : List ℕ) (Pre : Depacketizer → Type 0)
    (r : Packer × Outcome (Unit {0})) (k : Packer → Packer × Outcome (Unit {0}))
    → Carried p false ts au Pre r
    → ((q : Packer)
        → q.cfg ≡ p.cfg
        → q.sps ≡ p.sps
        → q.pps ≡ p.pps
        → q.seq < 2 ^ 16
        → Carried q marker ts au' (At q.seq ts au false []) (k q))
    → Carried p marker ts au' Pre (resume (λ _. k) r.0 r.1)
Carried-then p marker ts au au' Pre r k first later =
    let rest = later first.after first.same_cfg first.same_sps first.same_pps first.seq_fits in
    record {
      after = rest.after;
      ds = first.ds ++ rest.ds;
      returns = rw first.returns rest.returns;
      queued =
          rest.queued ∙ ap (λ l. l ++ rest.ds) first.queued ∙ append_assoc p.queue first.ds rest.ds;
      same_cfg = rest.same_cfg ∙ first.same_cfg;
      same_sps = rest.same_sps ∙ first.same_sps;
      same_pps = rest.same_pps ∙ first.same_pps;
      seq_fits = rest.seq_fits;
      arrives = λ s h.
          let (s1, out, e, (o, h1)) = first.arrives s h in
          let (s', out', e', done) = rest.arrives s1 h1 in
          (s', out', feed_all-append first.ds rest.ds s s1 (e ∙ ap (λ l. (s1, ok l)) o) ∙ e', done);
    }

-- Units as a byte stream, each behind a start code of four bytes.
abbrev pub stream : List (List ℕ) → List ℕ
stream [] = []
stream (nal ∷ nals) = framed nal ++ stream nals

stream-append : (xs ys : List (List ℕ)) → stream (xs ++ ys) ≡ stream xs ++ stream ys
stream-append [] ys = refl
stream-append (x ∷ xs) ys =
    ap (λ l. framed x ++ l) (stream-append xs ys)
    ∙ sym (append_assoc (framed x) (stream xs) (stream ys))

regroup_bytes :
    (au : List ℕ) (set1 set2 : List (List ℕ)) (nal : List ℕ) (rest : List (List ℕ))
    → (((au ++ stream set1) ++ stream set2) ++ framed nal) ++ stream rest
      ≡ au ++ stream ((set1 ++ set2) ++ nal ∷ rest)
regroup_bytes au set1 set2 nal rest = simp (stream-append, append_assoc)

Carried-au :
    {p : Packer} {marker : Bool} {ts : ℕ} {au au' : List ℕ} {Pre : Depacketizer → Type 0}
    {r : Packer × Outcome (Unit {0})}
    → au ≡ au'
    → Carried p marker ts au Pre r
    → Carried p marker ts au' Pre r
Carried-au {p} {marker} {ts} {Pre} {r} e c = subst (λ l. Carried p marker ts l Pre r) e c

-- A call after which nothing more is done.
Carried-end :
    (p : Packer) (marker : Bool) (ts : ℕ) (au : List ℕ) (Pre : Depacketizer → Type 0)
    (r : Packer × Outcome (Unit {0}))
    → Carried p marker ts au Pre r
    → Carried p marker ts au Pre (resume (λ _ s. (s, ok tt)) r.0 r.1)
Carried-end p marker ts au Pre r c =
    let same : resume (λ _ s. (s, ok tt)) r.0 r.1 ≡ r = rw c.returns in
    subst (Carried p marker ts au Pre) (sym same) c

-- A cached parameter set that is still to go out.
abbrev pub missing_set : Bool → List ℕ → Bool → List (List ℕ)
missing_set wanted set sent = if wanted && not sent && ltb 0 (length set) then set ∷ [] else []

abbrev pub sent_after : Bool → List ℕ → Bool → Bool
sent_after wanted set sent = if wanted && not sent && ltb 0 (length set) then true else sent

-- The units that an access unit goes out as: before its first slice, where it is a key frame, the
-- cached parameter sets that it does not bring itself.
abbrev pub units_out : UnitScan → List ℕ → List ℕ → List (List ℕ) → Bool → Bool → List (List ℕ)
units_out u sps pps [] sent_sps sent_pps = []
units_out u sps pps (nal ∷ nals) sent_sps sent_pps =
    let key_slice = u.has_idr && is_slice nal in
    missing_set (key_slice && not u.has_sps) sps sent_sps
    ++ missing_set (key_slice && not u.has_pps) pps sent_pps
    ++ nal
      ∷ units_out u sps pps nals (sent_after (key_slice && not u.has_sps) sps sent_sps)
          (sent_after (key_slice && not u.has_pps) pps sent_pps)

and_right : (a b : Bool) → (a && b) ≡ true → b ≡ true
and_right true b h = h
and_right false b h = cc

-- What the link asks of the configuration.
pub record Link (cfg : Config) (ts capture : ℕ) : Type 0 where
  pub fits : Fits cfg ts capture
  pub room : rtp_hdr + hdr_extra capture + 3 ≤ cfg.mtu
  pub standard : cfg.mtu ≤ max_rtp

abbrev pub SendableSet : List ℕ → Type 0
SendableSet [] = Unit {0}
SendableSet (b ∷ set) = Sendable (b ∷ set)

module _ (ts capture : ℕ) (cfg : Config) (link : Link cfg ts capture) where
  send-Carried :
      (marker : Bool) (au nal : List ℕ) (p : Packer)
      → p.cfg ≡ cfg
      → p.seq < 2 ^ 16
      → Sendable nal
      → Carried p marker ts
          (au ++ framed nal)
          (At p.seq ts au false [])
          (send_nal nal marker ts capture p)
  send-Carried marker au nal p e small ok' =
      send_nal-Carried ts capture marker au p (subst (λ c. Fits c ts capture) (sym e) link.fits)
        small (subst (λ (c : Config). rtp_hdr + hdr_extra capture + 3 ≤ c.mtu) (sym e) link.room)
        (subst (λ (c : Config). c.mtu ≤ max_rtp) (sym e) link.standard) nal ok'

  resume_pure :
      (k : Bool → Packer → Packer × Outcome (Unit {0})) (b : Bool) (q : Packer)
      (r : Outcome (Unit {0}))
      → let m = resume (λ _ q'. (q', ok b)) q r in resume k m.0 m.1 ≡ resume (λ _. k b) q r
  resume_pure k b q (ok _) = refl
  resume_pure k b q (err e) = refl
  resume_pure k b q fault = refl

  sendable_set : (set : List ℕ) → SendableSet set → ltb 0 (length set) ≡ true → Sendable set
  sendable_set [] h t = cc
  sendable_set (b ∷ set) h t = h

  inject_if_then :
      (test sent marker : Bool) (set au au' : List ℕ) (p : Packer)
      (k : Bool → Packer → Packer × Outcome (Unit {0}))
      → p.cfg ≡ cfg
      → p.seq < 2 ^ 16
      → (test ≡ true → Sendable set)
      → ((q : Packer)
          → q.cfg ≡ p.cfg
          → q.sps ≡ p.sps
          → q.pps ≡ p.pps
          → q.seq < 2 ^ 16
          → Carried q marker ts au'
              (At q.seq ts (au ++ stream (if test then set ∷ [] else [])) false [])
              (k (if test then true else sent) q))
      → Carried p marker ts au' (At p.seq ts au false []) (
          resume k
            (inject_if test set sent ts capture p).0
            (inject_if test set sent ts capture p).1)
  unfolding inject_if
  inject_if_then true sent marker set au au' p k e small ok' later =
      subst (Carried p marker ts au' (At p.seq ts au false []))
        (sym (
          resume_pure k true (send_nal set false ts capture p).0
            (send_nal set false ts capture p).1))
        (Carried-then p marker ts (au ++ framed set) au' (At p.seq ts au false [])
          (send_nal set false ts capture p) (k true)
          (send-Carried false au set p e small (ok' refl))
          (λ q ec es ep sq.
            subst (λ l. Carried q marker ts au' (At q.seq ts (au ++ l) false []) (k true q))
              (append-nil (framed set)) (later q ec es ep sq)))
  inject_if_then false sent marker set au au' p k e small ok' later =
      subst (λ l. Carried p marker ts au' (At p.seq ts l false []) (k sent p)) (append-nil au)
        (later p refl refl refl small)

  inject_both_then :
      (t1 t2 sent1 sent2 marker : Bool) (set1 set2 au au' : List ℕ) (p : Packer)
      (k : Bool → Bool → Packer → Packer × Outcome (Unit {0}))
      → p.cfg ≡ cfg
      → p.seq < 2 ^ 16
      → (t1 ≡ true → Sendable set1)
      → (t2 ≡ true → Sendable set2)
      → ((q : Packer)
          → q.cfg ≡ cfg
          → q.sps ≡ p.sps
          → q.pps ≡ p.pps
          → q.seq < 2 ^ 16
          → Carried q marker ts au'
              (At q.seq ts
                ((au ++ stream (if t1 then set1 ∷ [] else []))
                  ++ stream (if t2 then set2 ∷ [] else []))
                false
                [])
              (k (if t1 then true else sent1) (if t2 then true else sent2) q))
      → Carried p marker ts au' (At p.seq ts au false []) (
          resume
            (λ b1 s.
              resume
                (k b1)
                (inject_if t2 set2 sent2 ts capture s).0
                (inject_if t2 set2 sent2 ts capture s).1)
            (inject_if t1 set1 sent1 ts capture p).0
            (inject_if t1 set1 sent1 ts capture p).1)
  inject_both_then t1 t2 sent1 sent2 marker set1 set2 au au' p k e small h1 h2 later =
      inject_if_then t1 sent1 marker set1 au au' p
        (λ b1 s.
          resume (k b1) (inject_if t2 set2 sent2 ts capture s).0
            (inject_if t2 set2 sent2 ts capture s).1)
        e small h1
        (λ q ec es ep sq.
          inject_if_then t2 sent2 marker set2 _ au' q (k (if t1 then true else sent1)) (ec ∙ e) sq
            h2 (λ r ec' es' ep' sr. later r (ec' ∙ ec ∙ e) (es' ∙ es) (ep' ∙ ep) sr))

  -- The loop over the units, from a state where `au` has been built.
  pub send_units-Carried :
      (u : UnitScan) (nal : List ℕ) (nals : List (List ℕ)) (sent_sps sent_pps : Bool) (au : List ℕ)
      (p : Packer)
      → p.cfg ≡ cfg
      → p.seq < 2 ^ 16
      → SendableSet p.sps
      → SendableSet p.pps
      → Sendable nal
      → All Sendable nals
      → Carried p true ts
          (au ++ stream (units_out u p.sps p.pps (nal ∷ nals) sent_sps sent_pps))
          (At p.seq ts au false [])
          (send_units u (nal ∷ nals) sent_sps sent_pps ts capture p)
  unfolding send_units inject
  send_units-Carried u nal [] sent_sps sent_pps au p e small hs hp hn hns =
      let key = u.has_idr && is_slice nal in
      let m1 = missing_set (key && not u.has_sps) p.sps sent_sps in
      let m2 = missing_set (key && not u.has_pps) p.pps sent_pps in
      let before = (au ++ stream m1) ++ stream m2 in
      inject_both_then _ _ sent_sps sent_pps true p.sps p.pps au _ p
        (λ b1 b2 s.
          resume (λ _ s'. send_units u [] b1 b2 ts capture s') (send_nal nal true ts capture s).0
            (send_nal nal true ts capture s).1)
        e small (λ t. sendable_set p.sps hs (and_right _ _ t))
        (λ t. sendable_set p.pps hp (and_right _ _ t))
        (λ q ec es ep sq. Carried-end q true ts _ _ _ (
          Carried-au (sym (append-nil (before ++ framed nal)) ∙ regroup_bytes au m1 m2 nal [])
            (send-Carried true before nal q ec sq hn)))
  send_units-Carried u nal (n ∷ ns) sent_sps sent_pps au p e small hs hp hn (h, hns) =
      let key = u.has_idr && is_slice nal in
      let m1 = missing_set (key && not u.has_sps) p.sps sent_sps in
      let m2 = missing_set (key && not u.has_pps) p.pps sent_pps in
      let before = (au ++ stream m1) ++ stream m2 in
      let sps' = sent_after (key && not u.has_sps) p.sps sent_sps in
      let pps' = sent_after (key && not u.has_pps) p.pps sent_pps in
      let rest = units_out u p.sps p.pps (n ∷ ns) sps' pps' in
      inject_both_then _ _ sent_sps sent_pps true p.sps p.pps au _ p
        (λ b1 b2 s.
          resume (λ _ s'. send_units u (n ∷ ns) b1 b2 ts capture s')
            (send_nal nal false ts capture s).0 (send_nal nal false ts capture s).1)
        e small (λ t. sendable_set p.sps hs (and_right _ _ t))
        (λ t. sendable_set p.pps hp (and_right _ _ t))
        (λ q ec es ep sq. Carried-au (regroup_bytes au m1 m2 nal rest) (
          Carried-then q true ts (before ++ framed nal) ((before ++ framed nal) ++ stream rest)
            (At q.seq ts before false []) (send_nal nal false ts capture q)
            (λ s'. send_units u (n ∷ ns) sps' pps' ts capture s')
            (send-Carried false before nal q ec sq hn)
            (λ r ec' es' ep' sr.
              Carried-au
                (ap₂ (λ a b. (before ++ framed nal) ++ stream (units_out u a b (n ∷ ns) sps' pps'))
                  (es' ∙ es) (ep' ∙ ep))
                (send_units-Carried u n ns sps' pps' (before ++ framed nal) r (ec' ∙ ec) sr
                  (subst SendableSet (sym (es' ∙ es)) hs) (subst SendableSet (sym (ep' ∙ ep)) hp) h
                  hns))))
