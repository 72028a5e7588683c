-- ===== src/Rtp/Delivery/Pack.antt =====
-- `pack_annexb` and the depacketizer, end to end.
use vstreamer.Base.{
  ℕ, false, List, ◌≡◌, [], Outcome, ◌∷◌, ℤ, arith, ok, refl, positive_part, ◌<◌, ◌^◌, All, ◌∙◌, err,
  ap, sym, fault, subst, ◌++◌,
}
use vstreamer.Base.Act.{resume}
use vstreamer.Rtp.Packer.{
  Packer, UnitScan, scan_units, send_units, pack_annexb, nals_of, cache_param, pts_to_rtp_ts,
  note_unit,
}
use vstreamer.Rtp.Depacketizer.{Depacketizer}
use vstreamer.Rtp.InOrder.{At}
use vstreamer.Rtp.Delivery.Feed.{feed_all}
use vstreamer.Rtp.Delivery.Nal.{Sendable}
use vstreamer.Rtp.Delivery.AccessUnit.{stream, units_out, Link, SendableSet, send_units-Carried}

abbrev pub no_units : UnitScan
no_units = record { has_idr = false; has_sps = false; has_pps = false; emit = [] }

-- The units of a byte stream, and the state in which they are sent.
abbrev pub scanned : Packer → List ℕ → Packer × Outcome UnitScan
scanned s bytes = scan_units (nals_of bytes) no_units (record s { queue = [] })

-- Scanning touches the cached parameter sets alone.
pub record SameBut (s s' : Packer) : Type 0 where
  pub cfg_same : s'.cfg ≡ s.cfg
  pub seq_same : s'.seq ≡ s.seq
  pub queue_same : s'.queue ≡ s.queue

cache_param-SameBut : (nal : List ℕ) (s : Packer) → SameBut s (cache_param nal s).0
unfolding cache_param
cache_param-SameBut [] s = record { cfg_same = refl; seq_same = refl; queue_same = refl }
cache_param-SameBut (b ∷ nal) s = record {
  cfg_same = ground arith;
  seq_same = ground arith;
  queue_same = ground arith;
}

SameBut-trans : {s q r : Packer} → SameBut s q → SameBut q r → SameBut s r
SameBut-trans a b = record {
  cfg_same = b.cfg_same ∙ a.cfg_same;
  seq_same = b.seq_same ∙ a.seq_same;
  queue_same = b.queue_same ∙ a.queue_same;
}

SameBut-resume :
    {A : Type 0} (s q : Packer) (r : Outcome (Unit {0})) (k : Packer → Packer × Outcome A)
    → SameBut s q
    → ((q : Packer) → SameBut q (k q).0)
    → SameBut s (resume (λ _. k) q r).0
SameBut-resume s q (ok _) k a h = SameBut-trans a (h q)
SameBut-resume s q (err e) k a h = a
SameBut-resume s q fault k a h = a

pub scan_units-SameBut :
    (nals : List (List ℕ)) (u : UnitScan) (s : Packer) → SameBut s (scan_units nals u s).0
unfolding scan_units
scan_units-SameBut [] u s = record { cfg_same = refl; seq_same = refl; queue_same = refl }
scan_units-SameBut (nal ∷ nals) u s =
    SameBut-resume s (cache_param nal s).0 (cache_param nal s).1
      (λ q. scan_units nals (note_unit nal u) q) (cache_param-SameBut nal s)
      (λ q. scan_units-SameBut nals (note_unit nal u) q)

-- An access unit is delivered. From the packer's datagrams, fed in order to a depacketizer that is
-- between units and expects the packer's next sequence number (or has seen none), it makes one
-- access unit: the units that were sent, each behind a start code of four bytes. The depacketizer
-- is then ready for the next one. The units have the forbidden bit clear and are of the types 1 to
-- 23, the cached parameter sets too, and the MTU leaves room for a fragment and is at most 1500.
pub pack_annexb-delivers :
    (s s1 : Packer) (d : Depacketizer) (bytes : List ℕ) (pts capture_rt_ns : ℤ) (ts : ℕ)
    (u : UnitScan) (nal : List ℕ) (nals : List (List ℕ))
    → pts_to_rtp_ts pts s.cfg.fps ≡ ok ts
    → Link s.cfg ts (positive_part capture_rt_ns)
    → s.seq < 2 ^ 16
    → scanned s bytes ≡ (s1, ok u)
    → u.emit ≡ nal ∷ nals
    → All Sendable (nal ∷ nals)
    → SendableSet s1.sps
    → SendableSet s1.pps
    → At s.seq ts [] false [] d
    → (s' : Packer) × (d' : Depacketizer) × (pack_annexb bytes pts capture_rt_ns s ≡ (s', ok tt))
      × (feed_all s'.queue d
          ≡ (d', ok (stream (units_out u s1.sps s1.pps (nal ∷ nals) false false) ∷ [])))
      × ((ts' : ℕ) → At s'.seq ts' [] false [] d')
unfolding pack_annexb
pack_annexb-delivers s s1 d bytes pts capture_rt_ns ts u nal nals et link small es eu (hn, hns) hs
      hp ready =
    let capture = positive_part capture_rt_ns in
    let same = scan_units-SameBut (nals_of bytes) no_units (record s { queue = [] }) in
    let at : (scanned s bytes).0 ≡ s1 = ap (λ (r : Packer × Outcome UnitScan). r.0) es in
    let ec : s1.cfg ≡ s.cfg = ap (λ (q : Packer). q.cfg) (sym at) ∙ same.cfg_same in
    let eq : s1.seq ≡ s.seq = ap (λ (q : Packer). q.seq) (sym at) ∙ same.seq_same in
    let no_queue : s1.queue ≡ [] = ap (λ (q : Packer). q.queue) (sym at) ∙ same.queue_same in
    let sent =
      send_units-Carried ts capture s.cfg link u nal nals false false [] s1 ec (omega arith) hs hp
        hn hns in
    let (d', out, fed, (one, next)) =
      sent.arrives d (subst (λ n. At n ts [] false [] d) (sym eq) ready) in
    let queue : sent.after.queue ≡ sent.ds = sent.queued ∙ ap (λ l. l ++ sent.ds) no_queue in
    (
      sent.after,
      d',
      rw (et, es) (ap (λ l. send_units u l false false ts capture s1) eu ∙ sent.returns),
      ap (λ l. feed_all l d) queue ∙ fed ∙ ap (λ l. (d', ok l)) one,
      next,
    )
