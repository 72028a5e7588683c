-- ===== src/Rtp/Pay/Usable.antt =====
-- The settings and the queue of the payloader stay within their bounds.
use vstreamer.Base.{
  ℕ, ◌≤◌, Bool, ◌≡◌, arith, List, ℤ, length, ◌∷◌, suc, refl, Outcome, ◌+◌, ◌%◌, zero, ◌^◌, [], ◌∙◌,
  ok, ap, ◌++◌, if◌then◌else◌, ◌!=◌, err, positive_part, ◌||◌, true, not, bind-ok, false, fault,
}
use vstreamer.KeyUtil.{key_parse_i64}
use vstreamer.Rtp.Packer.{pack_annexb, pop_datagram}
use vstreamer.Rtp.Pay.{
  Pay, PendingDatagram, min_mtu, max_mtu, pending_cap, trim, push_pending, drain, after_pack, input,
  output, hand_out, open_pay, close_pay, recreate_pool_locked, rebuild_packer, set_mtu, set_fps,
  checked_value, configured, configure, same_bytes, key_mtu, key_fps,
}

pub record IsUsable (s : Pay) : Type 0 where
  pub mtu_low : min_mtu ≤ s.mtu
  pub mtu_high : s.mtu ≤ max_mtu
  pub fps_low : 1 ≤ s.fps
  pub fps_high : s.fps ≤ 120
  pub few : length s.pending ≤ pending_cap

-- The calls of a payloader. `opens` and `configures` take the seed of the packer that they make.
pub data Call : Type 0 where
  opens : ℕ → Call
  closes : Call
  inputs : ℕ → Bool → List ℕ → ℤ → ℤ → Call
  outputs : ℕ → Call
  configures : ℕ → List ℕ → List ℕ → Call

unfoldable pub after : Call → Pay → Pay
after (opens seed) s = open_pay seed s
after closes s = close_pay s
after (inputs port h264 bytes pts capture_rt) s = (input port h264 bytes pts capture_rt s).0
after (outputs port) s = (output port s).0
after (configures seed key value) s = (configure seed key value s).0

-- Two states with the same settings, the second with no longer a queue.
record NoMore (s t : Pay) : Type 0 where
  same_mtu : t.mtu ≡ s.mtu
  same_fps : t.fps ≡ s.fps
  shorter : length t.pending ≤ pending_cap

kept : {s t : Pay} → NoMore s t → IsUsable s → IsUsable t
kept n u = record {
  mtu_low = omega (arith, n.same_mtu, u.mtu_low);
  mtu_high = omega (arith, n.same_mtu, u.mtu_high);
  fps_low = omega (arith, n.same_fps, u.fps_low);
  fps_high = omega (arith, n.same_fps, u.fps_high);
  few = n.shorter;
}

length-trim : (l : List PendingDatagram) (n : ℕ) → length (trim l n).0 ≤ pending_cap
unfolding trim
length-trim [] n = omega arith
length-trim (x ∷ l) n = let ih = length-trim l ((n + 1) % 2 ^ 64) in ground arith

length-push_pending :
    (d : List ℕ) (pts : ℤ) (s : Pay) → length (push_pending d pts s).pending ≤ pending_cap
unfolding push_pending
length-push_pending d pts s =
    length-trim (s.pending ++ record { bytes = d; pts = pts } ∷ []) s.datagrams_dropped

push_pending-NoMore : (d : List ℕ) (pts : ℤ) (s : Pay) → NoMore s (push_pending d pts s)
unfolding push_pending
push_pending-NoMore d pts s = record {
  same_mtu = refl;
  same_fps = refl;
  shorter = length-push_pending d pts s;
}

NoMore-trans : {s t u : Pay} → NoMore s t → NoMore t u → NoMore s u
NoMore-trans a b = record {
  same_mtu = b.same_mtu ∙ a.same_mtu;
  same_fps = b.same_fps ∙ a.same_fps;
  shorter = b.shorter;
}

NoMore-if :
    {A : Type 0} (s : Pay) (b : Bool) (x y : Pay × A)
    → NoMore s x.0
    → NoMore s y.0
    → NoMore s (if b then x else y).0
NoMore-if s true x y hx hy = hx
NoMore-if s false x y hx hy = hy

-- One round of the loop, by what the packer gives.
round_NoMore :
    (fuel : ℕ) (pts : ℤ) (s t : Pay) (o : Outcome (List ℕ))
    → NoMore s t
    → ((n : List ℕ) → NoMore (push_pending n pts t) (drain fuel pts (push_pending n pts t)))
    → NoMore s (elim o as (λ _. Pay) [
      | ok n ↦ drain fuel pts (push_pending n pts t)
      | err e ↦ t
      | fault ↦ t
    ])
round_NoMore fuel pts s t (ok n) m next =
    NoMore-trans (NoMore-trans m (push_pending-NoMore n pts t)) (next n)
round_NoMore fuel pts s t (err e) m next = m
round_NoMore fuel pts s t fault m next = m

drain-NoMore :
    (fuel : ℕ) (pts : ℤ) (s : Pay) → length s.pending ≤ pending_cap → NoMore s (drain fuel pts s)
unfolding drain
drain-NoMore zero pts s h = record { same_mtu = refl; same_fps = refl; shorter = h }
drain-NoMore (suc fuel) pts s h =
    let t : Pay = record s { packer = (pop_datagram s.mtu s.packer).0 } in
    round_NoMore fuel pts s t (pop_datagram s.mtu s.packer).1
      (record { same_mtu = refl; same_fps = refl; shorter = h })
      (λ n. drain-NoMore fuel pts (push_pending n pts t) (length-push_pending n pts t))

after_pack-NoMore :
    (pts : ℤ) (s : Pay) (o : Outcome (Unit {0}))
    → length s.pending ≤ pending_cap
    → NoMore s (after_pack pts s o).0
after_pack-NoMore pts s (ok u) h = drain-NoMore (length s.packer.queue) pts s h
after_pack-NoMore pts s (err e) h = record { same_mtu = refl; same_fps = refl; shorter = h }
after_pack-NoMore pts s fault h = record { same_mtu = refl; same_fps = refl; shorter = h }

input-NoMore :
    (port : ℕ) (h264 : Bool) (bytes : List ℕ) (pts capture_rt : ℤ) (s : Pay)
    → length s.pending ≤ pending_cap
    → NoMore s (input port h264 bytes pts capture_rt s).0
unfolding input
input-NoMore port h264 bytes pts capture_rt s h =
    let r = pack_annexb bytes pts capture_rt s.packer in
    let packed = after_pack-NoMore pts (record s { packer = r.0 }) r.1 h in
    NoMore-if s (port != 0 || not h264) _ _
      (record { same_mtu = refl; same_fps = refl; shorter = h })
      (record { same_mtu = packed.same_mtu; same_fps = packed.same_fps; shorter = packed.shorter })

output-NoMore :
    (port : ℕ) (queue : List PendingDatagram) (s : Pay)
    → s.pending ≡ queue
    → length s.pending ≤ pending_cap
    → NoMore s (output port s).0
unfolding output hand_out
output-NoMore port [] s e h = record {
  same_mtu = ground (arith, e);
  same_fps = ground (arith, e);
  shorter = ground (arith, e);
}
output-NoMore port (front ∷ rest) s e h =
    let fewer = ap length e in
    record {
      same_mtu = ground (arith, e);
      same_fps = ground (arith, e);
      shorter = ground (arith, e);
    }

checked_value_lem :
    (lo hi : ℕ) (value : List ℕ) (v : ℤ)
    → checked_value lo hi value ≡ ok v
    → (lo ≤ positive_part v) × (positive_part v ≤ hi)
unfolding checked_value
checked_value_lem lo hi value v e =
    let (w, parsed, kept) = bind-ok (key_parse_i64 value) _ v e in ground (arith, kept)

set_mtu-IsUsable :
    (seed : ℕ) (value : List ℕ) (o : Outcome ℤ) (s : Pay)
    → checked_value min_mtu max_mtu value ≡ o
    → IsUsable s
    → IsUsable (configured (set_mtu seed) s o).0
unfolding set_mtu recreate_pool_locked rebuild_packer
set_mtu-IsUsable seed value (ok v) s e u =
    let (lo, hi) = checked_value_lem min_mtu max_mtu value v e in
    record {
      mtu_low = ground arith;
      mtu_high = ground arith;
      fps_low = ground (arith, u.fps_low);
      fps_high = ground (arith, u.fps_high);
      few = ground (arith, u.few);
    }
set_mtu-IsUsable seed value (err x) s e u = u
set_mtu-IsUsable seed value fault s e u = u

set_fps-IsUsable :
    (seed : ℕ) (value : List ℕ) (o : Outcome ℤ) (s : Pay)
    → checked_value 1 120 value ≡ o
    → IsUsable s
    → IsUsable (configured (set_fps seed) s o).0
unfolding set_fps rebuild_packer
set_fps-IsUsable seed value (ok v) s e u =
    let (lo, hi) = checked_value_lem 1 120 value v e in
    record {
      mtu_low = ground (arith, u.mtu_low);
      mtu_high = ground (arith, u.mtu_high);
      fps_low = ground arith;
      fps_high = ground arith;
      few = ground (arith, u.few);
    }
set_fps-IsUsable seed value (err x) s e u = u
set_fps-IsUsable seed value fault s e u = u

IsUsable-if :
    {A : Type 0} (b : Bool) (x y : Pay × A)
    → IsUsable x.0
    → IsUsable y.0
    → IsUsable (if b then x else y).0
IsUsable-if true x y hx hy = hx
IsUsable-if false x y hx hy = hy

configure-IsUsable :
    (seed : ℕ) (key value : List ℕ) (s : Pay) → IsUsable s → IsUsable (configure seed key value s).0
unfolding configure
configure-IsUsable seed key value s u =
    IsUsable-if (same_bytes key_mtu key) _ _
      (set_mtu-IsUsable seed value (checked_value min_mtu max_mtu value) s refl u)
      (IsUsable-if (same_bytes key_fps key) _ _
        (set_fps-IsUsable seed value (checked_value 1 120 value) s refl u) u)

open_pay-NoMore : (seed : ℕ) (s : Pay) → length s.pending ≤ pending_cap → NoMore s (open_pay seed s)
unfolding open_pay rebuild_packer recreate_pool_locked
open_pay-NoMore seed s h = record {
  same_mtu = ground arith;
  same_fps = ground arith;
  shorter = ground arith;
}

close_pay-NoMore : (s : Pay) → NoMore s (close_pay s)
unfolding close_pay
close_pay-NoMore s = record { same_mtu = refl; same_fps = refl; shorter = omega arith }

-- Every call keeps the MTU between 31 and 65507, the rate between 1 and 120 and the queue at 512
-- datagrams at most, whatever its arguments are.
pub after-IsUsable : (c : Call) (s : Pay) → IsUsable s → IsUsable (after c s)
unfolding after
after-IsUsable (opens seed) s u = kept (open_pay-NoMore seed s u.few) u
after-IsUsable closes s u = kept (close_pay-NoMore s) u
after-IsUsable (inputs port h264 bytes pts capture_rt) s u =
    kept (input-NoMore port h264 bytes pts capture_rt s u.few) u
after-IsUsable (outputs port) s u = kept (output-NoMore port s.pending s refl u.few) u
after-IsUsable (configures seed key value) s u = configure-IsUsable seed key value s u
