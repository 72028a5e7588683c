-- ===== src/Rtp/Depay.antt =====
-- src/components/rtp_h264_depay.cpp: the depayloader around the depacketizer.
pub mod Track
pub mod Handed
pub mod Refeed
pub mod Examples
use vstreamer.Base.{
  ℕ, List, Bool, ℤ, true, [], if◌then◌else◌, Outcome, leb, pos, false, ◌==◌, ◌∷◌, Option, ◌!=◌, ok,
  err, ◌-◌, ltb, length, none, some, einval, positive_part, enotsup, negsuc, ◌+◌, ◌++◌, suc, eagain,
  fault, ◌||◌, ◌%◌, zero, ◌^◌,
}
use vstreamer.Base.Act.{Act}
use vstreamer.Rtp.Depacketizer.{Depacketizer, CompletedAu, initial, feed, reset}
use vstreamer.Rtp.Pay.{same_bytes, key_fps, checked_value}

abbrev pub capture_skew_back : ℕ
capture_skew_back = 50000000

abbrev pub capture_skew_ahead : ℕ
capture_skew_ahead = 60000000000

abbrev pub au_queue_depth : ℕ
au_queue_depth = 8

pub record AuItem : Type 0 where
  pub buf : List ℕ
  pub pts : ℕ
  pub capture_mono_ns : ℤ
  pub key : Bool

-- `capture_skew_ms` is kept in nanoseconds.
pub record Depay : Type 0 where
  pub opened : Bool
  pub fps : ℕ
  pub depay : Depacketizer
  pub au_queue : List AuItem
  pub au_dropped : ℕ
  pub capture_ts_rejected : ℕ
  pub capture_skew : ℤ

-- The two clocks, in nanoseconds, as a call finds them.
pub record Clocks : Type 0 where
  pub mono : ℕ
  pub realtime : ℕ

-- `a - b` of int64_t that is in range.
abbrev pub difference : ℕ → ℕ → ℤ
difference a b = if leb b a then pos (a - b) else negsuc (b - a - 1)

unfoldable pub open_depay : Depay → Depay
unfolding initial
open_depay s = record {
  opened = true;
  fps = s.fps;
  depay = initial s.fps;
  au_queue = [];
  au_dropped = 0;
  capture_ts_rejected = 0;
  capture_skew = pos 0;
}

unfoldable pub close_depay : Depay → Depay
close_depay s = record s { depay = reset s.depay; au_queue = []; opened = false }

-- The instant on the monotonic clock. An instant that is out of step with the wall clock is refused
-- and counted.
unfoldable pub accept_capture_rt_ns : Clocks → ℕ → Depay → Depay × ℤ
accept_capture_rt_ns now capture_rt s =
    if capture_rt == 0
    then (s, pos 0)
    else if ltb (now.realtime + capture_skew_back) capture_rt
        || ltb (capture_rt + capture_skew_ahead) now.realtime
    then (record s { capture_ts_rejected = (s.capture_ts_rejected + 1) % 2 ^ 64 }, pos 0)
    else (
      record s { capture_skew = difference now.realtime capture_rt },
      difference (now.mono + capture_rt) now.realtime,
    )

unfoldable pub push_au : AuItem → Depay → Depay
push_au item s = elim s.au_queue [
  | [] ↦ record s { au_queue = item ∷ [] }
  | x ∷ rest ↦
      if leb au_queue_depth (length s.au_queue)
      then record s { au_queue = rest ++ item ∷ []; au_dropped = (s.au_dropped + 1) % 2 ^ 64 }
      else record s { au_queue = s.au_queue ++ item ∷ [] }
]

-- What input does with an access unit that feed has handed out.
unfoldable pub take_au : Clocks → List ℕ → Depay → Depay
take_au now au s =
    let accepted = accept_capture_rt_ns now s.depay.last_au_capture_rt_ns s in
    push_au
      (record {
        buf = au;
        pts = s.depay.last_au_frame_pts;
        capture_mono_ns = accepted.1;
        key = s.depay.last_au_key;
      })
      accepted.0

-- The loop of input, which feeds the same datagram until no access unit comes: `none` if the fuel
-- does not last.
unfoldable pub feed_rounds : ℕ → Clocks → List ℕ → Depay → Depay × Option (Outcome (Unit {0}))
feed_rounds zero now d s = (s, none)
feed_rounds (suc fuel) now d s =
    let r = feed d s.depay in
    elim r.1 [
      | ok none ↦ (record s { depay = r.0 }, some (ok tt))
      | ok (some au) ↦ feed_rounds fuel now d (take_au now au (record s { depay = r.0 }))
      | err e ↦ (record s { depay = r.0 }, some (err e))
      | fault ↦ (record s { depay = r.0 }, some fault)
    ]

unfoldable pub input : ℕ → Clocks → List ℕ → Depay → Depay × Option (Outcome (Unit {0}))
input port now d s =
    if port != 0
    then (s, some (err einval))
    else feed_rounds (length s.depay.completed_aus + 3) now d s

-- output: the frame's bytes are a copy. A failed allocation throws.
unfoldable pub output : ℕ → Act Depay AuItem
output port s = if port != 0 then (s, err einval) else elim s.au_queue [
  | [] ↦ (s, err eagain)
  | item ∷ rest ↦ (record s { au_queue = rest }, ok item)
]

abbrev pub set_fps : Depay → Outcome ℤ → Depay × Outcome (Unit {0})
set_fps s (ok v) =
    let s' = record s { fps = positive_part v } in
    ((if s.opened then record s' { depay = initial (positive_part v) } else s'), ok tt)
set_fps s (err e) = (s, err einval)
set_fps s fault = (s, fault)

unfoldable pub configure : List ℕ → List ℕ → Act Depay (Unit {0})
configure key value s =
    if same_bytes key_fps key then set_fps s (checked_value 1 120 value) else (s, err enotsup)
