-- ===== src/Rtp/Pay.antt =====
-- src/components/rtp_h264_pay.cpp: the payloader around the packer. A key and a value are bytes.
pub mod Queue
pub mod Examples
pub mod Usable
pub mod Output
use vstreamer.Base.{
  ℕ, ◌+◌, List, Bool, [], if◌then◌else◌, ℤ, true, ◌∷◌, false, ◌++◌, suc, Outcome, ◌!=◌, leb,
  positive_part, err, ◌==◌, ◌%◌, ok, ◌||◌, einval, ◌&&◌, enotsup, ◌>>=◌, ◌^◌, length, not, eagain,
  ltb, zero, fault, enomem, map, some,
}
use vstreamer.Base.Act.{Act}
use vstreamer.KeyUtil.{key_parse_i64}
use vstreamer.Buffers.{Heap, View, capacity, write_to}
use vstreamer.Buffers.Pool.{Pool, make_pool, acquire}
use vstreamer.Rtp.Packer.{Config, Packer, pack_annexb, pop_datagram, reset}

abbrev pub min_mtu : ℕ
min_mtu = 12 + 16 + 2 + 1

abbrev pub max_mtu : ℕ
max_mtu = 65507

abbrev pub pending_cap : ℕ
pending_cap = 512

abbrev pub pool_depth : ℕ
pool_depth = 64

pub record PendingDatagram : Type 0 where
  pub bytes : List ℕ
  pub pts : ℤ

-- rtp_h264_pay, beside the heap that its buffers are in.
pub record Pay : Type 0 where
  pub opened : Bool
  pub mtu : ℕ
  pub fps : ℕ
  pub pt : ℕ
  pub ssrc : ℕ
  pub packer : Packer
  pub pending : List PendingDatagram
  pub datagrams_dropped : ℕ
  pub pool : Pool
  pub heap : Heap

-- `std::string_view::operator==`.
unfoldable pub same_bytes : List ℕ → List ℕ → Bool
same_bytes [] [] = true
same_bytes [] (y ∷ ys) = false
same_bytes (x ∷ xs) [] = false
same_bytes (x ∷ xs) (y ∷ ys) = x == y && same_bytes xs ys

abbrev pub key_mtu : List ℕ
key_mtu = 109 ∷ 116 ∷ 117 ∷ []

abbrev pub key_fps : List ℕ
key_fps = 102 ∷ 112 ∷ 115 ∷ []

unfoldable pub recreate_pool_locked : Pay → Pay
recreate_pool_locked s =
    let made = make_pool s.mtu pool_depth s.heap in record s { pool = made.0; heap = made.1 }

-- A new packer has no parameter sets. `seed` is `getpid() ^ time(nullptr)`, which gives its first
-- sequence number.
unfoldable pub new_packer : ℕ → Config → Packer
new_packer seed cfg = record { cfg = cfg; seq = seed % 2 ^ 16; sps = []; pps = []; queue = [] }

unfoldable pub rebuild_packer : ℕ → Pay → Pay
rebuild_packer seed s = record s {
  packer =
      new_packer seed (record { mtu = s.mtu; payload_type = s.pt; ssrc = s.ssrc; fps = s.fps });
}

unfoldable pub open_pay : ℕ → Pay → Pay
open_pay seed s =
    if s.opened then s else record (rebuild_packer seed (recreate_pool_locked s)) { opened = true }

unfoldable pub close_pay : Pay → Pay
close_pay s = record s { pending = []; packer = reset s.packer; opened = false }

-- The oldest pending datagrams go while there are more than the limit.
unfoldable pub trim : List PendingDatagram → ℕ → List PendingDatagram × ℕ
trim [] dropped = ([], dropped)
trim (x ∷ xs) dropped =
    let rest = trim xs ((dropped + 1) % 2 ^ 64) in
    if ltb pending_cap (length (x ∷ xs)) then rest else (x ∷ xs, dropped)

unfoldable pub push_pending : List ℕ → ℤ → Pay → Pay
push_pending bytes pts s =
    let kept = trim (s.pending ++ record { bytes = bytes; pts = pts } ∷ []) s.datagrams_dropped in
    record s { pending = kept.0; datagrams_dropped = kept.1 }

-- The loop over the packer's queue, which each round shortens or leaves: the fuel is its length.
unfoldable pub drain : ℕ → ℤ → Pay → Pay
drain zero pts s = s
drain (suc fuel) pts s =
    let r = pop_datagram s.mtu s.packer in
    elim r.1 [
      | ok n ↦ drain fuel pts (push_pending n pts (record s { packer = r.0 }))
      | err e ↦ record s { packer = r.0 }
      | fault ↦ record s { packer = r.0 }
    ]

abbrev pub after_pack : ℤ → Pay → Outcome (Unit {0}) → Pay × Outcome (Unit {0})
after_pack pts s (ok _) = (drain (length s.packer.queue) pts s, ok tt)
after_pack pts s (err e) = (s, err einval)
after_pack pts s fault = (s, fault)

-- input of a frame: the port, whether its kind is H264, its bytes, its pts and the instant of its
-- capture on the wall clock.
unfoldable pub input : ℕ → Bool → List ℕ → ℤ → ℤ → Act Pay (Unit {0})
input port h264 bytes pts capture_rt s =
    let r = pack_annexb bytes pts capture_rt s.packer in
    if port != 0 || not h264
    then (s, err einval)
    else after_pack pts (record s { packer = r.0 }) r.1

-- What output does with a buffer from the pool: the pts and the view of the datagram's bytes.
unfoldable pub hand_out :
    PendingDatagram → List PendingDatagram → View → Pay → Pay × Outcome (ℤ × View)
hand_out front rest buf s =
    if capacity s.heap buf == 0 || buf.len != length front.bytes then (s, err enomem) else (
      record s { heap = write_to buf.store (map some front.bytes) s.heap; pending = rest },
      ok (front.pts, buf),
    )

unfoldable pub output : ℕ → Act Pay (ℤ × View)
output port s = if port != 0 then (s, err einval) else elim s.pending [
  | [] ↦ (s, err eagain)
  | front ∷ rest ↦
      let got = acquire (length front.bytes) s.pool s.heap in
      hand_out front rest got.0 (record s { pool = got.1.0; heap = got.1.1 })
]

-- Whether `lo <= v && v <= hi`.
abbrev pub between : ℕ → ℕ → ℤ → Bool
between lo hi v = leb lo (positive_part v) && leb (positive_part v) hi

unfoldable pub set_mtu : ℕ → ℤ → Pay → Pay
set_mtu seed v s =
    let s' = recreate_pool_locked (record s { mtu = positive_part v }) in
    if s.opened then rebuild_packer seed s' else s'

unfoldable pub set_fps : ℕ → ℤ → Pay → Pay
set_fps seed v s =
    let s' = record s { fps = positive_part v } in if s.opened then rebuild_packer seed s' else s'

-- A value that is parsed, in its range and not longer than 31 bytes.
unfoldable pub checked_value : ℕ → ℕ → List ℕ → Outcome ℤ
checked_value lo hi value =
    key_parse_i64 value
    >>= (λ v. if ltb 31 (length value) || not (between lo hi v) then err einval else ok v)

abbrev pub configured : (ℤ → Pay → Pay) → Pay → Outcome ℤ → Pay × Outcome (Unit {0})
configured set s (ok v) = (set v s, ok tt)
configured set s (err e) = (s, err einval)
configured set s fault = (s, fault)

unfoldable pub configure : ℕ → List ℕ → List ℕ → Act Pay (Unit {0})
configure seed key value s =
    if same_bytes key_mtu key
    then configured (set_mtu seed) s (checked_value min_mtu max_mtu value)
    else if same_bytes key_fps key
    then configured (set_fps seed) s (checked_value 1 120 value)
    else (s, err enotsup)
