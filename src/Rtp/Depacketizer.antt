-- ===== src/Rtp/Depacketizer.antt =====
-- `rtp_h264_depacketizer`: one datagram in, whole access units out. The 64-bit counters do not wrap.
use vstreamer.Base.{
  ℕ, zero, suc, ◌+◌, ◌-◌, ◌*◌, ◌/◌, ◌%◌, ◌^◌, List, [], ◌∷◌, ◌++◌, Bool, true, false, ◌&&◌, ◌||◌,
  ◌==◌, ◌!=◌, ltb, leb, if◌then◌else◌, Option, none, some, bit_and, bit_or, ◌<<<◌, ◌>>>◌, u8, u16,
  u64, length, take, drop, ℤ, pos, positive_part, signed64, Outcome, ok, err, fault, einval, ◌>>=◌,
  ◌>>◌, require, read,
}
use vstreamer.Base.Act.{Act}
use vstreamer.Rtp.Packer.{rtp_hdr, capture_ext_words, capture_ext_id, capture_ext_len_bytes}

pub record ParsedRtp : Type 0 where
  pub seq : ℕ
  pub ts : ℕ
  pub marker : Bool
  pub payload : List ℕ
  pub capture_rt_ns : ℤ

-- `n` bytes from `i` on, shifted into `acc`.
unfoldable pub read_be : ℕ → List ℕ → ℕ → ℕ → Outcome ℕ
read_be zero d i acc = ok acc
read_be (suc n) d i acc = do b ← read d i; read_be n d (i + 1) (bit_or (u64 (acc <<< 8)) b)

-- The length without the padding that the P bit announces.
unfoldable pub unpadded_len : ℕ → List ℕ → Outcome ℕ
unpadded_len d0 d =
    if bit_and d0 0x20 == 0
    then ok (length d)
    else do pad ← read d (length d - 1); require (ltb pad (length d)) einval; ok (length d - pad)

-- The eight bytes of the element at `off + 4`, if its header says that it is the capture instant.
unfoldable pub capture_element : List ℕ → ℕ → ℕ → ℕ → Outcome ℤ
capture_element d pkt_len off id_len =
    let ext_id = id_len >>> 4 in
    let ext_len = bit_and id_len 0x0f + 1 in
    if (ext_id == capture_ext_id && ext_len == capture_ext_len_bytes)
      && leb (off + 4 + ext_len) pkt_len
    then read_be 8 d (off + 5) 0 >>= (λ rt. ok (signed64 rt))
    else ok (pos 0)

-- The capture instant of an 0xbede extension at `off` with `words` words, 0 if it holds none.
unfoldable pub capture_instant : List ℕ → ℕ → ℕ → ℕ → Outcome ℤ
capture_instant d pkt_len off words =
    if leb capture_ext_words words && leb (off + 12) pkt_len
    then read d (off + 4) >>= (λ id_len. capture_element d pkt_len off id_len)
    else ok (pos 0)

-- The 0xbede extension at `off`: its capture instant and its end.
unfoldable pub bede_extension : List ℕ → ℕ → ℕ → Outcome (ℤ × ℕ)
bede_extension d pkt_len off = do
  w0 ← read d (off + 2)
  w1 ← read d (off + 3)
  let words = u16 (bit_or (w0 <<< 8) w1)
  let ext_total = 4 + words * 4
  require (leb (off + ext_total) pkt_len) einval
  rt ← capture_instant d pkt_len off words
  ok (rt, off + ext_total)

-- The header extension that the X bit announces: the capture instant and the offset behind it. An
-- extension of another profile is not skipped.
unfoldable pub profiled_extension : List ℕ → ℕ → ℕ → Outcome (ℤ × ℕ)
profiled_extension d pkt_len off = do
  require (leb (off + 4) pkt_len) einval
  p0 ← read d off
  p1 ← read d (off + 1)
  let profile = u16 (bit_or (p0 <<< 8) p1)
  if profile == 0xbede then bede_extension d pkt_len off else ok (pos 0, off)

unfoldable pub extension : ℕ → List ℕ → ℕ → ℕ → Outcome (ℤ × ℕ)
extension d0 d pkt_len off =
    if bit_and d0 0x10 == 0 then ok (pos 0, off) else profiled_extension d pkt_len off

-- `parse_rtp`; where it returns false, `feed` returns -EINVAL.
unfoldable pub parse_rtp : List ℕ → Outcome ParsedRtp
parse_rtp d = do
  require (leb rtp_hdr (length d)) einval
  d0 ← read d 0
  require (bit_and d0 0xc0 == 0x80) einval
  pkt_len ← unpadded_len d0 d
  let hdr = rtp_hdr + bit_and d0 0x0f * 4
  require (leb hdr pkt_len) einval
  ext ← extension d0 d pkt_len hdr
  require (ltb ext.1 pkt_len) einval
  d1 ← read d 1
  d2 ← read d 2
  d3 ← read d 3
  d4 ← read d 4
  d5 ← read d 5
  d6 ← read d 6
  d7 ← read d 7
  ok (record {
    seq = u16 (bit_or (d2 <<< 8) d3);
    ts = bit_or (bit_or (bit_or (d4 <<< 24) (d5 <<< 16)) (d6 <<< 8)) d7;
    marker = bit_and d1 0x80 != 0;
    payload = take (pkt_len - ext.1) (drop ext.1 d);
    capture_rt_ns = ext.0;
  })

pub record CompletedAu : Type 0 where
  pub bytes : List ℕ
  pub ts : ℕ
  pub capture_rt_ns : ℕ
  pub key : Bool
  pub damaged : Bool

-- `loss` is a float: the two terms of the quotient, 0 over 1 before any gap.
pub record Depacketizer : Type 0 where
  pub fps : ℕ
  pub last_au_frame_pts : ℕ
  pub last_au_capture_rt_ns : ℕ
  pub last_au_key : Bool
  pub building_au : List ℕ
  pub building_ts : ℕ
  pub have_building_ts : Bool
  pub building_key : Bool
  pub building_damaged : Bool
  pub fu_buf : List ℕ
  pub fu_active : Bool
  pub last_seq : ℕ
  pub have_seq : Bool
  pub gap_packets : ℕ
  pub received_packets : ℕ
  pub loss : ℕ × ℕ
  pub need_idr_count : ℕ
  pub nal_dropped_count : ℕ
  pub rtp_reordered_count : ℕ
  pub building_capture_rt_ns : ℕ
  pub completed_aus : List CompletedAu

-- `static_cast<int16_t>(seq - last)` as a distance ahead of `last`; it is positive below 2 ^ 15, and
-- from there on negative.
abbrev pub seq_ahead : ℕ → ℕ → ℕ
seq_ahead seq last = (seq + 2 ^ 16 - last) % 2 ^ 16

unfoldable pub abort_fu : Depacketizer → Depacketizer
abort_fu s = record s {
  fu_active = false;
  fu_buf = [];
  nal_dropped_count = s.nal_dropped_count + 1;
  building_damaged = true;
}

unfoldable pub note_sequence : ℕ → Depacketizer → Depacketizer
unfolding abort_fu
note_sequence seq s =
    if s.have_seq
    then (let diff = seq_ahead seq s.last_seq in
        let gap = ltb 1 diff && ltb diff (2 ^ 15) in
        let s1 = if gap && s.fu_active then abort_fu s else s in
        let gaps = if gap then s.gap_packets + (diff - 1) else s.gap_packets in
        let received = s.received_packets + 1 in
        record s1 {
          gap_packets = gaps;
          last_seq = seq;
          received_packets = received;
          loss = if ltb 0 gaps then (gaps, received + gaps) else s.loss;
        })
    else record s { have_seq = true; last_seq = seq; received_packets = s.received_packets + 1 }

unfoldable pub begin_au_if_needed : ℕ → Depacketizer → Depacketizer
begin_au_if_needed ts s =
    if s.have_building_ts then s else record s { building_ts = ts; have_building_ts = true }

unfoldable pub append_annexb_nal : List ℕ → Depacketizer → Depacketizer
append_annexb_nal [] s = s
append_annexb_nal (b ∷ nal) s = record s {
  building_au = s.building_au ++ 0 ∷ 0 ∷ 0 ∷ 1 ∷ b ∷ nal;
  building_key = if bit_and b 0x1f == 5 then true else s.building_key;
}

unfoldable pub finish_building_au : ℕ → ℕ → Depacketizer → Depacketizer
finish_building_au ts capture s =
    let idle = record s {
      building_au = [];
      have_building_ts = false;
      building_key = false;
      building_damaged = false;
      building_capture_rt_ns = 0;
    } in
    let item : CompletedAu = record {
      bytes = s.building_au;
      ts = ts;
      capture_rt_ns = capture;
      key = s.building_key;
      damaged = s.building_damaged;
    } in
    elim s.building_au [
      | [] ↦ idle
      | b ∷ rest ↦ record idle { completed_aus = s.completed_aus ++ item ∷ [] }
    ]

unfoldable pub note_au_timestamps : ℕ → ℕ → Depacketizer → Depacketizer
note_au_timestamps ts capture s = record s {
  last_au_frame_pts = ts * s.fps / 90000;
  last_au_capture_rt_ns = capture;
}

-- `none` is the return value 0, `some au` is 1 with `au_out` filled.
unfoldable pub pop_completed_au : Depacketizer → Depacketizer × Option (List ℕ)
unfolding note_au_timestamps
pop_completed_au s = elim s.completed_aus [
  | [] ↦ (s, none)
  | item ∷ rest ↦ (
    note_au_timestamps item.ts item.capture_rt_ns (record s {
      completed_aus = rest;
      last_au_key = item.key;
      need_idr_count = if item.damaged then s.need_idr_count + 1 else s.need_idr_count;
    }),
    some item.bytes,
  )
]

-- The units of an aggregation packet, each behind a length of two bytes; one byte left over ends it.
unfoldable pub append_aggregated : ℕ → List ℕ → Act Depacketizer (Unit {0})
append_aggregated zero rest s = (s, ok tt)
append_aggregated (suc fuel) (hi ∷ lo ∷ rest) s =
    let sz = bit_or (hi <<< 8) lo in
    let later = append_aggregated fuel (drop sz rest) (append_annexb_nal (take sz rest) s) in
    if ltb (length rest) sz then (s, err einval) else later
append_aggregated (suc fuel) rest s = (s, ok tt)

-- A fragment with the header bytes `nal_hdr` and `fu_hdr`.
unfoldable pub take_fragment : ℕ → ℕ → List ℕ → Depacketizer → Depacketizer
unfolding abort_fu append_annexb_nal
take_fragment nal_hdr fu_hdr body s =
    let start = bit_and fu_hdr 0x80 != 0 in
    let last = bit_and fu_hdr 0x40 != 0 in
    let nal_t = bit_and fu_hdr 0x1f in
    let grown =
      if start
      then record s { fu_buf = u8 (bit_or (bit_and nal_hdr 0xe0) nal_t) ∷ body; fu_active = true }
      else record s { fu_buf = s.fu_buf ++ body } in
    if start || s.fu_active
    then (if last && grown.fu_active
        then record (append_annexb_nal grown.fu_buf grown) { fu_active = false; fu_buf = [] }
        else grown)
    else abort_fu s

unfoldable pub process_payload : List ℕ → Act Depacketizer (Unit {0})
process_payload [] s = (s, ok tt)
process_payload (nal_hdr ∷ rest) s =
    let type = bit_and nal_hdr 0x1f in
    if type == 24
    then append_aggregated (length rest) rest s
    else if leb 1 type && leb type 23
    then (append_annexb_nal (nal_hdr ∷ rest) s, ok tt)
    else if type != 28
    then (s, ok tt)
    else elim rest [
      | [] ↦ (s, err einval)
      | fu_hdr ∷ body ↦ (take_fragment nal_hdr fu_hdr body s, ok tt)
    ]

unfoldable pub pop_result : Depacketizer → Depacketizer × Outcome (Option (List ℕ))
unfolding pop_completed_au
pop_result s = let r = pop_completed_au s in (r.0, ok r.1)

-- `diff <= 0` of `feed`: a datagram that is late or a duplicate.
unfoldable pub is_late : ℕ → Depacketizer → Bool
is_late seq s =
    let ahead = seq_ahead seq s.last_seq in s.have_seq && (ahead == 0 || leb (2 ^ 15) ahead)

-- What `feed` does before the payload: a new timestamp ends the unit that is being built.
unfoldable pub arrive : ParsedRtp → Depacketizer → Depacketizer
unfolding note_sequence begin_au_if_needed finish_building_au
arrive rtp s =
    let s1 =
      if s.have_building_ts && rtp.ts != s.building_ts
      then finish_building_au s.building_ts s.building_capture_rt_ns s
      else s in
    let s2 = begin_au_if_needed rtp.ts (note_sequence rtp.seq s1) in
    let capture = positive_part rtp.capture_rt_ns in
    if ltb 0 capture then record s2 { building_capture_rt_ns = capture } else s2

-- And after it: the marker ends the unit, and the oldest whole unit is handed out.
unfoldable pub settle :
    ParsedRtp → Depacketizer → Outcome (Unit {0}) → Depacketizer × Outcome (Option (List ℕ))
unfolding finish_building_au pop_result
settle rtp s (ok _) =
    pop_result (if rtp.marker then finish_building_au rtp.ts s.building_capture_rt_ns s else s)
settle rtp s (err e) = (s, err e)
settle rtp s fault = (s, fault)

-- `feed` behind `parse_rtp`.
unfoldable pub feed_parsed : ParsedRtp → Act Depacketizer (Option (List ℕ))
unfolding pop_result
feed_parsed rtp s =
    let r = process_payload rtp.payload (arrive rtp s) in
    if is_late rtp.seq s
    then pop_result (record s { rtp_reordered_count = s.rtp_reordered_count + 1 })
    else settle rtp r.0 r.1

-- `feed`, with neither pointer null.
unfoldable pub feed : List ℕ → Act Depacketizer (Option (List ℕ))
feed d s = elim (parse_rtp d) [
  | ok rtp ↦ feed_parsed rtp s
  | err e ↦ (s, err einval)
  | fault ↦ (s, fault)
]

-- The constructor with `fps_in`, and `reset`.
unfoldable pub initial : ℕ → Depacketizer
initial fps_in = record {
  fps = if ltb 0 fps_in then fps_in else 30;
  last_au_frame_pts = 0;
  last_au_capture_rt_ns = 0;
  last_au_key = false;
  building_au = [];
  building_ts = 0;
  have_building_ts = false;
  building_key = false;
  building_damaged = false;
  fu_buf = [];
  fu_active = false;
  last_seq = 0;
  have_seq = false;
  gap_packets = 0;
  received_packets = 0;
  loss = (0, 1);
  need_idr_count = 0;
  nal_dropped_count = 0;
  rtp_reordered_count = 0;
  building_capture_rt_ns = 0;
  completed_aus = [];
}

unfoldable pub reset : Depacketizer → Depacketizer
unfolding initial
reset s = record (initial 0) { fps = s.fps; building_ts = s.building_ts }
