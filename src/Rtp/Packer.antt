-- ===== src/Rtp/Packer.antt =====
-- `rtp_h264_packer`. Lists stand for a pointer with its length.
use vstreamer.Base.{
  ℕ, zero, suc, ◌+◌, ◌-◌, ◌*◌, ◌/◌, ◌^◌, List, [], ◌∷◌, ◌++◌, Bool, true, false, not, ◌&&◌, ◌||◌,
  ◌==◌, ltb, leb, if◌then◌else◌, none, some, bit_and, bit_or, ◌<<<◌, ◌>>>◌, u8, u16, u32, length,
  take, drop, ℤ, pos, negsuc, positive_part, Outcome, ok, err, fault, einval, eagain, enomem,
}
use vstreamer.Base.Act.{Act, pure, modify, ◌>>=◌, ◌>>◌}
use vstreamer.Rtp.Annexb.{nal_type, parse_annexb_nals}

abbrev pub rtp_hdr : ℕ
rtp_hdr = 12

abbrev pub max_rtp : ℕ
max_rtp = 1500

abbrev pub max_param : ℕ
max_param = 256

abbrev pub capture_ext_words : ℕ
capture_ext_words = 3

abbrev pub capture_ext_total : ℕ
capture_ext_total = 4 + capture_ext_words * 4

abbrev pub capture_ext_id : ℕ
capture_ext_id = 2

abbrev pub capture_ext_len_bytes : ℕ
capture_ext_len_bytes = 8

-- `rtp_h264_config`, with `mtu` and `fps` not negative.
pub record Config : Type 0 where
  pub mtu : ℕ
  pub payload_type : ℕ
  pub ssrc : ℕ
  pub fps : ℕ

-- `sps` and `pps` are the first `sps_len` and `pps_len` bytes of the arrays.
pub record Packer : Type 0 where
  pub cfg : Config
  pub seq : ℕ
  pub sps : List ℕ
  pub pps : List ℕ
  pub queue : List (List ℕ)

-- `pts_to_rtp_ts`. The product is an `int64_t`: beyond its range the code is undefined.
unfoldable pub pts_to_rtp_ts : ℤ → ℕ → Outcome ℕ
pts_to_rtp_ts pts fps = elim pts [
  | pos n ↦ if ltb (n * 90000) (2 ^ 63) then ok (u32 (n * 90000 / f)) else fault
  | negsuc n ↦ if leb (suc n * 90000) (2 ^ 63) then ok (u32 (2 ^ 64 - suc n * 90000 / f)) else fault
]
  where
    f : ℕ
    f = if ltb 0 fps then fps else 30

abbrev pub hdr_extra : ℕ → ℕ
hdr_extra capture = if ltb 0 capture then capture_ext_total else 0

-- The header that `append_datagram` writes.
unfoldable pub rtp_header : Config → ℕ → Bool → ℕ → ℕ → List ℕ
rtp_header cfg seq marker ts capture =
    (if ltb 0 capture then 0x90 else 0x80)
    ∷ u8 (bit_or cfg.payload_type (if marker then 0x80 else 0))
    ∷ u8 (seq >>> 8)
    ∷ u8 (bit_and seq 0xff)
    ∷ u8 (ts >>> 24)
    ∷ u8 (ts >>> 16)
    ∷ u8 (ts >>> 8)
    ∷ u8 ts
    ∷ u8 (cfg.ssrc >>> 24)
    ∷ u8 (cfg.ssrc >>> 16)
    ∷ u8 (cfg.ssrc >>> 8)
    ∷ u8 cfg.ssrc
    ∷ []

-- The 16 bytes of the header extension: the capture instant, most significant byte first.
unfoldable pub capture_ext : ℕ → List ℕ
capture_ext capture =
    0xbe
    ∷ 0xde
    ∷ 0
    ∷ u8 capture_ext_words
    ∷ u8 (bit_or (capture_ext_id <<< 4) (capture_ext_len_bytes - 1))
    ∷ u8 (bit_and (capture >>> 56) 0xff)
    ∷ u8 (bit_and (capture >>> 48) 0xff)
    ∷ u8 (bit_and (capture >>> 40) 0xff)
    ∷ u8 (bit_and (capture >>> 32) 0xff)
    ∷ u8 (bit_and (capture >>> 24) 0xff)
    ∷ u8 (bit_and (capture >>> 16) 0xff)
    ∷ u8 (bit_and (capture >>> 8) 0xff)
    ∷ u8 (bit_and capture 0xff)
    ∷ 0
    ∷ 0
    ∷ 0
    ∷ []

unfoldable pub datagram : Config → ℕ → Bool → ℕ → ℕ → List ℕ → List ℕ
datagram cfg seq marker ts capture payload =
    rtp_header cfg seq marker ts capture
    ++ (if ltb 0 capture then capture_ext capture else [])
    ++ payload

-- `append_datagram`; a `capture` of 0 is none.
unfoldable pub append_datagram : List ℕ → Bool → ℕ → ℕ → Act Packer (Unit {0})
append_datagram payload marker ts capture s =
    let total = rtp_hdr + hdr_extra capture + length payload in
    if ltb s.cfg.mtu total || ltb max_rtp total then (s, err einval) else (
      record s {
        seq = u16 (s.seq + 1);
        queue = s.queue ++ datagram s.cfg s.seq marker ts capture payload ∷ [];
      },
      ok tt,
    )

-- The two bytes of a FU-A header.
unfoldable pub fu_header : ℕ → Bool → Bool → List ℕ
fu_header nal0 first last =
    let type = bit_and nal0 0x1f in
    let nri = bit_and nal0 0x60 in
    u8 (bit_or nri 28)
    ∷ u8 (bit_or (bit_or type (if first then 0x80 else 0)) (if last then 0x40 else 0))
    ∷ []

-- `left < max_fu ? left : max_fu`.
unfoldable pub chunk_len : ℕ → ℕ → ℕ
chunk_len left max_fu = if ltb left max_fu then left else max_fu

-- The rest of a round, after `append_datagram`.
unfoldable pub after_append :
    (Packer → Packer × Outcome (Unit {0}))
    → Packer
    → Outcome (Unit {0})
    → Packer × Outcome (Unit {0})
after_append next s (ok _) = next s
after_append next s (err e) = (s, err einval)
after_append next s fault = (s, fault)

-- The `while (left > 0)` of `send_nal`, with `p` the bytes left. The fragment is built in an array
-- of `max_rtp` bytes, and the copy into it is not checked. A round takes `max_fu` bytes or all.
unfoldable pub send_fragments : ℕ → ℕ → ℕ → List ℕ → Bool → Bool → ℕ → ℕ → Act Packer (Unit {0})
unfolding chunk_len after_append
send_fragments zero max_fu nal0 p first marker ts capture s = (s, ok tt)
send_fragments (suc fuel) max_fu nal0 [] first marker ts capture s = (s, ok tt)
send_fragments (suc fuel) max_fu nal0 (b ∷ p) first marker ts capture s =
    let left = length (b ∷ p) in
    let chunk = chunk_len left max_fu in
    let last = left - chunk == 0 in
    let fu = fu_header nal0 first last ++ take chunk (b ∷ p) in
    let sent = append_datagram fu (marker && last) ts capture s in
    if ltb max_rtp (chunk + 2)
    then (s, fault)
    else after_append
        (λ s'. send_fragments fuel max_fu nal0 (drop chunk (b ∷ p)) false marker ts capture s')
        sent.0 sent.1

unfoldable pub send_nal : List ℕ → Bool → ℕ → ℕ → Act Packer (Unit {0})
send_nal [] marker ts capture s = (s, ok tt)
send_nal (nal0 ∷ body) marker ts capture s =
    let hdr = rtp_hdr + hdr_extra capture in
    if leb (length (nal0 ∷ body) + hdr) s.cfg.mtu
    then append_datagram (nal0 ∷ body) marker ts capture s
    else if ltb s.cfg.mtu (hdr + 2 + 1)
    then (s, err einval)
    else send_fragments (length body) (s.cfg.mtu - hdr - 2) nal0 body true marker ts capture s

-- `cache_param` reads `nal[0]` before it looks at the length.
unfoldable pub cache_param : List ℕ → Act Packer (Unit {0})
cache_param [] s = (s, fault)
cache_param (b ∷ nal) s =
    let type = bit_and b 0x1f in
    if ltb max_param (length (b ∷ nal))
    then (s, ok tt)
    else if type == 7
    then (record s { sps = b ∷ nal }, ok tt)
    else if type == 8
    then (record s { pps = b ∷ nal }, ok tt)
    else (s, ok tt)

-- A stream without start codes is one unit, behind a length prefix of four bytes if it looks so.
unfoldable pub whole_stream : List ℕ → List ℕ
whole_stream (a ∷ b ∷ c ∷ d ∷ rest) =
    if a == 0 && b == 0 && c == 0 && ltb 0 d && ltb d (u8 (length (a ∷ b ∷ c ∷ d ∷ rest)))
    then rest
    else a ∷ b ∷ c ∷ d ∷ rest
whole_stream bytes = bytes

unfoldable pub nals_of : List ℕ → List (List ℕ)
unfolding whole_stream
nals_of bytes = elim (parse_annexb_nals bytes) [
  | [] ↦ elim bytes [ [] ↦ [] | b ∷ rest ↦ whole_stream (b ∷ rest) ∷ [] ]
  | nal ∷ nals ↦ nal ∷ nals
]

-- `nal_type(nal) == t`.
abbrev pub has_type : ℕ → List ℕ → Bool
has_type t nal = elim (nal_type nal) [ none ↦ false | some type ↦ type == t ]

abbrev pub is_slice : List ℕ → Bool
is_slice nal = elim (nal_type nal) [ none ↦ false | some type ↦ leb 1 type && leb type 5 ]

-- What the first loop of `pack_annexb` collects.
pub record UnitScan : Type 0 where
  pub has_idr : Bool
  pub has_sps : Bool
  pub has_pps : Bool
  pub emit : List (List ℕ)

abbrev pub note_unit : List ℕ → UnitScan → UnitScan
note_unit nal u =
    let seen : UnitScan = record {
      has_idr = u.has_idr || has_type 5 nal;
      has_sps = u.has_sps || has_type 7 nal;
      has_pps = u.has_pps || has_type 8 nal;
      emit = u.emit ++ nal ∷ [];
    } in
    if has_type 9 nal then u else seen

-- The first loop of `pack_annexb`: caches the parameter sets and drops the delimiters (type 9).
unfoldable pub scan_units : List (List ℕ) → UnitScan → Act Packer UnitScan
scan_units [] u = pure u
scan_units (nal ∷ nals) u = cache_param nal >> scan_units nals (note_unit nal u)

-- Sends a cached parameter set once before a slice of a key frame that came without it. The flag
-- says that it has been sent.
unfoldable pub inject_if : Bool → List ℕ → Bool → ℕ → ℕ → Act Packer Bool
inject_if true set sent ts capture s = (send_nal set false ts capture >> pure true) s
inject_if false set sent ts capture s = (s, ok sent)

unfoldable pub inject : Bool → List ℕ → Bool → ℕ → ℕ → Act Packer Bool
inject wanted set sent ts capture s =
    inject_if (wanted && not sent && ltb 0 (length set)) set sent ts capture s

-- The second loop, over the units still to send.
unfoldable pub send_units : UnitScan → List (List ℕ) → Bool → Bool → ℕ → ℕ → Act Packer (Unit {0})
send_units u [] sent_sps sent_pps ts capture s = (s, ok tt)
send_units u (nal ∷ nals) sent_sps sent_pps ts capture s =
    (do
      let key_slice = u.has_idr && is_slice nal
      sent_sps' ← inject (key_slice && not u.has_sps) s.sps sent_sps ts capture
      sent_pps' ← inject (key_slice && not u.has_pps) s.pps sent_pps ts capture
      send_nal nal (elim nals [ [] ↦ true | n ∷ more ↦ false ]) ts capture
      send_units u nals sent_sps' sent_pps' ts capture)
      s

-- `pack_annexb`. A capture instant that is not positive is none.
unfoldable pub pack_annexb : List ℕ → ℤ → ℤ → Act Packer (Unit {0})
pack_annexb bytes pts capture_rt_ns s =
    (do
      modify (λ s. record s { queue = [] })
      ts ← (λ s. (s, pts_to_rtp_ts pts s.cfg.fps))
      u ←
          scan_units (nals_of bytes)
            (record { has_idr = false; has_sps = false; has_pps = false; emit = [] })
      send_units u u.emit false false ts (positive_part capture_rt_ns))
      s

-- `pop_datagram` with room for `cap` bytes.
unfoldable pub pop_datagram : ℕ → Act Packer (List ℕ)
pop_datagram cap s = elim s.queue [
  | [] ↦ (s, err eagain)
  | front ∷ rest ↦
      if ltb cap (length front) then (s, err enomem) else (record s { queue = rest }, ok front)
]

unfoldable pub reset : Packer → Packer
reset s = record s { queue = []; sps = []; pps = [] }
