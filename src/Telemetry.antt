-- ===== src/Telemetry.antt =====
-- src/core/stream_telemetry.hpp: the link report that a receiver sends back, 48 bytes in network
-- order.
pub mod Bytes
pub mod RoundTrip
pub mod Examples
use vstreamer.Base.{
  ℕ, ◌+◌, ◌/◌, ◌%◌, ◌^◌, List, [], ◌∷◌, ◌++◌, Bool, true, false, ◌&&◌, ◌==◌, ◌!=◌, u8, u16, u32,
  u64, ◌<<<◌, ◌>>>◌, bit_and, bit_or, length, Outcome, ok, err, fault, Errno, emsgsize, eproto,
  ◌>>=◌, ◌>>◌, require, read, ◌<◌,
}

pub record LinkCounters : Type 0 where
  pub udp_packet_received : ℕ
  pub fec_packet_received : ℕ
  pub udp_gap_count : ℕ
  pub fec_gap_count : ℕ

pub record LinkReport : Type 0 where
  pub session_id : ℕ
  pub report_seq : ℕ
  pub interval_ms : ℕ
  pub counters : LinkCounters

abbrev pub report_magic : ℕ
report_magic = 0x5654

abbrev pub report_version : ℕ
report_version = 1

abbrev pub report_type_receiver : ℕ
report_type_receiver = 1

abbrev pub report_len : ℕ
report_len = 48

-- `detail::put_be16` and so on: the bytes that are written, in order.
unfoldable pub put_be16 : ℕ → List ℕ
put_be16 v = u8 (bit_and (v >>> 8) 0xff) ∷ u8 (bit_and v 0xff) ∷ []

unfoldable pub put_be32 : ℕ → List ℕ
put_be32 v =
    u8 (bit_and (v >>> 24) 0xff)
    ∷ u8 (bit_and (v >>> 16) 0xff)
    ∷ u8 (bit_and (v >>> 8) 0xff)
    ∷ u8 (bit_and v 0xff)
    ∷ []

unfoldable pub put_be64 : ℕ → List ℕ
put_be64 v = put_be32 (u32 (v >>> 32)) ++ put_be32 (u32 (v % 2 ^ 32))

-- `detail::get_be16(p)` and so on, with `p` the array and an offset.
unfoldable pub get_be16 : List ℕ → ℕ → Outcome ℕ
get_be16 p i = do b0 ← read p i; b1 ← read p (i + 1); ok (u16 (bit_or (b0 <<< 8) b1))

unfoldable pub get_be32 : List ℕ → ℕ → Outcome ℕ
get_be32 p i = do
  b0 ← read p i
  b1 ← read p (i + 1)
  b2 ← read p (i + 2)
  b3 ← read p (i + 3)
  ok (bit_or (bit_or (bit_or (b0 <<< 24) (b1 <<< 16)) (b2 <<< 8)) b3)

unfoldable pub get_be64 : List ℕ → ℕ → Outcome ℕ
get_be64 p i = do hi ← get_be32 p i; lo ← get_be32 p (i + 4); ok (bit_or (hi <<< 32) lo)

-- `stream_link_report_encode`: the writes go from offset 0 to offset 47.
unfoldable pub encode : LinkReport → List ℕ
encode r =
    put_be16 report_magic
    ++ (report_version ∷ report_type_receiver ∷ [])
    ++ put_be32 r.session_id
    ++ put_be32 r.report_seq
    ++ put_be16 r.interval_ms
    ++ put_be16 0
    ++ put_be64 r.counters.udp_packet_received
    ++ put_be64 r.counters.udp_gap_count
    ++ put_be64 r.counters.fec_packet_received
    ++ put_be64 r.counters.fec_gap_count

-- `stream_link_report_decode`, at a `data` and an `out` that are not null.
unfoldable pub decode : List ℕ → Outcome LinkReport
decode d = do
  require (length d == report_len) emsgsize
  magic ← get_be16 d 0
  version ← read d 2
  kind ← read d 3
  require (magic == report_magic && version == report_version && kind == report_type_receiver)
      eproto
  session ← get_be32 d 4
  require (session != 0) eproto
  seq ← get_be32 d 8
  interval ← get_be16 d 12
  udp_received ← get_be64 d 16
  udp_gaps ← get_be64 d 24
  fec_received ← get_be64 d 32
  fec_gaps ← get_be64 d 40
  ok (record {
    session_id = session;
    report_seq = seq;
    interval_ms = interval;
    counters = record {
      udp_packet_received = udp_received;
      fec_packet_received = fec_received;
      udp_gap_count = udp_gaps;
      fec_gap_count = fec_gaps;
    };
  })

-- Every field fits its C++ type.
pub record Fits (r : LinkReport) : Type 0 where
  pub session : r.session_id < 2 ^ 32
  pub seq : r.report_seq < 2 ^ 32
  pub interval : r.interval_ms < 2 ^ 16
  pub udp_received : r.counters.udp_packet_received < 2 ^ 64
  pub fec_received : r.counters.fec_packet_received < 2 ^ 64
  pub udp_gaps : r.counters.udp_gap_count < 2 ^ 64
  pub fec_gaps : r.counters.fec_gap_count < 2 ^ 64
