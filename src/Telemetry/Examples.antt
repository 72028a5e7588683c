-- ===== src/Telemetry/Examples.antt =====
-- The link report at concrete values.
use vstreamer.Base.{
  ℕ, List, [], ◌∷◌, ◌++◌, ◌≡◌, refl, take, drop, arith, ok, All, IsByte, Bool, true, ltb, ◌&&◌,
}
use vstreamer.Telemetry.{LinkReport, Fits, encode, decode, get_be16, get_be32, get_be64}
use vstreamer.Telemetry.RoundTrip.{decode-encode, encode-decode}

abbrev report : LinkReport
report = record {
  session_id = 0xc0de0001;
  report_seq = 258;
  interval_ms = 1000;
  counters = record {
    udp_packet_received = 0x100000002;
    fec_packet_received = 300;
    udp_gap_count = 5;
    fec_gap_count = 1;
  };
}

report-Fits : Fits report
report-Fits = record {
  session = omega arith;
  seq = omega arith;
  interval = omega arith;
  udp_received = omega arith;
  fec_received = omega arith;
  udp_gaps = omega arith;
  fec_gaps = omega arith;
}

decode-encode_example : decode (encode report) ≡ ok report
decode-encode_example = decode-encode report report-Fits (λ e. absurd (omega (arith, e)))

-- A datagram whose reserved bytes are not 0.
abbrev wire : List ℕ
wire =
    0x56 ∷ 0x54 ∷ 1 ∷ 1 ∷ 0 ∷ 0 ∷ 0 ∷ 9 ∷ 0 ∷ 0 ∷ 0 ∷ 2 ∷ 3 ∷ 0xe8 ∷ 0xaa ∷ 0xbb ∷ 0 ∷ 0 ∷ 0 ∷ 0 ∷ 0
    ∷ 0 ∷ 1 ∷ 0 ∷ 0 ∷ 0 ∷ 0 ∷ 0 ∷ 0 ∷ 0 ∷ 0 ∷ 1 ∷ 0 ∷ 0 ∷ 0 ∷ 0 ∷ 0 ∷ 0 ∷ 0 ∷ 7 ∷ 0 ∷ 0 ∷ 0 ∷ 0 ∷ 0
    ∷ 0 ∷ 0 ∷ 0 ∷ []

abbrev wire_report : LinkReport
wire_report = record {
  session_id = 9;
  report_seq = 2;
  interval_ms = 1000;
  counters = record {
    udp_packet_received = 256;
    fec_packet_received = 7;
    udp_gap_count = 1;
    fec_gap_count = 0;
  };
}

wire-decoded : decode wire ≡ ok wire_report
unfolding decode get_be16 get_be32 get_be64
wire-decoded = refl

are_bytes : List ℕ → Bool
are_bytes [] = true
are_bytes (x ∷ xs) = ltb x 256 && are_bytes xs

are_bytes_sound : (xs : List ℕ) → are_bytes xs ≡ true → All IsByte xs
unfolding are_bytes
are_bytes_sound [] h = tt
are_bytes_sound (x ∷ xs) h = (ground (arith, h), are_bytes_sound xs (ground (arith, h)))

wire-bytes : All IsByte wire
unfolding are_bytes
wire-bytes = are_bytes_sound wire refl

encode-decode_example : encode wire_report ≡ take 14 wire ++ 0 ∷ 0 ∷ drop 16 wire
encode-decode_example = encode-decode wire wire_report wire-bytes wire-decoded
