-- ===== src/Telemetry/RoundTrip.antt =====
-- What one end of the link writes, the other reads.
use vstreamer.Base.{
  [], ◌≡◌, ◌≢◌, ok, ne→!=, List, ℕ, All, IsByte, take, ◌++◌, ◌∷◌, u16, arith, drop, bit_or, ◌<<<◌,
  length, refl,
}
use vstreamer.Telemetry.{
  put_be16, put_be32, put_be64, LinkReport, Fits, encode, decode, report_magic, report_version,
  report_type_receiver, report_len, get_be16, get_be32, get_be64,
}
use vstreamer.Telemetry.Bytes.{
  bytes_of_be16, bytes_of_be32, bytes_of_be64, be16_of_bytes, be32_of_bytes, be64_of_bytes, be32_of,
}

-- A report whose fields fit their types and whose session id is not 0 is decoded as it was encoded.
pub decode-encode : (r : LinkReport) → Fits r → r.session_id ≢ 0 → decode (encode r) ≡ ok r
unfolding decode get_be16 get_be32 get_be64 encode put_be16 put_be32 put_be64
decode-encode r fits live = rw (
  be32_of_bytes r.session_id fits.session,
  be32_of_bytes r.report_seq fits.seq,
  be16_of_bytes r.interval_ms fits.interval,
  be64_of_bytes r.counters.udp_packet_received fits.udp_received,
  be64_of_bytes r.counters.fec_packet_received fits.fec_received,
  be64_of_bytes r.counters.udp_gap_count fits.udp_gaps,
  be64_of_bytes r.counters.fec_gap_count fits.fec_gaps,
  ne→!= r.session_id 0 live,
)

-- What a decoded report was made from.
Read : List ℕ → LinkReport → Type 0
Read
      (b0 ∷ b1 ∷ b2 ∷ b3 ∷ b4 ∷ b5 ∷ b6 ∷ b7 ∷ b8 ∷ b9 ∷ b10 ∷ b11 ∷ b12 ∷ b13 ∷ b14 ∷ b15 ∷ b16
        ∷ b17 ∷ b18 ∷ b19 ∷ b20 ∷ b21 ∷ b22 ∷ b23 ∷ b24 ∷ b25 ∷ b26 ∷ b27 ∷ b28 ∷ b29 ∷ b30 ∷ b31
        ∷ b32 ∷ b33 ∷ b34 ∷ b35 ∷ b36 ∷ b37 ∷ b38 ∷ b39 ∷ b40 ∷ b41 ∷ b42 ∷ b43 ∷ b44 ∷ b45 ∷ b46
        ∷ b47 ∷ [])
      r =
    (u16 (bit_or (b0 <<< 8) b1) ≡ report_magic)
    × (b2 ≡ report_version)
    × (b3 ≡ report_type_receiver)
    × (r ≡ record {
      session_id = be32_of b4 b5 b6 b7;
      report_seq = be32_of b8 b9 b10 b11;
      interval_ms = u16 (bit_or (b12 <<< 8) b13);
      counters = record {
        udp_packet_received = bit_or ((be32_of b16 b17 b18 b19) <<< 32) (be32_of b20 b21 b22 b23);
        fec_packet_received = bit_or ((be32_of b32 b33 b34 b35) <<< 32) (be32_of b36 b37 b38 b39);
        udp_gap_count = bit_or ((be32_of b24 b25 b26 b27) <<< 32) (be32_of b28 b29 b30 b31);
        fec_gap_count = bit_or ((be32_of b40 b41 b42 b43) <<< 32) (be32_of b44 b45 b46 b47);
      };
    })
Read _ r = ⊥

decode-length : (d : List ℕ) {r : LinkReport} → decode d ≡ ok r → length d ≡ report_len
unfolding decode
decode-length d h = ground arith

decode-Read : (d : List ℕ) {r : LinkReport} → length d ≡ report_len → decode d ≡ ok r → Read d r
unfolding decode Read get_be16 get_be32 get_be64
decode-Read
      (b0 ∷ b1 ∷ b2 ∷ b3 ∷ b4 ∷ b5 ∷ b6 ∷ b7 ∷ b8 ∷ b9 ∷ b10 ∷ b11 ∷ b12 ∷ b13 ∷ b14 ∷ b15 ∷ b16
        ∷ b17 ∷ b18 ∷ b19 ∷ b20 ∷ b21 ∷ b22 ∷ b23 ∷ b24 ∷ b25 ∷ b26 ∷ b27 ∷ b28 ∷ b29 ∷ b30 ∷ b31
        ∷ b32 ∷ b33 ∷ b34 ∷ b35 ∷ b36 ∷ b37 ∷ b38 ∷ b39 ∷ b40 ∷ b41 ∷ b42 ∷ b43 ∷ b44 ∷ b45 ∷ b46
        ∷ b47 ∷ [])
      len h =
    ground arith
decode-Read _ len h = absurd (omega arith)

Read-encode :
    (d : List ℕ) (r : LinkReport)
    → All IsByte d
    → Read d r
    → encode r ≡ take 14 d ++ 0 ∷ 0 ∷ drop 16 d
unfolding Read encode
Read-encode
      (b0 ∷ b1 ∷ b2 ∷ b3 ∷ b4 ∷ b5 ∷ b6 ∷ b7 ∷ b8 ∷ b9 ∷ b10 ∷ b11 ∷ b12 ∷ b13 ∷ b14 ∷ b15 ∷ b16
        ∷ b17 ∷ b18 ∷ b19 ∷ b20 ∷ b21 ∷ b22 ∷ b23 ∷ b24 ∷ b25 ∷ b26 ∷ b27 ∷ b28 ∷ b29 ∷ b30 ∷ b31
        ∷ b32 ∷ b33 ∷ b34 ∷ b35 ∷ b36 ∷ b37 ∷ b38 ∷ b39 ∷ b40 ∷ b41 ∷ b42 ∷ b43 ∷ b44 ∷ b45 ∷ b46
        ∷ b47 ∷ [])
      r
      (
        h0,
        (
          h1,
          (
            h2,
            (
              h3,
              (
                h4,
                (
                  h5,
                  (
                    h6,
                    (
                      h7,
                      (
                        h8,
                        (
                          h9,
                          (
                            h10,
                            (
                              h11,
                              (
                                h12,
                                (
                                  h13,
                                  (
                                    h14,
                                    (
                                      h15,
                                      (
                                        h16,
                                        (
                                          h17,
                                          (
                                            h18,
                                            (
                                              h19,
                                              (
                                                h20,
                                                (
                                                  h21,
                                                  (
                                                    h22,
                                                    (
                                                      h23,
                                                      (
                                                        h24,
                                                        (
                                                          h25,
                                                          (
                                                            h26,
                                                            (
                                                            h27,
                                                            (
                                                            h28,
                                                            (
                                                            h29,
                                                            (
                                                            h30,
                                                            (
                                                            h31,
                                                            (
                                                            h32,
                                                            (
                                                            h33,
                                                            (
                                                            h34,
                                                            (
                                                            h35,
                                                            (
                                                            h36,
                                                            (
                                                            h37,
                                                            (
                                                            h38,
                                                            (
                                                            h39,
                                                            (
                                                            h40,
                                                            (
                                                            h41,
                                                            (
                                                            h42,
                                                            (h43, (h44, (h45, (h46, (h47, _))))),
                                                            ),
                                                            ),
                                                            ),
                                                            ),
                                                            ),
                                                            ),
                                                            ),
                                                            ),
                                                            ),
                                                            ),
                                                            ),
                                                            ),
                                                            ),
                                                            ),
                                                            ),
                                                            ),
                                                          ),
                                                        ),
                                                      ),
                                                    ),
                                                  ),
                                                ),
                                              ),
                                            ),
                                          ),
                                        ),
                                      ),
                                    ),
                                  ),
                                ),
                              ),
                            ),
                          ),
                        ),
                      ),
                    ),
                  ),
                ),
              ),
            ),
          ),
        ),
      )
      (magic, version, kind, e) =
    rw
      (
        e,
        bytes_of_be32 b4 b5 b6 b7 h4 h5 h6 h7,
        bytes_of_be32 b8 b9 b10 b11 h8 h9 h10 h11,
        bytes_of_be16 b12 b13 h12 h13,
        bytes_of_be64 b16 b17 b18 b19 b20 b21 b22 b23
            (h16, (h17, (h18, (h19, (h20, (h21, (h22, (h23, tt)))))))),
        bytes_of_be64 b24 b25 b26 b27 b28 b29 b30 b31
            (h24, (h25, (h26, (h27, (h28, (h29, (h30, (h31, tt)))))))),
        bytes_of_be64 b32 b33 b34 b35 b36 b37 b38 b39
            (h32, (h33, (h34, (h35, (h36, (h37, (h38, (h39, tt)))))))),
        bytes_of_be64 b40 b41 b42 b43 b44 b45 b46 b47
            (h40, (h41, (h42, (h43, (h44, (h45, (h46, (h47, tt)))))))),
      )
      (rw (version, kind, ← magic, bytes_of_be16 b0 b1 h0 h1) (unfold put_be16 in refl))
Read-encode _ r h e = absurd e

-- A report that decodes from a datagram encodes back to it, but for the two reserved bytes at 14
-- and 15, which are written as 0 and are not read.
pub encode-decode :
    (d : List ℕ) (r : LinkReport)
    → All IsByte d
    → decode d ≡ ok r
    → encode r ≡ take 14 d ++ 0 ∷ 0 ∷ drop 16 d
encode-decode d r bytes h = Read-encode d r bytes (decode-Read d (decode-length d h) h)
