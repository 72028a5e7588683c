-- ===== src/Rtp/Datagram.antt =====
-- What the packer puts into a datagram, `parse_rtp` reads.
use vstreamer.Base.{
  false, true, ℕ, checked_below, Bool, ◌<◌, bit_and, ◌^◌, List, u8, u16, bit_or, ◌∷◌, if◌then◌else◌,
  ◌>>>◌, ◌≡◌, ◌!=◌, ◌<<<◌, ok, checked_at, arith, pos, bit_and_low, be32_sum, be16_sum, ◌&&◌, u64,
  take_all, ◌==◌, bit_or_sum, suc, true, ◌%◌, length, ap, ◌-◌, refl, ◌++◌, ◌≤◌, zero,
}
use vstreamer.Rtp.Packer.{Config, datagram, rtp_header, capture_ext}
use vstreamer.Rtp.Depacketizer.{
  parse_rtp, unpadded_len, extension, profiled_extension, bede_extension, capture_instant,
  capture_element, read_be,
}

marker_table :
    checked_below 128
      (λ pt. (bit_and (u8 (bit_or pt 0x80)) 0x80 != 0) && (bit_and (u8 (bit_or pt 0)) 0x80 == 0))
    ≡ true
unfolding checked_below
marker_table = refl

marker_bit :
    (pt : ℕ) (marker : Bool)
    → pt < 128
    → (bit_and (u8 (bit_or pt (if marker then 0x80 else 0))) 0x80 != 0) ≡ marker
marker_bit pt true h = let t = checked_at 128 _ pt marker_table h in ground (arith, t)
marker_bit pt false h = let t = checked_at 128 _ pt marker_table h in ground (arith, t)

seq_bytes : (v : ℕ) → v < 2 ^ 16 → u16 (bit_or (u8 (v >>> 8) <<< 8) (u8 (bit_and v 0xff))) ≡ v
seq_bytes v h =
    omega (arith, bit_and_low 8 v, be16_sum (u8 (v >>> 8)) (u8 (bit_and v 0xff)) (omega arith))

ts_bytes :
    (v : ℕ)
    → v < 2 ^ 32
    → bit_or
        (bit_or (bit_or (u8 (v >>> 24) <<< 24) (u8 (v >>> 16) <<< 16)) (u8 (v >>> 8) <<< 8))
        (u8 v)
      ≡ v
ts_bytes v h = omega (
  arith,
  be32_sum (u8 (v >>> 24)) (u8 (v >>> 16)) (u8 (v >>> 8)) (u8 v) (omega arith) (omega arith)
      (omega arith),
)

-- Eight rounds of `rt_be = (rt_be << 8) | byte` over the bytes of a number.
abbrev shift_in : ℕ → ℕ → ℕ
shift_in acc v = bit_or (u64 (acc <<< 8)) (u8 (bit_and v 0xff))

shift_in_lem : (v : ℕ) → v < 2 ^ 64 → shift_in (v >>> 8) v ≡ v
shift_in_lem v h = rw (bit_and_low 8 v) (
    omega (
      arith,
      bit_or_sum 8 (v >>> 8) (u8 (v % 256)) (omega arith),
      ap (λ (t : ℕ). bit_or t (u8 (v % 256))) (fits v h),
    ))
  where
    fits : (v : ℕ) → v < 2 ^ 64 → u64 ((v >>> 8) <<< 8) ≡ (v >>> 8) <<< 8
    fits v h = omega arith

shift_in_next : (hi v : ℕ) → hi ≡ v >>> 8 → v < 2 ^ 64 → shift_in hi v ≡ v
shift_in_next hi v e h = rw e (shift_in_lem v h)

extension_stamped :
    (h0 h1 h2 h3 h4 h5 h6 h7 h8 h9 h10 h11 capture len : ℕ) (rest : List ℕ)
    → capture < 2 ^ 63
    → 28 ≤ len
    → extension 0x90
        (h0 ∷ h1 ∷ h2 ∷ h3 ∷ h4 ∷ h5 ∷ h6 ∷ h7 ∷ h8 ∷ h9 ∷ h10 ∷ h11 ∷ capture_ext capture ++ rest)
        len
        12
      ≡ ok (pos capture, 28)
unfolding extension profiled_extension bede_extension capture_instant capture_element capture_ext
    read_be
extension_stamped h0 h1 h2 h3 h4 h5 h6 h7 h8 h9 h10 h11 capture len rest fits long = ground (
  arith,
  shift_in_next 0 (capture >>> 56) (omega arith) (omega arith),
  shift_in_next (capture >>> 56) (capture >>> 48) (omega arith) (omega arith),
  shift_in_next (capture >>> 48) (capture >>> 40) (omega arith) (omega arith),
  shift_in_next (capture >>> 40) (capture >>> 32) (omega arith) (omega arith),
  shift_in_next (capture >>> 32) (capture >>> 24) (omega arith) (omega arith),
  shift_in_next (capture >>> 24) (capture >>> 16) (omega arith) (omega arith),
  shift_in_next (capture >>> 16) (capture >>> 8) (omega arith) (omega arith),
  shift_in_next (capture >>> 8) capture (omega arith) (omega arith),
)

module _ (cfg : Config) (seq ts b : ℕ) (marker : Bool) (payload : List ℕ)
    (pt_fits : cfg.payload_type < 128) (seq_fits : seq < 2 ^ 16) (ts_fits : ts < 2 ^ 32) where
  parse_plain :
      parse_rtp (datagram cfg seq marker ts 0 (b ∷ payload))
      ≡ ok (record {
        seq = seq;
        ts = ts;
        marker = marker;
        payload = b ∷ payload;
        capture_rt_ns = pos 0;
      })
  unfolding parse_rtp datagram rtp_header unpadded_len extension
  parse_plain =
      rw (seq_bytes seq seq_fits, ts_bytes ts ts_fits, marker_bit cfg.payload_type marker pt_fits)
        (ground (
          arith,
          take_all (b ∷ payload) (
              suc (
                suc (
                  suc (suc (suc (suc (suc (suc (suc (suc (suc (suc (suc (length payload)))))))))))))
              - 12),
        ))

  parse_stamped :
      (capture : ℕ)
      → 0 < capture
      → capture < 2 ^ 63
      → parse_rtp (datagram cfg seq marker ts capture (b ∷ payload))
        ≡ ok (record {
          seq = seq;
          ts = ts;
          marker = marker;
          payload = b ∷ payload;
          capture_rt_ns = pos capture;
        })
  unfolding parse_rtp datagram rtp_header unpadded_len capture_ext
  parse_stamped capture given fits = ground (
    arith,
    seq_bytes seq seq_fits,
    ts_bytes ts ts_fits,
    marker_bit cfg.payload_type marker pt_fits,
    extension_stamped 0x90 (u8 (bit_or cfg.payload_type (if marker then 0x80 else 0)))
        (u8 (seq >>> 8)) (u8 (bit_and seq 0xff)) (u8 (ts >>> 24)) (u8 (ts >>> 16)) (u8 (ts >>> 8))
        (u8 ts) (u8 (cfg.ssrc >>> 24)) (u8 (cfg.ssrc >>> 16)) (u8 (cfg.ssrc >>> 8)) (u8 cfg.ssrc)
        capture
        (suc (
          suc (
            suc (
              suc (
                suc (
                  suc (
                    suc (
                      suc (
                        suc (
                          suc (
                            suc (
                              suc (
                                suc (
                                  suc (
                                    suc (
                                      suc (
                                        suc (
                                          suc (
                                            suc (
                                              suc (
                                                suc (
                                                  suc (
                                                    suc (
                                                      suc (
                                                        suc (
                                                          suc (
                                                            suc (
                                                            suc (
                                                            suc (
                                                            length
                                                            payload))))))))))))))))))))))))))))))
        (b ∷ payload) fits (omega arith),
    take_all (b ∷ payload) (
        (suc (
          suc (
            suc (
              suc (
                suc (
                  suc (
                    suc (
                      suc (
                        suc (
                          suc (
                            suc (
                              suc (
                                suc (
                                  suc (
                                    suc (
                                      suc (
                                        suc (
                                          suc (
                                            suc (
                                              suc (
                                                suc (
                                                  suc (
                                                    suc (
                                                      suc (
                                                        suc (
                                                          suc (
                                                            suc (
                                                            suc (
                                                            suc (
                                                            length
                                                            payload))))))))))))))))))))))))))))))
        - 28),
  )

-- A datagram of the packer with a payload, whatever it holds, parses to its sequence number, its
-- timestamp, its marker, its payload and its capture instant, where these fit their fields.
pub parse-datagram :
    (cfg : Config) (seq ts b : ℕ) (marker : Bool) (payload : List ℕ) (capture : ℕ)
    → cfg.payload_type < 128
    → seq < 2 ^ 16
    → ts < 2 ^ 32
    → capture < 2 ^ 63
    → parse_rtp (datagram cfg seq marker ts capture (b ∷ payload))
      ≡ ok (record {
        seq = seq;
        ts = ts;
        marker = marker;
        payload = b ∷ payload;
        capture_rt_ns = pos capture;
      })
parse-datagram cfg seq ts b marker payload zero hp hs ht hc =
    parse_plain cfg seq ts b marker payload hp hs ht
parse-datagram cfg seq ts b marker payload (suc capture) hp hs ht hc =
    parse_stamped cfg seq ts b marker payload hp hs ht (suc capture) (omega arith) hc
