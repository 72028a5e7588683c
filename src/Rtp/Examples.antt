-- ===== src/Rtp/Examples.antt =====
-- The RTP packer and depacketizer at concrete values.
use vstreamer.Base.{
  ℕ, List, [], ◌∷◌, ◌++◌, ◌≡◌, refl, arith, true, false, ok, fault, pos, replicate,
  length-replicate, ◌<◌, length,
}
use vstreamer.Rtp.Annexb.{parse_annexb_nals, scan_nals, start_code, nal_len, nal_type}
use vstreamer.Rtp.Packer.{
  Config, Packer, UnitScan, datagram, send_nal, pack_annexb, scan_units, pts_to_rtp_ts, nals_of,
  cache_param, whole_stream,
}
use vstreamer.Rtp.Depacketizer.{Depacketizer, parse_rtp, initial}
use vstreamer.Rtp.Datagram.{parse-datagram}
use vstreamer.Rtp.InOrder.{At, framed}
use vstreamer.Rtp.Delivery.Feed.{Fits, feed_all}
use vstreamer.Rtp.Delivery.Carried.{Carried}
use vstreamer.Rtp.Delivery.Nal.{send_nal-Carried}
use vstreamer.Rtp.Delivery.AccessUnit.{stream, units_out}
use vstreamer.Rtp.Delivery.Pack.{scanned, pack_annexb-delivers}
use vstreamer.Rtp.Safety.{Safe, parse_rtp-Safe}
use vstreamer.Rtp.Overrun.{send_nal-overruns}

abbrev config : Config
config = record { mtu = 40; payload_type = 96; ssrc = 0xc0de0001; fps = 30 }

abbrev packer : Packer
packer = record { cfg = config; seq = 65535; sps = []; pps = []; queue = [] }

config-Fits : Fits config 3000 0
config-Fits = record { pt_fits = omega arith; ts_fits = omega arith; capture_fits = omega arith }

-- A slice that takes more than one fragment.
abbrev slice : List ℕ
slice = 0x65 ∷ replicate 60 7

parse-datagram_example :
    parse_rtp (datagram config 258 true 3000 0 (0x65 ∷ 1 ∷ 2 ∷ []))
    ≡ ok (record {
      seq = 258;
      ts = 3000;
      marker = true;
      payload = 0x65 ∷ 1 ∷ 2 ∷ [];
      capture_rt_ns = pos 0;
    })
parse-datagram_example =
    parse-datagram config 258 3000 0x65 true (1 ∷ 2 ∷ []) 0 (omega arith) (omega arith)
      (omega arith) (omega arith)

send_nal-Carried_example :
    Carried packer true 3000
      ([] ++ framed slice)
      (At 65535 3000 [] false [])
      (send_nal slice true 3000 0 packer)
send_nal-Carried_example =
    send_nal-Carried 3000 0 true [] packer config-Fits (omega arith) (omega arith) (omega arith)
      slice (omega arith, (omega arith, omega arith))

-- Parameter sets and a slice, behind start codes.
abbrev bytes : List ℕ
bytes = 0 ∷ 0 ∷ 0 ∷ 1 ∷ 0x67 ∷ 1 ∷ 2 ∷ 0 ∷ 0 ∷ 1 ∷ 0x68 ∷ 3 ∷ 0 ∷ 0 ∷ 0 ∷ 1 ∷ slice

abbrev packer_with_sets : Packer
packer_with_sets = record packer { sps = 0x67 ∷ 1 ∷ 2 ∷ []; pps = 0x68 ∷ 3 ∷ [] }

abbrev units : UnitScan
units = record {
  has_idr = true;
  has_sps = true;
  has_pps = true;
  emit = (0x67 ∷ 1 ∷ 2 ∷ []) ∷ (0x68 ∷ 3 ∷ []) ∷ slice ∷ [];
}

bytes-scanned : scanned packer bytes ≡ (packer_with_sets, ok units)
unfolding scan_units nals_of cache_param parse_annexb_nals scan_nals start_code nal_len nal_type
    whole_stream
bytes-scanned = refl

initial-At : At 65535 3000 [] false [] (initial 30)
unfolding initial
initial-At = record {
  built = refl;
  unbroken = refl;
  fu_state = refl;
  fu_bytes = refl;
  none_waiting = refl;
  follows = λ h. absurd (ground (arith, h));
  same_unit = λ h. absurd (ground (arith, h));
}

one_frame : pts_to_rtp_ts (pos 1) 30 ≡ ok 3000
unfolding pts_to_rtp_ts
one_frame = refl

pack_annexb-delivers_example :
    (s' : Packer) × (d' : Depacketizer) × (pack_annexb bytes (pos 1) (pos 0) packer ≡ (s', ok tt))
    × (feed_all s'.queue (initial 30) ≡ (
      d',
      ok (stream (units_out units (0x67 ∷ 1 ∷ 2 ∷ []) (0x68 ∷ 3 ∷ []) units.emit false false) ∷ []),
    ))
    × ((ts' : ℕ) → At s'.seq ts' [] false [] d')
pack_annexb-delivers_example =
    pack_annexb-delivers packer packer_with_sets (initial 30) bytes (pos 1) (pos 0) 3000 units
      (0x67 ∷ 1 ∷ 2 ∷ []) ((0x68 ∷ 3 ∷ []) ∷ slice ∷ []) one_frame
      (record { fits = config-Fits; room = omega arith; standard = omega arith }) (omega arith)
      bytes-scanned refl
      (
        (omega arith, (omega arith, omega arith)),
        (
          (omega arith, (omega arith, omega arith)),
          ((omega arith, (omega arith, omega arith)), tt),
        ),
      )
      (omega arith, (omega arith, omega arith)) (omega arith, (omega arith, omega arith)) initial-At

abbrev jumbo : Packer
jumbo = record packer { cfg = record config { mtu = 1600 } }

send_nal-overruns_example : (send_nal (0x65 ∷ replicate 1600 7) true 3000 0 jumbo).1 ≡ fault
send_nal-overruns_example =
    send_nal-overruns 0x65 (replicate 1600 7) true 3000 jumbo (omega arith)
      (omega (arith, length-replicate {A = ℕ} 1600 7))

-- A datagram with the extension bit and the padding bit, cut short.
abbrev cut_short : List ℕ
cut_short =
    0xb0 ∷ 96 ∷ 0 ∷ 1 ∷ 0 ∷ 0 ∷ 0 ∷ 9 ∷ 0 ∷ 0 ∷ 0 ∷ 7 ∷ 0xbe ∷ 0xde ∷ 0 ∷ 3 ∷ 0x27 ∷ 1 ∷ 1 ∷ []

parse_rtp-Safe_example : Safe (λ rtp. 0 < length rtp.payload) (parse_rtp cut_short)
parse_rtp-Safe_example = parse_rtp-Safe cut_short
