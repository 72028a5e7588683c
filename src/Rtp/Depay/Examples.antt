-- ===== src/Rtp/Depay/Examples.antt =====
-- Tests of the depayloader.
use vstreamer.Base.{ℕ, true, List, ◌≡◌, [], ◌∷◌, pos, refl, arith}
use vstreamer.Rtp.Packer.{datagram, rtp_header}
use vstreamer.Rtp.Depacketizer.{
  initial, feed, feed_parsed, process_payload, parse_rtp, arrive, settle, is_late, unpadded_len,
  extension, note_sequence, begin_au_if_needed, append_annexb_nal, finish_building_au, pop_result,
  pop_completed_au, note_au_timestamps,
}
use vstreamer.Rtp.Depay.{Depay, Clocks, input, feed_rounds, take_au, accept_capture_rt_ns, push_au}
use vstreamer.Rtp.Depay.Refeed.{Ran, input-Ran}

abbrev depay : Depay
depay = record {
  opened = true;
  fps = 30;
  depay = initial 30;
  au_queue = [];
  au_dropped = 0;
  capture_ts_rejected = 0;
  capture_skew = pos 0;
}

abbrev clocks : Clocks
clocks = record { mono = 5; realtime = 9 }

-- One slice, with the marker.
abbrev whole_unit : List ℕ
whole_unit =
    datagram (record { mtu = 1400; payload_type = 96; ssrc = 7; fps = 30 }) 5 true 3000 0
      (0x41 ∷ 9 ∷ [])

input-Ran_example : Ran whole_unit depay (input 0 clocks whole_unit depay)
input-Ran_example = input-Ran clocks whole_unit depay (omega arith)

-- It comes in time, and it counts as late.
test_counted : (input 0 clocks whole_unit depay).0.depay.rtp_reordered_count ≡ 1
unfolding input feed_rounds feed feed_parsed process_payload arrive settle is_late initial datagram
    parse_rtp unpadded_len extension note_sequence begin_au_if_needed append_annexb_nal
    finish_building_au pop_result pop_completed_au note_au_timestamps take_au accept_capture_rt_ns
    push_au rtp_header
test_counted = refl
