-- ===== src/Rtp/Pay/Examples.antt =====
-- Tests of the payloader.
use vstreamer.Base.{ℕ, [], true, List, pos, All, ◌≡◌, arith, ◌∷◌, ok, err, refl, map, einval, some}
use vstreamer.Buffers.{View, contents}
use vstreamer.Buffers.Loans.{World, here, new_world}
use vstreamer.Buffers.Lending.{Reach-IsConserved}
use vstreamer.Rtp.Annexb.{parse_annexb_nals, scan_nals, start_code, nal_len, nal_type}
use vstreamer.Rtp.Packer.{
  Packer, pack_annexb, scan_units, pts_to_rtp_ts, nals_of, cache_param, send_units, inject,
  inject_if, send_nal, append_datagram,
}
use vstreamer.Rtp.Bounds.{Small, pack_annexb-Small}
use vstreamer.KeyUtil.{key_parse_i64, from_chars, magnitude, read_digits}
use vstreamer.Rtp.Pay.{
  Pay, new_packer, input, output, configure, checked_value, same_bytes, key_mtu, set_mtu,
  recreate_pool_locked, rebuild_packer,
}
use vstreamer.Rtp.Pay.Queue.{Queued, input-Queued}
use vstreamer.Rtp.Pay.Output.{output-contents}
use vstreamer.Rtp.Pay.Usable.{IsUsable, configures, after, after-IsUsable}

abbrev world : World
world = new_world 1400 2 []

abbrev pay : Pay
pay = record {
  opened = true;
  mtu = 1400;
  fps = 30;
  pt = 96;
  ssrc = 7;
  packer = new_packer 99 (record { mtu = 1400; payload_type = 96; ssrc = 7; fps = 30 });
  pending = [];
  datagrams_dropped = 0;
  pool = world.pool;
  heap = world.heap;
}

-- One slice behind a start code.
abbrev frame : List ℕ
frame = 0 ∷ 0 ∷ 0 ∷ 1 ∷ 0x41 ∷ 9 ∷ []

abbrev packed : Packer
packed = (pack_annexb frame (pos 1) (pos 0) pay.packer).0

test_packed : pack_annexb frame (pos 1) (pos 0) pay.packer ≡ (packed, ok tt)
unfolding new_packer pack_annexb parse_annexb_nals scan_nals start_code nal_len nal_type nals_of
    scan_units cache_param send_units inject inject_if send_nal append_datagram pts_to_rtp_ts
test_packed = refl

input-Queued_example :
    (t : Pay) × (input 0 true frame (pos 1) (pos 0) pay ≡ (t, ok tt))
    × Queued (pos 1) packed.queue [] 0 (record pay { packer = packed }) t
unfolding new_packer
input-Queued_example =
    input-Queued frame (pos 1) (pos 0) pay packed refl (omega arith) (omega arith) test_packed

pack_annexb-Small_example : All (Small 1400) (pack_annexb frame (pos 1) (pos 0) pay.packer).0.queue
unfolding new_packer
pack_annexb-Small_example = pack_annexb-Small frame (pos 1) (pos 0) pay.packer

abbrev waiting : Pay
waiting = record pay { pending = record { bytes = 5 ∷ 6 ∷ []; pts = pos 1 } ∷ [] }

output-contents_example :
    (t : Pay) × (buf : View) × (output 0 waiting ≡ (t, ok (pos 1, buf)))
    × (contents t.heap buf ≡ map some (5 ∷ 6 ∷ []))
    × (t.pending ≡ [])
output-contents_example =
    output-contents 2 [] (record { bytes = 5 ∷ 6 ∷ []; pts = pos 1 }) [] waiting
      (Reach-IsConserved 1400 2 [] world here) refl (omega arith)

-- mtu=20 is refused, and mtu=900 taken.
abbrev low : List ℕ
low = 50 ∷ 48 ∷ []

abbrev fair : List ℕ
fair = 57 ∷ 48 ∷ 48 ∷ []

test_low : (configure 99 key_mtu low pay).1 ≡ err einval
unfolding configure same_bytes checked_value key_parse_i64 from_chars magnitude read_digits
test_low = refl

test_fair : (configure 99 key_mtu fair pay).0.mtu ≡ 900
unfolding configure same_bytes checked_value key_parse_i64 from_chars magnitude read_digits set_mtu
    recreate_pool_locked rebuild_packer
test_fair = refl

after-IsUsable_example : IsUsable (after (configures 99 key_mtu fair) pay)
after-IsUsable_example = after-IsUsable (configures 99 key_mtu fair) pay (record {
  mtu_low = omega arith;
  mtu_high = omega arith;
  fps_low = omega arith;
  fps_high = omega arith;
  few = omega arith;
})
