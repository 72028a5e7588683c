-- ===== src/Fec/Examples.antt =====
-- The block erasure code at concrete values, with an ISA-L whose parity row is the first data row.
use vstreamer.Base.{
  ℕ, List, [], ◌∷◌, ◌++◌, ◌≡◌, refl, arith, true, none, some, pos, negsuc, length, ◌<◌, u8, ◌+◌,
  ◌-◌, ◌≤◌, ok, false,
}
use vstreamer.Fec.Header.{ShardHeader, pack_header, unpack_header, parity_of}
use vstreamer.Fec.Header.RoundTrip.{unpack-pack}
use vstreamer.Fec.Ring.{ring_dist, wire_block_id, ring_dist-step}
use vstreamer.Fec.Codec.{
  Isal, Setup, encode_block, encode_rows, data_rows, longest, parity_rows, systematic,
  parity_shards, max_original, Frags, frag_to_app,
}
use vstreamer.Fec.Decode.{decode_block, longest_body}
use vstreamer.Fec.Complete.{AllHeld, nonempty, decode_block_complete}
use vstreamer.Fec.Systematic.{Ready, AllCarry, encode_block-AllCarry}
use vstreamer.Fec.Sender.{Sender, push_app}
use vstreamer.Fec.Pending.{Waiting, push_app-Waiting}
use vstreamer.Fec.Receiver.{
  Receiver, RxBlock, try_stream_head_systematic, init, mark_done, emit_all, emit_payload,
}
use vstreamer.Fec.Receiver.Emit.{rounds, work, run_emit_engine, emit_round, nearest_ready}
use vstreamer.Fec.Receiver.Streaming.{try_stream_head_systematic_twice}
use vstreamer.Fec.Receiver.Ends.{Runs, run_emit_engine-ends}
use vstreamer.Fec.Receiver.Finished.{nothing-Tidy}
use vstreamer.Fec.Receiver.Invariant.{Sane}
use vstreamer.Fec.Receiver.Air.{push_air}
use vstreamer.Fec.Receiver.AirBounds.{push_air-Sane}

-- One parity row, right for two data rows of which the second is zero.
abbrev copying : Isal
copying = record {
  gen_cauchy1_matrix = λ n k. 1 ∷ 0 ∷ 0 ∷ 1 ∷ 1 ∷ 1 ∷ [];
  init_tables = λ k rows matrix. matrix;
  encode_data = λ len k rows tables data_rows. elim data_rows [ [] ↦ [] | row ∷ more ↦ row ∷ [] ];
  invert_matrix = λ matrix k. none;
  gf_mul = λ a b. a;
}

abbrev setup : Setup
setup = record { active = true; cfg_k = 2; cfg_n = 3; max_shard_bytes = 64 }

setup-Ready : Ready setup
setup-Ready = record {
  k_min = omega arith;
  k_le = omega arith;
  n_le = omega arith;
  max_le = omega arith;
}

ring_dist-step_example :
    (5 < 128 → ring_dist (wire_block_id (253 + 5)) 253 ≡ pos 5)
    × (5 < 128 → ring_dist (wire_block_id (253 + 255 - 5)) 253 ≡ negsuc 5)
ring_dist-step_example = ring_dist-step 253 5 (omega arith)

abbrev header : ShardHeader
header = record { block_id = 513; index = 2; k = 2; n = 3; flags = 0x80; sdu_n = 1 }

unpack-pack_example :
    (wire : List ℕ) × (pack_header header ≡ some wire)
    × (length wire ≡ 4)
    × (unpack_header (wire ++ 9 ∷ 9 ∷ [])
        ≡ some (record header { block_id = u8 513; flags = parity_of 0x80 }))
unpack-pack_example = unpack-pack header (9 ∷ 9 ∷ []) (record {
  index_lt = omega arith;
  k_min = omega arith;
  k_le = omega arith;
  n_le = omega arith;
  sdu_le = omega arith;
})

abbrev packets : List (List ℕ)
packets = (1 ∷ 2 ∷ []) ∷ (3 ∷ []) ∷ []

abbrev shards : List (List ℕ)
shards =
    (7 ∷ 0 ∷ 0x32 ∷ 2 ∷ 0 ∷ 2 ∷ 1 ∷ 2 ∷ [])
    ∷ (7 ∷ 1 ∷ 0x32 ∷ 2 ∷ 0 ∷ 1 ∷ 3 ∷ [])
    ∷ (7 ∷ 0x82 ∷ 0x32 ∷ 2 ∷ 0 ∷ 2 ∷ 1 ∷ 2 ∷ 0 ∷ 0 ∷ 0 ∷ 0 ∷ 0 ∷ 0 ∷ 0 ∷ 0 ∷ 0 ∷ 0 ∷ 0 ∷ 0 ∷ [])
    ∷ []

packets-encoded : encode_block copying setup packets 7 ≡ some shards
unfolding encode_block encode_rows data_rows longest parity_rows systematic parity_shards
    max_original pack_header
packets-encoded = refl

encode_block-AllCarry_example : AllCarry setup 7 (length packets) 0 packets shards
encode_block-AllCarry_example =
    encode_block-AllCarry copying setup packets shards 7 setup-Ready packets-encoded

abbrev sender : Sender
sender = record {
  setup = setup;
  timeout_ms = 20;
  pending = (1 ∷ 2 ∷ []) ∷ [];
  deadline = some 20000000;
  block_id = 7;
  blocks_count = 0;
  oversized_count = 0;
}

push_app-Waiting_example : Waiting (push_app copying 30 (3 ∷ []) sender).0
push_app-Waiting_example = push_app-Waiting copying 30 (3 ∷ []) sender (record {
  active = refl;
  k_min = omega arith;
  few = omega arith;
  deadline = (λ h. absurd (ground (arith, h)), λ h. absurd (ground (arith, h)));
})

-- The block 3 is decoded and at the head; the block 5 is decoded and waits.
abbrev busy : Receiver
busy = record (init 20) {
  emit_base_set = true;
  emit_next = 3;
  ready_blocks =
      (3, record { payloads = (1 ∷ []) ∷ (2 ∷ []) ∷ []; released = 1; sdu_n = 2 })
      ∷ (5, record { payloads = (9 ∷ []) ∷ []; released = 0; sdu_n = 1 })
      ∷ [];
  later_block_since = some 0;
}

run_emit_engine-ends_example :
    (n : ℕ) × (n ≤ work busy) × Runs 1000000000 n busy (run_emit_engine 1000000000 busy)
run_emit_engine-ends_example = run_emit_engine-ends 1000000000 busy

-- The rest of 3 goes out, 4 is given up, 5 goes out.
busy_out : (run_emit_engine 1000000000 busy).out ≡ (2 ∷ []) ∷ (9 ∷ []) ∷ []
unfolding run_emit_engine rounds emit_round init mark_done emit_all emit_payload nearest_ready
    ring_dist
busy_out = refl

init-Sane : (timeout_ms : ℕ) → Sane (init timeout_ms)
unfolding init
init-Sane timeout_ms = record {
  head = omega arith;
  order = omega arith;
  tidy = nothing-Tidy;
  sound = (tt, refl);
  rx = omega arith;
}

push_air-Sane_example :
    let s = push_air copying 1000 (7 ∷ 0 ∷ 0x32 ∷ 2 ∷ 0 ∷ 2 ∷ 1 ∷ 2 ∷ []) (init 20) in
    Sane s
    × (s.emit_next < 256)
    × (length s.done_order ≤ 128)
    × (length s.done ≤ 128)
    × (length s.rx_blocks ≤ 256)
    × (s.faulted ≡ false)
push_air-Sane_example =
    push_air-Sane copying 1000 (7 ∷ 0 ∷ 0x32 ∷ 2 ∷ 0 ∷ 2 ∷ 1 ∷ 2 ∷ []) (init 20) (init-Sane 20)

-- The shards of the block in another order, the parity first.
abbrev held : Frags
held =
    (2, 7 ∷ 0x82 ∷ 0x32 ∷ 2 ∷ 0 ∷ 2 ∷ 1 ∷ 2 ∷ [])
    ∷ (1, 7 ∷ 1 ∷ 0x32 ∷ 2 ∷ 0 ∷ 1 ∷ 3 ∷ [])
    ∷ (0, 7 ∷ 0 ∷ 0x32 ∷ 2 ∷ 0 ∷ 2 ∷ 1 ∷ 2 ∷ [])
    ∷ []

held-longest_body : longest_body 3 held 2 ≡ some 4
unfolding longest_body
held-longest_body = refl

held-AllHeld : AllHeld held 0 packets
unfolding frag_to_app
held-AllHeld = ((_, refl, refl), ((_, refl, refl), tt))

-- A block for two packets that was flushed with one.
abbrev partial : Frags
partial = (0, 7 ∷ 0 ∷ 0x31 ∷ 2 ∷ 0 ∷ 2 ∷ 1 ∷ 2 ∷ []) ∷ []

partial-longest_body : longest_body 3 partial 2 ≡ some 4
unfolding longest_body
partial-longest_body = refl

partial-AllHeld : AllHeld partial 0 ((1 ∷ 2 ∷ []) ∷ [])
unfolding frag_to_app
partial-AllHeld = ((_, refl, refl), tt)

decode_block_complete_example :
    decode_block copying 2 3 1 partial ≡ ok (nonempty ((1 ∷ 2 ∷ []) ∷ []), 0)
decode_block_complete_example =
    decode_block_complete copying 2 3 4 partial ((1 ∷ 2 ∷ []) ∷ []) (omega arith) (omega arith)
      (omega arith) (omega arith) partial-longest_body partial-AllHeld (λ i lo hi. ground arith)

-- A block of two packets that lacks the second one.
abbrev half_block : RxBlock
half_block = record {
  k = 2;
  n = 3;
  sdu_n = 2;
  released = 0;
  frags = (0, 7 ∷ 0 ∷ 0x32 ∷ 2 ∷ 0 ∷ 2 ∷ 1 ∷ 2 ∷ []) ∷ [];
  last_seen = 0;
}

try_stream_head_systematic_twice_example :
    try_stream_head_systematic 9
      (try_stream_head_systematic 9 half_block (init 20)).0
      (try_stream_head_systematic 9 half_block (init 20)).1
    ≡ try_stream_head_systematic 9 half_block (init 20)
try_stream_head_systematic_twice_example = try_stream_head_systematic_twice 9 half_block (init 20)
