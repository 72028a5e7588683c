-- ===== src/Fec/Receiver.antt =====
-- The receiving half of `rs_block_erasure`: its state, its counters and the operations on the
-- emit queue. A call reads the clock once; the clock counts nanoseconds.
pub mod Emit
pub mod Resync
pub mod Air
pub mod Finished
pub mod Moves
pub mod Ends
pub mod Streaming
pub mod Invariant
pub mod Bounds
pub mod Cached
pub mod AirBounds
use vstreamer.Base.{
  ℕ, zero, suc, ◌+◌, ◌-◌, ◌*◌, ◌^◌, List, [], ◌∷◌, ◌++◌, Bool, true, false, not, ◌&&◌, ◌||◌, ◌==◌,
  ltb, leb, if◌then◌else◌, Option, none, some, u64, length, take, drop,
}
use vstreamer.Fec.Map.{Map, find, contains, erase, put}
use vstreamer.Fec.Ring.{wire_block_id}
use vstreamer.Fec.Codec.{Frags, frag_to_app, max_of}

abbrev pub done_max : ℕ
done_max = 128

abbrev pub block_max : ℕ
block_max = 256

abbrev pub ring_evict_dist : ℕ
ring_evict_dist = 64

-- A counter with its value at the last `take_`.
pub record Meter : Type 0 where
  pub count : ℕ
  pub seen : ℕ

-- `rx_block_s`, without the time of its first shard, which nothing reads.
pub record RxBlock : Type 0 where
  pub k : ℕ
  pub n : ℕ
  pub sdu_n : ℕ
  pub released : ℕ
  pub frags : Frags
  pub last_seen : ℕ

-- `ready_block_s`.
pub record ReadyBlock : Type 0 where
  pub payloads : List (List ℕ)
  pub released : ℕ
  pub sdu_n : ℕ

-- A time with its flag is an option: `last_payload_emit` with `have_payload_emit`, `last_shard_rx`
-- with `have_shard_rx`, `later_block_since` with `later_block_waiting`, `newest` with `newest_set`.
-- `out` is the list that a call fills. `faulted`: the code has left an array, and from there on the
-- state says nothing.
pub record Receiver : Type 0 where
  pub timeout_ms : ℕ
  pub rx_blocks : Map RxBlock
  pub done_order : List ℕ
  pub done : Map ℕ
  pub ready_blocks : Map ReadyBlock
  pub emit_base_set : Bool
  pub emit_next : ℕ
  pub newest : Option ℕ
  pub last_payload_emit : Option ℕ
  pub last_shard_rx : Option ℕ
  pub later_block_since : Option ℕ
  pub recovered : Meter
  pub blocks : Meter
  pub hdr_errors : Meter
  pub kn_mismatch : Meter
  pub evicted_blocks : Meter
  pub rs_failures : Meter
  pub missing_shards : Meter
  pub fail_lost_app_pkts : Meter
  pub late_blocks : Meter
  pub decode_fail_seen : ℕ
  pub out : List (List ℕ)
  pub faulted : Bool

abbrev pub bump : ℕ → Meter → Meter
bump n m = record m { count = u64 (m.count + n) }

-- `take_recovered` and the other seven of its form.
unfoldable pub take_meter : Meter → Meter × ℕ
take_meter m = (record m { seen = m.count }, u64 (m.count + 2 ^ 64 - m.seen))

unfoldable pub decode_fail : Receiver → ℕ
decode_fail s = u64 (s.evicted_blocks.count + s.rs_failures.count)

unfoldable pub take_decode_fail : Receiver → Receiver × ℕ
unfolding decode_fail
take_decode_fail s =
    let total = decode_fail s in
    (record s { decode_fail_seen = total }, u64 (total + 2 ^ 64 - s.decode_fail_seen))

abbrev pub rx_hold_ms : Receiver → ℕ
rx_hold_ms s = max_of (s.timeout_ms * 10) 250

abbrev pub done_hold_ms : Receiver → ℕ
done_hold_ms s = max_of (s.timeout_ms * 50) (rx_hold_ms s)

abbrev pub emit_hold_ms : Receiver → ℕ
emit_hold_ms s = max_of (s.timeout_ms * 3) 60

-- The receiver as `init` and `disable` leave it, but for the counters.
abbrev pub clear : Receiver → Receiver
clear s = record s {
  rx_blocks = [];
  done_order = [];
  done = [];
  ready_blocks = [];
  emit_base_set = false;
  emit_next = 0;
  newest = none;
  last_payload_emit = none;
  last_shard_rx = none;
  later_block_since = none;
}

abbrev pub no_meter : Meter
no_meter = record { count = 0; seen = 0 }

unfoldable pub init : ℕ → Receiver
init timeout_ms = record {
  timeout_ms = timeout_ms;
  rx_blocks = [];
  done_order = [];
  done = [];
  ready_blocks = [];
  emit_base_set = false;
  emit_next = 0;
  newest = none;
  last_payload_emit = none;
  last_shard_rx = none;
  later_block_since = none;
  recovered = no_meter;
  blocks = no_meter;
  hdr_errors = no_meter;
  kn_mismatch = no_meter;
  evicted_blocks = no_meter;
  rs_failures = no_meter;
  missing_shards = no_meter;
  fail_lost_app_pkts = no_meter;
  late_blocks = no_meter;
  decode_fail_seen = 0;
  out = [];
  faulted = false;
}

unfoldable pub emit_payload : ℕ → List ℕ → Receiver → Receiver
emit_payload t [] s = s
emit_payload t (b ∷ bytes) s = record s {
  out = s.out ++ (b ∷ bytes) ∷ [];
  last_payload_emit = some t;
}

unfoldable pub emit_all : ℕ → List (List ℕ) → Receiver → Receiver
emit_all t [] s = s
emit_all t (app ∷ apps) s = emit_all t apps (emit_payload t app s)

-- `for (i = released; i < sdu_n && i < payloads.size(); i++) emit_payload(payloads[i])`.
abbrev pub emit_from : ℕ → ℕ → ℕ → List (List ℕ) → Receiver → Receiver
emit_from t released sdu_n payloads s =
    emit_all t (take (sdu_n - released) (drop released payloads)) s

abbrev pub expected_sdus : RxBlock → ℕ
expected_sdus b = if ltb 0 b.sdu_n then b.sdu_n else b.k

unfoldable pub account_missing_shards : RxBlock → Receiver → Receiver
account_missing_shards b s =
    let sn = expected_sdus b in
    let expected = sn + (b.n - b.k) in
    let got = length b.frags in
    if leb sn 0 || leb b.n 0 || leb b.k 0
    then s
    else if ltb got expected
    then record s { missing_shards = bump (expected - got) s.missing_shards }
    else s

unfoldable pub note_rx_block_output_shortfall : ℕ → ℕ → Receiver → Receiver
note_rx_block_output_shortfall expected available s =
    if ltb available expected
    then record s { fail_lost_app_pkts = bump (expected - available) s.fail_lost_app_pkts }
    else s

-- The last loop of `mark_done`: the oldest ids go until `done_max` are left.
unfoldable pub trim_done : List ℕ → Map ℕ → List ℕ × Map ℕ
trim_done [] done = ([], done)
trim_done (id ∷ order) done =
    let rest = trim_done order (erase id done) in
    if ltb done_max (length (id ∷ order)) then rest else (id ∷ order, done)

unfoldable pub mark_done : ℕ → ℕ → Receiver → Receiver
mark_done t id s =
    let order = if contains id s.done then s.done_order else s.done_order ++ id ∷ [] in
    let trimmed = trim_done order (put id t s.done) in
    record s { done_order = trimmed.0; done = trimmed.1 }

-- The head of the queue is through: `mark_done(emit_next)`, and on to the next id.
unfoldable pub advance_head : ℕ → Receiver → Receiver
advance_head t s = record (mark_done t s.emit_next s) {
  emit_next = wire_block_id (s.emit_next + 1);
  later_block_since = none;
}

-- The loop of `abandon_partial_block`: the systematic fragments from slot `i`, and their number.
unfoldable pub emit_frags : ℕ → ℕ → ℕ → Frags → Receiver → Receiver × ℕ
emit_frags t zero i frags s = (s, 0)
emit_frags t (suc count) i frags s = elim (find i frags) [
  | none ↦ emit_frags t count (i + 1) frags s
  | some frag ↦ elim (frag_to_app frag) [
    | none ↦ emit_frags t count (i + 1) frags s
    | some app ↦
        let rest = emit_frags t count (i + 1) frags (emit_payload t app s) in (rest.0, suc rest.1)
  ]
]

unfoldable pub abandon_partial_block : ℕ → RxBlock → ℕ → Receiver → Receiver
abandon_partial_block t b id s =
    let sn = expected_sdus b in
    let emitted = emit_frags t (sn - b.released) b.released b.frags (account_missing_shards b s) in
    let noted = note_rx_block_output_shortfall sn (b.released + emitted.1) emitted.0 in
    if wire_block_id id == noted.emit_next then advance_head t noted else noted

-- `try_stream_head_systematic`: the fragments that come next go out at once.
unfoldable pub stream_frags : ℕ → ℕ → RxBlock → Receiver → RxBlock × Receiver
stream_frags t zero b s = (b, s)
stream_frags t (suc count) b s = elim (find b.released b.frags) [
  | none ↦ (b, s)
  | some frag ↦ elim (frag_to_app frag) [
    | none ↦ (b, s)
    | some app ↦
        stream_frags t count (record b { released = b.released + 1 }) (emit_payload t app s)
  ]
]

unfoldable pub try_stream_head_systematic : ℕ → RxBlock → Receiver → RxBlock × Receiver
try_stream_head_systematic t b s = stream_frags t (expected_sdus b - b.released) b s
