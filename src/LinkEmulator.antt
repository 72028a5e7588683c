-- ===== src/LinkEmulator.antt =====
-- src/apps/stream_sdl_test/link_emulator.cpp: a relay that loses and delays datagrams on purpose.
pub mod Examples
pub mod Ledger
pub mod Rate
pub mod Budget
pub mod Accounted
use vstreamer.Base.{
  ℕ, Bool, ◌+◌, bit_xor, ℤ, if◌then◌else◌, List, ◌%◌, ◌*◌, positive_part, ◌==◌, not, length, ◌∷◌,
  ◌++◌, ◌^◌, ltb, ◌||◌, false, [], leb, suc, ◌/◌, ◌-◌, true, ◌!=◌,
}

-- The limits: whole kbit/s, ms, hundredths of a percent, and datagrams.
pub record Limits : Type 0 where
  pub max_kbps : ℕ
  pub drop_dt_ms : ℕ
  pub loss : ℕ
  pub queue_depth : ℕ

abbrev pub min_drop_dt_ms : ℕ
min_drop_dt_ms = 1

abbrev pub max_drop_dt_ms : ℕ
max_drop_dt_ms = 3600000

-- `direction_state`. `has_route` is `have_egress` with an open socket. Instants are in nanoseconds.
-- `sent` is the world's end of the socket: what sendto has taken, the oldest first.
pub record Direction : Type 0 where
  pub has_route : Bool
  pub window_start : ℕ
  pub window_bytes : ℕ
  pub rng : ℕ
  pub pkts_in : ℕ
  pub pkts_out : ℕ
  pub bytes_in : ℕ
  pub bytes_out : ℕ
  pub dropped_rate : ℕ
  pub dropped_loss : ℕ
  pub dropped_queue : ℕ
  pub queue : List (List ℕ)
  pub queue_len : ℕ
  pub sent : List (List ℕ)

-- What a try meets: the clock, and whether sendto takes the whole datagram.
pub record Try : Type 0 where
  pub now : ℕ
  pub taken : Bool

pub data EgressStatus : Type 0 where
  egress_ok rate_limited loss_dropped no_route send_failed : EgressStatus

-- `fetch_add(n)` of a counter of 64 bits.
abbrev pub plus64 : ℕ → ℕ → ℕ
plus64 n d = (n + d) % 2 ^ 64

-- A shift to the left of a uint32_t, and one to the right.
unfoldable pub rng32 : ℕ → ℕ
rng32 x0 =
    let x1 = bit_xor x0 (x0 * 2 ^ 13 % 2 ^ 32) in
    let x2 = bit_xor x1 (x1 / 2 ^ 17) in
    let x3 = bit_xor x2 (x2 * 2 ^ 5 % 2 ^ 32) in if x3 != 0 then x3 else 1

-- `link_emulator`: the limits, and the directions `fwd` and `rev`.
pub record Emulator : Type 0 where
  pub limits : Limits
  pub fwd : Direction
  pub rev : Direction

abbrev pub reset_rate_window : ℕ → Direction → Direction
reset_rate_window t s = record s { window_start = t; window_bytes = 0 }

-- Both windows begin anew at the instant `t`.
unfoldable pub reset_rate_windows : ℕ → Emulator → Emulator
reset_rate_windows t e = record e {
  fwd = reset_rate_window t e.fwd;
  rev = reset_rate_window t e.rev;
}

-- The limits are checked and set, and the windows begin anew at `now_sec()`.
unfoldable pub set_drop_dt_ms : ℤ → ℕ → Emulator → Emulator
unfolding reset_rate_windows
set_drop_dt_ms ms now e =
    let n = positive_part ms in
    reset_rate_windows now (record e {
      limits = record e.limits {
        drop_dt_ms =
            if ltb n min_drop_dt_ms
            then min_drop_dt_ms
            else if ltb max_drop_dt_ms n
            then max_drop_dt_ms
            else n;
      };
    })

unfoldable pub set_constant_loss : ℤ → Emulator → Emulator
set_constant_loss pct e =
    let n = positive_part pct in
    record e { limits = record e.limits { loss = if ltb 10000 n then 10000 else n } }

unfoldable pub set_queue_depth : ℤ → Emulator → Emulator
set_queue_depth depth e = record e {
  limits = record e.limits { queue_depth = positive_part depth };
}

unfoldable pub set_max_kbps : ℤ → ℕ → Emulator → Emulator
unfolding reset_rate_windows
set_max_kbps kbps now e =
    reset_rate_windows now (record e { limits = record e.limits { max_kbps = positive_part kbps } })

-- A new window where the last one is over or none has begun.
unfoldable pub renew_window : Limits → ℕ → Direction → Direction
renew_window l now s =
    if s.window_start == 0 || leb (l.drop_dt_ms * 1000000) (now - s.window_start)
    then record s { window_start = now; window_bytes = 0 }
    else s

unfoldable pub should_drop_rate : Limits → ℕ → ℕ → Direction → Direction × Bool
should_drop_rate l now pkt_bytes s =
    let w = renew_window l now s in
    if l.max_kbps == 0
    then (s, false)
    else if ltb (l.max_kbps * l.drop_dt_ms) (8 * (w.window_bytes + pkt_bytes))
    then (w, true)
    else (record w { window_bytes = w.window_bytes + pkt_bytes }, false)

unfoldable pub should_drop_loss : Limits → Direction → Direction × Bool
should_drop_loss l s =
    let r = rng32 s.rng in
    if l.loss == 0
    then (s, false)
    else if leb 10000 l.loss
    then (s, true)
    else (record s { rng = r }, ltb (r % 10000) l.loss)

-- The end of try_egress_one, past the two tests.
unfoldable pub send : Try → List ℕ → Direction → Direction × EgressStatus
send try pkt s =
    if not s.has_route
    then (s, no_route)
    else if try.taken
    then (
      record s {
        pkts_out = plus64 s.pkts_out 1;
        bytes_out = plus64 s.bytes_out (length pkt);
        sent = s.sent ++ pkt ∷ [];
      },
      egress_ok,
    )
    else (s, send_failed)

unfoldable pub try_egress_one : Limits → Try → List ℕ → Direction → Direction × EgressStatus
try_egress_one l try pkt s =
    let rate = should_drop_rate l try.now (length pkt) s in
    let loss = should_drop_loss l rate.0 in
    if rate.1
    then (rate.0, rate_limited)
    else if loss.1
    then (loss.0, loss_dropped)
    else send try pkt loss.0

unfoldable pub count_drop : Direction × EgressStatus → Direction
count_drop (s, rate_limited) = record s { dropped_rate = plus64 s.dropped_rate 1 }
count_drop (s, loss_dropped) = record s { dropped_loss = plus64 s.dropped_loss 1 }
count_drop (s, egress_ok) = s
count_drop (s, no_route) = s
count_drop (s, send_failed) = s

unfoldable pub egress_packet : Limits → Try → List ℕ → Direction → Direction
egress_packet l try pkt s = count_drop (try_egress_one l try pkt s)

-- The queue with its oldest datagram gone if it is full.
unfoldable pub make_room : ℕ → List (List ℕ) → ℕ → List (List ℕ) × ℕ
make_room depth [] dropped = ([], dropped)
make_room depth (x ∷ rest) dropped =
    if leb depth (length (x ∷ rest)) then (rest, plus64 dropped 1) else (x ∷ rest, dropped)

unfoldable pub enqueue : ℕ → List ℕ → Direction → Direction
enqueue depth pkt s =
    let room = make_room depth s.queue s.dropped_queue in
    record s { queue = room.0 ++ pkt ∷ []; dropped_queue = room.1; queue_len = length room.0 + 1 }

unfoldable pub accept_ingress : Limits → Try → List ℕ → Direction → Direction
accept_ingress l try pkt s =
    let counted = record s {
      pkts_in = plus64 s.pkts_in 1;
      bytes_in = plus64 s.bytes_in (length pkt);
    } in
    if l.queue_depth == 0
    then egress_packet l try pkt counted
    else enqueue l.queue_depth pkt counted

-- The loop of flush_ingress_queue, which ends with the first datagram that is held.
unfoldable pub flush_rounds : Limits → (ℕ → Try) → ℕ → List (List ℕ) → Direction → Direction
flush_rounds l tries k [] s = record s { queue = []; queue_len = 0 }
flush_rounds l tries k (pkt ∷ rest) s =
    let r = try_egress_one l (tries k) pkt s in
    let held = record r.0 { queue = pkt ∷ rest; queue_len = length (pkt ∷ rest) } in
    elim r.1 [
      | egress_ok ↦ flush_rounds l tries (suc k) rest r.0
      | loss_dropped ↦
          flush_rounds l tries (suc k) rest
            (record r.0 { dropped_loss = plus64 r.0.dropped_loss 1 })
      | rate_limited ↦ held
      | no_route ↦ held
      | send_failed ↦ held
    ]

-- `tries` gives what each round meets.
unfoldable pub flush_ingress_queue : Limits → (ℕ → Try) → Direction → Direction
flush_ingress_queue l tries s = if l.queue_depth == 0 then s else flush_rounds l tries 0 s.queue s
