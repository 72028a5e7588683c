-- ===== src/LinkEmulator/Examples.antt =====
-- Tests of the emulator.
use vstreamer.Base.{ℕ, true, List, ◌≡◌, [], arith, ◌∷◌, replicate, ◌++◌, refl}
use vstreamer.Queues.Threads.{none_left}
use vstreamer.LinkEmulator.{
  Limits, Direction, Try, flush_ingress_queue, flush_rounds, try_egress_one, should_drop_rate,
  should_drop_loss, renew_window, send, accept_ingress, enqueue, make_room, egress_packet,
  count_drop,
}
use vstreamer.LinkEmulator.Accounted.{
  Event, arrives, flushes, relay, arrivals, IsAccounted, account, relay-IsAccounted,
}
use vstreamer.LinkEmulator.Rate.{flush_ingress_queue_held}

-- 1 kbit/s over windows of 100 ms: 100 bits.
abbrev limits : Limits
limits = record { max_kbps = 1; drop_dt_ms = 100; loss = 0; queue_depth = 2 }

abbrev fresh : Direction
fresh = record {
  has_route = true;
  window_start = 0;
  window_bytes = 0;
  rng = 1;
  pkts_in = 0;
  pkts_out = 0;
  bytes_in = 0;
  bytes_out = 0;
  dropped_rate = 0;
  dropped_loss = 0;
  dropped_queue = 0;
  queue = [];
  queue_len = 0;
  sent = [];
}

abbrev try_now : Try
try_now = record { now = 7; taken = true }

abbrev events : List Event
events =
    arrives (1 ∷ []) try_now
    ∷ arrives (2 ∷ []) try_now
    ∷ arrives (3 ∷ []) try_now
    ∷ flushes (λ k. try_now)
    ∷ []

test_sent : (relay limits events fresh).sent ≡ (2 ∷ []) ∷ (3 ∷ []) ∷ []
unfolding relay accept_ingress enqueue make_room flush_ingress_queue flush_rounds try_egress_one
    should_drop_rate should_drop_loss renew_window send
test_sent = refl

relay-IsAccounted_example : IsAccounted 2 ([] ++ arrivals events) (relay limits events fresh)
relay-IsAccounted_example = relay-IsAccounted limits events [] fresh (omega arith) (record {
  accounted = account [] 0 refl none_left refl refl refl refl;
  at_most = omega arith;
  published = refl;
})

-- A window that began at 5 ns. The third datagram comes 100 ms later, in the next one.
abbrev begun : Direction
begun = record fresh { window_start = 5 }

abbrev late_events : List Event
late_events =
    arrives (replicate 12 1) try_now
    ∷ arrives (2 ∷ []) try_now
    ∷ arrives (3 ∷ []) (record { now = 100000005; taken = true })
    ∷ []

abbrev direct : Limits
direct = record limits { queue_depth = 0 }

test_second_held : (relay direct late_events begun).sent ≡ replicate 12 1 ∷ (3 ∷ []) ∷ []
unfolding relay accept_ingress egress_packet count_drop try_egress_one should_drop_rate
    should_drop_loss renew_window send
test_second_held = refl

abbrev large : List ℕ
large = replicate 13 0

abbrev blocked : Direction
blocked = record fresh { queue = large ∷ (1 ∷ []) ∷ [] }

flush_ingress_queue_held_example :
    let t = flush_ingress_queue limits (λ k. try_now) blocked in
    (t.queue ≡ large ∷ (1 ∷ []) ∷ []) × (t.sent ≡ []) × (t.pkts_out ≡ 0)
flush_ingress_queue_held_example =
    flush_ingress_queue_held limits (λ k. try_now) large ((1 ∷ []) ∷ []) blocked (omega arith)
      (omega arith) (omega arith) refl
