-- ===== src/LinkEmulator/Rate.antt =====
-- What the limit of the rate does to a datagram that is larger than a whole window.
use vstreamer.Base.{ℕ, arith, List, ◌≤◌, ◌*◌, ◌<◌, ◌≡◌, length, true, ◌∷◌, subst, refl, ap, ◌∙◌}
use vstreamer.LinkEmulator.{
  Limits, Direction, Try, rate_limited, should_drop_rate, try_egress_one, flush_rounds,
  flush_ingress_queue,
}
use vstreamer.LinkEmulator.Ledger.{Ledger, ledger, posted, try_egress_one-Posted}
use vstreamer.LinkEmulator.Accounted.{ne_zero}

-- A datagram of more bits than a window lets through is never sent, and holds the queue behind it.
too_large :
    (l : Limits) (now n : ℕ) (s : Direction)
    → 1 ≤ l.max_kbps
    → l.max_kbps * l.drop_dt_ms < 8 * n
    → (should_drop_rate l now n s).1 ≡ true
unfolding should_drop_rate
too_large l now n s on large = ground arith

try_too_large :
    (l : Limits) (try : Try) (pkt : List ℕ) (s : Direction)
    → 1 ≤ l.max_kbps
    → l.max_kbps * l.drop_dt_ms < 8 * length pkt
    → (try_egress_one l try pkt s).1 ≡ rate_limited
unfolding try_egress_one
try_too_large l try pkt s on large = rw (too_large l try.now (length pkt) s on large) refl

flush_round_held :
    (l : Limits) (tries : ℕ → Try) (k : ℕ) (pkt : List ℕ) (rest : List (List ℕ)) (s : Direction)
    → (try_egress_one l (tries k) pkt s).1 ≡ rate_limited
    → flush_rounds l tries k (pkt ∷ rest) s ≡ record (try_egress_one l (tries k) pkt s).0 {
      queue = pkt ∷ rest;
      queue_len = length (pkt ∷ rest);
    }
unfolding flush_rounds
flush_round_held l tries k pkt rest s e = ground (arith, e)

-- A queue whose oldest datagram has more bits than the rate lets through in one window is never
-- flushed: it stays as it is, whatever the clock, the dice and the socket do.
pub flush_ingress_queue_held :
    (l : Limits) (tries : ℕ → Try) (pkt : List ℕ) (rest : List (List ℕ)) (s : Direction)
    → 1 ≤ l.max_kbps
    → 1 ≤ l.queue_depth
    → l.max_kbps * l.drop_dt_ms < 8 * length pkt
    → s.queue ≡ pkt ∷ rest
    → let t = flush_ingress_queue l tries s in
      (t.queue ≡ pkt ∷ rest) × (t.sent ≡ s.sent) × (t.pkts_out ≡ s.pkts_out)
unfolding flush_ingress_queue
flush_ingress_queue_held l tries pkt rest s on room large e =
    let r = try_egress_one l (tries 0) pkt s in
    let limited = try_too_large l (tries 0) pkt s on large in
    let same : ledger r.0 ≡ ledger s =
      subst (λ st. ledger r.0 ≡ posted st pkt (ledger s)) limited
        (try_egress_one-Posted l (tries 0) pkt s) in
    let held : flush_ingress_queue l tries s
        ≡ record r.0 { queue = pkt ∷ rest; queue_len = length (pkt ∷ rest) } =
      rw (ne_zero l.queue_depth room)
        (ap (λ q. flush_rounds l tries 0 q s) e ∙ flush_round_held l tries 0 pkt rest s limited) in
    (
      ap (λ (t : Direction). t.queue) held,
      ap (λ (t : Direction). t.sent) held ∙ ap (λ (b : Ledger). b.sent) same,
      ap (λ (t : Direction). t.pkts_out) held ∙ ap (λ (b : Ledger). b.pkts_out) same,
    )
