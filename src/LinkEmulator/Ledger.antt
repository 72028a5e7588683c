-- ===== src/LinkEmulator/Ledger.antt =====
-- What the emulator has counted, and what a try to send changes of it.
use vstreamer.Base.{
  ℕ, List, Bool, ◌≡◌, not, length, ◌++◌, if◌then◌else◌, ◌==◌, ltb, leb, ap, ◌∙◌, ◌∷◌, ◌||◌, true,
  [], ◌*◌, refl, false, ◌-◌, ◌+◌,
}
use vstreamer.LinkEmulator.{
  Limits, Direction, Try, EgressStatus, egress_ok, rate_limited, loss_dropped, no_route,
  send_failed, plus64, renew_window, should_drop_rate, should_drop_loss, send, try_egress_one,
}

-- The counters of datagrams, and what has been sent.
pub record Ledger : Type 0 where
  pub pkts_in : ℕ
  pub pkts_out : ℕ
  pub dropped_rate : ℕ
  pub dropped_loss : ℕ
  pub dropped_queue : ℕ
  pub sent : List (List ℕ)

abbrev pub ledger : Direction → Ledger
ledger s = record {
  pkts_in = s.pkts_in;
  pkts_out = s.pkts_out;
  dropped_rate = s.dropped_rate;
  dropped_loss = s.dropped_loss;
  dropped_queue = s.dropped_queue;
  sent = s.sent;
}

-- Only a datagram that sendto takes changes it.
abbrev pub posted : EgressStatus → List ℕ → Ledger → Ledger
posted egress_ok pkt b = record b { pkts_out = plus64 b.pkts_out 1; sent = b.sent ++ pkt ∷ [] }
posted rate_limited pkt b = b
posted loss_dropped pkt b = b
posted no_route pkt b = b
posted send_failed pkt b = b

ledger_if :
    (b : Bool) (x y : Direction) (c : Ledger)
    → ledger x ≡ c
    → ledger y ≡ c
    → ledger (if b then x else y) ≡ c
ledger_if true x y c hx hy = hx
ledger_if false x y c hx hy = hy

ledger_pair :
    (b : Bool) (x y : Direction × Bool) (c : Ledger)
    → ledger x.0 ≡ c
    → ledger y.0 ≡ c
    → ledger (if b then x else y).0 ≡ c
ledger_pair true x y c hx hy = hx
ledger_pair false x y c hx hy = hy

ledger-renew_window :
    (l : Limits) (now : ℕ) (s : Direction) → ledger (renew_window l now s) ≡ ledger s
unfolding renew_window
ledger-renew_window l now s =
    ledger_if (s.window_start == 0 || leb (l.drop_dt_ms * 1000000) (now - s.window_start)) _ s
      (ledger s) refl refl

ledger-should_drop_rate :
    (l : Limits) (now n : ℕ) (s : Direction) → ledger (should_drop_rate l now n s).0 ≡ ledger s
unfolding should_drop_rate
ledger-should_drop_rate l now n s =
    let w = renew_window l now s in
    let e = ledger-renew_window l now s in
    ledger_pair (l.max_kbps == 0) _ _ (ledger s) refl (
      ledger_pair (ltb (l.max_kbps * l.drop_dt_ms) (8 * (w.window_bytes + n))) (w, true) _
        (ledger s) e e)

ledger-should_drop_loss : (l : Limits) (s : Direction) → ledger (should_drop_loss l s).0 ≡ ledger s
unfolding should_drop_loss
ledger-should_drop_loss l s =
    ledger_pair (l.loss == 0) _ _ (ledger s) refl
      (ledger_pair (leb 10000 l.loss) _ _ (ledger s) refl refl)

-- A result whose ledger is the old one with what its status says.
abbrev pub Posted : List ℕ → Ledger → Direction × EgressStatus → Type 0
Posted pkt b r = ledger r.0 ≡ posted r.1 pkt b

Posted-if :
    (b : Bool) (pkt : List ℕ) (c : Ledger) (x y : Direction × EgressStatus)
    → Posted pkt c x
    → Posted pkt c y
    → Posted pkt c (if b then x else y)
Posted-if true pkt c x y hx hy = hx
Posted-if false pkt c x y hx hy = hy

send-Posted :
    (try : Try) (pkt : List ℕ) (s : Direction) (c : Ledger)
    → ledger s ≡ c
    → Posted pkt c (send try pkt s)
unfolding send
send-Posted try pkt s c e =
    Posted-if (not s.has_route) pkt c _ _ e
      (Posted-if try.taken pkt c _ _ (ap (posted egress_ok pkt) e) e)

pub try_egress_one-Posted :
    (l : Limits) (try : Try) (pkt : List ℕ) (s : Direction)
    → Posted pkt (ledger s) (try_egress_one l try pkt s)
unfolding try_egress_one
try_egress_one-Posted l try pkt s =
    let rate = should_drop_rate l try.now (length pkt) s in
    let loss = should_drop_loss l rate.0 in
    let er = ledger-should_drop_rate l try.now (length pkt) s in
    let el = ledger-should_drop_loss l rate.0 ∙ er in
    Posted-if rate.1 pkt (ledger s) _ _ er
      (Posted-if loss.1 pkt (ledger s) _ _ el (send-Posted try pkt loss.0 (ledger s) el))
