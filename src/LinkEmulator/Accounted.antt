-- ===== src/LinkEmulator/Accounted.antt =====
-- Every datagram that comes in is sent, counted as dropped or still queued, and the order is kept.
use vstreamer.Base.{
  ℕ, List, ◌≡◌, length, ◌≤◌, ◌∷◌, suc, ◌++◌, [], subst, arith, ◌%◌, ◌∙◌, sym, ◌^◌, append_assoc,
  ◌+◌, length-append, refl, ap, append-nil, dec_le, le→leb, lt→not_leb, ◌==◌, false,
}
use vstreamer.Queues.Threads.{Thinned, Thinned-kept, Thinned-left_out, move_along}
use vstreamer.LinkEmulator.{
  Limits, Direction, Try, EgressStatus, egress_ok, rate_limited, loss_dropped, no_route,
  send_failed, plus64, try_egress_one, make_room, enqueue, accept_ingress, flush_rounds,
  flush_ingress_queue,
}
use vstreamer.LinkEmulator.Ledger.{Ledger, ledger, posted, try_egress_one-Posted}

-- `arrived` has come in; what has left the queue was sent but for `lost` datagrams, which the
-- counters of the loss and of the queue share.
pub data Accounted (arrived waiting : List (List ℕ)) (b : Ledger) : Type 0 where
  account :
      (gone : List (List ℕ)) (lost : ℕ)
      → arrived ≡ gone ++ waiting
      → Thinned lost b.sent gone
      → b.pkts_in ≡ length arrived % 2 ^ 64
      → b.pkts_out ≡ length b.sent % 2 ^ 64
      → (b.dropped_loss + b.dropped_queue) % 2 ^ 64 ≡ lost % 2 ^ 64
      → b.dropped_rate ≡ 0
      → Accounted arrived waiting b

-- The oldest datagram is sent, or counted as lost.
Accounted-sent :
    (arrived rest : List (List ℕ)) (pkt : List ℕ) (b : Ledger)
    → Accounted arrived (pkt ∷ rest) b
    → Accounted arrived rest (posted egress_ok pkt b)
Accounted-sent arrived rest pkt b (account gone lost e th i o d r) =
    account (gone ++ pkt ∷ []) lost (e ∙ sym (append_assoc gone (pkt ∷ []) rest))
      (Thinned-kept pkt th) i (omega (arith, o, length-append b.sent (pkt ∷ []))) d r

Accounted-lost :
    (arrived rest : List (List ℕ)) (pkt : List ℕ) (b : Ledger)
    → Accounted arrived (pkt ∷ rest) b
    → Accounted arrived rest (record b { dropped_loss = plus64 b.dropped_loss 1 })
Accounted-lost arrived rest pkt b (account gone lost e th i o d r) =
    account (gone ++ pkt ∷ []) (suc lost) (e ∙ sym (append_assoc gone (pkt ∷ []) rest))
      (Thinned-left_out pkt th) i o (omega (arith, d)) r

-- The state of a direction: its queue is what waits, and its length is published.
pub record IsAccounted (depth : ℕ) (arrived : List (List ℕ)) (s : Direction) : Type 0 where
  pub accounted : Accounted arrived s.queue (ledger s)
  pub at_most : length s.queue ≤ depth
  pub published : s.queue_len ≡ length s.queue

-- A round of the flush, by the status of the try.
module _ (l : Limits) (tries : ℕ → Try) (depth : ℕ) (arrived : List (List ℕ)) where
  flush_round :
      (k : ℕ) (pkt : List ℕ) (rest : List (List ℕ)) (st : EgressStatus) (t : Direction) (b : Ledger)
      → ledger t ≡ posted st pkt b
      → Accounted arrived (pkt ∷ rest) b
      → length (pkt ∷ rest) ≤ depth
      → ((t' : Direction)
          → Accounted arrived rest (ledger t')
          → IsAccounted depth arrived (flush_rounds l tries (suc k) rest t'))
      → IsAccounted depth arrived (elim st as (λ _. Direction) [
        | egress_ok ↦ flush_rounds l tries (suc k) rest t
        | loss_dropped ↦
            flush_rounds l tries (suc k) rest (record t { dropped_loss = plus64 t.dropped_loss 1 })
        | rate_limited ↦ record t { queue = pkt ∷ rest; queue_len = length (pkt ∷ rest) }
        | no_route ↦ record t { queue = pkt ∷ rest; queue_len = length (pkt ∷ rest) }
        | send_failed ↦ record t { queue = pkt ∷ rest; queue_len = length (pkt ∷ rest) }
      ])
  flush_round k pkt rest egress_ok t b e a h next =
      next t (subst (Accounted arrived rest) (sym e) (Accounted-sent arrived rest pkt b a))
  flush_round k pkt rest loss_dropped t b e a h next =
      next (record t { dropped_loss = plus64 t.dropped_loss 1 })
        (Accounted-lost arrived rest pkt (ledger t)
          (subst (Accounted arrived (pkt ∷ rest)) (sym e) a))
  flush_round k pkt rest rate_limited t b e a h next = record {
    accounted = subst (Accounted arrived (pkt ∷ rest)) (sym e) a;
    at_most = h;
    published = refl;
  }
  flush_round k pkt rest no_route t b e a h next = record {
    accounted = subst (Accounted arrived (pkt ∷ rest)) (sym e) a;
    at_most = h;
    published = refl;
  }
  flush_round k pkt rest send_failed t b e a h next = record {
    accounted = subst (Accounted arrived (pkt ∷ rest)) (sym e) a;
    at_most = h;
    published = refl;
  }

  flush_rounds-IsAccounted :
      (k : ℕ) (rest : List (List ℕ)) (s : Direction)
      → Accounted arrived rest (ledger s)
      → length rest ≤ depth
      → IsAccounted depth arrived (flush_rounds l tries k rest s)
  unfolding flush_rounds
  flush_rounds-IsAccounted k [] s a h = record { accounted = a; at_most = h; published = refl }
  flush_rounds-IsAccounted k (pkt ∷ rest) s a h =
      let r = try_egress_one l (tries k) pkt s in
      flush_round k pkt rest r.1 r.0 (ledger s) (try_egress_one-Posted l (tries k) pkt s) a h
        (λ t' a'. flush_rounds-IsAccounted (suc k) rest t' a' (omega arith))

-- What arrives goes to the back of the queue, from whose front the oldest falls if it is full.
Accounted-make_room :
    (depth : ℕ) (arrived queue : List (List ℕ)) (pkt : List ℕ) (b : Ledger)
    → 1 ≤ depth
    → length queue ≤ depth
    → Accounted arrived queue b
    → let r = make_room depth queue b.dropped_queue in
      Accounted
        (arrived ++ pkt ∷ [])
        (r.0 ++ pkt ∷ [])
        (record b { pkts_in = plus64 b.pkts_in 1; dropped_queue = r.1 })
      × (length r.0 + 1 ≤ depth)
unfolding make_room
Accounted-make_room depth arrived [] pkt b room h (account gone lost e th i o d r) = (
  account gone lost (ap (λ l. l ++ pkt ∷ []) e ∙ append_assoc gone [] (pkt ∷ [])) th
      (omega (arith, i, length-append arrived (pkt ∷ []))) o d r,
  omega arith,
)
Accounted-make_room depth arrived (x ∷ rest) pkt b room h (account gone lost e th i o d r) =
    let more = length-append arrived (pkt ∷ []) in
    elim (dec_le depth (length (x ∷ rest))) [
      | yes full ↦ rw (le→leb depth (length (x ∷ rest)) full) (
        account (gone ++ x ∷ []) (suc lost) (ap (λ l. l ++ pkt ∷ []) e ∙ move_along gone rest x pkt)
            (Thinned-left_out x th) (omega (arith, i, more)) o (omega (arith, d)) r,
        omega arith,
      )
      | no free ↦ rw (lt→not_leb depth (length (x ∷ rest)) (omega (arith, free))) (
        account gone lost (ap (λ l. l ++ pkt ∷ []) e ∙ append_assoc gone (x ∷ rest) (pkt ∷ [])) th
            (omega (arith, i, more)) o d r,
        omega (arith, free),
      )
    ]

enqueue-IsAccounted :
    (depth n : ℕ) (arrived : List (List ℕ)) (pkt : List ℕ) (s : Direction)
    → 1 ≤ depth
    → IsAccounted depth arrived s
    → IsAccounted depth
        (arrived ++ pkt ∷ [])
        (enqueue depth pkt (record s { pkts_in = plus64 s.pkts_in 1; bytes_in = n }))
unfolding enqueue
enqueue-IsAccounted depth n arrived pkt s room a =
    let (counted, fits) =
      Accounted-make_room depth arrived s.queue pkt (ledger s) room a.at_most a.accounted in
    let r = make_room depth s.queue s.dropped_queue in
    let more = length-append r.0 (pkt ∷ []) in
    record {
      accounted = counted;
      at_most = omega (arith, more, fits);
      published = omega (arith, more);
    }

-- What the relay's thread does to a direction.
pub data Event : Type 0 where
  arrives : List ℕ → Try → Event
  flushes : (ℕ → Try) → Event

unfoldable pub relay : Limits → List Event → Direction → Direction
relay l [] s = s
relay l (arrives pkt try ∷ es) s = relay l es (accept_ingress l try pkt s)
relay l (flushes tries ∷ es) s = relay l es (flush_ingress_queue l tries s)

unfoldable pub arrivals : List Event → List (List ℕ)
arrivals [] = []
arrivals (arrives pkt try ∷ es) = pkt ∷ arrivals es
arrivals (flushes tries ∷ es) = arrivals es

pub ne_zero : (n : ℕ) → 1 ≤ n → (n == 0) ≡ false
ne_zero n h = ground arith

accept_ingress-IsAccounted :
    (l : Limits) (try : Try) (arrived : List (List ℕ)) (pkt : List ℕ) (s : Direction)
    → 1 ≤ l.queue_depth
    → IsAccounted l.queue_depth arrived s
    → IsAccounted l.queue_depth (arrived ++ pkt ∷ []) (accept_ingress l try pkt s)
unfolding accept_ingress
accept_ingress-IsAccounted l try arrived pkt s room a =
    rw (ne_zero l.queue_depth room)
      (enqueue-IsAccounted l.queue_depth (plus64 s.bytes_in (length pkt)) arrived pkt s room a)

flush-IsAccounted :
    (l : Limits) (tries : ℕ → Try) (arrived : List (List ℕ)) (s : Direction)
    → 1 ≤ l.queue_depth
    → IsAccounted l.queue_depth arrived s
    → IsAccounted l.queue_depth arrived (flush_ingress_queue l tries s)
unfolding flush_ingress_queue
flush-IsAccounted l tries arrived s room a =
    rw (ne_zero l.queue_depth room)
      (flush_rounds-IsAccounted l tries l.queue_depth arrived 0 s.queue s a.accounted a.at_most)

-- With a queue of one datagram at least, over any run of arrivals and flushes and whatever the clock,
-- the dice and the socket do: a datagram that came in was sent, was counted as dropped for loss or
-- for a full queue, or waits; none is sent twice or out of order; and the queue keeps its depth. The
-- counters wrap at 2 ^ 64.
pub relay-IsAccounted :
    (l : Limits) (es : List Event) (arrived : List (List ℕ)) (s : Direction)
    → 1 ≤ l.queue_depth
    → IsAccounted l.queue_depth arrived s
    → IsAccounted l.queue_depth (arrived ++ arrivals es) (relay l es s)
unfolding relay arrivals
relay-IsAccounted l [] arrived s room a =
    subst (λ x. IsAccounted l.queue_depth x s) (sym (append-nil arrived)) a
relay-IsAccounted l (arrives pkt try ∷ es) arrived s room a =
    subst (λ x. IsAccounted l.queue_depth x (relay l es (accept_ingress l try pkt s)))
      (append_assoc arrived (pkt ∷ []) (arrivals es))
      (relay-IsAccounted l es (arrived ++ pkt ∷ []) (accept_ingress l try pkt s) room
        (accept_ingress-IsAccounted l try arrived pkt s room a))
relay-IsAccounted l (flushes tries ∷ es) arrived s room a =
    relay-IsAccounted l es arrived (flush_ingress_queue l tries s) room
      (flush-IsAccounted l tries arrived s room a)
