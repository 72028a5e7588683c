-- ===== src/Queues/Examples.antt =====
-- Tests of the queues.
use vstreamer.Base.{ℕ, List, some, true, negsuc, [], false, ◌∷◌, pos, ◌≡◌, refl, arith, none}
use vstreamer.Queues.{
  push, push_wait, pop, push_back, pop_front, take_front, has_room, wait_until, bump,
}
use vstreamer.Queues.Journal.{
  Call, pushes, push_waits, pops, popped, pushed, waiting, answers, responses, answers-responses,
}
use vstreamer.Queues.Threads.{
  System, Reach, here, next, producer, start, IsAccounted, Reach-IsAccounted,
}
use vstreamer.Queues.Stopped.{pops_after, all_popped, answers-pops_after}

-- A queue of one packet: the second push drops the first.
abbrev calls : List (Call ℕ)
calls =
    pushes true 7
    ∷ pushes true 8
    ∷ push_waits true (pos 0) false 9
    ∷ pops true (negsuc 0) false
    ∷ pops true (negsuc 0) false
    ∷ []

test_calls :
    answers calls (some 0, record { capacity = 1; items = [] })
    ≡ pushed true ∷ pushed true ∷ pushed false ∷ popped (some 8) ∷ waiting ∷ []
unfolding answers push push_wait pop push_back pop_front take_front has_room wait_until bump
test_calls = refl

answers-responses_example :
    answers calls (some 0, record { capacity = 1; items = [] })
    ≡ responses 1 calls (some 0, record { all = []; gone = 0 })
answers-responses_example = answers-responses 1 (some 0) calls (omega arith)

abbrev after_push : System ℕ
after_push = record {
  run = true;
  queue = record { capacity = 1; items = 8 ∷ [] };
  drops = 1;
  accepted = 7 ∷ 8 ∷ [];
  popped = [];
}

after_push_from_start : Reach (start 1) after_push
unfolding push push_back pop_front bump
after_push_from_start =
    next (next here (producer 7 true 0 (record { capacity = 1; items = 7 ∷ [] }) refl refl))
      (producer 8 true 1 (record { capacity = 1; items = 8 ∷ [] }) refl refl)

Reach-IsAccounted_example : IsAccounted 1 after_push
Reach-IsAccounted_example = Reach-IsAccounted 1 after_push after_push_from_start

answers-pops_after_example :
    answers {A = ℕ}
      (pops_after ((negsuc 0, false) ∷ (pos 5, false) ∷ []))
      (none, record { capacity = 1; items = 8 ∷ [] })
    ≡ all_popped (8 ∷ [])
answers-pops_after_example =
    answers-pops_after 1 none (8 ∷ []) ((negsuc 0, false) ∷ (pos 5, false) ∷ []) refl
