-- ===== src/Queues.antt =====
-- src/apps/common/queues.hpp: the bounded queues between the threads of the programs.
pub mod Journal
pub mod Stopped
pub mod Examples
pub mod Timeout
pub mod Threads
use Prim.Native.Nat.{min}
use vstreamer.Base.{
  ℕ, List, ℤ, Option, Bool, ◌++◌, Outcome, length, negsuc, some, true, ltb, ◌∷◌, if◌then◌else◌, not,
  ◌>>=◌, pos, ◌+◌, false, [], ok, ◌||◌, suc, ◌%◌, fault, leb, none, ◌^◌, zero, positive_part, ◌==◌,
}

-- What a call comes to under the mutex: it returns, or it waits on the condition variable, having
-- changed nothing.
pub data Wait (A : Type 0) : Type 0 where
  returns : A → Wait A
  waits : Wait A

-- `capacity` and `q`, the front of the queue first. The run flag is shared, so it is an argument.
pub record Queue (A : Type 0) : Type 0 where
  pub capacity : ℕ
  pub items : List A

-- The wait with a timeout in milliseconds: `go` when the predicate holds, `give_up` when the call
-- finds it false at once or at the end of the time.
pub data Waited : Type 0 where
  go give_up keep_waiting : Waited

-- `timeout_ms` below, above and at 0; `expired` says that the time given is over.
unfoldable pub wait_until : ℤ → Bool → Bool → Waited
wait_until (negsuc n) expired ready = if ready then go else keep_waiting
wait_until (pos zero) expired ready = if ready then go else give_up
wait_until (pos (suc n)) expired ready =
    if ready then go else if expired then give_up else keep_waiting

abbrev pub is_positive : ℤ → Bool
is_positive t = ltb 0 (positive_part t)

-- `drops->fetch_add(1)` where the pointer is not null.
unfoldable pub bump : Option ℕ → Option ℕ
bump none = none
bump (some d) = some ((d + 1) % 2 ^ 64)

abbrev pub is_empty {ℓ} : {A : Type ℓ} → List A → Bool
is_empty [] = true
is_empty (x ∷ xs) = false

module _ {A : Type 0} where
  -- `q.size() < capacity`.
  unfoldable pub has_room : Queue A → Bool
  has_room s = ltb (length s.items) s.capacity

  unfoldable pub push_back : A → Queue A → Queue A
  push_back pkt s = record s { items = s.items ++ (pkt ∷ []) }

  -- `q.pop_front()`, which an empty deque does not allow.
  unfoldable pub pop_front : Queue A → Outcome (Queue A)
  pop_front s = elim s.items [ [] ↦ fault | x ∷ rest ↦ ok (record s { items = rest }) ]

  -- pipeline_queue::push: the result, the counter of drops and the queue.
  unfoldable pub push : Bool → A → Option ℕ → Queue A → Outcome (Bool × Option ℕ × Queue A)
  unfolding push_back pop_front bump
  push run pkt drops s =
      if not run
      then ok (false, drops, s)
      else if leb s.capacity (length s.items)
      then (pop_front s >>= (λ s'. ok (true, bump drops, push_back pkt s')))
      else ok (true, drops, push_back pkt s)

  -- pipeline_queue::push_wait.
  unfoldable pub push_wait : Bool → ℤ → Bool → A → Queue A → Wait (Bool × Queue A)
  unfolding push_back has_room wait_until
  push_wait run timeout_ms expired pkt s =
      elim (wait_until timeout_ms expired (not run || has_room s)) [
        | go ↦ if not run then returns (false, s) else returns (true, push_back pkt s)
        | give_up ↦ returns (false, s)
        | keep_waiting ↦ waits
      ]

  -- `out = std::move(q.front()); q.pop_front()` behind the check of `q.empty()`.
  unfoldable pub take_front : Queue A → Option A × Queue A
  take_front s = elim s.items [ [] ↦ (none, s) | x ∷ rest ↦ (some x, record s { items = rest }) ]

  -- pipeline_queue::pop: `none` where it returns false. After `wait_for` it goes on whether the
  -- predicate holds or not.
  unfoldable pub pop : Bool → ℤ → Bool → Queue A → Wait (Option A × Queue A)
  unfolding take_front wait_until
  pop run timeout_ms expired s =
      elim (wait_until timeout_ms expired (not run || not (is_empty s.items))) [
        | go ↦ returns (take_front s)
        | give_up ↦ if is_positive timeout_ms then returns (take_front s) else returns (none, s)
        | keep_waiting ↦ waits
      ]

  unfoldable pub size : Queue A → ℕ
  size s = length s.items

  -- present_frame_queue, with the same state and the same two methods.
  unfoldable pub present_push : Bool → A → Option ℕ → Queue A → Outcome (Bool × Option ℕ × Queue A)
  unfolding push
  present_push run pkt drops s = push run pkt drops s

  unfoldable pub present_pop : Bool → ℤ → Bool → Queue A → Wait (Option A × Queue A)
  unfolding pop
  present_pop run timeout_ms expired s = pop run timeout_ms expired s

  -- rx_au_queue, whose push returns nothing.
  unfoldable pub au_push : Bool → A → Option ℕ → Queue A → Outcome (Option ℕ × Queue A)
  unfolding push
  au_push run pkt drops s = push run pkt drops s >>= (λ r. ok (r.1, r.2))

  unfoldable pub au_pop : Bool → ℤ → Bool → Queue A → Wait (Option A × Queue A)
  unfolding pop
  au_pop run timeout_ms expired s = pop run timeout_ms expired s

-- queue_depth_from_env. The environment and `std::strtoul` in base 10 are not read: `getenv` gives
-- the variable's bytes, and `strtoul` a number, or `none` where it takes no byte.
module _ (getenv : List ℕ → Option (List ℕ)) (strtoul : List ℕ → Option ℕ) where
  abbrev depth_of : ℕ → ℕ → Option ℕ → ℕ
  depth_of default_val max_val none = default_val
  depth_of default_val max_val (some n) = if n == 0 then default_val else min n max_val

  abbrev depth_from : ℕ → ℕ → Option (List ℕ) → ℕ
  depth_from default_val max_val none = default_val
  depth_from default_val max_val (some v) =
      if is_empty v then default_val else depth_of default_val max_val (strtoul v)

  unfoldable pub queue_depth_from_env : List ℕ → ℕ → ℕ → ℕ
  queue_depth_from_env name default_val max_val = depth_from default_val max_val (getenv name)
