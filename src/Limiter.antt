-- ===== src/Limiter.antt =====
-- adapters/checkpoint/rate_limiter.py, the slot queue of `RateLimiter` for one management server.
-- A future is named by a number. A waiter that stands in the deque has a future without a result,
-- since `_release_local_fifo_slot` takes the waiter out before it sets the result: so `done()` of a
-- waiter in the deque says that its future was cancelled. `handed` holds the futures that have a
-- result which their coroutine has not read yet, and `held` the slots of the coroutines in the body
-- of `slot`: these two belong to the event loop.
pub mod Steps
mod Places
pub mod Sound
pub mod Fifo
pub mod Gate
pub mod Examples
use arodonata.Common.{
  ℕ, zero, suc, ◌+◌, min, max, Bool, true, false, Option, none, some, List, [], ◌∷◌, ◌++◌, map,
  ◌==◌, if◌then◌else◌,
}

pub record Waiter : Type 0 where
  pub future : ℕ
  pub done : Bool

pub record SlotQueue : Type 0 where
  pub limit : ℕ
  pub available_slots : List ℕ
  pub waiters : List Waiter
  pub handed : List (ℕ × ℕ)
  pub held : List ℕ

-- `max(1, min(int(concurrent_limit), 20))`.
pub concurrent_limit : ℕ → ℕ
concurrent_limit requested = max 1 (min requested 20)

pub range_from : ℕ → ℕ → List ℕ
range_from start zero = []
range_from start (suc n) = start ∷ range_from (suc start) n

-- `_MdsSlotQueue(limit)`.
pub new_queue : ℕ → SlotQueue
unfolding range_from
new_queue limit = record {
  limit = limit;
  available_slots = range_from 0 limit;
  waiters = [];
  handed = [];
  held = [];
}

-- The loop of `_release_local_fifo_slot`, over the waiters that are left.
pub hand_over : List Waiter → ℕ → SlotQueue → SlotQueue
hand_over [] slot q = record q { waiters = []; available_slots = q.available_slots ++ slot ∷ [] }
hand_over (w ∷ ws) slot q =
    let rest = hand_over ws slot q in
    if w.done then rest else record q { waiters = ws; handed = q.handed ++ (w.future, slot) ∷ [] }

pub release_slot : ℕ → SlotQueue → SlotQueue
release_slot slot q = hand_over q.waiters slot q

-- What a coroutine that enters `_acquire_local_fifo_slot` meets: a slot, the error of a deadline
-- that is over, or the wait on its future.
pub data Entry : Type 0 where
  got : ℕ → Entry
  timed_out : Entry
  waits : Entry

-- With the deadline over, the new future is taken out of the deque again, and has no result.
wait_in_line : Bool → ℕ → SlotQueue → Entry × SlotQueue
wait_in_line over future q =
    if over
    then (timed_out, q)
    else (waits, record q { waiters = q.waiters ++ record { future = future; done = false } ∷ [] })

-- `_acquire_local_fifo_slot` up to its `await`; `over` says that `remaining <= 0`.
pub enter : Bool → ℕ → SlotQueue → Entry × SlotQueue
unfolding wait_in_line
enter over future q = elim q.available_slots [
  | [] ↦ wait_in_line over future q
  | slot ∷ rest ↦ elim q.waiters [
    | [] ↦ (got slot, record q { available_slots = rest; held = slot ∷ q.held })
    | _ ↦ wait_in_line over future q
  ]
]

-- `wait_for` or the task's cancellation cancels a future that has no result.
pub cancel : ℕ → List Waiter → List Waiter
cancel future [] = []
cancel future (w ∷ ws) =
    (if w.future == future then record w { done = true } else w) ∷ cancel future ws

-- `if fut in q.waiters: q.waiters.remove(fut)`.
pub remove_waiter : ℕ → List Waiter → Option (List Waiter)
remove_waiter future [] = none
remove_waiter future (w ∷ ws) =
    let rest = remove_waiter future ws in
    if w.future == future then some ws else elim rest [ none ↦ none | some ws' ↦ some (w ∷ ws') ]

pub take_handed : ℕ → List (ℕ × ℕ) → Option (ℕ × List (ℕ × ℕ))
take_handed future [] = none
take_handed future ((f, slot) ∷ hs) =
    let rest = take_handed future hs in
    if f == future
    then some (slot, hs)
    else elim rest [ none ↦ none | some (slot', hs') ↦ some (slot', (f, slot) ∷ hs') ]

-- The two `except` branches: a waiter leaves the deque, or passes the slot on that it was handed.
pub abandon : ℕ → SlotQueue → SlotQueue
abandon future q = elim (remove_waiter future q.waiters) [
  | some ws ↦ record q { waiters = ws }
  | none ↦ elim (take_handed future q.handed) [
    | some (slot, rest) ↦ release_slot slot (record q { handed = rest })
    | none ↦ q
  ]
]
