-- ===== src/Limiter/Fifo.antt =====
-- Who gets a slot: the deque, less the waiters that gave up, is a first-in first-out queue.
use arodonata.Common.{
  ℕ, ◌≡◌, ◌≢◌, ◌⊎◌, inl, inr, refl, Bool, true, false, List, [], ◌∷◌, ◌++◌, arith, Bool-cases,
  if◌then◌else◌,
}
use arodonata.Limiter.{
  SlotQueue, Waiter, enter, release_slot, hand_over, wait_in_line, Entry, got, timed_out, waits,
}

-- The futures that still wait, oldest first.
abbrev pub line : List Waiter → List ℕ
line [] = []
line (w ∷ ws) = if w.done then line ws else w.future ∷ line ws

line-append : (xs ys : List Waiter) → line (xs ++ ys) ≡ line xs ++ line ys
line-append [] ys = refl
line-append (w ∷ ws) ys = ground (arith, line-append ws ys)

-- What `release_slot` does with the line: the slot is free if the line is empty, and else it goes to
-- the future at its head, which leaves the line.
abbrev pub Serves : ℕ → List ℕ → SlotQueue → SlotQueue → Type 0
Serves slot [] q r =
    (r.available_slots ≡ q.available_slots ++ slot ∷ [])
    × (r.handed ≡ q.handed)
    × (line r.waiters ≡ [])
Serves slot (future ∷ rest) q r =
    (r.available_slots ≡ q.available_slots)
    × (r.handed ≡ q.handed ++ (future, slot) ∷ [])
    × (line r.waiters ≡ rest)

hand_over-Serves :
    (ws : List Waiter) (slot : ℕ) (q : SlotQueue) → Serves slot (line ws) q (hand_over ws slot q)
unfolding hand_over
hand_over-Serves [] slot q = (refl, refl, refl)
hand_over-Serves (w ∷ ws) slot q = elim (Bool-cases w.done) [
  | inl gone ↦ rw (gone) (hand_over-Serves ws slot q)
  | inr live ↦ rw (live) (refl, refl, refl)
]

-- A released slot goes to the future that has waited longest, passing over every one that was
-- cancelled; it is put back only if no future waits. The bodies that run are not touched.
pub release_slot-Serves :
    (slot : ℕ) (q : SlotQueue)
    → Serves slot (line q.waiters) q (release_slot slot q) × ((release_slot slot q).held ≡ q.held)
unfolding release_slot hand_over
release_slot-Serves slot q = (hand_over-Serves q.waiters slot q, held_kept q.waiters)
  where
    held_kept : (ws : List Waiter) → (hand_over ws slot q).held ≡ q.held
    held_kept [] = refl
    held_kept (w ∷ ws) = ground (arith, held_kept ws)

-- What becomes of a coroutine that asks for a slot.
abbrev pub Entered : Bool → ℕ → SlotQueue → Entry × SlotQueue → Type 0
Entered over future q (got slot, r) =
    (q.waiters ≡ [])
    × (q.available_slots ≡ slot ∷ r.available_slots)
    × (r.held ≡ slot ∷ q.held)
    × (r.waiters ≡ [])
Entered over future q (timed_out, r) = (over ≡ true) × (r ≡ q)
Entered over future q (waits, r) =
    (over ≡ false)
    × (line r.waiters ≡ line q.waiters ++ future ∷ [])
    × (r.available_slots ≡ q.available_slots)
    × (r.held ≡ q.held)

wait_in_line-Entered :
    (over : Bool) (future : ℕ) (q : SlotQueue) → Entered over future q (wait_in_line over future q)
unfolding wait_in_line
wait_in_line-Entered true future q = (refl, refl)
wait_in_line-Entered false future q =
    (refl, line-append q.waiters (record { future = future; done = false } ∷ []), refl, refl)

enter_in_line :
    (over : Bool) (future : ℕ) (q : SlotQueue)
    → (q.available_slots ≡ []) ⊎ (q.waiters ≢ [])
    → enter over future q ≡ wait_in_line over future q
unfolding enter
enter_in_line over future q h = ground arith

enter_gets :
    (over : Bool) (future slot : ℕ) (rest : List ℕ) (q : SlotQueue)
    → q.available_slots ≡ slot ∷ rest
    → q.waiters ≡ []
    → enter over future q ≡ (got slot, record q { available_slots = rest; held = slot ∷ q.held })
unfolding enter
enter_gets over future slot rest q e f = ground arith

-- A coroutine that asks for a slot never overtakes a waiter: it gets one at once only if nobody
-- stands in the deque, and takes the first free one; it fails at once only if its time is over, and
-- changes nothing then; otherwise it joins the end of the line.
pub enter-Entered :
    (over : Bool) (future : ℕ) (q : SlotQueue) → Entered over future q (enter over future q)
enter-Entered over future q = go q.available_slots q.waiters refl refl
  where
    go :
        (free : List ℕ) (ws : List Waiter)
        → q.available_slots ≡ free
        → q.waiters ≡ ws
        → Entered over future q (enter over future q)
    go [] ws e f = rw (enter_in_line over future q (inl e)) (wait_in_line-Entered over future q)
    go (slot ∷ rest) [] e f = rw (enter_gets over future slot rest q e f) (f, e, refl, f)
    go (slot ∷ rest) (w ∷ ws) e f =
        rw (enter_in_line over future q (inr (λ none_wait. ground arith)))
          (wait_in_line-Entered over future q)
