-- ===== src/Limiter/Steps.antt =====
-- The event loop's interleavings of the coroutines that share one slot queue.
use arodonata.Common.{ℕ, Bool, List, ◌∷◌, ◌++◌, ◌≡◌}
use arodonata.Limiter.{SlotQueue, enter, release_slot, cancel, abandon}

pub data Step : SlotQueue → SlotQueue → Type 0 where
  -- A coroutine asks for a slot.
  enters : (over : Bool) (future : ℕ) (q : SlotQueue) → Step q (enter over future q).1
  -- A coroutine reads the result of its future, and goes on into its body.
  resumes :
      (future slot : ℕ) (before after : List (ℕ × ℕ)) (q : SlotQueue)
      → q.handed ≡ before ++ (future, slot) ∷ after
      → Step q (record q { handed = before ++ after; held = slot ∷ q.held })
  -- A coroutine leaves the body of `slot`, in whatever way.
  leaves :
      (slot : ℕ) (before after : List ℕ) (q : SlotQueue)
      → q.held ≡ before ++ slot ∷ after
      → Step q (release_slot slot (record q { held = before ++ after }))
  -- A future without a result is cancelled: its wait timed out, or its task was cancelled.
  cancels : (future : ℕ) (q : SlotQueue) → Step q (record q { waiters = cancel future q.waiters })
  -- The coroutine of a wait that ended so runs its `except` branch.
  abandons : (future : ℕ) (q : SlotQueue) → Step q (abandon future q)

pub data Reach (q : SlotQueue) : SlotQueue → Type 0 where
  here : Reach q q
  next : {r s : SlotQueue} → Reach q r → Step r s → Reach q s
