-- ===== src/Limiter/Examples.antt =====
-- Tests of the limiter, and its theorems at concrete histories.
use arodonata.Common.{◌≤◌, ◌≡◌, refl, true, false, List, [], ◌∷◌, arith, length}
use arodonata.Limiter.{
  SlotQueue, new_queue, enter, release_slot, cancel, concurrent_limit, range_from, hand_over,
  wait_in_line,
}
use arodonata.Limiter.Steps.{enters, cancels, Reach, here, next}
use arodonata.Limiter.Sound.{Reach-IsSound, IsSound, held-le-limit}
use arodonata.Limiter.Fifo.{Serves, Entered, release_slot-Serves, enter-Entered}
use arodonata.Limiter.Gate.{
  Gate, Event, logs_in, cools_down, logins, after, record_cooldown, logins-IsSpaced, IsSpaced,
  admit,
}

-- One slot: the first coroutine has it, and two wait, of which the first gave up.
abbrev contended : SlotQueue
contended = record {
  limit = 1;
  available_slots = [];
  waiters = record { future = 1; done = true } ∷ record { future = 2; done = false } ∷ [];
  handed = [];
  held = 0 ∷ [];
}

contended_reached : Reach (new_queue (concurrent_limit 1)) contended
unfolding new_queue concurrent_limit range_from enter wait_in_line cancel
contended_reached =
    next (next (next (next here (enters false 0 _)) (enters false 1 _)) (enters false 2 _))
      (cancels 1 _)

second_in_line : (release_slot 0 contended).handed ≡ (2, 0) ∷ []
unfolding release_slot hand_over
second_in_line = refl

Reach-IsSound_example : IsSound contended
Reach-IsSound_example = Reach-IsSound (concurrent_limit 1) contended_reached

held-le-limit_example : (length contended.held ≤ 1) × (length contended.held ≤ 20)
held-le-limit_example = held-le-limit 1 contended contended_reached

release_slot-Serves_example :
    Serves 0 (2 ∷ []) contended (release_slot 0 contended)
    × ((release_slot 0 contended).held ≡ 0 ∷ [])
release_slot-Serves_example = release_slot-Serves 0 contended

enter-Entered_example : Entered false 3 contended (enter false 3 contended)
enter-Entered_example = enter-Entered false 3 contended

abbrev morning : List Event
morning =
    logs_in 9000 (record { computed = 10; checked = 10; let_in = 10 })
    ∷ cools_down 20 500
    ∷ logs_in 9000 (record { computed = 30; checked = 30; let_in = 2010 })
    ∷ []

abbrev gate : Gate
gate = record { next_allowed_at = 0; min_login_interval = 2000 }

two_logins : logins morning gate ≡ 10 ∷ 2010 ∷ []
unfolding logins admit after record_cooldown
two_logins = refl

logins-IsSpaced_example : IsSpaced 2000 0 (logins morning gate)
unfolding admit after record_cooldown
logins-IsSpaced_example = logins-IsSpaced morning gate (omega arith) (omega arith)
