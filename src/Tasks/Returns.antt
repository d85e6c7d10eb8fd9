-- ===== src/Tasks/Returns.antt =====
-- The loop of `wait_for_tasks` ends by its timeout at the latest, and stays within its settings.
use arodonata.Common.{
  ℕ, zero, suc, ◌+◌, ◌-◌, ◌<◌, ◌≤◌, ◌≡◌, refl, min, String, Option, some, List, [], ◌∷◌, arith, ◌⊎◌,
  inl, inr, Bool-cases, leb,
}
use arodonata.Tasks.{
  Waiter, Round, Loop, Outcome, Turn, again, ends, turn, wait_loop, wait_for_tasks, wait_for_clean,
  budget_of, ApiCallResult, backoff, returned, clean_ids, judge, Judgement, Polled, answered,
  after_poll, after_judgement, count_error, unusable, running, finished, transport_error,
  identity_error,
}

-- Settings under which the loop sleeps: all delays are positive, and the backoff does not shrink
-- them.
pub record IsPatient (w : Waiter) : Type 0 where
  pub starts : 1 ≤ w.initial_delay
  pub stays : 1 ≤ w.max_delay
  pub grows : 10 ≤ w.backoff_tenths

-- What holds of the loop's variables at the head of the loop.
pub record IsInLoop (w : Waiter) (l : Loop) : Type 0 where
  pub sleeps : 1 ≤ l.delay
  pub tolerated : (l.consecutive_errors ≡ 0) ⊎ (l.consecutive_errors < w.max_consecutive_errors)

backoff_pos : (w : Waiter) (delay : ℕ) → IsPatient w → 1 ≤ delay → 1 ≤ backoff w delay
backoff_pos w delay p h = grind arith

-- What a poll leaves of the loop's variables, if the loop goes on.
abbrev Continues : Waiter → Loop → Turn → Type 0
Continues w l (ends outcome) = Unit {0}
Continues w l (again l') = IsInLoop w l' × (l'.clock ≡ l.clock)

count_error-Continues :
    (w : Waiter) (l : Loop) → IsPatient w → 1 ≤ l.delay → Continues w l (count_error w l)
unfolding count_error
count_error-Continues w l p h =
    elim (Bool-cases (leb w.max_consecutive_errors (l.consecutive_errors + 1))) [
      | inl over ↦ rw over tt
      | inr below ↦
          rw below
            (record { sleeps = backoff_pos w l.delay p h; tolerated = inr (ground arith) }, refl)
    ]

after_judgement-Continues :
    (w : Waiter) (l : Loop) (j : Judgement)
    → IsPatient w
    → 1 ≤ l.delay
    → Continues w l (after_judgement w l j)
unfolding after_judgement
after_judgement-Continues w l unusable p h = count_error-Continues w l p h
after_judgement-Continues w l running p h =
    (record { sleeps = backoff_pos w l.delay p h; tolerated = inl refl }, refl)
after_judgement-Continues w l (finished result) p h = tt

after_poll-Continues :
    (w : Waiter) (wanted : ℕ) (primary : String) (l : Loop) (polled : Polled)
    → IsPatient w
    → 1 ≤ l.delay
    → Continues w l (after_poll w wanted primary l polled)
unfolding after_poll
after_poll-Continues w wanted primary l (answered reply) p h =
    after_judgement-Continues w l (judge wanted primary reply) p h
after_poll-Continues w wanted primary l transport_error p h = count_error-Continues w l p h
after_poll-Continues w wanted primary l identity_error p h = tt

-- A turn that goes on took time, and none past the deadline.
abbrev Advances : Waiter → ℕ → Loop → Turn → Type 0
Advances w deadline l (ends outcome) = Unit {0}
Advances w deadline l (again l') = IsInLoop w l' × (l.clock < l'.clock) × (l'.clock < deadline)

Continues-Advances :
    (w : Waiter) (deadline : ℕ) (l m : Loop) (t : Turn)
    → l.clock < m.clock
    → m.clock < deadline
    → Continues w m t
    → Advances w deadline l t
Continues-Advances w deadline l m (ends outcome) h k c = tt
Continues-Advances w deadline l m (again l') h k c = (c.0, omega (arith, c.1), omega (arith, c.1))

turn-Advances :
    (w : Waiter) (wanted : ℕ) (primary : String) (deadline : ℕ) (l : Loop) (r : Round)
    → IsPatient w
    → IsInLoop w l
    → Advances w deadline l (turn w wanted primary deadline l r)
unfolding turn
turn-Advances w wanted primary deadline l r p v =
    let now = l.clock + r.lag in
    let woken = now + min l.delay (deadline - now) + r.oversleep in
    elim (Bool-cases (leb deadline now)) [
      | inl over ↦ rw over tt
      | inr early ↦ elim (Bool-cases (leb deadline woken)) [
        | inl over ↦ rw (early, over) tt
        | inr still ↦
            let m = record l { clock = woken; polls = l.polls + 1 } in
            rw (early, still)
              (Continues-Advances w deadline l m (after_poll w wanted primary m r.polled)
                (ground (arith, v.sleeps)) (ground arith)
                (after_poll-Continues w wanted primary m r.polled p v.sleeps))
      ]
    ]

wait_loop_returns :
    (fuel : ℕ) (w : Waiter) (wanted : ℕ) (primary : String) (deadline : ℕ) (rounds : ℕ → Round)
    (l : Loop)
    → IsPatient w
    → IsInLoop w l
    → deadline - l.clock < fuel
    → (outcome : Outcome) × (wait_loop fuel w wanted primary deadline rounds l ≡ some outcome)
unfolding wait_loop
wait_loop_returns zero w wanted primary deadline rounds l p v enough = absurd (omega arith)
wait_loop_returns (suc fuel) w wanted primary deadline rounds l p v enough =
    go (turn w wanted primary deadline l (rounds 0)) refl
      (turn-Advances w wanted primary deadline l (rounds 0) p v)
      (λ l' v' h. wait_loop_returns fuel w wanted primary deadline (λ i. rounds (suc i)) l' p v' h)
  where
    go :
        (t : Turn)
        → turn w wanted primary deadline l (rounds 0) ≡ t
        → Advances w deadline l t
        → ((l' : Loop)
            → IsInLoop w l'
            → deadline - l'.clock < fuel
            → (outcome : Outcome) × (wait_loop fuel w wanted primary deadline
                  (λ i. rounds (suc i))
                  l'
                ≡ some outcome))
        → (outcome : Outcome) × (wait_loop (suc fuel) w wanted primary deadline rounds l
            ≡ some outcome)
    go (ends outcome) e a rest = (outcome, rw (e, wait_loop) refl)
    go (again l') e a rest =
        let (outcome, f) = rest l' a.0 (omega (arith, a.1, a.2)) in (outcome, rw (e, wait_loop) f)

-- `wait_for_tasks` returns or raises, whatever the server and the network do: with positive delays
-- that do not shrink, its loop makes at most as many rounds as its timeout has milliseconds, and one.
pub wait_for_tasks_returns :
    (fuel : ℕ) (w : Waiter) (ids : List String) (timeout : Option ℕ) (initial : ApiCallResult)
    (start : ℕ) (rounds : ℕ → Round)
    → IsPatient w
    → budget_of w timeout < fuel
    → (outcome : Outcome) × (wait_for_tasks fuel w ids timeout initial start rounds ≡ some outcome)
unfolding wait_for_tasks
wait_for_tasks_returns fuel w ids timeout initial start rounds p enough = go (clean_ids ids)
  where
    go :
        (clean : List String)
        → (outcome : Outcome) × (wait_for_clean fuel w timeout initial start rounds clean
            ≡ some outcome)
    go [] = (returned initial, refl)
    go (primary ∷ rest) =
        wait_loop_returns fuel w _ primary _ rounds _ p
          (record { sleeps = p.starts; tolerated = inl refl }) (omega arith)
