-- ===== src/Tasks/Outcomes.antt =====
-- What each outcome of `wait_for_tasks` says of the polls.
use arodonata.Common.{
  ℕ, zero, suc, ◌+◌, ◌<◌, ◌≤◌, ◌≡◌, ◌⊎◌, inl, inr, refl, String, Bool, true, false, Option, none,
  some, if◌then◌else◌, ap, subst, List, ◌∷◌, length, arith, min, ◌-◌, Bool-cases, leb,
}
use arodonata.Tasks.{
  Waiter, Round, Loop, Outcome, Turn, again, ends, turn, wait_loop, wait_for_tasks, ApiCallResult,
  returned, task_timeout_error, task_poll_error, server_identity_error, clean_ids, judge, Judgement,
  Polled, answered, transport_error, identity_error, after_poll, after_judgement, count_error,
  unusable, running, finished,
}

abbrev is_unusable : Judgement → Bool
is_unusable unusable = true
is_unusable _ = false

-- A poll that counts as an error.
abbrev pub is_bad : ℕ → String → Polled → Bool
is_bad wanted primary (answered reply) = is_unusable (judge wanted primary reply)
is_bad wanted primary transport_error = true
is_bad wanted primary identity_error = false

-- How many bad polls in a row there are just after the first rounds, `errors` before them.
abbrev pub streak : ℕ → String → ℕ → (ℕ → Round) → ℕ → ℕ
streak wanted primary errors rounds zero = errors
streak wanted primary errors rounds (suc n) =
    streak wanted primary (if is_bad wanted primary (rounds 0).polled then errors + 1 else 0)
      (λ i. rounds (suc i)) n

-- No bad poll, or fewer than are tolerated.
abbrev pub IsTolerated : Waiter → ℕ → Type 0
IsTolerated w errors = (errors ≡ 0) ⊎ (errors < w.max_consecutive_errors)

-- What an outcome says of the poll that it comes from, and of the bad polls up to this one.
abbrev pub Says : Waiter → ℕ → String → Polled → ℕ → Outcome → Type 0
Says w wanted primary polled errors (returned r) =
    (reply : ApiCallResult) × (polled ≡ answered reply) × (judge wanted primary reply ≡ finished r)
Says w wanted primary polled errors task_timeout_error = Unit {0}
Says w wanted primary polled errors task_poll_error =
    (is_bad wanted primary polled ≡ true) × (w.max_consecutive_errors ≤ errors)
Says w wanted primary polled errors server_identity_error = polled ≡ identity_error

-- Why a turn went as it did.
abbrev Because : Waiter → ℕ → String → ℕ → Polled → Turn → Type 0
Because w wanted primary errors polled (ends outcome) =
    Says w wanted primary polled (if is_bad wanted primary polled then errors + 1 else 0) outcome
Because w wanted primary errors polled (again l') =
    (l'.consecutive_errors ≡ (if is_bad wanted primary polled then errors + 1 else 0))
    × IsTolerated w l'.consecutive_errors

module _ (w : Waiter) (wanted : ℕ) (primary : String) where
  count_error-Because :
      (l : Loop) (polled : Polled)
      → is_bad wanted primary polled ≡ true
      → Because w wanted primary l.consecutive_errors polled (count_error w l)
  unfolding count_error
  count_error-Because l polled bad =
      elim (Bool-cases (leb w.max_consecutive_errors (l.consecutive_errors + 1))) [
        | inl over ↦ rw (over, bad) (refl, ground arith)
        | inr below ↦ rw (below, bad) (refl, inr (ground arith))
      ]

  after_judgement-Because :
      (l : Loop) (reply : ApiCallResult) (j : Judgement)
      → judge wanted primary reply ≡ j
      → Because w wanted primary l.consecutive_errors (answered reply) (after_judgement w l j)
  unfolding after_judgement
  after_judgement-Because l reply unusable e =
      count_error-Because l (answered reply) (ap is_unusable e)
  after_judgement-Because l reply running e = (rw e refl, inl refl)
  after_judgement-Because l reply (finished r) e = (reply, refl, e)

  after_poll-Because :
      (l : Loop) (polled : Polled)
      → Because w wanted primary l.consecutive_errors polled (after_poll w wanted primary l polled)
  unfolding after_poll
  after_poll-Because l (answered reply) =
      after_judgement-Because l reply (judge wanted primary reply) refl
  after_poll-Because l transport_error = count_error-Because l transport_error refl
  after_poll-Because l identity_error = refl

  turn-Because :
      (deadline : ℕ) (l : Loop) (r : Round)
      → Because w wanted primary l.consecutive_errors r.polled (turn w wanted primary deadline l r)
  unfolding turn
  turn-Because deadline l r =
      let now = l.clock + r.lag in
      let woken = now + min l.delay (deadline - now) + r.oversleep in
      elim (Bool-cases (leb deadline now)) [
        | inl over ↦ rw over tt
        | inr early ↦ elim (Bool-cases (leb deadline woken)) [
          | inl over ↦ rw (early, over) tt
          | inr still ↦
              rw (early, still)
                (after_poll-Because (record l { clock = woken; polls = l.polls + 1 }) r.polled)
        ]
      ]

  -- The outcome comes in round `i`, before which no streak of bad polls was too long.
  abbrev pub Explains : ℕ → (ℕ → Round) → Outcome → ℕ → Type 0
  Explains errors rounds outcome i =
      ((j : ℕ) → j ≤ i → IsTolerated w (streak wanted primary errors rounds j))
      × Says w wanted primary (rounds i).polled (streak wanted primary errors rounds (suc i))
          outcome

  -- With as many rounds as `i` says the loop is not over, and with one more it is.
  abbrev EndsIn : ℕ → (ℕ → Round) → Loop → Outcome → ℕ → Type 0
  EndsIn deadline rounds l outcome i =
      (wait_loop i w wanted primary deadline rounds l ≡ none)
      × (wait_loop (suc i) w wanted primary deadline rounds l ≡ some outcome)

  Explains-later :
      (rounds : ℕ → Round) (l l' : Loop) (outcome : Outcome) (i : ℕ)
      → IsTolerated w l.consecutive_errors
      → Because w wanted primary l.consecutive_errors (rounds 0).polled (again l')
      → Explains l'.consecutive_errors (λ k. rounds (suc k)) outcome i
      → Explains l.consecutive_errors rounds outcome (suc i)
  Explains-later rounds l l' outcome i before (counted, tolerated) (all, says) = (
    each,
    subst
        (λ n.
          Says w wanted primary (rounds (suc i)).polled
            (streak wanted primary n (λ k. rounds (suc k)) (suc i)) outcome)
        counted says,
  )
    where
      each :
          (j : ℕ) → j ≤ suc i → IsTolerated w (streak wanted primary l.consecutive_errors rounds j)
      each zero h = before
      each (suc j) h =
          subst (λ n. IsTolerated w (streak wanted primary n (λ k. rounds (suc k)) j)) counted
            (all j (omega (arith, h)))

  wait_loop-Explains :
      (fuel deadline : ℕ) (rounds : ℕ → Round) (l : Loop) (outcome : Outcome)
      → IsTolerated w l.consecutive_errors
      → wait_loop fuel w wanted primary deadline rounds l ≡ some outcome
      → (i : ℕ) × EndsIn deadline rounds l outcome i
        × Explains l.consecutive_errors rounds outcome i
  unfolding wait_loop
  wait_loop-Explains zero deadline rounds l outcome before e = cc
  wait_loop-Explains (suc fuel) deadline rounds l outcome before e =
      go (turn w wanted primary deadline l (rounds 0)) refl (turn-Because deadline l (rounds 0))
        (λ l'. wait_loop-Explains fuel deadline (λ i. rounds (suc i)) l' outcome)
    where
      first : (j : ℕ) → j ≤ 0 → IsTolerated w (streak wanted primary l.consecutive_errors rounds j)
      first zero h = before
      first (suc j) h = absurd (omega (arith, h))

      go :
          (t : Turn)
          → turn w wanted primary deadline l (rounds 0) ≡ t
          → Because w wanted primary l.consecutive_errors (rounds 0).polled t
          → ((l' : Loop)
              → IsTolerated w l'.consecutive_errors
              → wait_loop fuel w wanted primary deadline (λ i. rounds (suc i)) l' ≡ some outcome
              → (i : ℕ) × EndsIn deadline (λ k. rounds (suc k)) l' outcome i
                × Explains l'.consecutive_errors (λ k. rounds (suc k)) outcome i)
          → (i : ℕ) × EndsIn deadline rounds l outcome i
            × Explains l.consecutive_errors rounds outcome i
      go (ends o) f b later =
          let same : o ≡ outcome = ground arith in
          (
            0,
            (refl, rw (f, wait_loop) (ap some same)),
            (first, subst (Says w wanted primary (rounds 0).polled _) same b),
          )
      go (again l') f b later =
          let (i, (not_yet, over), explains) = later l' b.1 (ground arith) in
          (
            suc i,
            (rw (f, wait_loop) not_yet, rw (f, wait_loop) over),
            Explains-later rounds l l' outcome i before b explains,
          )

-- If an id is left once the blank ones are dropped, then the call ends in a round: it does not end in
-- fewer, and with this one it does. Before it there were never as many bad polls in a row as the
-- settings do not tolerate. `TaskPollError` is raised by a bad poll of this round that makes them as
-- many, `ServerIdentityError` is passed on from its poll, and a result is the one that `judge` gives
-- on the answer to its poll.
pub wait_for_tasks-Explains :
    (fuel : ℕ) (w : Waiter) (primary : String) (ids rest : List String) (timeout : Option ℕ)
    (initial : ApiCallResult) (start : ℕ) (rounds : ℕ → Round) (outcome : Outcome)
    → clean_ids ids ≡ primary ∷ rest
    → wait_for_tasks fuel w ids timeout initial start rounds ≡ some outcome
    → (i : ℕ) × (wait_for_tasks i w ids timeout initial start rounds ≡ none)
      × (wait_for_tasks (suc i) w ids timeout initial start rounds ≡ some outcome)
      × Explains w (length (primary ∷ rest)) primary 0 rounds outcome i
unfolding wait_for_tasks
wait_for_tasks-Explains fuel w primary ids rest timeout initial start rounds outcome named e =
    let (i, (not_yet, over), explains) =
      wait_loop-Explains w (length (primary ∷ rest)) primary fuel _ rounds _ outcome (inl refl)
        (rw named at e) in
    (i, rw named not_yet, rw named over, explains)
