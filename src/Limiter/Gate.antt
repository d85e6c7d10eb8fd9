-- ===== src/Limiter/Gate.antt =====
-- adapters/checkpoint/rate_limiter.py, `LoginGate` for one management server: the cooldown that a
-- coroutine waits for once it has the gate's locks. Times are milliseconds of the monotonic clock.
use arodonata.Common.{
  ℕ, ◌+◌, ◌-◌, ◌≤◌, ◌<◌, ◌≡◌, refl, max, Bool, true, false, List, [], ◌∷◌, arith, ltb, Bool-cases,
  inl, inr, ◌∙◌, ◌&&◌, if◌then◌else◌,
}

-- `self._next_allowed_at[target_ip]`, 0 at first, and `self._min_login_interval`.
pub record Gate : Type 0 where
  pub next_allowed_at : ℕ
  pub min_login_interval : ℕ

-- The readings of the clock in one `acquire`: before the cooldown is computed, at the check against
-- the deadline, and where the login is let through.
pub record Clock : Type 0 where
  pub computed : ℕ
  pub checked : ℕ
  pub let_in : ℕ

-- `record_cooldown`.
unfoldable pub record_cooldown : ℕ → ℕ → Gate → Gate
record_cooldown now wait g =
    if ltb g.next_allowed_at (now + wait) then record g { next_allowed_at = now + wait } else g

-- `if self._min_login_interval > 0: ...`.
reserve : ℕ → Gate → Gate
reserve now g =
    if ltb 0 g.min_login_interval
    then record g { next_allowed_at = max g.next_allowed_at (now + g.min_login_interval) }
    else g

-- `acquire` between its locks and its `yield`: true if the login is let through, false for the
-- `AuthenticationError`.
unfoldable pub admit : ℕ → Clock → Gate → Bool × Gate
unfolding reserve
admit deadline c g =
    let wait = g.next_allowed_at - c.computed in
    if ltb 0 wait && ltb deadline (c.checked + wait) then (false, g) else (true, reserve c.let_in g)

-- What the clock and `asyncio.sleep` do: time does not run backwards, and a sleep is not shorter
-- than asked for.
abbrev pub IsSteady : Clock → Gate → Type 0
IsSteady c g = (c.computed ≤ c.checked) × (c.checked + (g.next_allowed_at - c.computed) ≤ c.let_in)

-- A login that is let through is not earlier than the time that the gate allowed when it was asked,
-- and no later login is allowed within the minimal interval after it.
admit_allows :
    (deadline : ℕ) (c : Clock) (g : Gate)
    → IsSteady c g
    → 0 < g.min_login_interval
    → (admit deadline c g).0 ≡ true
    → (g.next_allowed_at ≤ c.let_in)
      × (c.let_in + g.min_login_interval ≤ (admit deadline c g).1.next_allowed_at)
unfolding admit
admit_allows deadline c g steady some_gap ok = ground arith

admit_refuses :
    (deadline : ℕ) (c : Clock) (g : Gate)
    → (admit deadline c g).0 ≡ false
    → ((admit deadline c g).1 ≡ g) × (deadline < c.checked + (g.next_allowed_at - c.computed))
unfolding admit
admit_refuses deadline c g no_login = ground arith

admit-min_login_interval :
    (deadline : ℕ) (c : Clock) (g : Gate)
    → (admit deadline c g).1.min_login_interval ≡ g.min_login_interval
unfolding admit
admit-min_login_interval deadline c g = ground arith

record_cooldown_lem :
    (now wait : ℕ) (g : Gate)
    → ((record_cooldown now wait g).next_allowed_at ≡ max g.next_allowed_at (now + wait))
      × ((record_cooldown now wait g).min_login_interval ≡ g.min_login_interval)
unfolding record_cooldown
record_cooldown_lem now wait g = ground arith

-- What the coroutines that hold the gate do to it, one after the other.
pub data Event : Type 0 where
  logs_in : ℕ → Clock → Event
  cools_down : ℕ → ℕ → Event

unfoldable pub after : Event → Gate → Gate
after (logs_in deadline c) g = (admit deadline c g).1
after (cools_down now wait) g = record_cooldown now wait g

-- The times at which logins are let through.
unfoldable pub logins : List Event → Gate → List ℕ
logins [] g = []
logins (logs_in deadline c ∷ es) g =
    let rest = logins es (after (logs_in deadline c) g) in
    if (admit deadline c g).0 then c.let_in ∷ rest else rest
logins (cools_down now wait ∷ es) g = logins es (after (cools_down now wait) g)

abbrev pub AllSteady : List Event → Gate → Type 0
AllSteady [] g = Unit {0}
AllSteady (logs_in deadline c ∷ es) g = IsSteady c g × AllSteady es (after (logs_in deadline c) g)
AllSteady (cools_down now wait ∷ es) g = AllSteady es (after (cools_down now wait) g)

-- Each time is at least `gap` after the one before it, and the first is at least `from`.
abbrev pub IsSpaced : ℕ → ℕ → List ℕ → Type 0
IsSpaced gap from [] = Unit {0}
IsSpaced gap from (t ∷ ts) = (from ≤ t) × IsSpaced gap (t + gap) ts

IsSpaced-mono : (gap a b : ℕ) (ts : List ℕ) → a ≤ b → IsSpaced gap b ts → IsSpaced gap a ts
IsSpaced-mono gap a b [] h s = tt
IsSpaced-mono gap a b (t ∷ ts) h s = (omega arith, s.1)

logins-IsSpaced_from :
    (gap : ℕ) (es : List Event) (g : Gate)
    → g.min_login_interval ≡ gap
    → 0 < gap
    → AllSteady es g
    → IsSpaced gap g.next_allowed_at (logins es g)
unfolding logins after
logins-IsSpaced_from gap [] g same some_gap steady = tt
logins-IsSpaced_from gap (logs_in deadline c ∷ es) g same some_gap steady =
    let g' = (admit deadline c g).1 in
    let later =
      logins-IsSpaced_from gap es g' (admit-min_login_interval deadline c g ∙ same) some_gap
        steady.1 in
    elim (Bool-cases (admit deadline c g).0) [
      | inl ok ↦
          let allowed = admit_allows deadline c g steady.0 (omega arith) ok in
          rw ok (
            allowed.0,
            IsSpaced-mono gap _ g'.next_allowed_at (logins es g') (omega (arith, allowed.1)) later,
          )
      | inr no_login ↦ rw no_login (
          IsSpaced-mono gap _ g'.next_allowed_at (logins es g')
            (ground (arith, (admit_refuses deadline c g no_login).0)) later)
    ]
logins-IsSpaced_from gap (cools_down now wait ∷ es) g same some_gap steady =
    let fact = record_cooldown_lem now wait g in
    IsSpaced-mono gap g.next_allowed_at (record_cooldown now wait g).next_allowed_at
      (logins es (record_cooldown now wait g)) (omega (arith, fact.0))
      (logins-IsSpaced_from gap es (record_cooldown now wait g) (fact.1 ∙ same) some_gap steady)

-- However logins and cooldowns alternate, the logins that one gate lets through are at least its
-- minimal interval apart, if it has one, and the first is not before the time allowed at the start.
pub logins-IsSpaced :
    (es : List Event) (g : Gate)
    → AllSteady es g
    → 0 < g.min_login_interval
    → IsSpaced g.min_login_interval g.next_allowed_at (logins es g)
logins-IsSpaced es g steady some_gap =
    logins-IsSpaced_from g.min_login_interval es g refl some_gap steady
