-- ===== src/Locks/Waiting.antt =====
-- The retry loops and the waiting loop of `acquire`: what a whole call does, and that it returns.
use arodonata.Common.{
  ℕ, zero, suc, ◌+◌, ◌-◌, ◌<◌, ◌≤◌, ◌≡◌, ◌⊎◌, inl, inr, refl, String, true, false, Option, none,
  some, arith, Bool-cases, leb, Option-cases, ◌∙◌, sym, ap, subst,
}
use arodonata.Locks.{
  Rows, Reply, acquire_txn, Attempt, Fault, retry, try_acquire_once, acquire_poll, acquire, Poll,
  pause, deadline_of, max_transient_retries, owner_or,
}

-- A call of a retry loop is exactly one transaction, at one of its attempts that meets no fault, or
-- it answers false and changes nothing.
pub retry_cases :
    (left : ℕ) (attempts : ℕ → Attempt) (txn : ℕ → Rows → Reply) (rows : Rows)
    → (retry left attempts txn rows ≡ (false, rows))
      ⊎ ((i : ℕ) × (i < left)
          × ((attempts i).fault ≡ none)
          × (retry left attempts txn rows ≡ txn (attempts i).now rows))
unfolding retry
retry_cases zero attempts txn rows = inl refl
retry_cases (suc left) attempts txn rows = elim (Option-cases (attempts 0).fault) [
  | inl e ↦ inr (0, omega arith, e, ground arith)
  | inr (Fault.transient, e) ↦ elim (retry_cases left (λ i. attempts (suc i)) txn rows) [
    | inl stays ↦ inl (ground (arith))
    | inr (i, below, fine, same) ↦ inr (suc i, omega arith, fine, ground (arith))
  ]
  | inr (Fault.integrity, e) ↦ inl (ground arith)
  | inr (Fault.permanent, e) ↦ inl (ground arith)
]

-- Transient faults are survived while attempts are left: the first attempt without a fault decides,
-- if fewer transient faults than the loop has attempts come before it.
pub retry_survives :
    (left i : ℕ) (attempts : ℕ → Attempt) (txn : ℕ → Rows → Reply) (rows : Rows)
    → i < left
    → ((j : ℕ) → j < i → (attempts j).fault ≡ some Fault.transient)
    → (attempts i).fault ≡ none
    → retry left attempts txn rows ≡ txn (attempts i).now rows
unfolding retry
retry_survives zero i attempts txn rows below faults fine = absurd (omega arith)
retry_survives (suc left) zero attempts txn rows below faults fine = ground arith
retry_survives (suc left) (suc i) attempts txn rows below faults fine = ground (
  arith,
  faults 0 (omega arith),
  retry_survives left i (λ j. attempts (suc j)) txn rows (omega arith)
      (λ j h. faults (suc j) (omega arith)) fine,
)

acquire_txn-keeps :
    (key owner : String) (ttl now : ℕ) (rows : Rows)
    → (acquire_txn key ttl owner now rows).0 ≡ false
    → (acquire_txn key ttl owner now rows).1 ≡ rows
unfolding acquire_txn
acquire_txn-keeps key owner ttl now rows h = ground arith

leb-false : (a b : ℕ) → leb a b ≡ false → b < a
leb-false a b h = ground arith

-- What a reply of an attempt to acquire stands for.
abbrev pub IsOutcome : String → ℕ → String → Rows → Reply → Type 0
IsOutcome key ttl owner rows (true, rows') =
    (now : ℕ) × (acquire_txn key ttl owner now rows ≡ (true, rows'))
IsOutcome key ttl owner rows (false, rows') = rows' ≡ rows

-- The rows as other workers have made them before a round, if no round before it changes them.
abbrev pub met : (ℕ → Poll) → Rows → ℕ → Rows
met polls rows zero = rows
met polls rows (suc i) = met (λ j. polls (suc j)) ((polls 0).others rows) i

module _ (key owner : String) (ttl : ℕ) where
  txn-IsOutcome :
      (now : ℕ) (rows : Rows) → IsOutcome key ttl owner rows (acquire_txn key ttl owner now rows)
  txn-IsOutcome now rows = go (acquire_txn key ttl owner now rows) refl
    where
      go : (r : Reply) → acquire_txn key ttl owner now rows ≡ r → IsOutcome key ttl owner rows r
      go (true, rows') e = (now, e)
      go (false, rows') e =
          ap (λ x. x.1) (sym e) ∙ acquire_txn-keeps key owner ttl now rows (ap (λ x. x.0) e)

  once-IsOutcome :
      (attempts : ℕ → Attempt) (rows : Rows)
      → IsOutcome key ttl owner rows (try_acquire_once key ttl owner attempts rows)
  unfolding try_acquire_once
  once-IsOutcome attempts rows =
      elim (retry_cases max_transient_retries attempts (acquire_txn key ttl owner) rows) [
        | inl e ↦ rw e refl
        | inr (i, below, fine, e) ↦ rw e (txn-IsOutcome (attempts i).now rows)
      ]

  -- The reply of the loop comes from one of its rounds, before which nothing but other workers changed
  -- the rows.
  abbrev pub Replies : (ℕ → Poll) → Rows → Reply → Type 0
  Replies polls rows reply = (i : ℕ) × IsOutcome key ttl owner (met polls rows i) reply

  later_round :
      (polls : ℕ → Poll) (rows rows' : Rows) (reply : Reply)
      → rows' ≡ rows
      → Replies (λ i. polls (suc i)) ((polls 0).others rows') reply
      → Replies polls rows reply
  later_round polls rows rows' reply same (i, out) = (
    suc i,
    subst (λ r. IsOutcome key ttl owner (met (λ j. polls (suc j)) ((polls 0).others r) i) reply)
        same out,
  )

  -- The clock passes the deadline before the fuel runs out.
  poll_returns :
      (fuel interval : ℕ) (polls : ℕ → Poll) (deadline : Option ℕ) (clock left : ℕ) (rows : Rows)
      → 1 ≤ interval
      → ((d : ℕ) → deadline ≡ some d → d ≤ clock + left)
      → left < fuel
      → (reply : Reply) × (acquire_poll fuel interval polls deadline
            (try_acquire_once key ttl owner)
            clock
            rows
          ≡ some reply)
        × Replies polls rows reply
  unfolding acquire_poll
  poll_returns zero interval polls deadline clock left rows sleeps by enough =
      absurd (omega (arith, enough))
  poll_returns (suc fuel) interval polls none clock left rows sleeps by enough =
      (_, refl, (0, once-IsOutcome (polls 0).attempts rows))
  poll_returns (suc fuel) interval polls (some d) clock left rows sleeps by enough =
      go (try_acquire_once key ttl owner (polls 0).attempts rows) refl
        (once-IsOutcome (polls 0).attempts rows)
        (λ clock' left' rows' by' enough'.
          poll_returns fuel interval (λ i. polls (suc i)) (some d) clock' left' rows' sleeps by'
            enough')
    where
      go :
          (r : Reply)
          → try_acquire_once key ttl owner (polls 0).attempts rows ≡ r
          → IsOutcome key ttl owner rows r
          → ((clock' left' : ℕ) (rows' : Rows)
              → ((d' : ℕ) → some d ≡ some d' → d' ≤ clock' + left')
              → left' < fuel
              → (reply : Reply) × (acquire_poll fuel interval
                    (λ i. polls (suc i))
                    (some d)
                    (try_acquire_once key ttl owner)
                    clock'
                    rows'
                  ≡ some reply)
                × Replies (λ i. polls (suc i)) rows' reply)
          → (reply : Reply) × (acquire_poll
                (suc fuel)
                interval
                polls
                (some d)
                (try_acquire_once key ttl owner)
                clock
                rows
              ≡ some reply)
            × Replies polls rows reply
      go (true, rows') e out later = ((true, rows'), rw (e, acquire_poll) refl, (0, out))
      go (false, rows') e out later =
          let now = clock + (polls 0).lag in
          let wakes = now + pause interval d now + (polls 0).oversleep in
          elim (Bool-cases (leb d now)) [
            | inl over ↦ ((false, rows'), rw (e, acquire_poll, over) refl, (0, out))
            | inr early ↦
                let before : now < d = leb-false d now early in
                let (reply, same, replies) =
                  later wakes (left - 1) ((polls 0).others rows')
                    (λ d' q.
                      let equal : d ≡ d' = ground (arith, q) in
                      omega (arith, by d refl, before, sleeps, equal))
                    (omega (arith, by d refl, before, enough)) in
                (
                  reply,
                  rw (e, acquire_poll, early) same,
                  later_round polls rows rows' reply out replies,
                )
          ]

abbrev pub budget : Option ℕ → ℕ
budget none = 0
budget (some wait) = wait

-- With a poll interval of a millisecond at least, a call of `acquire` returns in as many rounds as its
-- timeout has milliseconds, and one more, whatever time the attempts take and whatever other workers do
-- to the rows while it sleeps. If it answers true, it committed one acquiring transaction on the rows
-- as other workers had made them by then; if it answers false, it changed nothing.
pub acquire_returns :
    (fuel : ℕ) (default key : String) (ttl : ℕ) (owner : Option String) (wait : Option ℕ)
    (interval start : ℕ) (polls : ℕ → Poll) (rows : Rows)
    → 1 ≤ interval
    → budget wait < fuel
    → (reply : Reply) × (acquire fuel default key ttl owner wait interval start polls rows
        ≡ some reply)
      × Replies key (owner_or owner default) ttl polls rows reply
unfolding acquire deadline_of
acquire_returns fuel default key ttl owner wait interval start polls rows sleeps enough =
    poll_returns key (owner_or owner default) ttl fuel interval polls (deadline_of start wait) start
      (budget wait) rows sleeps (by wait) enough
  where
    by : (w : Option ℕ) (d : ℕ) → deadline_of start w ≡ some d → d ≤ start + budget w
    by none d q = cc
    by (some w) d q = ground arith
