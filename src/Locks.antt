-- ===== src/Locks.antt =====
-- adapters/storage/lock_adapter.py, `SqlLockAdapter`, over the table `arodonata_distributed_locks`
-- of adapters/storage/tables.py. Times and durations are whole milliseconds: the database's clock
-- where a row is stamped or compared, the process's monotonic clock where `acquire` waits.
mod Table
mod Statements
pub mod Exclusion
pub mod Refinement
pub mod Waiting
pub mod Examples
use arodonata.Common.{
  ℕ, zero, suc, ◌+◌, ◌-◌, min, max, String, Bool, true, false, not, Option, none, some, List, [],
  ◌∷◌, ◌&&◌, leb, ltb, ◌==◌, if◌then◌else◌, str_eq,
}
pub use Table.{LockRecord, Rows}
unfoldable pub use Table.{lookup, delete_where, update_where, any_where}

-- What the database raises in a transaction: a violated key, an error whose message
-- `_is_transient_db_error` recognises, or another `OperationalError` or `DBAPIError`.
pub data Fault : Type 0 where
  integrity transient permanent : Fault

-- One round of a retry loop: the database's time, and the error that the transaction meets.
pub record Attempt : Type 0 where
  pub now : ℕ
  pub fault : Option Fault

abbrev pub Reply : Type 0
Reply = Bool × Rows

abbrev max_transient_retries : ℕ
max_transient_retries = 3

-- `timedelta(seconds=max(0.1, ttl_seconds))`.
abbrev pub expiry : ℕ → ℕ → ℕ
expiry now ttl = now + max 100 ttl

unfoldable pub is_expired : String → ℕ → LockRecord → Bool
is_expired key now r = str_eq r.lock_key key && leb r.expires_at now

unfoldable pub is_held : String → String → ℕ → LockRecord → Bool
is_held key owner now r = str_eq r.lock_key key && str_eq r.owner_id owner && ltb now r.expires_at

unfoldable pub is_owned : String → String → LockRecord → Bool
is_owned key owner r = str_eq r.lock_key key && str_eq r.owner_id owner

-- Steps 2 and 3 of `_try_acquire_once`, on the rows that the reclamation leaves; a rollback
-- restores `old`.
insert_if_free : String → ℕ → String → ℕ → Rows → Rows → Reply
insert_if_free key ttl owner now old rows = elim (lookup key rows) [
  | some r ↦
      if leb r.expires_at now
      then (
        true,
        record { lock_key = key; owner_id = owner; acquired_at = now; expires_at = expiry now ttl }
            ∷ delete_where (is_expired key now) rows,
      )
      else (false, old)
  | none ↦ (
    true,
    record { lock_key = key; owner_id = owner; acquired_at = now; expires_at = expiry now ttl }
        ∷ rows,
  )
]

-- The transaction of `_try_acquire_once` where the database raises nothing.
pub acquire_txn : String → ℕ → String → ℕ → Rows → Reply
unfolding insert_if_free
acquire_txn key ttl owner now rows =
    insert_if_free key ttl owner now rows (delete_where (is_expired key now) rows)

-- The transaction of `renew`: the UPDATE, and whether it met a row.
pub renew_txn : String → ℕ → String → ℕ → Rows → Reply
renew_txn key ttl owner now rows = (
  any_where (is_held key owner now) rows,
  update_where (is_held key owner now) (λ r. record r { expires_at = expiry now ttl }) rows,
)

-- The transaction of `release`: the DELETE, and whether it met a row.
pub release_txn : String → String → ℕ → Rows → Reply
release_txn key owner now rows =
    (any_where (is_owned key owner) rows, delete_where (is_owned key owner) rows)

-- The retry loop that the three methods share. A fault rolls the transaction back; a transient one
-- is tried again while attempts are left.
unfoldable pub retry : ℕ → (ℕ → Attempt) → (ℕ → Rows → Reply) → Rows → Reply
retry zero attempts txn rows = (false, rows)
retry (suc left) attempts txn rows =
    let rest = retry left (λ i. attempts (suc i)) txn rows in
    elim (attempts 0).fault [
      | some Fault.transient ↦ if left == 0 then (false, rows) else rest
      | some Fault.integrity ↦ (false, rows)
      | some Fault.permanent ↦ (false, rows)
      | none ↦ txn (attempts 0).now rows
    ]

-- `owner_id or self._default_owner_id`.
pub owner_or : Option String → String → String
owner_or none default = default
owner_or (some owner) default = if str_eq owner "" then default else owner

pub try_acquire_once : String → ℕ → String → (ℕ → Attempt) → Rows → Reply
try_acquire_once key ttl owner attempts =
    retry max_transient_retries attempts (acquire_txn key ttl owner)

pub renew : String → String → ℕ → Option String → (ℕ → Attempt) → Rows → Reply
unfolding owner_or
renew default key ttl owner attempts =
    retry max_transient_retries attempts (renew_txn key ttl (owner_or owner default))

release_as : String → String → (ℕ → Attempt) → Rows → Reply
release_as key owner attempts rows =
    if str_eq owner ""
    then (false, rows)
    else retry max_transient_retries attempts (release_txn key owner) rows

-- Here an empty `owner_id` is not replaced by the default: nothing is released.
pub release : String → String → Option String → (ℕ → Attempt) → Rows → Reply
unfolding release_as
release default key none attempts rows = release_as key default attempts rows
release default key (some owner) attempts rows = release_as key owner attempts rows

-- What one round of `acquire` meets: the database, the time that the attempt takes on the monotonic
-- clock, what other workers make of the rows while it sleeps, and the time by which it sleeps longer
-- than asked for.
pub record Poll : Type 0 where
  pub attempts : ℕ → Attempt
  pub lag : ℕ
  pub others : Rows → Rows
  pub oversleep : ℕ

-- `min(poll_interval, max(0.001, deadline - time.monotonic()))`
abbrev pub pause : ℕ → ℕ → ℕ → ℕ
pause interval deadline now = min interval (max 1 (deadline - now))

-- The `while True` of `acquire` from the time `clock`; `none` means that the fuel ran out.
pub acquire_poll :
    ℕ → ℕ → (ℕ → Poll) → Option ℕ → ((ℕ → Attempt) → Rows → Reply) → ℕ → Rows → Option Reply
acquire_poll zero interval polls deadline once clock rows = none
acquire_poll (suc fuel) interval polls none once clock rows = some (once (polls 0).attempts rows)
acquire_poll (suc fuel) interval polls (some d) once clock rows =
    let (acquired, rows') = once (polls 0).attempts rows in
    let now = clock + (polls 0).lag in
    let rest =
      acquire_poll fuel interval (λ i. polls (suc i)) (some d) once
        (now + pause interval d now + (polls 0).oversleep) ((polls 0).others rows') in
    if acquired then some (true, rows') else if leb d now then some (false, rows') else rest

-- `(time.monotonic() + wait_timeout) if (wait_timeout is not None and wait_timeout > 0) else None`.
pub deadline_of : ℕ → Option ℕ → Option ℕ
deadline_of start none = none
deadline_of start (some wait) = if ltb 0 wait then some (start + wait) else none

pub acquire :
    ℕ → String → String → ℕ → Option String → Option ℕ → ℕ → ℕ → (ℕ → Poll) → Rows → Option Reply
unfolding owner_or deadline_of
acquire fuel default key ttl owner wait interval start polls rows =
    acquire_poll fuel interval polls (deadline_of start wait)
      (try_acquire_once key ttl (owner_or owner default)) start rows
