-- ===== src/Locks/Exclusion.antt =====
-- Mutual exclusion: what a history of transactions by other workers cannot do to a held lock.
use arodonata.Common.{
  ℕ, ◌<◌, ◌≤◌, ◌≡◌, ◌≢◌, ◌⊎◌, inl, inr, refl, String, true, false, none, some, List, [], ◌∷◌, arith,
  str_eq, str_eq_iff, Bool-cases, All, ap, Option-cases, str_eq_self, ◌∙◌,
}
use arodonata.Locks.{
  LockRecord, Rows, lookup, acquire_txn, renew_txn, release_txn, is_expired, is_held, is_owned,
  expiry, Reply, insert_if_free, delete_where,
}
use arodonata.Locks.Statements.{
  lookup-delete_where, lookup-delete_where_left, lookup-delete_where_foreign, lookup-key,
  lookup-update_where,
}

-- A transaction that some worker commits at a time of the database's clock.
pub data Txn : Type 0 where
  acquires : String → ℕ → String → Txn
  renews : String → ℕ → String → Txn
  releases : String → String → Txn

unfoldable pub commit : Txn → ℕ → Rows → Reply
commit (acquires key ttl owner) now rows = acquire_txn key ttl owner now rows
commit (renews key ttl owner) now rows = renew_txn key ttl owner now rows
commit (releases key owner) now rows = release_txn key owner now rows

unfoldable pub run : List (Txn × ℕ) → Rows → Rows
run [] rows = rows
run ((txn, now) ∷ rest) rows = run rest (commit txn now rows).1

-- `owner` has the row of `key`, good until the time `until` at least.
abbrev pub Holds : String → String → ℕ → Rows → Type 0
Holds key owner until rows =
    (r : LockRecord) × (lookup key rows ≡ some r) × (r.owner_id ≡ owner) × (until ≤ r.expires_at)

-- A transaction before `until` which is not the holder's own renewal or release. Its own attempt to
-- acquire the lock again is allowed.
abbrev pub IsForeign : String → String → ℕ → Txn × ℕ → Type 0
IsForeign key owner until (acquires k ttl o, now) = now < until
IsForeign key owner until (renews k ttl o, now) = (now < until) × ((k ≢ key) ⊎ (o ≢ owner))
IsForeign key owner until (releases k o, now) = (now < until) × ((k ≢ key) ⊎ (o ≢ owner))

-- A live row makes every attempt to acquire its key fail, its owner's included, and change nothing.
pub acquire_txn-refused :
    (key o : String) (ttl now : ℕ) (rows : Rows) (r : LockRecord)
    → lookup key rows ≡ some r
    → now < r.expires_at
    → acquire_txn key ttl o now rows ≡ (false, rows)
unfolding acquire_txn is_expired
acquire_txn-refused key o ttl now rows r e live =
    ground (arith, lookup-delete_where key (is_expired key now) rows r)

is_expired_foreign :
    (key k : String) (now : ℕ) (r : LockRecord)
    → str_eq k key ≡ false
    → str_eq r.lock_key key ≡ true
    → is_expired k now r ≡ false
unfolding is_expired
is_expired_foreign key k now r other e =
    ground (arith, str_eq_iff k key, str_eq_iff r.lock_key key, str_eq_iff r.lock_key k)

insert_if_free-lookup_ne :
    (key k o : String) (ttl now : ℕ) (rows : Rows)
    → str_eq k key ≡ false
    → lookup key (insert_if_free k ttl o now rows (delete_where (is_expired k now) rows)).1
      ≡ lookup key rows
unfolding insert_if_free lookup
insert_if_free-lookup_ne key k o ttl now rows other =
    let foreign =
      lookup-delete_where_foreign key (is_expired k now)
        (λ r. is_expired_foreign key k now r other) in
    elim (Option-cases (lookup k (delete_where (is_expired k now) rows))) [
      | inl e ↦ rw (e, insert_if_free) (ground (arith, foreign rows))
      | inr (r, e) ↦
          rw (e, insert_if_free)
            (ground (arith, foreign rows, foreign (delete_where (is_expired k now) rows)))
    ]

-- An attempt on one key leaves the row of every other key as it was.
pub acquire_txn-lookup_ne :
    (key k o : String) (ttl now : ℕ) (rows : Rows)
    → str_eq k key ≡ false
    → lookup key (acquire_txn k ttl o now rows).1 ≡ lookup key rows
unfolding acquire_txn
acquire_txn-lookup_ne key k o ttl now rows other =
    insert_if_free-lookup_ne key k o ttl now rows other

module _ (key owner : String) (until : ℕ) where
  acquires-Holds :
      (k o : String) (ttl now : ℕ) (rows : Rows)
      → now < until
      → Holds key owner until rows
      → Holds key owner until (acquire_txn k ttl o now rows).1
  acquires-Holds k o ttl now rows early (r, e, mine, live) = elim (Bool-cases (str_eq k key)) [
    | inl same ↦
        let k≡key = (str_eq_iff k key).0 same in
        (r, rw (k≡key, acquire_txn-refused key o ttl now rows r e (omega arith)) e, mine, live)
    | inr other ↦ (r, acquire_txn-lookup_ne key k o ttl now rows other ∙ e, mine, live)
  ]

  renews-Holds :
      (k o : String) (ttl now : ℕ) (rows : Rows)
      → (k ≢ key) ⊎ (o ≢ owner)
      → Holds key owner until rows
      → Holds key owner until (renew_txn k ttl o now rows).1
  unfolding renew_txn is_held
  renews-Holds k o ttl now rows other (r, e, mine, live) = (
    r,
    ground (
      arith,
      lookup-update_where key (is_held k o now) (λ x. record x { expires_at = expiry now ttl })
          (λ x. refl) rows r,
      lookup-key key rows r,
      str_eq_iff r.lock_key key,
      str_eq_iff r.lock_key k,
      str_eq_iff r.owner_id o,
    ),
    mine,
    live,
  )

  releases-Holds :
      (k o : String) (now : ℕ) (rows : Rows)
      → (k ≢ key) ⊎ (o ≢ owner)
      → Holds key owner until rows
      → Holds key owner until (release_txn k o now rows).1
  unfolding release_txn is_owned
  releases-Holds k o now rows other (r, e, mine, live) = (
    r,
    ground (
      arith,
      lookup-delete_where key (is_owned k o) rows r,
      lookup-key key rows r,
      str_eq_iff r.lock_key key,
      str_eq_iff r.lock_key k,
      str_eq_iff r.owner_id o,
    ),
    mine,
    live,
  )

  commit-Holds :
      (t : Txn × ℕ) (rows : Rows)
      → IsForeign key owner until t
      → Holds key owner until rows
      → Holds key owner until (commit t.0 t.1 rows).1
  unfolding commit
  commit-Holds (acquires k ttl o, now) rows f h = acquires-Holds k o ttl now rows f h
  commit-Holds (renews k ttl o, now) rows f h = renews-Holds k o ttl now rows f.1 h
  commit-Holds (releases k o, now) rows f h = releases-Holds k o now rows f.1 h

  run-Holds :
      (history : List (Txn × ℕ)) (rows : Rows)
      → All (IsForeign key owner until) history
      → Holds key owner until rows
      → Holds key owner until (run history rows)
  unfolding run
  run-Holds [] rows f h = h
  run-Holds (t ∷ rest) rows f h =
      run-Holds rest (commit t.0 t.1 rows).1 f.1 (commit-Holds t rows f.0 h)

insert_if_free-Holds :
    (key owner : String) (ttl now : ℕ) (rows : Rows)
    → (insert_if_free key ttl owner now rows (delete_where (is_expired key now) rows)).0 ≡ true
    → (lookup key (delete_where (is_expired key now) rows) ≡ none)
      × Holds key owner
          (expiry now ttl)
          (insert_if_free key ttl owner now rows (delete_where (is_expired key now) rows)).1
unfolding insert_if_free is_expired lookup
insert_if_free-Holds key owner ttl now rows done =
    elim (Option-cases (lookup key (delete_where (is_expired key now) rows))) [
      | inl e ↦ (
        e,
        (
          record {
            lock_key = key;
            owner_id = owner;
            acquired_at = now;
            expires_at = expiry now ttl;
          },
          rw (e, insert_if_free, lookup) (ground (arith, str_eq_self key)),
          refl,
          omega arith,
        ),
      )
      | inr (r, e) ↦ absurd (
          ground (
            arith,
            lookup-delete_where_left key (is_expired key now) rows r,
            lookup-key key (delete_where (is_expired key now) rows) r,
          ))
    ]

-- An attempt that succeeds found no live row of its key, and leaves the caller holding the key for
-- the requested time, a tenth of a second at least.
pub acquire_txn-Holds :
    (key owner : String) (ttl now : ℕ) (rows : Rows)
    → (acquire_txn key ttl owner now rows).0 ≡ true
    → Holds key owner (expiry now ttl) (acquire_txn key ttl owner now rows).1
      × ((r : LockRecord) → lookup key rows ≡ some r → r.expires_at ≤ now)
unfolding acquire_txn is_expired
acquire_txn-Holds key owner ttl now rows done =
    let (free, held) = insert_if_free-Holds key owner ttl now rows done in
    (
      held,
      λ r e.
          ground
            (arith, lookup-delete_where key (is_expired key now) rows r, lookup-key key rows r),
    )

-- A worker that acquired a lock is alone with it until the lock expires: whatever transactions of
-- other workers are committed before that time, and whichever of its own attempts to acquire it
-- again, every further attempt on the key is refused.
pub acquire-excludes :
    (key owner other : String) (ttl ttl' now later : ℕ) (rows : Rows) (history : List (Txn × ℕ))
    → (acquire_txn key ttl owner now rows).0 ≡ true
    → All (IsForeign key owner (expiry now ttl)) history
    → later < expiry now ttl
    → (acquire_txn key ttl' other later (run history (acquire_txn key ttl owner now rows).1)).0
      ≡ false
acquire-excludes key owner other ttl ttl' now later rows history done foreign early =
    let (r, e, mine, live) =
      run-Holds key owner (expiry now ttl) history _ foreign
        (acquire_txn-Holds key owner ttl now rows done).0 in
    ap (λ x. x.0) (acquire_txn-refused key other ttl' later _ r e (omega arith))
