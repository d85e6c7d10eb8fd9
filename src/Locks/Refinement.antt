-- ===== src/Locks/Refinement.antt =====
-- The adapter's contract: each key maps to at most one lease, and the three transactions are
-- operations on that map.
use arodonata.Common.{
  ℕ, ◌≡◌, inl, inr, refl, String, Bool, true, false, Option, none, some, ◌∷◌, ◌&&◌, arith, str_eq,
  str_eq_iff, Bool-cases, if◌then◌else◌, leb, ltb, Option-cases,
}
use arodonata.Locks.{
  LockRecord, Rows, lookup, acquire_txn, renew_txn, release_txn, is_expired, is_held, is_owned,
  expiry, delete_where,
}
use arodonata.Locks.Statements.{
  UniqueKeys, lookup-delete_where, lookup-key, lookup-update_where, lookup-update_where-none,
  lookup-delete_where-none, lookup-delete_where_unique, any_where-lookup_unique,
  delete_where-UniqueKeys, update_where-UniqueKeys,
}
use arodonata.Locks.Exclusion.{Txn, acquires, renews, releases, commit, acquire_txn-lookup_ne}

abbrev Leases : Type 0
Leases = String → Option LockRecord

abbrev is_free : ℕ → Option LockRecord → Bool
is_free now none = true
is_free now (some r) = leb r.expires_at now

abbrev is_renewable : String → ℕ → Option LockRecord → Bool
is_renewable owner now none = false
is_renewable owner now (some r) = str_eq r.owner_id owner && ltb now r.expires_at

abbrev is_owned_lease : String → Option LockRecord → Bool
is_owned_lease owner none = false
is_owned_lease owner (some r) = str_eq r.owner_id owner

abbrev extended : ℕ → ℕ → Option LockRecord → Option LockRecord
extended now ttl none = none
extended now ttl (some r) = some (record r { expires_at = expiry now ttl })

-- What a transaction answers, by the lease of its key alone.
abbrev pub answer : Txn → ℕ → Leases → Bool
answer (acquires key ttl owner) now leases = is_free now (leases key)
answer (renews key ttl owner) now leases = is_renewable owner now (leases key)
answer (releases key owner) now leases = is_owned_lease owner (leases key)

-- The lease of its key after a transaction that answers true.
abbrev pub granted : Txn → ℕ → Option LockRecord → Option LockRecord
granted (acquires key ttl owner) now old =
    some
      (record { lock_key = key; owner_id = owner; acquired_at = now; expires_at = expiry now ttl })
granted (renews key ttl owner) now old = extended now ttl old
granted (releases key owner) now old = none

abbrev pub key_of : Txn → String
key_of (acquires key ttl owner) = key
key_of (renews key ttl owner) = key
key_of (releases key owner) = key

abbrev pub after : Txn → ℕ → Leases → Leases
after txn now leases key =
    if str_eq (key_of txn) key && answer txn now leases
    then granted txn now (leases key)
    else leases key

abbrev pub leases_of : Rows → Leases
leases_of rows key = lookup key rows

-- What step 2 of `_try_acquire_once` finds.
lookup-reclaimed :
    (key : String) (now : ℕ) (rows : Rows)
    → UniqueKeys rows
    → lookup key (delete_where (is_expired key now) rows)
      ≡ (if is_free now (lookup key rows) then none else lookup key rows)
unfolding is_expired
lookup-reclaimed key now rows u = elim (Option-cases (lookup key rows)) [
  | inl e ↦ ground (arith, lookup-delete_where-none key (is_expired key now) rows e)
  | inr (r, e) ↦ ground (
    arith,
    lookup-key key rows r,
    lookup-delete_where key (is_expired key now) rows r,
    lookup-delete_where_unique key (is_expired key now) rows r u,
  )
]

module _ (key o : String) (ttl now : ℕ) (rows : Rows) (u : UniqueKeys rows) where
  acquires-free :
      is_free now (lookup key rows) ≡ true
      → acquire_txn key ttl o now rows ≡ (
        true,
        record { lock_key = key; owner_id = o; acquired_at = now; expires_at = expiry now ttl }
            ∷ delete_where (is_expired key now) rows,
      )
  unfolding acquire_txn
  acquires-free free = ground (arith, lookup-reclaimed key now rows u)

  acquires-taken :
      is_free now (lookup key rows) ≡ false → acquire_txn key ttl o now rows ≡ (false, rows)
  unfolding acquire_txn
  acquires-taken taken = ground (arith, lookup-reclaimed key now rows u)

  acquires-answer : (acquire_txn key ttl o now rows).0 ≡ is_free now (lookup key rows)
  acquires-answer = ground (arith, acquires-free, acquires-taken)

  acquires-after :
      (j : String)
      → lookup j (acquire_txn key ttl o now rows).1
        ≡ after (acquires key ttl o) now (leases_of rows) j
  unfolding lookup
  acquires-after j = elim (Bool-cases (str_eq key j)) [
    | inl same ↦ ground (arith, acquires-free, acquires-taken, str_eq_iff key j)
    | inr other ↦ rw (other) (acquire_txn-lookup_ne j key o ttl now rows other)
  ]

  acquires-UniqueKeys : UniqueKeys (acquire_txn key ttl o now rows).1
  acquires-UniqueKeys = elim (Bool-cases (is_free now (lookup key rows))) [
    | inl free ↦
        rw (acquires-free free)
          (ground (arith, lookup-reclaimed key now rows u), delete_where-UniqueKeys _ rows u)
    | inr taken ↦ rw (acquires-taken taken) u
  ]

  found_key : (r : LockRecord) → is_held key o now r ≡ true → str_eq r.lock_key key ≡ true
  unfolding is_held
  found_key r h = ground arith

  renews-answer : (renew_txn key ttl o now rows).0 ≡ is_renewable o now (lookup key rows)
  unfolding renew_txn is_held
  renews-answer = elim (Option-cases (lookup key rows)) [
    | inl e ↦ rw (any_where-lookup_unique key (is_held key o now) found_key rows u, e)
    | inr (r, e) ↦
        rw (any_where-lookup_unique key (is_held key o now) found_key rows u, e)
          (ground (arith, lookup-key key rows r))
  ]

  renews-after :
      (j : String)
      → lookup j (renew_txn key ttl o now rows).1 ≡ after (renews key ttl o) now (leases_of rows) j
  unfolding renew_txn is_held
  renews-after j =
      let p = is_held key o now in
      let f = λ (r : LockRecord). record r { expires_at = expiry now ttl } in
      elim (Option-cases (lookup j rows)) [
        | inl e ↦
            ground (arith, lookup-update_where-none j p f (λ r. refl) rows e, str_eq_iff key j)
        | inr (r, e) ↦ ground (
          arith,
          lookup-update_where j p f (λ r. refl) rows r e,
          lookup-key j rows r,
          str_eq_iff key j,
          str_eq_iff r.lock_key j,
          str_eq_iff r.lock_key key,
        )
      ]

  renews-UniqueKeys : UniqueKeys (renew_txn key ttl o now rows).1
  unfolding renew_txn
  renews-UniqueKeys = update_where-UniqueKeys _ _ (λ r. refl) rows u

  owned_key : (r : LockRecord) → is_owned key o r ≡ true → str_eq r.lock_key key ≡ true
  unfolding is_owned
  owned_key r h = ground arith

  releases-answer : (release_txn key o now rows).0 ≡ is_owned_lease o (lookup key rows)
  unfolding release_txn is_owned
  releases-answer = elim (Option-cases (lookup key rows)) [
    | inl e ↦ rw (any_where-lookup_unique key (is_owned key o) owned_key rows u, e)
    | inr (r, e) ↦
        rw (any_where-lookup_unique key (is_owned key o) owned_key rows u, e)
          (ground (arith, lookup-key key rows r))
  ]

  releases-after :
      (j : String)
      → lookup j (release_txn key o now rows).1 ≡ after (releases key o) now (leases_of rows) j
  unfolding release_txn is_owned
  releases-after j =
      let p = is_owned key o in
      elim (Option-cases (lookup j rows)) [
        | inl e ↦ ground (arith, lookup-delete_where-none j p rows e, str_eq_iff key j)
        | inr (r, e) ↦ ground (
          arith,
          lookup-delete_where j p rows r e,
          lookup-delete_where_unique j p rows r u e,
          lookup-key j rows r,
          str_eq_iff key j,
          str_eq_iff r.lock_key j,
          str_eq_iff r.lock_key key,
        )
      ]

  releases-UniqueKeys : UniqueKeys (release_txn key o now rows).1
  unfolding release_txn
  releases-UniqueKeys = delete_where-UniqueKeys _ rows u

-- With the primary key respected, each transaction answers as its key's lease alone decides, changes
-- that lease and no other in the way of the map's operation, and respects the primary key again.
pub commit-refines :
    (txn : Txn) (now : ℕ) (rows : Rows)
    → UniqueKeys rows
    → ((commit txn now rows).0 ≡ answer txn now (leases_of rows))
      × ((j : String) → leases_of (commit txn now rows).1 j ≡ after txn now (leases_of rows) j)
      × UniqueKeys (commit txn now rows).1
unfolding commit
commit-refines (acquires key ttl o) now rows u = (
  acquires-answer key o ttl now rows u,
  acquires-after key o ttl now rows u,
  acquires-UniqueKeys key o ttl now rows u,
)
commit-refines (renews key ttl o) now rows u = (
  renews-answer key o ttl now rows u,
  renews-after key o ttl now rows u,
  renews-UniqueKeys key o ttl now rows u,
)
commit-refines (releases key o) now rows u = (
  releases-answer key o 0 now rows u,
  releases-after key o 0 now rows u,
  releases-UniqueKeys key o 0 now rows u,
)
