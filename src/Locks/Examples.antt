-- ===== src/Locks/Examples.antt =====
-- Tests of the lock adapter, and its theorems at concrete tables.
use arodonata.Common.{
  ℕ, ◌≡◌, inr, refl, String, true, false, none, some, [], ◌∷◌, arith, ◌<◌, zero, suc, str_eq_iff,
}
use arodonata.Locks.{
  LockRecord, Reply, Attempt, Poll, Fault, acquire_txn, release_txn, retry, acquire, release,
  lookup, owner_or, is_expired, is_owned, delete_where, any_where,
}
use arodonata.Locks.Statements.{UniqueKeys}
use arodonata.Locks.Exclusion.{acquires, renews, releases, commit, run, acquire-excludes}
use arodonata.Locks.Refinement.{commit-refines, leases_of, answer, after}
use arodonata.Locks.Waiting.{retry_survives, acquire_returns, Replies}

abbrev held_row : LockRecord
held_row = record { lock_key = "sync"; owner_id = "a"; acquired_at = 0; expires_at = 60 }

abbrev calm : ℕ → Attempt
calm i = record { now = 70; fault = none }

abbrev busy : ℕ → Attempt
busy i = record { now = 10; fault = none }

abbrev shaky : ℕ → Attempt
shaky zero = record { now = 70; fault = some Fault.transient }
shaky (suc i) = record { now = 71; fault = none }

abbrev ticking : ℕ → Poll
ticking i = record {
  attempts = busy;
  lag = 1;
  others = delete_where (is_expired "other" 10);
  oversleep = i;
}

-- An expired row is reclaimed, a live one is not, and only its owner may release it.
reclaims : (acquire_txn "sync" 500 "b" 70 (held_row ∷ [])).0 ≡ true
unfolding acquire_txn is_expired lookup delete_where
reclaims = refl

respects : acquire_txn "sync" 500 "b" 10 (held_row ∷ []) ≡ (false, held_row ∷ [])
unfolding acquire_txn is_expired lookup delete_where
respects = refl

keeps_from_stranger : release "w" "sync" (some "b") calm (held_row ∷ []) ≡ (false, held_row ∷ [])
unfolding release retry release_txn is_owned any_where delete_where
keeps_from_stranger = refl

acquired : (acquire_txn "sync" 500 "b" 0 []).0 ≡ true
unfolding acquire_txn lookup delete_where
acquired = refl

acquire-excludes_example :
    (acquire_txn "sync" 200 "c" 480 (
      run
        ((acquires "sync" 300 "a", 100) ∷ (releases "sync" "a", 200) ∷ [])
        (acquire_txn "sync" 500 "b" 0 []).1)).0
    ≡ false
acquire-excludes_example =
    acquire-excludes "sync" "b" "c" 500 200 0 480 []
      ((acquires "sync" 300 "a", 100) ∷ (releases "sync" "a", 200) ∷ []) acquired
      (omega arith, ((omega arith, inr (ground (arith, str_eq_iff "a" "b"))), tt)) (omega arith)

one_row : UniqueKeys (held_row ∷ [])
unfolding lookup
one_row = (refl, tt)

commit-refines_example :
    ((commit (renews "sync" 200 "a") 10 (held_row ∷ [])).0
      ≡ answer (renews "sync" 200 "a") 10 (leases_of (held_row ∷ [])))
    × ((j : String)
        → leases_of (commit (renews "sync" 200 "a") 10 (held_row ∷ [])).1 j
          ≡ after (renews "sync" 200 "a") 10 (leases_of (held_row ∷ [])) j)
    × UniqueKeys (commit (renews "sync" 200 "a") 10 (held_row ∷ [])).1
commit-refines_example = commit-refines (renews "sync" 200 "a") 10 (held_row ∷ []) one_row

retry_survives_example :
    retry 3 shaky (acquire_txn "sync" 500 "b") (held_row ∷ [])
    ≡ acquire_txn "sync" 500 "b" 71 (held_row ∷ [])
retry_survives_example =
    retry_survives 3 1 shaky (acquire_txn "sync" 500 "b") (held_row ∷ []) (omega arith) first_faults
      refl
  where
    first_faults : (j : ℕ) → j < 1 → (shaky j).fault ≡ some Fault.transient
    first_faults zero h = refl
    first_faults (suc j) h = absurd (omega arith)

acquire_returns_example :
    (reply : Reply) × (acquire 9 "w" "sync" 500 none (some 8) 2 5 ticking (held_row ∷ [])
      ≡ some reply)
    × Replies "sync" (owner_or none "w") 500 ticking (held_row ∷ []) reply
acquire_returns_example =
    acquire_returns 9 "w" "sync" 500 none (some 8) 2 5 ticking (held_row ∷ []) (omega arith)
      (omega arith)
