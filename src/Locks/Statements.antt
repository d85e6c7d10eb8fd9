-- ===== src/Locks/Statements.antt =====
-- What the statements on the lock table do to the row of one key.
use arodonata.Common.{
  ◌≡◌, refl, String, Bool, true, false, none, some, [], ◌∷◌, arith, str_eq, str_eq_iff, Bool-cases,
  inl, inr, if◌then◌else◌,
}
use arodonata.Locks.Table.{LockRecord, Rows, lookup, delete_where, update_where, any_where}

-- The row that `lookup` finds stays found if the DELETE does not take it.
pub lookup-delete_where :
    (key : String) (p : LockRecord → Bool) (rows : Rows) (r : LockRecord)
    → lookup key rows ≡ some r
    → p r ≡ false
    → lookup key (delete_where p rows) ≡ some r
unfolding lookup delete_where
lookup-delete_where key p [] r e h = cc
lookup-delete_where key p (x ∷ rows) r e h = ground (arith, lookup-delete_where key p rows r)

-- A DELETE that takes no row of the key leaves its row alone.
pub lookup-delete_where_foreign :
    (key : String) (p : LockRecord → Bool)
    → ((r : LockRecord) → str_eq r.lock_key key ≡ true → p r ≡ false)
    → (rows : Rows) → lookup key (delete_where p rows) ≡ lookup key rows
unfolding lookup delete_where
lookup-delete_where_foreign key p h [] = refl
lookup-delete_where_foreign key p h (x ∷ rows) =
    ground (arith, lookup-delete_where_foreign key p h rows, h x)

-- A DELETE that takes every row of the key leaves none.
pub lookup-delete_where_all :
    (key : String) (p : LockRecord → Bool)
    → ((r : LockRecord) → str_eq r.lock_key key ≡ true → p r ≡ true)
    → (rows : Rows) → lookup key (delete_where p rows) ≡ none
unfolding lookup delete_where
lookup-delete_where_all key p h [] = refl
lookup-delete_where_all key p h (x ∷ rows) =
    ground (arith, lookup-delete_where_all key p h rows, h x)

-- What is found after a DELETE was not taken by it.
pub lookup-delete_where_left :
    (key : String) (p : LockRecord → Bool) (rows : Rows) (r : LockRecord)
    → lookup key (delete_where p rows) ≡ some r
    → p r ≡ false
unfolding lookup delete_where
lookup-delete_where_left key p [] r e = cc
lookup-delete_where_left key p (x ∷ rows) r e =
    ground (arith, lookup-delete_where_left key p rows r)

-- The row that is found carries the key.
pub lookup-key :
    (key : String) (rows : Rows) (r : LockRecord)
    → lookup key rows ≡ some r
    → str_eq r.lock_key key ≡ true
unfolding lookup
lookup-key key [] r e = cc
lookup-key key (x ∷ rows) r e = ground (arith, lookup-key key rows r)

module _ (key : String) (p : LockRecord → Bool) (f : LockRecord → LockRecord)
    (keeps : (r : LockRecord) → (f r).lock_key ≡ r.lock_key) where
  -- An UPDATE that does not touch the key column applies to the row of the key if it is met.
  pub lookup-update_where :
      (rows : Rows) (r : LockRecord)
      → lookup key rows ≡ some r
      → lookup key (update_where p f rows) ≡ some (if p r then f r else r)
  unfolding lookup update_where
  lookup-update_where [] r e = cc
  lookup-update_where (x ∷ rows) r e = ground (arith, lookup-update_where rows r, keeps x)

  pub lookup-update_where-none :
      (rows : Rows) → lookup key rows ≡ none → lookup key (update_where p f rows) ≡ none
  unfolding lookup update_where
  lookup-update_where-none [] e = refl
  lookup-update_where-none (x ∷ rows) e = ground (arith, lookup-update_where-none rows, keeps x)

-- No row is met if none satisfies the test, and one is met if the found row does.
pub any_where-lookup :
    (key : String) (p : LockRecord → Bool) (rows : Rows) (r : LockRecord)
    → lookup key rows ≡ some r
    → p r ≡ true
    → any_where p rows ≡ true
unfolding lookup any_where
any_where-lookup key p [] r e h = cc
any_where-lookup key p (x ∷ rows) r e h = ground (arith, any_where-lookup key p rows r)

-- At most one row for each key, as the primary key has it.
abbrev pub UniqueKeys : Rows → Type 0
UniqueKeys [] = Unit {0}
UniqueKeys (r ∷ rows) = (lookup r.lock_key rows ≡ none) × UniqueKeys rows

pub lookup-delete_where-none :
    (key : String) (p : LockRecord → Bool) (rows : Rows)
    → lookup key rows ≡ none
    → lookup key (delete_where p rows) ≡ none
unfolding lookup delete_where
lookup-delete_where-none key p [] e = refl
lookup-delete_where-none key p (x ∷ rows) e = ground (arith, lookup-delete_where-none key p rows)

pub delete_where-UniqueKeys :
    (p : LockRecord → Bool) (rows : Rows) → UniqueKeys rows → UniqueKeys (delete_where p rows)
unfolding delete_where
delete_where-UniqueKeys p [] u = tt
delete_where-UniqueKeys p (x ∷ rows) u = elim (Bool-cases (p x)) [
  | inl gone ↦ rw gone (delete_where-UniqueKeys p rows u.1)
  | inr kept ↦
      rw kept (lookup-delete_where-none x.lock_key p rows u.0, delete_where-UniqueKeys p rows u.1)
]

-- With unique keys, a DELETE leaves the row of a key exactly if it does not take it.
pub lookup-delete_where_unique :
    (key : String) (p : LockRecord → Bool) (rows : Rows) (r : LockRecord)
    → UniqueKeys rows
    → lookup key rows ≡ some r
    → p r ≡ true
    → lookup key (delete_where p rows) ≡ none
unfolding lookup delete_where
lookup-delete_where_unique key p [] r u e h = cc
lookup-delete_where_unique key p (x ∷ rows) r u e h = ground (
  arith,
  lookup-delete_where_unique key p rows r u.1,
  lookup-delete_where-none key p rows,
  str_eq_iff x.lock_key key,
)

pub any_where-lookup_unique :
    (key : String) (p : LockRecord → Bool)
    → ((r : LockRecord) → p r ≡ true → str_eq r.lock_key key ≡ true)
    → (rows : Rows) → UniqueKeys rows
    → any_where p rows ≡ elim (lookup key rows) [ none ↦ false | some r ↦ p r ]
unfolding lookup any_where
any_where-lookup_unique key p only [] u = refl
any_where-lookup_unique key p only (x ∷ rows) u =
    ground (arith, any_where-lookup_unique key p only rows u.1, only x, str_eq_iff x.lock_key key)

pub update_where-UniqueKeys :
    (p : LockRecord → Bool) (f : LockRecord → LockRecord)
    → ((r : LockRecord) → (f r).lock_key ≡ r.lock_key)
    → (rows : Rows) → UniqueKeys rows
    → UniqueKeys (update_where p f rows)
unfolding update_where
update_where-UniqueKeys p f keeps [] u = tt
update_where-UniqueKeys p f keeps (x ∷ rows) u = (
  rw (updated_key (p x)) (lookup-update_where-none x.lock_key p f keeps rows u.0),
  update_where-UniqueKeys p f keeps rows u.1,
)
  where
    updated_key : (b : Bool) → (if b then f x else x).lock_key ≡ x.lock_key
    updated_key true = keeps x
    updated_key false = refl
