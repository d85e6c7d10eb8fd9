-- ===== src/Locks/Table.antt =====
-- The rows of `arodonata_distributed_locks`, and the statements that the adapter runs on them.
use arodonata.Common.{
  ℕ, String, Bool, false, Option, none, some, List, [], ◌∷◌, ◌||◌, if◌then◌else◌, str_eq,
}

pub record LockRecord : Type 0 where
  pub lock_key : String
  pub owner_id : String
  pub acquired_at : ℕ
  pub expires_at : ℕ

abbrev pub Rows : Type 0
Rows = List LockRecord

-- `select(...).where(lock_key == key)`, `scalar_one_or_none`: the key is the primary key.
unfoldable pub lookup : String → Rows → Option LockRecord
lookup key [] = none
lookup key (r ∷ rs) = if str_eq r.lock_key key then some r else lookup key rs

unfoldable pub delete_where : (LockRecord → Bool) → Rows → Rows
delete_where p [] = []
delete_where p (r ∷ rs) = let rest = delete_where p rs in if p r then rest else r ∷ rest

unfoldable pub update_where : (LockRecord → Bool) → (LockRecord → LockRecord) → Rows → Rows
update_where p f [] = []
update_where p f (r ∷ rs) = (if p r then f r else r) ∷ update_where p f rs

-- `result.rowcount > 0`.
unfoldable pub any_where : (LockRecord → Bool) → Rows → Bool
any_where p [] = false
any_where p (r ∷ rs) = p r || any_where p rs
