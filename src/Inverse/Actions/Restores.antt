-- ===== src/Inverse/Actions/Restores.antt =====
-- What the operation that reverses an action holds: its kind, its type, its target, and the prior
-- values.
use arodonata.Common.{
  String, true, false, ◌||◌, Option, none, some, List, [], ◌∷◌, if◌then◌else◌, str_eq, str_eq_iff,
  ◌≡◌, ◌⊎◌, inl, inr, refl, ◌∙◌, All, Bool-cases,
}
use arodonata.Common.Json.{Value, Fields, find, is_truthy, put, find-put, find-put-other}
use arodonata.Inverse.Actions.{
  is_null, copy_fields, put_truthy, is_planned, put_uid, put_target, put_members_of, put_members,
}

-- The values of the prior state, where it has some, stand in the operation.
abbrev pub RestoresField : Fields → Fields → String → Type 0
RestoresField prior op k = is_null (find k prior) ≡ false → find k op ≡ find k prior

copy_fields-keeps :
    (k : String) (ks : List String) (prior op : Fields)
    → find k op ≡ find k prior
    → find k (copy_fields ks prior op) ≡ find k prior
unfolding copy_fields
copy_fields-keeps k [] prior op h = h
copy_fields-keeps k (j ∷ ks) prior op h =
    copy_fields-keeps k ks prior _
      (step (Bool-cases (is_null (find j prior))) (Bool-cases (str_eq j k)))
  where
    step :
        (is_null (find j prior) ≡ true) ⊎ (is_null (find j prior) ≡ false)
        → (str_eq j k ≡ true) ⊎ (str_eq j k ≡ false)
        → find k (if is_null (find j prior) then op else put j (find j prior) op) ≡ find k prior
    step (inl skips) other = rw skips h
    step (inr copies) (inl same) =
        let equal : j ≡ k = (str_eq_iff j k).0 same in
        rw (copies, equal) (find-put k (find k prior) op)
    step (inr copies) (inr other) = rw copies (find-put-other j k (find j prior) op other ∙ h)

pub copy_fields-Restores :
    (ks : List String) (prior op : Fields) → All (RestoresField prior (copy_fields ks prior op)) ks
unfolding copy_fields
copy_fields-Restores [] prior op = tt
copy_fields-Restores (k ∷ ks) prior op = (
  (λ there. copy_fields-keeps k ks prior _ (rw there (find-put k (find k prior) op))),
  copy_fields-Restores ks prior _,
)

-- A key that is not copied stays.
pub copy_fields-other :
    (k : String) (ks : List String) (prior op : Fields)
    → All (λ j. str_eq j k ≡ false) ks
    → find k (copy_fields ks prior op) ≡ find k op
unfolding copy_fields
copy_fields-other k [] prior op h = refl
copy_fields-other k (j ∷ ks) prior op (away, h) = elim (Bool-cases (is_null (find j prior))) [
  | inl skips ↦ rw skips (copy_fields-other k ks prior op h)
  | inr copies ↦ rw copies (
      copy_fields-other k ks prior (put j (find j prior) op) h
      ∙ find-put-other j k (find j prior) op away)
]

pub put_truthy-other :
    (show : Value → String) (key other : String) (v : Value) (op : Fields)
    → str_eq key other ≡ false
    → find other (put_truthy show key v op) ≡ find other op
unfolding put_truthy
put_truthy-other show key other v op h = elim (Bool-cases (is_truthy v)) [
  | inl yes' ↦ rw yes' (find-put-other key other _ op h)
  | inr no' ↦ rw no' refl
]

pub put_uid-other :
    (other : String) (uid : Option String) (op : Fields)
    → str_eq "uid" other ≡ false
    → find other (put_uid uid op) ≡ find other op
unfolding put_uid
put_uid-other other none op h = refl
put_uid-other other (some uid) op h = elim (Bool-cases (str_eq uid "" || is_planned uid)) [
  | inl yes' ↦ rw yes' refl
  | inr no' ↦ rw no' (find-put-other "uid" other _ op h)
]

pub put_target-other :
    (show : Value → String) (other : String) (uid : Option String) (prior op : Fields)
    → str_eq "uid" other ≡ false
    → find other (put_target show uid prior op) ≡ find other op
unfolding put_target
put_target-other show other none prior op h =
    put_truthy-other show "uid" other (find "uid" prior) op h
put_target-other show other (some uid) prior op h = elim (Bool-cases (str_eq uid "")) [
  | inl blank ↦ rw blank (put_truthy-other show "uid" other (find "uid" prior) op h)
  | inr full ↦ rw full (find-put-other "uid" other _ op h)
]

pub put_members-other :
    (show : Value → String) (other : String) (prior op : Fields)
    → str_eq "members" other ≡ false
    → find other (put_members show prior op) ≡ find other op
unfolding put_members
put_members-other show other prior op h = go (find "members" prior)
  where
    go : (v : Value) → find other (put_members_of show v op) ≡ find other op
    go v = elim v as (λ w. find other (put_members_of show w op) ≡ find other op) [
      | Value.arr vs ↦ unfold put_members_of in find-put-other "members" other _ op h
      | Value.str s ↦ unfold put_members_of in refl
      | Value.num n ↦ unfold put_members_of in refl
      | Value.bool b ↦ unfold put_members_of in refl
      | Value.null ↦ unfold put_members_of in refl
      | Value.obj fs ↦ unfold put_members_of in refl
    ]
