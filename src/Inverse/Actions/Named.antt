-- ===== src/Inverse/Actions/Named.antt =====
-- The names and the members that an inversion gives back.
use arodonata.Common.{
  String, Bool, true, false, ◌||◌, Option, some, List, [], ◌∷◌, str_eq, str_eq_iff, ◌≡◌, ◌≢◌, inl,
  inr, refl, sym, ◌∙◌, All, arith, Bool-cases, ap,
}
use arodonata.Common.Json.{Value, Fields, Items, find, is_truthy, put, text_by, find-put}
use arodonata.Inverse.Actions.{
  Outcome, create, update, delete, reuse, unchanged, error, skipped, skipped_dependency, plan_stale,
  PlannedAction, copy_fields, group_fields, head_of, prior_name, current_name, delete_created,
  put_target, set_updated, add_deleted, texts, put_members, put_members_of, invert_by,
  invert_group_action, or_value,
}
use arodonata.Inverse.Actions.Restores.{
  copy_fields-other, put_uid-other, put_target-other, put_members-other,
}
use arodonata.Inverse.Actions.Reversal.{unless_empty-some, set_updated-named}

-- The key has the prior name, if there is one.
abbrev pub HasName : (Value → String) → Fields → String → Fields → Type 0
HasName show prior key op =
    is_truthy (find "name" prior) ≡ true
    → find key op ≡ Value.str (text_by show (find "name" prior))

-- Of objects, services and groups: what was created is deleted by its name, what was updated is set by
-- its name and renamed if it had another, and what was deleted is added by its prior name.
abbrev pub IsNamed : (Value → String) → PlannedAction → Fields → Outcome → Fields → Type 0
IsNamed show a prior create op = find "name" op ≡ Value.str (current_name show a)
IsNamed show a prior update op =
    (find "name" op ≡ Value.str (current_name show a))
    × (text_by show (find "name" prior) ≢ current_name show a → HasName show prior "new-name" op)
IsNamed show a prior delete op = HasName show prior "name" op
IsNamed show a prior _ op = ⊥

-- The members of a group that was updated or deleted are the prior ones.
abbrev pub HasMembers : (Value → String) → Fields → Outcome → Fields → Type 0
HasMembers show prior create op = Unit {0}
HasMembers show prior _ op =
    (vs : Items)
    → find "members" prior ≡ Value.arr vs
    → find "members" op ≡ Value.arr (texts show vs)

-- A key that no inversion copies from the prior state.
abbrev pub IsFree : List String → String → Type 0
IsFree keys k = All (λ j. str_eq j k ≡ false) keys

abbrev pub holds : String → List String → Bool
holds k [] = false
holds k (j ∷ js) = str_eq j k || holds k js

prior_name-first :
    (show : Value → String) (a : PlannedAction) (prior : Fields)
    → is_truthy (find "name" prior) ≡ true
    → prior_name show a prior ≡ text_by show (find "name" prior)
unfolding prior_name or_value
prior_name-first show a prior h = rw h refl

set_updated-new_name :
    (show : Value → String) (a : PlannedAction) (prior : Fields) (uid : Option String)
    → text_by show (find "name" prior) ≢ current_name show a
    → HasName show prior "new-name" (set_updated show a prior uid)
unfolding set_updated
set_updated-new_name show a prior uid differs there =
    let named = prior_name-first show a prior there in
    elim (Bool-cases (str_eq (prior_name show a prior) (current_name show a))) [
      | inl same ↦ absurd (differs (sym named ∙ (str_eq_iff (prior_name show a prior) _).0 same))
      | inr other ↦ rw other (
          find-put "new-name" (Value.str (prior_name show a prior)) (
            put_target show uid prior
              (put "name" (Value.str (current_name show a)) (head_of "set" a.object_type)))
          ∙ ap (λ s. Value.str s) named)
    ]

set_updated-name :
    (show : Value → String) (a : PlannedAction) (prior : Fields) (uid : Option String)
    → find "name" (set_updated show a prior uid) ≡ Value.str (current_name show a)
set_updated-name show a prior uid =
    set_updated-named show a prior uid "name" refl
    ∙ put_target-other show "name" uid prior _ refl
    ∙ find-put "name" (Value.str (current_name show a)) (head_of "set" a.object_type)

add_deleted-name :
    (show : Value → String) (a : PlannedAction) (prior : Fields)
    → HasName show prior "name" (add_deleted show a prior)
unfolding add_deleted
add_deleted-name show a prior there =
    find-put "name" (Value.str (prior_name show a prior)) (head_of "add" a.object_type)
    ∙ ap (λ s. Value.str s) (prior_name-first show a prior there)

delete_created-name :
    (show : Value → String) (a : PlannedAction) (uid : Option String)
    → find "name" (delete_created show a uid) ≡ Value.str (current_name show a)
unfolding delete_created
delete_created-name show a uid =
    put_uid-other "name" uid _ refl
    ∙ find-put "name" (Value.str (current_name show a)) (head_of "delete" a.object_type)

pub invert_by-IsNamed :
    (show : Value → String) (keys : List String) (a : PlannedAction) (outcome : Outcome)
    (prior : Fields) (uid : Option String) (op : Fields)
    → IsFree keys "name" × IsFree keys "new-name"
    → invert_by show keys a outcome prior uid ≡ some op
    → IsNamed show a prior outcome op
unfolding invert_by
invert_by-IsNamed show keys a create prior uid op free h =
    let same : delete_created show a uid ≡ op = ground arith in
    rw (sym same) (delete_created-name show a uid)
invert_by-IsNamed show keys a update prior uid op (free, free') h =
    let base = set_updated show a prior uid in
    rw (sym (unless_empty-some show prior _ op h)) (
      copy_fields-other "name" keys prior base free ∙ set_updated-name show a prior uid,
      λ differs there.
          copy_fields-other "new-name" keys prior base free'
          ∙ set_updated-new_name show a prior uid differs there,
    )
invert_by-IsNamed show keys a delete prior uid op (free, free') h =
    rw (sym (unless_empty-some show prior _ op h)) (λ there.
      copy_fields-other "name" keys prior (add_deleted show a prior) free
      ∙ add_deleted-name show a prior there)
invert_by-IsNamed show keys a reuse prior uid op free h = cc
invert_by-IsNamed show keys a unchanged prior uid op free h = cc
invert_by-IsNamed show keys a error prior uid op free h = cc
invert_by-IsNamed show keys a skipped prior uid op free h = cc
invert_by-IsNamed show keys a skipped_dependency prior uid op free h = cc
invert_by-IsNamed show keys a plan_stale prior uid op free h = cc

find-put_members :
    (show : Value → String) (prior op : Fields) (vs : Items)
    → find "members" prior ≡ Value.arr vs
    → find "members" (copy_fields group_fields prior (put_members show prior op))
      ≡ Value.arr (texts show vs)
unfolding put_members put_members_of
find-put_members show prior op vs h =
    copy_fields-other "members" group_fields prior _ (refl, (refl, (refl, tt)))
    ∙ rw h (find-put "members" (Value.arr (texts show vs)) op)

copied-other :
    (show : Value → String) (k : String) (prior op : Fields)
    → IsFree group_fields k
    → str_eq "members" k ≡ false
    → find k (copy_fields group_fields prior (put_members show prior op)) ≡ find k op
copied-other show k prior op free other =
    copy_fields-other k group_fields prior _ free ∙ put_members-other show k prior op other

pub invert_group_action-IsNamed :
    (show : Value → String) (a : PlannedAction) (outcome : Outcome) (prior : Fields)
    (uid : Option String) (op : Fields)
    → invert_group_action show a outcome prior uid ≡ some op
    → IsNamed show a prior outcome op × HasMembers show prior outcome op
unfolding invert_group_action
invert_group_action-IsNamed show a create prior uid op h =
    let same : delete_created show a uid ≡ op = ground arith in
    (rw (sym same) (delete_created-name show a uid), tt)
invert_group_action-IsNamed show a update prior uid op h =
    let base = set_updated show a prior uid in
    rw (sym (unless_empty-some show prior _ op h)) (
      (
        copied-other show "name" prior base (refl, (refl, (refl, tt))) refl
            ∙ set_updated-name show a prior uid,
        λ differs there.
            copied-other show "new-name" prior base (refl, (refl, (refl, tt))) refl
            ∙ set_updated-new_name show a prior uid differs there,
      ),
      find-put_members show prior base,
    )
invert_group_action-IsNamed show a delete prior uid op h =
    let base = add_deleted show a prior in
    rw (sym (unless_empty-some show prior _ op h)) (
      (λ there.
          copied-other show "name" prior base (refl, (refl, (refl, tt))) refl
          ∙ add_deleted-name show a prior there),
      find-put_members show prior base,
    )
invert_group_action-IsNamed show a reuse prior uid op h = cc
invert_group_action-IsNamed show a unchanged prior uid op h = cc
invert_group_action-IsNamed show a error prior uid op h = cc
invert_group_action-IsNamed show a skipped prior uid op h = cc
invert_group_action-IsNamed show a skipped_dependency prior uid op h = cc
invert_group_action-IsNamed show a plan_stale prior uid op h = cc
