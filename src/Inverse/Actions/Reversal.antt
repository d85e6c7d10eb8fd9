-- ===== src/Inverse/Actions/Reversal.antt =====
-- Each of the four inversions gives an operation that reverses the action.
use arodonata.Common.{
  String, false, Option, none, some, List, str_eq, ◌≡◌, inl, inr, refl, sym, ◌∙◌, All, arith,
  Bool-cases,
}
use arodonata.Common.Json.{Value, Fields, field, end, find, put, find-put, find-put-other}
use arodonata.Inverse.Actions.{
  Outcome, create, update, delete, reuse, unchanged, error, skipped, skipped_dependency, plan_stale,
  PlannedAction, copy_fields, is_planned, put_uid, group_fields, head_of, prior_name, current_name,
  delete_created, put_target, set_updated, add_deleted, unless_empty, invert_by,
  invert_group_action,
}
use arodonata.Inverse.Actions.Restores.{
  RestoresField, copy_fields-Restores, copy_fields-other, put_uid-other, put_target-other,
  put_members-other,
}

-- What an outcome is reversed by.
abbrev pub undo : Outcome → String
undo create = "delete"
undo update = "set"
undo delete = "add"
undo _ = ""

-- The operation names the uid, if there is one.
abbrev pub NamesUid : Option String → Fields → Type 0
NamesUid none op = Unit {0}
NamesUid (some u) op = str_eq u "" ≡ false → is_planned u ≡ false → find "uid" op ≡ Value.str u

abbrev pub Reverts : List String → Outcome → Fields → Option String → Fields → Type 0
Reverts keys create prior uid op = NamesUid uid op
Reverts keys update prior uid op = NamesUid uid op × All (RestoresField prior op) keys
Reverts keys delete prior uid op = All (RestoresField prior op) keys
Reverts keys _ prior uid op = ⊥

-- It deletes what was created, sets what was updated and adds what was deleted, of the type of the
-- action; it names the uid of what was created or updated; and where something was updated or deleted,
-- it has all the prior values.
abbrev pub IsReversal :
    List String → PlannedAction → Outcome → Fields → Option String → Fields → Type 0
IsReversal keys a outcome prior uid op =
    (find "operation" op ≡ Value.str (undo outcome))
    × (find "type" op ≡ Value.str a.object_type)
    × Reverts keys outcome prior uid op

-- A key that no inversion copies from the prior state.
abbrev pub IsKept : List String → String → Type 0
IsKept keys k = All (λ j. str_eq j k ≡ false) keys

pub put_uid-names : (uid : Option String) (op : Fields) → NamesUid uid (put_uid uid op)
unfolding put_uid
put_uid-names none op = tt
put_uid-names (some u) op = λ full real. rw (full, real) (find-put "uid" (Value.str u) op)

put_target-names :
    (show : Value → String) (uid : Option String) (prior op : Fields)
    → NamesUid uid (put_target show uid prior op)
unfolding put_target
put_target-names show none prior op = tt
put_target-names show (some u) prior op = λ full real. rw full (find-put "uid" (Value.str u) op)

-- Names are kept by what leaves the uid as it is.
pub NamesUid-same :
    (uid : Option String) (op op' : Fields)
    → find "uid" op' ≡ find "uid" op
    → NamesUid uid op
    → NamesUid uid op'
NamesUid-same none op op' same h = tt
NamesUid-same (some u) op op' same h = λ full real. same ∙ h full real

delete_created-find :
    (show : Value → String) (a : PlannedAction) (uid : Option String) (k : String)
    → str_eq "name" k ≡ false
    → str_eq "uid" k ≡ false
    → find k (delete_created show a uid) ≡ find k (head_of "delete" a.object_type)
unfolding delete_created
delete_created-find show a uid k n u = put_uid-other k uid _ u ∙ find-put-other "name" k _ _ n

pub set_updated-named :
    (show : Value → String) (a : PlannedAction) (prior : Fields) (uid : Option String) (k : String)
    → str_eq "new-name" k ≡ false
    → find k (set_updated show a prior uid)
      ≡ find k (
          put_target show uid prior
            (put "name" (Value.str (current_name show a)) (head_of "set" a.object_type)))
unfolding set_updated
set_updated-named show a prior uid k n =
    elim (Bool-cases (str_eq (prior_name show a prior) (current_name show a))) [
      | inl same ↦ rw same refl
      | inr other ↦ rw other (find-put-other "new-name" k _ _ n)
    ]

set_updated-find :
    (show : Value → String) (a : PlannedAction) (prior : Fields) (uid : Option String) (k : String)
    → str_eq "new-name" k ≡ false
    → str_eq "uid" k ≡ false
    → str_eq "name" k ≡ false
    → find k (set_updated show a prior uid) ≡ find k (head_of "set" a.object_type)
set_updated-find show a prior uid k new u n =
    set_updated-named show a prior uid k new
    ∙ put_target-other show k uid prior _ u
    ∙ find-put-other "name" k _ _ n

pub unless_empty-some :
    (show : Value → String) (prior op op' : Fields)
    → unless_empty show prior op ≡ some op'
    → op ≡ op'
unfolding unless_empty
unless_empty-some show end op op' h = cc
unless_empty-some show (field k v fs) op op' h = ground arith

set_updated-names :
    (show : Value → String) (a : PlannedAction) (prior : Fields) (uid : Option String)
    → NamesUid uid (set_updated show a prior uid)
set_updated-names show a prior uid =
    NamesUid-same uid _ _ (set_updated-named show a prior uid "uid" refl)
      (put_target-names show uid prior _)

-- The prior values are copied into an operation that is of the right kind already.
pub copied-set :
    (keys : List String) (a : PlannedAction) (prior base : Fields) (uid : Option String)
    → (IsKept keys "operation" × IsKept keys "type" × IsKept keys "uid")
    → find "operation" base ≡ Value.str "set"
    → find "type" base ≡ Value.str a.object_type
    → NamesUid uid base
    → IsReversal keys a update prior uid (copy_fields keys prior base)
copied-set keys a prior base uid (ko, kt, ku) o t u = (
  copy_fields-other "operation" keys prior base ko ∙ o,
  copy_fields-other "type" keys prior base kt ∙ t,
  (
    NamesUid-same uid base _ (copy_fields-other "uid" keys prior base ku) u,
    copy_fields-Restores keys prior base,
  ),
)

pub copied-add :
    (keys : List String) (a : PlannedAction) (prior base : Fields) (uid : Option String)
    → (IsKept keys "operation" × IsKept keys "type" × IsKept keys "uid")
    → find "operation" base ≡ Value.str "add"
    → find "type" base ≡ Value.str a.object_type
    → IsReversal keys a delete prior uid (copy_fields keys prior base)
copied-add keys a prior base uid (ko, kt, ku) o t = (
  copy_fields-other "operation" keys prior base ko ∙ o,
  copy_fields-other "type" keys prior base kt ∙ t,
  copy_fields-Restores keys prior base,
)

set_updated-kind :
    (show : Value → String) (a : PlannedAction) (prior : Fields) (uid : Option String)
    → (find "operation" (set_updated show a prior uid) ≡ Value.str "set")
      × (find "type" (set_updated show a prior uid) ≡ Value.str a.object_type)
unfolding head_of find
set_updated-kind show a prior uid = (
  set_updated-find show a prior uid "operation" refl refl refl,
  set_updated-find show a prior uid "type" refl refl refl,
)

add_deleted-kind :
    (show : Value → String) (a : PlannedAction) (prior : Fields)
    → (find "operation" (add_deleted show a prior) ≡ Value.str "add")
      × (find "type" (add_deleted show a prior) ≡ Value.str a.object_type)
unfolding head_of add_deleted find
add_deleted-kind show a prior = (
  find-put-other "name" "operation" (Value.str (prior_name show a prior))
      (head_of "add" a.object_type) refl,
  find-put-other "name" "type" (Value.str (prior_name show a prior)) (head_of "add" a.object_type)
      refl,
)

created-IsReversal :
    (show : Value → String) (keys : List String) (a : PlannedAction) (prior : Fields)
    (uid : Option String)
    → IsReversal keys a create prior uid (delete_created show a uid)
unfolding head_of find
created-IsReversal show keys a prior uid = (
  delete_created-find show a uid "operation" refl refl,
  delete_created-find show a uid "type" refl refl,
  (unfold delete_created in put_uid-names uid _),
)

-- What `_invert_object_action` and `_invert_service_action` give.
pub invert_by-IsReversal :
    (show : Value → String) (keys : List String) (a : PlannedAction) (outcome : Outcome)
    (prior : Fields) (uid : Option String) (op : Fields)
    → (IsKept keys "operation" × IsKept keys "type" × IsKept keys "uid")
    → invert_by show keys a outcome prior uid ≡ some op
    → IsReversal keys a outcome prior uid op
unfolding invert_by
invert_by-IsReversal show keys a create prior uid op kept h =
    let same : delete_created show a uid ≡ op = ground arith in
    rw (sym same) (created-IsReversal show keys a prior uid)
invert_by-IsReversal show keys a update prior uid op kept h =
    let (o, t) = set_updated-kind show a prior uid in
    rw (sym (unless_empty-some show prior _ op h))
      (copied-set keys a prior _ uid kept o t (set_updated-names show a prior uid))
invert_by-IsReversal show keys a delete prior uid op kept h =
    let (o, t) = add_deleted-kind show a prior in
    rw (sym (unless_empty-some show prior _ op h)) (copied-add keys a prior _ uid kept o t)
invert_by-IsReversal show keys a reuse prior uid op kept h = cc
invert_by-IsReversal show keys a unchanged prior uid op kept h = cc
invert_by-IsReversal show keys a error prior uid op kept h = cc
invert_by-IsReversal show keys a skipped prior uid op kept h = cc
invert_by-IsReversal show keys a skipped_dependency prior uid op kept h = cc
invert_by-IsReversal show keys a plan_stale prior uid op kept h = cc

pub invert_group_action-IsReversal :
    (show : Value → String) (a : PlannedAction) (outcome : Outcome) (prior : Fields)
    (uid : Option String) (op : Fields)
    → invert_group_action show a outcome prior uid ≡ some op
    → IsReversal group_fields a outcome prior uid op
unfolding invert_group_action
invert_group_action-IsReversal show a create prior uid op h =
    let same : delete_created show a uid ≡ op = ground arith in
    rw (sym same) (created-IsReversal show group_fields a prior uid)
invert_group_action-IsReversal show a update prior uid op h =
    let (o, t) = set_updated-kind show a prior uid in
    let base = set_updated show a prior uid in
    rw (sym (unless_empty-some show prior _ op h)) (
      copied-set group_fields a prior _ uid
        ((refl, (refl, (refl, tt))), (refl, (refl, (refl, tt))), (refl, (refl, (refl, tt))))
        (put_members-other show "operation" prior base refl ∙ o)
        (put_members-other show "type" prior base refl ∙ t)
        (NamesUid-same uid base _ (put_members-other show "uid" prior base refl)
          (set_updated-names show a prior uid)))
invert_group_action-IsReversal show a delete prior uid op h =
    let (o, t) = add_deleted-kind show a prior in
    let base = add_deleted show a prior in
    rw (sym (unless_empty-some show prior _ op h)) (
      copied-add group_fields a prior _ uid
        ((refl, (refl, (refl, tt))), (refl, (refl, (refl, tt))), (refl, (refl, (refl, tt))))
        (put_members-other show "operation" prior base refl ∙ o)
        (put_members-other show "type" prior base refl ∙ t))
invert_group_action-IsReversal show a reuse prior uid op h = cc
invert_group_action-IsReversal show a unchanged prior uid op h = cc
invert_group_action-IsReversal show a error prior uid op h = cc
invert_group_action-IsReversal show a skipped prior uid op h = cc
invert_group_action-IsReversal show a skipped_dependency prior uid op h = cc
invert_group_action-IsReversal show a plan_stale prior uid op h = cc
