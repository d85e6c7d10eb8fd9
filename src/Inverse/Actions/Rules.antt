-- ===== src/Inverse/Actions/Rules.antt =====
-- `_invert_rule_action` gives an operation that reverses the action.
use arodonata.Common.{
  String, Bool, true, false, ◌||◌, Option, none, some, List, [], ◌∷◌, str_eq, ◌≡◌, inl, inr, refl,
  sym, ◌∙◌, All, arith, Bool-cases,
}
use arodonata.Common.Json.{Value, Fields, find, is_truthy, text_by, find-put, find-put-other}
use arodonata.Inverse.Actions.{
  Outcome, create, update, delete, reuse, unchanged, error, skipped, skipped_dependency, plan_stale,
  PlannedAction, is_null, or_value, optional, put_truthy, put_uid, rule_fields, head_of, place_of,
  rule_head, position_of, put_present, invert_rule_action,
}
use arodonata.Inverse.Actions.Restores.{put_truthy-other, put_uid-other}
use arodonata.Inverse.Actions.Reversal.{
  IsReversal, IsKept, NamesUid, copied-set, copied-add, put_uid-names, NamesUid-same,
  unless_empty-some,
}

rule_head-find :
    (show : Value → String) (operation : String) (a : PlannedAction) (prior : Fields) (k : String)
    → str_eq "package" k ≡ false
    → str_eq "layer" k ≡ false
    → find k (rule_head show operation a prior) ≡ find k (head_of operation a.object_type)
unfolding rule_head
rule_head-find show operation a prior k p l =
    put_truthy-other show "package" k (place_of show "package" a.policy_package a prior)
      (put_truthy show "layer" (place_of show "layer" a.layer a prior)
        (head_of operation a.object_type))
      p
    ∙ put_truthy-other show "layer" k (place_of show "layer" a.layer a prior)
        (head_of operation a.object_type) l

rule_head-kind :
    (show : Value → String) (operation : String) (a : PlannedAction) (prior : Fields)
    → (find "operation" (rule_head show operation a prior) ≡ Value.str operation)
      × (find "type" (rule_head show operation a prior) ≡ Value.str a.object_type)
unfolding head_of find
rule_head-kind show operation a prior = (
  rule_head-find show operation a prior "operation" refl refl,
  rule_head-find show operation a prior "type" refl refl,
)

put_present-other :
    (show : Value → String) (key other : String) (v : Value) (op : Fields)
    → str_eq key other ≡ false
    → find other (put_present show key v op) ≡ find other op
unfolding put_present
put_present-other show key other v op h = elim (Bool-cases (is_null v)) [
  | inl skips ↦ rw skips refl
  | inr puts ↦ rw puts (find-put-other key other (Value.str (text_by show v)) op h)
]

truthy_text : (u : String) → str_eq u "" ≡ false → is_truthy (Value.str u) ≡ true
unfolding is_truthy
truthy_text u full = rw full refl

pub find-put_truthy :
    (show : Value → String) (key : String) (v : Value) (op : Fields)
    → is_truthy v ≡ true
    → find key (put_truthy show key v op) ≡ Value.str (text_by show v)
unfolding put_truthy
find-put_truthy show key v op h = rw h (find-put key (Value.str (text_by show v)) op)

or_value-first : (v w : Value) → is_truthy v ≡ true → or_value v w ≡ v
unfolding or_value
or_value-first v w h = rw h refl

named_uid :
    (show : Value → String) (uid : Option String) (prior op : Fields)
    → NamesUid uid (put_truthy show "uid" (or_value (optional uid) (find "uid" prior)) op)
unfolding optional
named_uid show none prior op = tt
named_uid show (some u) prior op = λ full real.
    let there = truthy_text u full in
    rw (or_value-first (Value.str u) (find "uid" prior) there)
      (find-put_truthy show "uid" (Value.str u) op there)

kept : IsKept rule_fields "operation" × IsKept rule_fields "type" × IsKept rule_fields "uid"
kept = (no_field "operation" refl, no_field "type" refl, no_field "uid" refl)
  where
    holds : (k : String) → List String → Bool
    holds k [] = false
    holds k (j ∷ js) = str_eq j k || holds k js

    none_of :
        (k : String) (js : List String) → holds k js ≡ false → All (λ j. str_eq j k ≡ false) js
    none_of k [] h = tt
    none_of k (j ∷ js) h = (ground arith, none_of k js (ground arith))

    no_field : (k : String) → holds k rule_fields ≡ false → IsKept rule_fields k
    no_field k h = none_of k rule_fields h

pub invert_rule_action-IsReversal :
    (show : Value → String) (a : PlannedAction) (outcome : Outcome) (prior : Fields)
    (uid : Option String) (op : Fields)
    → invert_rule_action show a outcome prior uid ≡ some op
    → IsReversal rule_fields a outcome prior uid op
unfolding invert_rule_action
invert_rule_action-IsReversal show a create prior uid op h =
    let (o, t) = rule_head-kind show "delete" a prior in
    let base = rule_head show "delete" a prior in
    let named = Value.str a.name in
    let same : put_truthy show "name" named (put_uid uid base) ≡ op = ground arith in
    rw (sym same) (
      put_truthy-other show "name" "operation" named (put_uid uid base) refl
          ∙ put_uid-other "operation" uid base refl
          ∙ o,
      put_truthy-other show "name" "type" named (put_uid uid base) refl
          ∙ put_uid-other "type" uid base refl
          ∙ t,
      NamesUid-same uid (put_uid uid base) _
          (put_truthy-other show "name" "uid" named (put_uid uid base) refl)
          (put_uid-names uid base),
    )
invert_rule_action-IsReversal show a update prior uid op h =
    let (o, t) = rule_head-kind show "set" a prior in
    let own = or_value (optional uid) (find "uid" prior) in
    let base = rule_head show "set" a prior in
    let targeted = put_truthy show "uid" own base in
    let name = find "name" prior in
    rw (sym (unless_empty-some show prior _ op h)) (
      copied-set rule_fields a prior _ uid kept
        (put_present-other show "name" "operation" name targeted refl
          ∙ put_truthy-other show "uid" "operation" own base refl
          ∙ o)
        (put_present-other show "name" "type" name targeted refl
          ∙ put_truthy-other show "uid" "type" own base refl
          ∙ t)
        (NamesUid-same uid targeted _ (put_present-other show "name" "uid" name targeted refl)
          (named_uid show uid prior base)))
invert_rule_action-IsReversal show a delete prior uid op h =
    let (o, t) = rule_head-kind show "add" a prior in
    let base = rule_head show "add" a prior in
    let name = find "name" prior in
    let named = put_truthy show "name" name base in
    rw (sym (unless_empty-some show prior _ op h)) (
      copied-add rule_fields a prior _ uid kept
        (find-put-other "position" "operation" (position_of show prior) named refl
          ∙ put_truthy-other show "name" "operation" name base refl
          ∙ o)
        (find-put-other "position" "type" (position_of show prior) named refl
          ∙ put_truthy-other show "name" "type" name base refl
          ∙ t))
invert_rule_action-IsReversal show a reuse prior uid op h = cc
invert_rule_action-IsReversal show a unchanged prior uid op h = cc
invert_rule_action-IsReversal show a error prior uid op h = cc
invert_rule_action-IsReversal show a skipped prior uid op h = cc
invert_rule_action-IsReversal show a skipped_dependency prior uid op h = cc
invert_rule_action-IsReversal show a plan_stale prior uid op h = cc
