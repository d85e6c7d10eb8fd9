-- ===== src/Inverse/Actions/Placed.antt =====
-- The name and the position that the inversion of a rule gives back.
use arodonata.Common.{
  String, true, false, Option, some, List, [], ◌∷◌, str_eq, str_eq_iff, ◌≡◌, ◌≢◌, inl, inr, refl,
  sym, ◌∙◌, arith, Bool-cases, zero, suc, ap, subst, if◌then◌else◌,
}
use arodonata.Common.Json.{Value, Fields, find, put, text_by, find-put, find-put-other}
use arodonata.Inverse.Actions.{
  Outcome, create, update, delete, reuse, unchanged, error, skipped, skipped_dependency, plan_stale,
  PlannedAction, is_null, put_truthy, put_present, rule_fields, is_position, position_of, or_value,
  optional, rule_head, invert_rule_action,
}
use arodonata.Inverse.Actions.Restores.{copy_fields-other}
use arodonata.Inverse.Actions.Reversal.{unless_empty-some}
use arodonata.Inverse.Actions.Rules.{find-put_truthy}
use arodonata.Inverse.Actions.Named.{HasName, IsFree, holds}

-- The position that is asked for: a number that is not zero, `True`, the top, or else the bottom.
abbrev pub StandsAt : Value → Value → Type 0
StandsAt (Value.num zero) v = v ≡ Value.str "bottom"
StandsAt (Value.num (suc n)) v = v ≡ Value.num (suc n)
StandsAt (Value.bool true) v = v ≡ Value.bool true
StandsAt (Value.str s) v = (s ≡ "top" → v ≡ Value.str s) × (s ≢ "top" → v ≡ Value.str "bottom")
StandsAt _ v = v ≡ Value.str "bottom"

-- A rule that was updated or deleted has its prior name, and one that was deleted its prior position.
abbrev pub IsPlacedRule : (Value → String) → Fields → Outcome → Fields → Type 0
IsPlacedRule show prior update op =
    is_null (find "name" prior) ≡ false
    → find "name" op ≡ Value.str (text_by show (find "name" prior))
IsPlacedRule show prior delete op =
    HasName show prior "name" op × StandsAt (find "position" prior) (find "position" op)
IsPlacedRule show prior _ op = Unit {0}

is_position-StandsAt :
    (show : Value → String) (v : Value)
    → StandsAt v (if is_position show v then v else Value.str "bottom")
unfolding is_position
is_position-StandsAt show (Value.num zero) = refl
is_position-StandsAt show (Value.num (suc n)) = refl
is_position-StandsAt show (Value.bool true) = refl
is_position-StandsAt show (Value.bool false) = refl
is_position-StandsAt show (Value.str s) = elim (Bool-cases (str_eq s "top")) [
  | inl top ↦ (λ e. rw top refl, λ e. absurd (e ((str_eq_iff s "top").0 top)))
  | inr other ↦ (
    λ e. ground (arith, other, str_eq_iff s "top", e),
    λ e. elim (Bool-cases (str_eq s "bottom")) [
      | inl bottom ↦ rw (other, bottom) (ap (λ t. Value.str t) ((str_eq_iff s "bottom").0 bottom))
      | inr neither ↦ rw (other, neither) refl
    ],
  )
]
is_position-StandsAt show Value.null = refl
is_position-StandsAt show (Value.arr vs) = refl
is_position-StandsAt show (Value.obj fs) = refl

no_rule_field : (k : String) → holds k rule_fields ≡ false → IsFree rule_fields k
no_rule_field k h = none_of k rule_fields h
  where
    none_of : (k : String) (js : List String) → holds k js ≡ false → IsFree js k
    none_of k [] h = tt
    none_of k (j ∷ js) h = (ground arith, none_of k js (ground arith))

find-put_present :
    (show : Value → String) (v : Value) (op : Fields)
    → is_null v ≡ false
    → find "name" (put_present show "name" v op) ≡ Value.str (text_by show v)
unfolding put_present
find-put_present show v op h = rw h (find-put "name" (Value.str (text_by show v)) op)

pub invert_rule_action-IsPlacedRule :
    (show : Value → String) (a : PlannedAction) (outcome : Outcome) (prior : Fields)
    (uid : Option String) (op : Fields)
    → invert_rule_action show a outcome prior uid ≡ some op
    → IsPlacedRule show prior outcome op
unfolding invert_rule_action
invert_rule_action-IsPlacedRule show a update prior uid op h =
    let own = or_value (optional uid) (find "uid" prior) in
    let base = put_truthy show "uid" own (rule_head show "set" a prior) in
    rw (sym (unless_empty-some show prior _ op h)) (λ there.
      copy_fields-other "name" rule_fields prior (put_present show "name" (find "name" prior) base)
        (no_rule_field "name" refl)
      ∙ find-put_present show (find "name" prior) base there)
invert_rule_action-IsPlacedRule show a delete prior uid op h =
    let base = rule_head show "add" a prior in
    let named = put_truthy show "name" (find "name" prior) base in
    let placed = put "position" (position_of show prior) named in
    rw (sym (unless_empty-some show prior _ op h)) (
      (λ there.
          copy_fields-other "name" rule_fields prior placed (no_rule_field "name" refl)
          ∙ find-put-other "position" "name" (position_of show prior) named refl
          ∙ find-put_truthy show "name" (find "name" prior) base there),
      subst (StandsAt (find "position" prior))
          (sym (
            copy_fields-other "position" rule_fields prior placed (no_rule_field "position" refl)
            ∙ find-put "position" (position_of show prior) named))
          (unfold position_of in is_position-StandsAt show (find "position" prior)),
    )
invert_rule_action-IsPlacedRule show a create prior uid op h = tt
invert_rule_action-IsPlacedRule show a reuse prior uid op h = tt
invert_rule_action-IsPlacedRule show a unchanged prior uid op h = tt
invert_rule_action-IsPlacedRule show a error prior uid op h = tt
invert_rule_action-IsPlacedRule show a skipped prior uid op h = tt
invert_rule_action-IsPlacedRule show a skipped_dependency prior uid op h = tt
invert_rule_action-IsPlacedRule show a plan_stale prior uid op h = tt
