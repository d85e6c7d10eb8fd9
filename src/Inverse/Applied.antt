-- ===== src/Inverse/Applied.antt =====
-- `_invert_single_action`, with the results of a report and without.
use arodonata.Common.{
  String, Bool, true, false, not, ◌||◌, Option, none, some, List, [], ◌∷◌, str_eq, ◌≡◌, inl, inr,
  refl, sym, arith, Bool-cases, Option-cases,
}
use arodonata.Common.Json.{Value, Fields, find}
use arodonata.Inverse.Actions.Reversal.{
  IsReversal, IsKept, NamesUid, invert_by-IsReversal, invert_group_action-IsReversal,
}
use arodonata.Inverse.Actions.Named.{
  IsNamed, HasMembers, holds, invert_by-IsNamed, invert_group_action-IsNamed,
}
use arodonata.Inverse.Actions.Placed.{IsPlacedRule, invert_rule_action-IsPlacedRule}
use arodonata.Inverse.Actions.Rules.{invert_rule_action-IsReversal}
use arodonata.Inverse.{
  Outcome, create, PlannedAction, ActionResult, object_fields, service_fields, group_fields,
  rule_fields, Bucket, objects, services, groups, rules, is_write, bucket_of, nonempty, or_uid,
  not_planned, created_uid, effective_outcome, has_failed, is_unsafe, prior_of, in_bucket,
  invert_in, invert_object_action, invert_service_action, invert_single_action, result_of, inverted,
  is_planned,
}

abbrev pub fields_of : Bucket → List String
fields_of objects = object_fields
fields_of services = service_fields
fields_of groups = group_fields
fields_of rules = rule_fields

none_of : (k : String) (js : List String) → holds k js ≡ false → IsKept js k
none_of k [] h = tt
none_of k (j ∷ js) h = (ground arith, none_of k js (ground arith))

kept :
    (js : List String)
    → holds "operation" js ≡ false
    → holds "type" js ≡ false
    → holds "uid" js ≡ false
    → IsKept js "operation" × IsKept js "type" × IsKept js "uid"
kept js o t u = (none_of "operation" js o, none_of "type" js t, none_of "uid" js u)

invert_in-IsReversal :
    (show : Value → String) (b : Bucket) (a : PlannedAction) (outcome : Outcome) (prior : Fields)
    (uid : Option String) (op : Fields)
    → invert_in show b a outcome prior uid ≡ some op
    → IsReversal (fields_of b) a outcome prior uid op
unfolding invert_in invert_object_action invert_service_action
invert_in-IsReversal show objects a outcome prior uid op h =
    invert_by-IsReversal show object_fields a outcome prior uid op
      (kept object_fields refl refl refl) h
invert_in-IsReversal show services a outcome prior uid op h =
    invert_by-IsReversal show service_fields a outcome prior uid op
      (kept service_fields refl refl refl) h
invert_in-IsReversal show groups a outcome prior uid op h =
    invert_group_action-IsReversal show a outcome prior uid op h
invert_in-IsReversal show rules a outcome prior uid op h =
    invert_rule_action-IsReversal show a outcome prior uid op h

-- What the operation has besides its kind, its type, its target and the fields that are copied.
abbrev pub Regains : (Value → String) → Bucket → PlannedAction → Fields → Outcome → Fields → Type 0
Regains show objects a prior outcome op = IsNamed show a prior outcome op
Regains show services a prior outcome op = IsNamed show a prior outcome op
Regains show groups a prior outcome op =
    IsNamed show a prior outcome op × HasMembers show prior outcome op
Regains show rules a prior outcome op = IsPlacedRule show prior outcome op

free :
    (js : List String)
    → holds "name" js ≡ false
    → holds "new-name" js ≡ false
    → IsKept js "name" × IsKept js "new-name"
free js n m = (none_of "name" js n, none_of "new-name" js m)

invert_in-Regains :
    (show : Value → String) (b : Bucket) (a : PlannedAction) (outcome : Outcome) (prior : Fields)
    (uid : Option String) (op : Fields)
    → invert_in show b a outcome prior uid ≡ some op
    → Regains show b a prior outcome op
unfolding invert_in invert_object_action invert_service_action
invert_in-Regains show objects a outcome prior uid op h =
    invert_by-IsNamed show object_fields a outcome prior uid op (free object_fields refl refl) h
invert_in-Regains show services a outcome prior uid op h =
    invert_by-IsNamed show service_fields a outcome prior uid op (free service_fields refl refl) h
invert_in-Regains show groups a outcome prior uid op h =
    invert_group_action-IsNamed show a outcome prior uid op h
invert_in-Regains show rules a outcome prior uid op h =
    invert_rule_action-IsPlacedRule show a outcome prior uid op h

-- An inverted action wrote, did not fail, and is reversed in the bucket of its type.
abbrev pub IsInverted :
    (Value → String) → PlannedAction → Option ActionResult → Bool → Bucket → Fields → Type 0
IsInverted show a r supplied b op =
    (has_failed r ≡ false)
    × (is_write (effective_outcome a r) ≡ true)
    × (is_unsafe (effective_outcome a r) supplied (created_uid a r) ≡ false)
    × (bucket_of a.object_type ≡ some b)
    × IsReversal (fields_of b) a (effective_outcome a r) (prior_of a) (created_uid a r) op
    × Regains show b a (prior_of a) (effective_outcome a r) op

pub invert_single_action-IsInverted :
    (show : Value → String) (a : PlannedAction) (r : Option ActionResult) (supplied : Bool)
    (b : Bucket) (op : Fields)
    → invert_single_action show a r supplied ≡ some (b, op)
    → IsInverted show a r supplied b op
unfolding invert_single_action in_bucket
invert_single_action-IsInverted show a r supplied b op h =
    elim (Bool-cases (
      has_failed r
      || not (is_write (effective_outcome a r))
      || is_unsafe (effective_outcome a r) supplied (created_uid a r))) [
        | inl skipped' ↦ absurd (ground arith)
        | inr goes ↦ elim (Option-cases (bucket_of a.object_type)) [
          | inl unknown ↦ absurd (ground arith)
          | inr (b', known) ↦
              elim (Option-cases
                (invert_in show b' a (effective_outcome a r) (prior_of a) (created_uid a r))) [
                  | inl nothing ↦ absurd (ground arith)
                  | inr (op', gives) ↦
                      let same_bucket : b' ≡ b = ground arith in
                      let same : op' ≡ op = ground arith in
                      let reverses = invert_in-IsReversal show b' a _ _ _ op' gives in
                      (
                        ground arith,
                        ground arith,
                        ground arith,
                        rw (sym same_bucket) known,
                        rw (sym same_bucket, sym same) reverses,
                        rw (sym same_bucket, sym same)
                            (invert_in-Regains show b' a _ _ _ op' gives),
                      )
                ]
        ]
      ]

created_uid-real :
    (a : PlannedAction) (r : Option ActionResult) (u : String)
    → created_uid a r ≡ some u
    → (str_eq u "" ≡ false) × (is_planned u ≡ false)
unfolding created_uid not_planned or_uid nonempty
created_uid-real a r u h = (ground arith, ground arith)

-- What was created is named by its uid.
abbrev pub DeletesByUid : PlannedAction → ActionResult → Fields → Type 0
DeletesByUid a r op =
    (u : String) × (created_uid a (some r) ≡ some u) × (find "uid" op ≡ Value.str u)

deletes_by_uid :
    (a : PlannedAction) (r : ActionResult) (op : Fields) (o : Option String)
    → created_uid a (some r) ≡ o
    → is_unsafe create true o ≡ false
    → NamesUid o op
    → DeletesByUid a r op
unfolding is_unsafe
deletes_by_uid a r op none e safe names = cc
deletes_by_uid a r op (some u) e safe names =
    let (full, real) = created_uid-real a (some r) u e in (u, e, names full real)

-- With a report, an action is inverted only if the report has a result for it that is a success; and
-- what was created is deleted only by a uid that the result or else the plan has, never by its name
-- alone.
pub inverted-reported :
    (show : Value → String) (results : List ActionResult) (a : PlannedAction) (b : Bucket)
    (op : Fields)
    → inverted show (some results) a ≡ some (b, op)
    → (r : ActionResult) × (result_of show a.action_id results ≡ some r)
      × (r.success ≡ true)
      × (r.outcome ≡ create → DeletesByUid a r op)
unfolding inverted has_failed effective_outcome
inverted-reported show results a b op h = elim (Option-cases (result_of show a.action_id results)) [
  | inl absent ↦ absurd (ground arith)
  | inr (r, there) ↦
      let (fine, wrote, safe, known, (kind, type, reverts), regains) =
        invert_single_action-IsInverted show a (some r) true b op (rw (there, inverted) at h) in
      (
        r,
        there,
        ground arith,
        λ created.
            deletes_by_uid a r op (created_uid a (some r)) refl (rw created at safe)
              (rw created at reverts),
      )
]
