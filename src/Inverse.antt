-- ===== src/Inverse.antt =====
-- cpcrud/inverse.py: the template that reverses the applied actions of a plan.
pub mod Actions
pub mod Applied
pub mod Order
pub mod Groups
pub mod Examples
use arodonata.Common.{
  ℕ, String, Bool, true, false, not, ◌&&◌, ◌||◌, Option, none, some, List, [], ◌∷◌, ◌++◌, reverse,
  if◌then◌else◌, str_eq,
}
use arodonata.Common.Json.{Value, Fields, end, find, is_truthy, text_by}
use arodonata.Common.Affixes.{ends_with}
pub use Actions.{
  Outcome, create, update, delete, reuse, unchanged, error, skipped, skipped_dependency, plan_stale,
  PlannedAction, ActionResult, object_fields, service_fields, group_fields, rule_fields,
}
unfoldable pub use Actions.{
  or_value, invert_object_action, invert_service_action, invert_group_action, invert_rule_action,
  is_planned,
}

pub data Bucket : Type 0 where
  objects services groups rules : Bucket

pub is_write : Outcome → Bool
is_write create = true
is_write update = true
is_write delete = true
is_write _ = false

pub is_rule_type : String → Bool
unfolding ends_with
is_rule_type t =
    ends_with "-rule" t
    || str_eq t "access"
    || str_eq t "nat"
    || str_eq t "https"
    || str_eq t "threat"

pub is_group_type : String → Bool
is_group_type t = str_eq t "group" || str_eq t "service-group"

-- `SERVICE_ITEM_TYPES` and `OBJECT_ITEM_TYPES` of cpcrud/state_reader.py.
pub is_service_type : String → Bool
is_service_type t =
    str_eq t "service-tcp"
    || str_eq t "service-udp"
    || str_eq t "service-icmp"
    || str_eq t "service-icmp6"
    || str_eq t "service-other"
    || str_eq t "service-group"

pub is_object_type : String → Bool
is_object_type t =
    str_eq t "host"
    || str_eq t "network"
    || str_eq t "address-range"
    || str_eq t "dns-domain"
    || str_eq t "group"
    || str_eq t "application-site"

pub bucket_of : String → Option Bucket
unfolding is_rule_type is_group_type is_service_type is_object_type
bucket_of t =
    if is_rule_type t
    then some rules
    else if is_group_type t
    then some groups
    else if is_service_type t
    then some services
    else if is_object_type t
    then some objects
    else none

pub nonempty : Option String → Option String
nonempty none = none
nonempty (some s) = if str_eq s "" then none else some s

or_uid : Option String → Option String → Option String
or_uid none b = b
or_uid (some a) b = some a

not_planned : Option String → Option String
unfolding is_planned
not_planned none = none
not_planned (some uid) = if is_planned uid then none else some uid

result_uid : Option ActionResult → Option String
result_uid none = none
result_uid (some r) = r.target_uid

-- The uid of what an action created or changed, without the placeholders of a plan.
pub created_uid : PlannedAction → Option ActionResult → Option String
unfolding not_planned or_uid nonempty result_uid
created_uid a r = not_planned (or_uid (nonempty (result_uid r)) (nonempty a.target_uid))

pub effective_outcome : PlannedAction → Option ActionResult → Outcome
effective_outcome a none = a.outcome
effective_outcome a (some r) = r.outcome

pub has_failed : Option ActionResult → Bool
has_failed none = false
has_failed (some r) = not r.success

pub is_unsafe : Outcome → Bool → Option String → Bool
is_unsafe create true none = true
is_unsafe _ _ _ = false

pub prior_of : PlannedAction → Fields
prior_of a = elim a.prior_state [ none ↦ end | some fs ↦ fs ]

in_bucket : Bucket → Option Fields → Option (Bucket × Fields)
in_bucket b none = none
in_bucket b (some op) = some (b, op)

module _ (show : Value → String) where
  pub invert_in : Bucket → PlannedAction → Outcome → Fields → Option String → Option Fields
  unfolding invert_object_action invert_service_action invert_group_action invert_rule_action
  invert_in objects a o prior uid = invert_object_action show a o prior uid
  invert_in services a o prior uid = invert_service_action show a o prior uid
  invert_in groups a o prior uid = invert_group_action show a o prior uid
  invert_in rules a o prior uid = invert_rule_action show a o prior uid

  -- `_invert_single_action`.
  pub invert_single_action : PlannedAction → Option ActionResult → Bool → Option (Bucket × Fields)
  unfolding effective_outcome has_failed is_write is_unsafe bucket_of in_bucket invert_in prior_of
      created_uid
  invert_single_action a r report_supplied =
      let outcome = effective_outcome a r in
      if has_failed r
        || not (is_write outcome)
        || is_unsafe outcome report_supplied (created_uid a r)
      then none
      else elim (bucket_of a.object_type) [
        | none ↦ none
        | some b ↦ in_bucket b (invert_in b a outcome (prior_of a) (created_uid a r))
      ]

  -- `result_by_id.get(action_id)`: of two results of one action the later counts.
  pub result_of : String → List ActionResult → Option ActionResult
  result_of id [] = none
  result_of id (r ∷ rs) = elim (result_of id rs) [
    | some later ↦ some later
    | none ↦ if str_eq r.action_id id then some r else none
  ]

  -- One action, given the results of a report, if there is one.
  pub inverted : Option (List ActionResult) → PlannedAction → Option (Bucket × Fields)
  unfolding invert_single_action result_of
  inverted none a = invert_single_action a none false
  inverted (some results) a = elim (result_of a.action_id results) [
    | none ↦ none
    | some r ↦ invert_single_action a (some r) true
  ]

-- An entry of `targets`: a bucket that is empty is left out of the dictionary.
pub record Target : Type 0 where
  pub mgmt_name : String
  pub domain : Option String
  pub operations : List Fields
  pub objects_bucket : List Fields
  pub services_bucket : List Fields
  pub groups_bucket : List Fields
  pub rules_bucket : List Fields

pub emit : Bucket → Fields → Target → Target
emit objects op t = record t {
  operations = t.operations ++ op ∷ [];
  objects_bucket = t.objects_bucket ++ op ∷ [];
}
emit services op t = record t {
  operations = t.operations ++ op ∷ [];
  services_bucket = t.services_bucket ++ op ∷ [];
}
emit groups op t = record t {
  operations = t.operations ++ op ∷ [];
  groups_bucket = t.groups_bucket ++ op ∷ [];
}
emit rules op t = record t {
  operations = t.operations ++ op ∷ [];
  rules_bucket = t.rules_bucket ++ op ∷ [];
}

pub record DomainKey : Type 0 where
  pub mgmt_name : String
  pub domain_name : String

pub same_key : DomainKey → DomainKey → Bool
same_key k l = str_eq k.mgmt_name l.mgmt_name && str_eq k.domain_name l.domain_name

pub key_of : PlannedAction → DomainKey
key_of a = record { mgmt_name = a.mgmt_name; domain_name = a.domain_name }

pub record Group : Type 0 where
  pub key : DomainKey
  pub actions : List PlannedAction

-- `domain_order` and `domain_actions`: the groups in the order of their first actions.
pub group_action : PlannedAction → List Group → List Group
unfolding same_key key_of
group_action a [] = record { key = key_of a; actions = a ∷ [] } ∷ []
group_action a (g ∷ gs) =
    let rest = group_action a gs in
    if same_key g.key (key_of a) then record g { actions = g.actions ++ a ∷ [] } ∷ gs else g ∷ rest

pub group_actions : List PlannedAction → List Group → List Group
unfolding group_action
group_actions [] gs = gs
group_actions (a ∷ more) gs = group_actions more (group_action a gs)

-- `build_inverse_template`: of one domain, of none, with the values of the plan's template, or of
-- several.
pub data Template : Type 0 where
  single : Target → Template
  nothing : String → Value → Template
  several : List Target → Template

module _ (show : Value → String) (results : Option (List ActionResult)) where
  -- The loop over the reversed actions of a domain.
  pub emit_all : List PlannedAction → Target → Target
  unfolding emit inverted
  emit_all [] t = t
  emit_all (a ∷ more) t = elim (inverted show results a) [
    | none ↦ emit_all more t
    | some (bucket, op) ↦ emit_all more (emit bucket op t)
  ]

  pub target_of : Group → Target
  unfolding emit_all nonempty
  target_of g = emit_all (reverse g.actions) (record {
    mgmt_name = if str_eq g.key.mgmt_name "" then "default" else g.key.mgmt_name;
    domain = nonempty (some g.key.domain_name);
    operations = [];
    objects_bucket = [];
    services_bucket = [];
    groups_bucket = [];
    rules_bucket = [];
  })

  targets_of : List Group → List Target
  unfolding target_of
  targets_of [] = []
  targets_of (g ∷ gs) = target_of g ∷ targets_of gs

  template_of : Fields → List Target → Template
  unfolding find or_value
  template_of template [] =
      nothing (text_by show (or_value (find "mgmt_name" template) (Value.str "default")))
        (find "domain" template)
  template_of template (t ∷ []) = single t
  template_of template (t ∷ u ∷ ts) = several (t ∷ u ∷ ts)

  pub build_inverse_template : Fields → List PlannedAction → Template
  unfolding template_of targets_of group_actions
  build_inverse_template template actions =
      template_of template (targets_of (group_actions actions []))
