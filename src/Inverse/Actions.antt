-- ===== src/Inverse/Actions.antt =====
-- cpcrud/models.py: a planned action and its result, with the fields that inversion reads; and the
-- four inversions of cpcrud/inverse.py, of objects, services, groups and rules. A dictionary is a list
-- of fields. `show` is Python's `str` of a value that is not a text.
pub mod Restores
pub mod Reversal
pub mod Rules
pub mod Named
pub mod Placed
use arodonata.Common.{
  ℕ, zero, suc, String, Bool, true, false, not, ◌&&◌, ◌||◌, Option, none, some, List, [], ◌∷◌,
  if◌then◌else◌, str_eq,
}
use arodonata.Common.Json.{
  Value, Fields, field, end, Items, cons, nil, find, has_field, is_truthy, put, text_by,
}
use arodonata.Common.Affixes.{starts_with}

pub data Outcome : Type 0 where
  create update delete reuse unchanged error skipped skipped_dependency plan_stale : Outcome

pub record PlannedAction : Type 0 where
  pub action_id : String
  pub mgmt_name : String
  pub domain_name : String
  pub object_type : String
  pub name : String
  pub resolved_name : String
  pub target_uid : Option String
  pub layer : Option String
  pub policy_package : Option String
  pub outcome : Outcome
  pub prior_state : Option Fields
  pub desired_spec : Fields

pub record ActionResult : Type 0 where
  pub action_id : String
  pub target_uid : Option String
  pub outcome : Outcome
  pub success : Bool

pub is_null : Value → Bool
is_null Value.null = true
is_null _ = false

-- `for k in keys: if k in prior and prior[k] is not None: op[k] = prior[k]`.
pub copy_fields : List String → Fields → Fields → Fields
unfolding find is_null put
copy_fields [] prior op = op
copy_fields (k ∷ ks) prior op =
    copy_fields ks prior (if is_null (find k prior) then op else put k (find k prior) op)

-- `a or b` on texts.
pub or_text : String → String → String
or_text a b = if str_eq a "" then b else a

unfoldable pub or_value : Value → Value → Value
unfolding is_truthy
or_value a b = if is_truthy a then a else b

pub optional : Option String → Value
optional none = Value.null
optional (some s) = Value.str s

-- `if v: op[key] = str(v)`.
pub put_truthy : (Value → String) → String → Value → Fields → Fields
unfolding is_truthy put
put_truthy show key v op = if is_truthy v then put key (Value.str (text_by show v)) op else op

unfoldable pub is_planned : String → Bool
unfolding starts_with
is_planned uid = starts_with "planned:" uid

-- `if target_uid and not target_uid.startswith("planned:"): op["uid"] = target_uid`.
pub put_uid : Option String → Fields → Fields
unfolding put is_planned
put_uid none op = op
put_uid (some uid) op = if str_eq uid "" || is_planned uid then op else put "uid" (Value.str uid) op

abbrev pub object_fields : List String
object_fields =
    "ipv4-address" ∷ "ipv6-address" ∷ "subnet4" ∷ "mask-length4" ∷ "ipv4-address-first"
    ∷ "ipv4-address-last" ∷ "is-sub-domain" ∷ "primary-category" ∷ "url-list"
    ∷ "urls-defined-as-regular-expression" ∷ "description" ∷ "application-signature"
    ∷ "additional-categories" ∷ "comments" ∷ "color" ∷ "tags" ∷ "groups" ∷ "nat-settings"
    ∷ "ignore-warnings" ∷ "set-if-exists" ∷ []

abbrev pub service_fields : List String
service_fields =
    "port" ∷ "protocol" ∷ "icmp-type" ∷ "icmp-code" ∷ "session-timeout" ∷ "match-for-any"
    ∷ "comments" ∷ "color" ∷ "tags" ∷ "groups" ∷ "ignore-warnings" ∷ "set-if-exists" ∷ []

abbrev pub group_fields : List String
group_fields = "comments" ∷ "color" ∷ "tags" ∷ []

abbrev pub rule_fields : List String
rule_fields =
    "enabled" ∷ "comments" ∷ "source" ∷ "destination" ∷ "service" ∷ "source-negate"
    ∷ "destination-negate" ∷ "service-negate" ∷ "rule_action" ∷ "track" ∷ "install-on"
    ∷ "inline-layer" ∷ "protected-scope" ∷ "site-category" ∷ "certificate" ∷ "method"
    ∷ "original-source" ∷ "original-destination" ∷ "original-service" ∷ "translated-source"
    ∷ "translated-destination" ∷ "translated-service" ∷ []

-- `{"operation": ..., "type": ...}`.
pub head_of : String → String → Fields
head_of operation type = field "operation" (Value.str operation) (field "type" (Value.str type) end)

module _ (show : Value → String) where
  -- `str(prior.get("name") or action.name)`.
  pub prior_name : PlannedAction → Fields → String
  unfolding find or_value
  prior_name a prior = text_by show (or_value (find "name" prior) (Value.str a.name))

  pub current_name : PlannedAction → String
  unfolding or_text
  current_name a = or_text a.resolved_name a.name

  -- The deletion of what was created.
  pub delete_created : PlannedAction → Option String → Fields
  unfolding head_of put put_uid current_name
  delete_created a uid =
      put_uid uid (put "name" (Value.str (current_name a)) (head_of "delete" a.object_type))

  pub put_target : Option String → Fields → Fields → Fields
  unfolding find put put_truthy
  put_target none prior op = put_truthy show "uid" (find "uid" prior) op
  put_target (some uid) prior op =
      if str_eq uid ""
      then put_truthy show "uid" (find "uid" prior) op
      else put "uid" (Value.str uid) op

  -- `set`, with the prior name if the two differ.
  pub set_updated : PlannedAction → Fields → Option String → Fields
  unfolding head_of put put_target current_name prior_name
  set_updated a prior uid =
      let op =
        put_target uid prior
          (put "name" (Value.str (current_name a)) (head_of "set" a.object_type)) in
      if str_eq (prior_name a prior) (current_name a)
      then op
      else put "new-name" (Value.str (prior_name a prior)) op

  pub add_deleted : PlannedAction → Fields → Fields
  unfolding head_of put prior_name
  add_deleted a prior = put "name" (Value.str (prior_name a prior)) (head_of "add" a.object_type)

  pub texts : Items → Items
  texts nil = nil
  texts (cons v vs) = cons (Value.str (text_by show v)) (texts vs)

  pub put_members_of : Value → Fields → Fields
  unfolding put texts
  put_members_of (Value.arr vs) op = put "members" (Value.arr (texts vs)) op
  put_members_of _ op = op

  pub put_members : Fields → Fields → Fields
  unfolding find put_members_of
  put_members prior op = put_members_of (find "members" prior) op

  -- `if not prior: return None`.
  pub unless_empty : Fields → Fields → Option Fields
  unless_empty end op = none
  unless_empty (field k v fs) op = some op

  -- `_invert_object_action` and `_invert_service_action` differ in the fields they restore.
  pub invert_by : List String → PlannedAction → Outcome → Fields → Option String → Option Fields
  unfolding copy_fields delete_created set_updated add_deleted unless_empty
  invert_by keys a create prior uid = some (delete_created a uid)
  invert_by keys a update prior uid =
      unless_empty prior (copy_fields keys prior (set_updated a prior uid))
  invert_by keys a delete prior uid =
      unless_empty prior (copy_fields keys prior (add_deleted a prior))
  invert_by keys a _ prior uid = none

  unfoldable pub invert_object_action :
      PlannedAction → Outcome → Fields → Option String → Option Fields
  unfolding invert_by
  invert_object_action a outcome prior uid = invert_by object_fields a outcome prior uid

  unfoldable pub invert_service_action :
      PlannedAction → Outcome → Fields → Option String → Option Fields
  unfolding invert_by
  invert_service_action a outcome prior uid = invert_by service_fields a outcome prior uid

  unfoldable pub invert_group_action :
      PlannedAction → Outcome → Fields → Option String → Option Fields
  unfolding copy_fields delete_created set_updated add_deleted unless_empty put_members
  invert_group_action a create prior uid = some (delete_created a uid)
  invert_group_action a update prior uid =
      unless_empty prior
        (copy_fields group_fields prior (put_members prior (set_updated a prior uid)))
  invert_group_action a delete prior uid =
      unless_empty prior (copy_fields group_fields prior (put_members prior (add_deleted a prior)))
  invert_group_action a _ prior uid = none

  -- `action.layer or prior.get("layer") or action.desired_spec.get("layer")`, and the package likewise.
  pub place_of : String → Option String → PlannedAction → Fields → Value
  unfolding find or_value optional
  place_of key own a prior =
      or_value (optional own) (or_value (find key prior) (find key a.desired_spec))

  pub rule_head : String → PlannedAction → Fields → Fields
  unfolding head_of put_truthy place_of
  rule_head operation a prior =
      put_truthy show "package" (place_of "package" a.policy_package a prior) (
        put_truthy show "layer" (place_of "layer" a.layer a prior)
          (head_of operation a.object_type))

  pub is_position : Value → Bool
  is_position (Value.num zero) = false
  is_position (Value.num (suc n)) = true
  is_position (Value.bool b) = b
  is_position (Value.str s) = str_eq s "top" || str_eq s "bottom"
  is_position _ = false

  pub position_of : Fields → Value
  unfolding find is_position
  position_of prior =
      if is_position (find "position" prior) then find "position" prior else Value.str "bottom"

  pub put_present : String → Value → Fields → Fields
  unfolding put is_null
  put_present key v op = if is_null v then op else put key (Value.str (text_by show v)) op

  unfoldable pub invert_rule_action :
      PlannedAction → Outcome → Fields → Option String → Option Fields
  unfolding copy_fields rule_head put_uid put_truthy put_present or_value optional unless_empty
      position_of find put
  invert_rule_action a create prior uid =
      some (put_truthy show "name" (Value.str a.name) (put_uid uid (rule_head "delete" a prior)))
  invert_rule_action a update prior uid = unless_empty prior (
      copy_fields rule_fields prior (
        put_present "name" (find "name" prior) (
          put_truthy show "uid" (or_value (optional uid) (find "uid" prior))
            (rule_head "set" a prior))))
  invert_rule_action a delete prior uid = unless_empty prior (
      copy_fields rule_fields prior (
        put "position" (position_of prior)
          (put_truthy show "name" (find "name" prior) (rule_head "add" a prior))))
  invert_rule_action a _ prior uid = none
