-- ===== src/Inverse/Examples.antt =====
-- A plan that creates a host and updates a group of the same domain.
use arodonata.Common.{String, true, Option, none, some, List, [], ◌∷◌, ◌≡◌, refl}
use arodonata.Common.Json.{Value, Fields, field, end, cons, nil}
use arodonata.Inverse.{
  Outcome, create, update, PlannedAction, ActionResult, objects, single, DomainKey, Group, key_of,
  group_actions, build_inverse_template, inverted, result_of,
}
use arodonata.Inverse.Applied.{DeletesByUid, inverted-reported}
use arodonata.Inverse.Groups.{actions_of, of_domain, HasDistinctKeys, group_actions-IsGrouping}

abbrev no_text : Value → String
no_text v = ""

abbrev action : String → String → String → Outcome → Option Fields → PlannedAction
action id type name outcome prior = record {
  action_id = id;
  mgmt_name = "m";
  domain_name = "d";
  object_type = type;
  name = name;
  resolved_name = name;
  target_uid = none;
  layer = none;
  policy_package = none;
  outcome = outcome;
  prior_state = prior;
  desired_spec = end;
}

abbrev creates_host : PlannedAction
creates_host = action "1" "host" "h" create none

abbrev updates_group : PlannedAction
updates_group = action "2" "group" "g" update (
    some (
      field "uid" (Value.str "G") (
        field "members" (Value.arr (cons (Value.str "x") nil))
          (field "color" (Value.str "red") end))))

abbrev created : ActionResult
created = record { action_id = "1"; target_uid = some "H"; outcome = create; success = true }

abbrev updated : ActionResult
updated = record { action_id = "2"; target_uid = some "G"; outcome = update; success = true }

abbrev results : List ActionResult
results = created ∷ updated ∷ []

abbrev deletes_host : Fields
deletes_host = field "operation" (Value.str "delete") (
    field "type" (Value.str "host")
      (field "name" (Value.str "h") (field "uid" (Value.str "H") end)))

abbrev sets_group : Fields
sets_group = field "operation" (Value.str "set") (
    field "type" (Value.str "group") (
      field "name" (Value.str "g") (
        field "uid" (Value.str "G") (
          field "members" (Value.arr (cons (Value.str "x") nil))
            (field "color" (Value.str "red") end)))))

inverts_reported : inverted no_text (some results) creates_host ≡ some (objects, deletes_host)
unfolding inverted
inverts_reported = refl

-- The group is restored before the host is deleted.
reversed :
    build_inverse_template no_text (some results) end (creates_host ∷ updates_group ∷ [])
    ≡ single (record {
      mgmt_name = "m";
      domain = some "d";
      operations = sets_group ∷ deletes_host ∷ [];
      objects_bucket = deletes_host ∷ [];
      services_bucket = [];
      groups_bucket = sets_group ∷ [];
      rules_bucket = [];
    })
unfolding build_inverse_template
reversed = refl

inverted-reported_example :
    (r : ActionResult) × (result_of no_text "1" results ≡ some r)
    × (r.success ≡ true)
    × (r.outcome ≡ create → DeletesByUid creates_host r deletes_host)
inverted-reported_example =
    inverted-reported no_text results creates_host objects deletes_host inverts_reported

abbrev group : Group
group = record { key = key_of creates_host; actions = creates_host ∷ updates_group ∷ [] }

group_actions-IsGrouping_example :
    HasDistinctKeys (group_actions (creates_host ∷ updates_group ∷ []) [])
    × ((k : DomainKey)
        → actions_of k (group_actions (creates_host ∷ updates_group ∷ []) [])
          ≡ of_domain k (creates_host ∷ updates_group ∷ []))
group_actions-IsGrouping_example = group_actions-IsGrouping (creates_host ∷ updates_group ∷ [])
