-- ===== src/Executor/Plan.antt =====
-- cpcrud/models.py and cpcrud/executor.py: the planned actions with the fields that the executor reads, the
-- commands it allows, the stamps of domains; and the references of cpcrud/planner.py.
use arodonata.Common.{
  ℕ, String, Bool, true, false, not, ◌||◌, Option, none, some, List, [], ◌∷◌, ◌++◌, if◌then◌else◌,
  ◌==◌, str_eq, any, filter,
}
use arodonata.Common.Text.{strip, is_empty, append}
use arodonata.Common.Affixes.{ends_with}
use arodonata.Common.Json.{Value, str, obj, arr, Fields, find, elements}
use arodonata.Inverse.Actions.{Outcome, create, update, delete, reuse, unchanged, skipped}

pub record PlannedAction : Type 0 where
  pub action_id : String
  pub mgmt_name : String
  pub domain_name : String
  pub object_type : String
  pub name : String
  pub requested_name : String
  pub target_uid : Option String
  pub outcome : Outcome
  pub command : Option String
  pub payload : Fields
  pub desired_spec : Fields
  pub depends_on : List String

pub record ActionResult : Type 0 where
  pub action_id : String
  pub planned_outcome : Outcome
  pub outcome : Outcome
  pub success : Bool
  pub command : Option String
  pub target_uid : Option String

abbrev pub is_write : Outcome → Bool
is_write create = true
is_write update = true
is_write delete = true
is_write _ = false

-- The outcomes that are neither writes nor failures.
abbrev pub is_settled : Outcome → Bool
is_settled unchanged = true
is_settled reuse = true
is_settled skipped = true
is_settled _ = false

abbrev executable_types : List String
executable_types =
    "host" ∷ "network" ∷ "address-range" ∷ "dns-domain" ∷ "group" ∷ "application-site"
    ∷ "service-tcp" ∷ "service-udp" ∷ "service-icmp" ∷ "service-icmp6" ∷ "service-other"
    ∷ "service-group" ∷ "access-rule" ∷ "nat-rule" ∷ "https-rule" ∷ "threat-rule" ∷ []

abbrev verb_of : Outcome → Option String
verb_of create = some "add-"
verb_of update = some "set-"
verb_of delete = some "delete-"
verb_of _ = none

-- `ALLOWED_COMMAND_MAP.get((object_type, outcome))`
unfoldable pub allowed_command : String → Outcome → Option String
allowed_command t o = elim (verb_of o) [
  | none ↦ none
  | some verb ↦ if any (str_eq t) executable_types then some (append verb t) else none
]

-- The command of the action, if it has a text, is the expected one.
abbrev agrees : Option String → String → Bool
agrees none expected = true
agrees (some command) expected = is_empty command || str_eq command expected

-- `resolve_allowlisted_command`; without a result it raises `ValidationError`.
unfoldable pub resolve_command : PlannedAction → Option String
resolve_command a = elim (allowed_command a.object_type a.outcome) [
  | none ↦ none
  | some expected ↦ if agrees a.command expected then some expected else none
]

-- `DomainStamp`, and what a reading of the published head gives.
pub record Stamp : Type 0 where
  pub last_session_uid : Option String
  pub last_published_at : Option ℕ
  pub readable : Bool

pub record Head : Type 0 where
  pub readable : Bool
  pub uid : Option String
  pub published_at : Option ℕ

abbrev same_text : Option String → Option String → Bool
same_text none none = true
same_text (some s) (some t) = str_eq s t
same_text _ t = false

abbrev same_time : Option ℕ → Option ℕ → Bool
same_time none none = true
same_time (some m) (some n) = m == n
same_time _ t = false

-- The two tests of `_is_domain_head_stale`, of which each compares `None` with `None` alone.
unfoldable pub is_head_stale : Option Stamp → Head → Bool
is_head_stale none head = true
is_head_stale (some stamp) head =
    not head.readable
    || (not stamp.readable
        || (not (same_text head.uid stamp.last_session_uid)
            || not (same_time head.published_at stamp.last_published_at)))

-- The stripped text of a value, if it has one.
pub text_ref : Value → List String
text_ref (str s) = if is_empty (strip s) then [] else strip s ∷ []
text_ref _ = []

pub refs_of : List Value → List String
unfolding text_ref
refs_of [] = []
refs_of (v ∷ vs) = text_ref v ++ refs_of vs

-- `_extract_group_references`, as a list.
pub extract_group_references : Fields → List String
unfolding refs_of
extract_group_references spec = elim (find "members" spec) [
  | arr vs ↦ refs_of (elements (arr vs))
  | obj fs ↦ refs_of (elements (find "add" fs)) ++ refs_of (elements (find "remove" fs))
  | _ ↦ []
]

abbrev list_keys : List String
list_keys =
    "source" ∷ "destination" ∷ "service" ∷ "install_on" ∷ "install-on" ∷ "protected_scope"
    ∷ "protected-scope" ∷ []

abbrev text_keys : List String
text_keys =
    "original_source" ∷ "original-source" ∷ "original_destination" ∷ "original-destination"
    ∷ "original_service" ∷ "original-service" ∷ "translated_source" ∷ "translated-source"
    ∷ "translated_destination" ∷ "translated-destination" ∷ "translated_service"
    ∷ "translated-service" ∷ []

pub field_refs : List String → Fields → List String
unfolding refs_of text_ref
field_refs [] spec = []
field_refs (k ∷ ks) spec =
    text_ref (find k spec) ++ (refs_of (elements (find k spec)) ++ field_refs ks spec)

pub text_refs : List String → Fields → List String
unfolding text_ref
text_refs [] spec = []
text_refs (k ∷ ks) spec = text_ref (find k spec) ++ text_refs ks spec

abbrev is_wildcard : String → Bool
is_wildcard s = str_eq s "Any" || str_eq s "any" || str_eq s "Original" || str_eq s "original"

-- `_extract_rule_references`, as a list.
pub extract_rule_references : Fields → List String
unfolding field_refs text_refs
extract_rule_references spec =
    filter (λ s. not (is_wildcard s)) (field_refs list_keys spec ++ text_refs text_keys spec)

-- The references of the specification that the executor checks.
unfoldable pub spec_references : PlannedAction → List String
unfolding extract_group_references extract_rule_references
spec_references a =
    if str_eq a.object_type "group" || str_eq a.object_type "service-group"
    then extract_group_references a.desired_spec
    else if ends_with "-rule" a.object_type
    then extract_rule_references a.desired_spec
    else []
