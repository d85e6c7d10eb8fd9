-- ===== src/Matching.antt =====
-- cpcrud/rule_identity.py and cpcrud/position_helper.py: how a desired rule is matched with the rules
-- that exist, and where it is placed. `show` is Python's `str` of a value that is not a text. A name
-- map is a dictionary; one that is None is the empty one, which the code treats alike.
pub mod Texts
pub mod Canonical
mod Sentinels
mod Rules
pub mod Found
pub mod Placed
pub mod Examples
use arodonata.Common.{
  ℕ, String, Bool, true, false, not, ◌&&◌, ◌||◌, Option, none, some, List, [], ◌∷◌, ◌++◌,
  if◌then◌else◌, str_eq,
}
use arodonata.Common.Text.{strip, lower}
use arodonata.Common.Json.{Value, Fields, field, end, find, has_field, is_truthy, text_by}
use arodonata.Numbering.Entries.{RulebaseType, access, nat, https, threat, same_type, SectionEntry}
use arodonata.Tasks.{contains}
use Texts.{contains_text, is_digit, int_of}
use Sentinels.{text_or, normalize_any_sentinel}
pub use Rules.{Rule, Traffic}
unfoldable pub use Rules.{
  is_nat, existing_access_traffic, existing_nat_traffic, desired_access_traffic,
  desired_nat_traffic, same_traffic, same_texts, existing_sets, raw_or,
}

-- The first rule that passes a test.
pub first : (Rule → Bool) → List Rule → Option Rule
first p [] = none
first p (r ∷ rs) = if p r then some r else first p rs

module _ (show : Value → String) (spec : Fields) (t : RulebaseType)
    (objects resolutions : Fields) where
  pub requested : String → String
  unfolding text_or find strip
  requested key = strip (text_or show "" (find key spec))

  pub number_value : Value
  unfolding find has_field
  number_value =
      if has_field "rule_number" spec then find "rule_number" spec else find "rule-number" spec

  pub has_number : String → Rule → Bool
  has_number number r =
      (elim r.rule_number [ none ↦ false | some n ↦ str_eq n number ])
      || str_eq (show (Value.num r.position)) number

  has_traffic_fields : Bool
  unfolding has_field
  has_traffic_fields =
      has_field "source" spec
      || has_field "destination" spec
      || has_field "service" spec
      || has_field "rule_action" spec
      || has_field "action" spec

  pub is_skipped_cleanup : Rule → Bool
  unfolding strip lower requested
  is_skipped_cleanup r =
      str_eq (lower (strip r.name)) "cleanup rule"
      && not (str_eq (lower (requested "name")) "cleanup rule")

  pub has_nat_traffic : Rule → Bool
  unfolding is_nat existing_nat_traffic desired_nat_traffic same_texts
  has_nat_traffic r =
      is_nat r
      && same_texts (existing_nat_traffic show r objects)
          (desired_nat_traffic show spec resolutions)

  pub has_access_traffic : Rule → Bool
  unfolding is_nat existing_access_traffic desired_access_traffic same_traffic is_skipped_cleanup
  has_access_traffic r =
      not (is_nat r)
      && not (is_skipped_cleanup r)
      && same_traffic (existing_access_traffic show r objects)
          (desired_access_traffic show spec resolutions)

  pub match_traffic : List Rule → Option Rule
  unfolding first same_type has_nat_traffic has_access_traffic has_traffic_fields requested
  match_traffic rules =
      if same_type t nat
      then first has_nat_traffic rules
      else if str_eq (requested "name") "" || has_traffic_fields
      then first has_access_traffic rules
      else none

  pub is_missing : Value → Bool
  is_missing Value.null = true
  is_missing _ = false

  -- Neither a uid nor a name decided.
  pub match_unnamed : List Rule → Option Rule
  unfolding is_missing number_value first has_number match_traffic strip
  match_unnamed rules =
      if is_missing number_value
      then match_traffic rules
      else first (has_number (strip (text_by show number_value))) rules

  pub match_named : List Rule → Option Rule
  unfolding first requested
  match_named rules =
      if str_eq (requested "name") ""
      then none
      else first (λ r. str_eq r.name (requested "name")) rules

  pub or_match : Option Rule → Option Rule → Option Rule
  or_match none other = other
  or_match (some r) other = some r

  pub match_rule : List Rule → Option Rule
  unfolding first requested match_named or_match match_unnamed
  match_rule rules =
      if str_eq (requested "uid") ""
      then or_match (match_named rules) (match_unnamed rules)
      else first (λ r. str_eq r.uid (requested "uid")) rules

module _ (show : Value → String) (objects : Fields) where
  pub is_named_cleanup : Rule → Bool
  unfolding contains_text strip lower
  is_named_cleanup r = contains_text "cleanup" (lower (strip r.name))

  is_any_list : List String → Bool
  is_any_list (x ∷ []) = str_eq x "Any"
  is_any_list _ = false

  -- `Any / Any / Any`.
  pub has_any_sets : Rule → Bool
  unfolding is_any_list existing_sets
  has_any_sets r =
      is_any_list (existing_sets show r objects "source" r.source)
      && is_any_list (existing_sets show r objects "destination" r.destination)
      && is_any_list (existing_sets show r objects "service" r.service)

  has_any_originals : Rule → Bool
  unfolding normalize_any_sentinel raw_or
  has_any_originals r =
      str_eq (normalize_any_sentinel show objects (raw_or r "original-source" r.original_source))
        "Any"
      && str_eq
          (normalize_any_sentinel show objects
            (raw_or r "original-destination" r.original_destination))
          "Any"
      && str_eq
          (normalize_any_sentinel show objects (raw_or r "original-service" r.original_service))
          "Any"

  -- A rule that is named a cleanup rule counts as one whatever its traffic is.
  pub is_cleanup_rule : Rule → Bool
  unfolding is_named_cleanup is_nat has_any_sets has_any_originals
  is_cleanup_rule r =
      if is_named_cleanup r
      then if is_nat r
        then if has_any_originals r then true else true
        else if has_any_sets r
        then true
        else true
      else if is_nat r
      then false
      else has_any_sets r

  pub last_rule : List Rule → Option Rule
  last_rule [] = none
  last_rule (r ∷ []) = some r
  last_rule (r ∷ s ∷ rs) = last_rule (s ∷ rs)

  pub above : String → Value
  above uid = Value.obj (field "above" (Value.str uid) end)

  -- Above the last of some rules if it is a cleanup rule, and else the other position.
  pub above_cleanup : List Rule → Value → Value
  unfolding last_rule is_cleanup_rule above
  above_cleanup rules other = elim (last_rule rules) [
    | none ↦ other
    | some r ↦ if is_cleanup_rule r then above r.uid else other
  ]

  pub keep_rules : (Rule → Bool) → List Rule → List Rule
  keep_rules p [] = []
  keep_rules p (r ∷ rs) = let rest = keep_rules p rs in if p r then r ∷ rest else rest

  is_text : Option String → String → Bool
  is_text none s = false
  is_text (some t) s = str_eq t s

  listed_rules : String → List SectionEntry → List Rule → List Rule
  unfolding keep_rules contains
  listed_rules target [] rules = []
  listed_rules target (sec ∷ secs) rules =
      if str_eq sec.name target || str_eq sec.uid target
      then keep_rules (λ r. contains r.uid sec.rule_uids) rules
      else listed_rules target secs rules

  pub or_rules : List Rule → List Rule → List Rule
  or_rules [] other = other
  or_rules (r ∷ rs) other = r ∷ rs

  -- The rules that name the section, or if there are none, those that the section lists.
  pub section_rules : String → List SectionEntry → List Rule → List Rule
  unfolding keep_rules is_text listed_rules or_rules
  section_rules target sections rules =
      or_rules
        (keep_rules (λ r. is_text r.section_name target || is_text r.section_uid target) rules)
        (listed_rules target sections rules)

  texts_of : Fields → Fields
  texts_of end = end
  texts_of (field k v fs) = field k (Value.str (text_by show v)) (texts_of fs)

  position_text : String → List Rule → Value
  unfolding above_cleanup strip lower is_digit int_of
  position_text s rules =
      if str_eq (lower (strip s)) "bottom"
      then above_cleanup rules (Value.str "bottom")
      else if str_eq (lower (strip s)) "top"
      then Value.str "top"
      else if is_digit (lower (strip s))
      then Value.num (int_of (lower (strip s)))
      else Value.str s

  position_fields : Fields → List Rule → List SectionEntry → Value
  unfolding find has_field strip section_rules above_cleanup texts_of
  position_fields fs rules sections =
      let target = strip (text_by show (find "bottom" fs)) in
      if has_field "bottom" fs
      then above_cleanup (section_rules target sections rules)
          (Value.obj (field "bottom" (Value.str target) end))
      else Value.obj (texts_of fs)

  pub resolve_rule_position : Value → List Rule → List SectionEntry → Value
  unfolding position_text position_fields
  resolve_rule_position Value.null rules sections = position_text "bottom" rules
  resolve_rule_position (Value.num n) rules sections = Value.num n
  resolve_rule_position (Value.bool b) rules sections = Value.bool b
  resolve_rule_position (Value.str s) rules sections = position_text s rules
  resolve_rule_position (Value.obj fs) rules sections = position_fields fs rules sections
  resolve_rule_position (Value.arr vs) rules sections = Value.str "bottom"
