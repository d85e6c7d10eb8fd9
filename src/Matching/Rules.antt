-- ===== src/Matching/Rules.antt =====
-- cpcrud/rule_identity.py: the traffic of a desired rule and of one that exists. A rule has the
-- fields of all its four types that matching reads.
use arodonata.Common.{
  ℕ, String, Bool, true, false, ◌&&◌, ◌||◌, Option, none, some, List, [], ◌∷◌, if◌then◌else◌,
  str_eq,
}
use arodonata.Common.Text.{strip, lower}
use arodonata.Common.Json.{Value, Fields, end, Items, cons, nil, find, has_field, is_truthy}
use arodonata.Numbering.Entries.{RulebaseType, nat, same_type}
use arodonata.Matching.Texts.{capitalize}
use arodonata.Matching.Sentinels.{text_or, normalize_traffic_list, normalize_nat_traffic_ref}

pub record Rule : Type 0 where
  pub kind : RulebaseType
  pub uid : String
  pub name : String
  pub rule_number : Option String
  pub position : ℕ
  pub section_uid : Option String
  pub section_name : Option String
  pub action : Option String
  pub source : List String
  pub destination : List String
  pub service : List String
  pub method : Option String
  pub original_source : Option String
  pub original_destination : Option String
  pub original_service : Option String
  pub translated_source : Option String
  pub translated_destination : Option String
  pub translated_service : Option String
  pub raw_data : Fields

pub record Traffic : Type 0 where
  pub source : List String
  pub destination : List String
  pub service : List String
  pub action : String

unfoldable pub is_nat : Rule → Bool
unfolding same_type
is_nat r = same_type r.kind nat

unfoldable pub same_texts : List String → List String → Bool
same_texts [] [] = true
same_texts (x ∷ xs) (y ∷ ys) = str_eq x y && same_texts xs ys
same_texts _ _ = false

unfoldable pub same_traffic : Traffic → Traffic → Bool
unfolding same_texts
same_traffic a b =
    same_texts a.source b.source
    && same_texts a.destination b.destination
    && same_texts a.service b.service
    && str_eq a.action b.action

text_items : List String → Items
text_items [] = nil
text_items (x ∷ xs) = cons (Value.str x) (text_items xs)

-- `rule.source or raw.get("source")`.
list_or : List String → Value → Value
unfolding text_items
list_or [] v = v
list_or (x ∷ xs) v = Value.arr (text_items (x ∷ xs))

-- `rule.original_source or raw.get("original-source")`.
unfoldable pub raw_or : Rule → String → Option String → Value
unfolding find
raw_or r key none = find key r.raw_data
raw_or r key (some s) = if str_eq s "" then find key r.raw_data else Value.str s

-- `rule.original_source if ... is not None else raw.get("original-source")`.
raw_unless : Rule → String → Option String → Value
unfolding find
raw_unless r key none = find key r.raw_data
raw_unless r key (some s) = Value.str s

or_text : Option String → String → String
or_text none default = default
or_text (some s) default = if str_eq s "" then default else s

is_operation : String → Bool
is_operation s =
    str_eq s "present"
    || str_eq s "absent"
    || str_eq s "add"
    || str_eq s "set"
    || str_eq s "update"
    || str_eq s "delete"

first_truthy : Value → Value → Value
unfolding is_truthy
first_truthy v w = if is_truthy v then v else w

module _ (show : Value → String) where
  names_operation : Value → Bool
  unfolding is_operation lower
  names_operation (Value.str s) = is_operation (lower s)
  names_operation _ = false

  action_value : Fields → Value
  unfolding find first_truthy names_operation
  action_value spec =
      let raw = first_truthy (find "rule_action" spec) (find "action" spec) in
      if names_operation raw then first_truthy (find "rule_action" spec) (Value.str "Drop") else raw

  unfoldable pub desired_access_traffic : Fields → Fields → Traffic
  unfolding normalize_traffic_list find action_value text_or capitalize strip
  desired_access_traffic spec resolutions = record {
    source = normalize_traffic_list show end resolutions (find "source" spec);
    destination = normalize_traffic_list show end resolutions (find "destination" spec);
    service = normalize_traffic_list show end resolutions (find "service" spec);
    action = capitalize (strip (text_or show "Drop" (action_value spec)));
  }

  unfoldable pub existing_sets : Rule → Fields → String → List String → List String
  unfolding normalize_traffic_list list_or find
  existing_sets r objects key own =
      normalize_traffic_list show objects end (list_or own (find key r.raw_data))

  unfoldable pub existing_access_traffic : Rule → Fields → Traffic
  unfolding existing_sets or_text capitalize strip
  existing_access_traffic r objects = record {
    source = existing_sets r objects "source" r.source;
    destination = existing_sets r objects "destination" r.destination;
    service = existing_sets r objects "service" r.service;
    action = capitalize (strip (or_text r.action "Drop"));
  }

  -- `spec.get("original_source", spec.get("original-source"))`.
  either : String → String → Fields → Value
  unfolding find has_field
  either key other spec = if has_field key spec then find key spec else find other spec

  unfoldable pub desired_nat_traffic : Fields → Fields → List String
  unfolding normalize_nat_traffic_ref either text_or find strip lower
  desired_nat_traffic spec resolutions =
      normalize_nat_traffic_ref show end resolutions false
        (either "original_source" "original-source" spec)
      ∷ normalize_nat_traffic_ref show end resolutions false
          (either "original_destination" "original-destination" spec)
      ∷ normalize_nat_traffic_ref show end resolutions false
          (either "original_service" "original-service" spec)
      ∷ normalize_nat_traffic_ref show end resolutions true
          (either "translated_source" "translated-source" spec)
      ∷ normalize_nat_traffic_ref show end resolutions true
          (either "translated_destination" "translated-destination" spec)
      ∷ normalize_nat_traffic_ref show end resolutions true
          (either "translated_service" "translated-service" spec)
      ∷ lower (strip (text_or show "static" (find "method" spec)))
      ∷ []

  unfoldable pub existing_nat_traffic : Rule → Fields → List String
  unfolding normalize_nat_traffic_ref raw_unless raw_or text_or strip lower
  existing_nat_traffic r objects =
      normalize_nat_traffic_ref show objects end false
        (raw_unless r "original-source" r.original_source)
      ∷ normalize_nat_traffic_ref show objects end false
          (raw_unless r "original-destination" r.original_destination)
      ∷ normalize_nat_traffic_ref show objects end false
          (raw_unless r "original-service" r.original_service)
      ∷ normalize_nat_traffic_ref show objects end true
          (raw_unless r "translated-source" r.translated_source)
      ∷ normalize_nat_traffic_ref show objects end true
          (raw_unless r "translated-destination" r.translated_destination)
      ∷ normalize_nat_traffic_ref show objects end true
          (raw_unless r "translated-service" r.translated_service)
      ∷ lower (strip (text_or show "static" (raw_or r "method" r.method)))
      ∷ []
