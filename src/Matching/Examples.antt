-- ===== src/Matching/Examples.antt =====
-- A layer of a web rule and a cleanup rule.
use arodonata.Common.{String, true, none, some, List, [], ◌∷◌, ◌≡◌, refl, str_eq, arith}
use arodonata.Common.Text.{strip, lower}
use arodonata.Common.Json.{Value, Fields, field, end, cons, nil, to_list}
use arodonata.Tasks.{contains}
use arodonata.Numbering.Entries.{access}
use arodonata.Matching.Canonical.Same.{SameMembers}
use arodonata.Matching.Sentinels.{
  normalize_refs, normalize_traffic_list, normalize_nat_original_sentinel, nat_original_object_uid,
}
use arodonata.Matching.Found.{IsIn, IsMatch, match_rule-IsMatch, normalize_traffic_list-same}
use arodonata.Matching.{Rule, match_rule, has_access_traffic, above, resolve_rule_position}

abbrev no_text : Value → String
no_text v = ""

abbrev rule_of : String → String → List String → List String → List String → String → Rule
rule_of uid name source destination service action = record {
  kind = access;
  uid = uid;
  name = name;
  rule_number = none;
  position = 1;
  section_uid = none;
  section_name = some "Web";
  action = some action;
  source = source;
  destination = destination;
  service = service;
  method = none;
  original_source = none;
  original_destination = none;
  original_service = none;
  translated_source = none;
  translated_destination = none;
  translated_service = none;
  raw_data = end;
}

abbrev web : Rule
web = rule_of "w" "" ("any" ∷ []) ("b" ∷ "a" ∷ "b" ∷ []) ("https" ∷ []) "accept"

abbrev cleanup : Rule
cleanup = rule_of "c" "Cleanup rule" [] [] [] "drop"

abbrev rules : List Rule
rules = web ∷ cleanup ∷ []

abbrev desired : Fields
desired = field "source" (Value.str "Any") (
    field "destination" (Value.arr (cons (Value.str "a") (cons (Value.str "b") nil)))
      (field "service" (Value.str "https") (field "action" (Value.str "Accept") end)))

found : match_rule no_text desired access end end rules ≡ some web
unfolding match_rule
found = refl

-- A desired rule without traffic is not matched with the cleanup rule, although its traffic is the same.
not_found : match_rule no_text end access end end (cleanup ∷ []) ≡ none
unfolding match_rule
not_found = refl

original :
    normalize_nat_original_sentinel no_text end (Value.str nat_original_object_uid) ≡ "Original"
unfolding normalize_nat_original_sentinel
original = refl

placed_above :
    resolve_rule_position no_text end (Value.obj (field "bottom" (Value.str "Web") end)) rules []
    ≡ above no_text end "c"
unfolding resolve_rule_position
placed_above = refl

match_rule-IsMatch_example : IsIn web rules × IsMatch no_text desired access end end web
match_rule-IsMatch_example = match_rule-IsMatch no_text desired access end end rules web found

members :
    SameMembers
      (normalize_refs no_text end end (Value.str "b" ∷ Value.str "a" ∷ Value.str "b" ∷ []))
      (normalize_refs no_text end end (Value.str "a" ∷ Value.str "b" ∷ []))
unfolding normalize_refs contains
members u = ground arith

normalize_traffic_list-same_example :
    normalize_traffic_list no_text end end
      (Value.arr (cons (Value.str "b") (cons (Value.str "a") (cons (Value.str "b") nil))))
    ≡ normalize_traffic_list no_text end end
        (Value.arr (cons (Value.str "a") (cons (Value.str "b") nil)))
unfolding to_list
normalize_traffic_list-same_example =
    normalize_traffic_list-same no_text end end
      (cons (Value.str "b") (cons (Value.str "a") (cons (Value.str "b") nil)))
      (cons (Value.str "a") (cons (Value.str "b") nil)) members

abbrev named : Fields
named = field "name" (Value.str "Cleanup Rule") end

same_traffic_there : has_access_traffic no_text named access end end cleanup ≡ true
unfolding has_access_traffic
same_traffic_there = refl

is_named : str_eq (lower (strip "Cleanup rule")) "cleanup rule" ≡ true
unfolding lower strip
is_named = refl
