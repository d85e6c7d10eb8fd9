-- ===== src/Numbering/Examples.antt =====
-- A layer of two rules, the second of which has an inline layer of two rules.
use arodonata.Common.{
  ℕ, String, true, false, Option, none, some, List, [], ◌∷◌, ◌≡◌, refl, sym, ◌∙◌, arith, inl, inr,
  ◌⊎◌, str_eq_iff,
}
use arodonata.Numbering.Entries.{
  Snapshot, LayerEntry, RuleEntry, access, nat, https, threat, RulebaseType, truthy, find_layer,
  find_in_layers, find_in_packages, find_in_rules,
}
use arodonata.Numbering.Models.{RuleNumber, flatten}
use arodonata.Numbering.{
  Request, Numbering, number_layer, missing, mem_str, number_found, number_entries, sorted_entries,
  expand, expansion,
}
use arodonata.Numbering.Nested.{IsListed}
use arodonata.Numbering.Returns.{ListsReferences, FindsByUid, number_layer_returns}
use arodonata.Numbering.Ascending.{IsAscending, Precedes, numbers, number_layer-IsAscending}

abbrev rule_in : String → String → ℕ → Option String → RuleEntry
rule_in layer uid position inline = record {
  uid = uid;
  name = "";
  layer_uid = layer;
  layer_name = layer;
  position = position;
  is_placeholder = false;
  inline_layer_uid = inline;
  placeholder_domain_layer_uid = none;
  section_uid = none;
}

abbrev snapshot : Snapshot
snapshot = record {
  layers =
      record { uid = "L"; name = "Network"; rulebase_type = access; is_global = false }
      ∷ record { uid = "M"; name = "Web"; rulebase_type = access; is_global = false }
      ∷ [];
  package_layers = [];
  sections = [];
  access_rules =
      rule_in "L" "r2" 2 (some "M")
      ∷ rule_in "M" "w1" 1 (some "L")
      ∷ rule_in "L" "r1" 1 none
      ∷ rule_in "M" "w2" 2 none
      ∷ [];
  https_rules = [];
  threat_rules = [];
  nat_rules = [];
}

abbrev request : Request
request = record {
  target = " Network ";
  rulebase_type = some access;
  prefix = [];
  parent_rule_uid = none;
  fallback_domain_layer_uid = none;
  expand_placeholders = false;
  expand_inline_layers = true;
  visited = [];
}

abbrev result_numbers : Option Numbering → List RuleNumber
result_numbers none = []
result_numbers (some n) = numbers n.flat_rules

numbered :
    result_numbers (number_layer 3 snapshot request)
    ≡ (1 ∷ []) ∷ (2 ∷ []) ∷ (2 ∷ 1 ∷ []) ∷ (2 ∷ 2 ∷ []) ∷ []
unfolding number_layer find_layer find_in_layers number_found number_entries sorted_entries expand
    expansion flatten
numbered = refl

abbrev network : Numbering
network = elim (number_layer 3 snapshot request) [ none ↦ missing request | some n ↦ n ]

network_found : number_layer 3 snapshot request ≡ some network
unfolding number_layer find_layer find_in_layers number_found number_entries sorted_entries expand
    expansion flatten
network_found = refl

number_layer-IsAscending_example :
    IsAscending (numbers network.flat_rules) × ((m : RuleNumber) → ¬ Precedes m m)
number_layer-IsAscending_example = number_layer-IsAscending 3 snapshot request network network_found

-- The two layers refer to each other.
abbrev refs : List String
refs = "M" ∷ "L" ∷ []

IsListed-M : IsListed refs (some "M")
unfolding truthy mem_str
IsListed-M u e = ground (arith, str_eq_iff "M" u)

IsListed-L : IsListed refs (some "L")
unfolding truthy mem_str
IsListed-L u e = ground (arith, str_eq_iff "L" u)

IsListed-none : IsListed refs none
unfolding truthy
IsListed-none u e = cc

references : ListsReferences refs snapshot
references = (
  (
    (IsListed-M, IsListed-none),
    (
      (IsListed-L, IsListed-none),
      ((IsListed-none, IsListed-none), ((IsListed-none, IsListed-none), tt)),
    ),
  ),
  tt,
  tt,
)

found_M :
    (t : Option RulebaseType) (layer : LayerEntry)
    → find_layer snapshot "M" t ≡ some layer
    → layer.uid ≡ "M"
unfolding find_layer find_in_layers find_in_packages find_in_rules
found_M none layer e = ground arith
found_M (some access) layer e = ground arith
found_M (some nat) layer e = ground arith
found_M (some https) layer e = ground arith
found_M (some threat) layer e = ground arith

found_L :
    (t : Option RulebaseType) (layer : LayerEntry)
    → find_layer snapshot "L" t ≡ some layer
    → layer.uid ≡ "L"
unfolding find_layer find_in_layers find_in_packages find_in_rules
found_L none layer e = ground arith
found_L (some access) layer e = ground arith
found_L (some nat) layer e = ground arith
found_L (some https) layer e = ground arith
found_L (some threat) layer e = ground arith

one_of : (u : String) → mem_str u refs ≡ true → ("M" ≡ u) ⊎ ("L" ≡ u)
unfolding mem_str
one_of u known = ground (arith, str_eq_iff "M" u, str_eq_iff "L" u)

by_uid : FindsByUid refs snapshot
by_uid u t layer known found = elim (one_of u known) [
  | inl e ↦ (found_M t layer (rw (sym e) at found)) ∙ e
  | inr e ↦ (found_L t layer (rw (sym e) at found)) ∙ e
]

number_layer_returns_example : (n : Numbering) × (number_layer 3 snapshot request ≡ some n)
number_layer_returns_example =
    number_layer_returns refs snapshot references by_uid 3 request IsListed-none (omega arith)
