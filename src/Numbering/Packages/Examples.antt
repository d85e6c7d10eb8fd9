-- ===== src/Numbering/Packages/Examples.antt =====
-- A package of a global layer, whose placeholder stands for the domain layer, and of that layer.
use arodonata.Common.{
  ℕ, String, Bool, true, false, Option, none, some, List, [], ◌∷◌, ◌≡◌, refl, sym, ◌∙◌, arith, inl,
  inr, ◌⊎◌, str_eq_iff,
}
use arodonata.Numbering.Entries.{
  Snapshot, LayerEntry, RuleEntry, PackageLayer, access, nat, https, threat, RulebaseType, truthy,
  find_layer, find_in_layers, find_in_packages, find_in_rules,
}
use arodonata.Numbering.Models.{RuleNumber, flatten}
use arodonata.Numbering.{
  Numbering, number_layer, mem_str, number_found, number_entries, sorted_entries, expand, expansion,
}
use arodonata.Numbering.Nested.{IsListed}
use arodonata.Numbering.Returns.{ListsReferences, FindsByUid}
use arodonata.Numbering.Ascending.{numbers}
use arodonata.Numbering.Packages.{PackageRulebase, number_package, package_layers, package_names}
use arodonata.Numbering.Packages.Layers.{AreHierarchical, number_package-IsHierarchical}
use arodonata.Numbering.Packages.Returns.{number_package_returns}

abbrev rule_at : String → String → ℕ → Bool → RuleEntry
rule_at layer uid position is_placeholder = record {
  uid = uid;
  name = "";
  layer_uid = layer;
  layer_name = layer;
  position = position;
  is_placeholder = is_placeholder;
  inline_layer_uid = none;
  placeholder_domain_layer_uid = none;
  section_uid = none;
}

abbrev layer_at : String → ℕ → PackageLayer
layer_at layer position = record {
  package_uid = "P";
  package_name = "Standard";
  rulebase_type = access;
  position = position;
  layer_uid = layer;
  layer_name = layer;
}

abbrev snapshot : Snapshot
snapshot = record {
  layers =
      record { uid = "G"; name = "Global"; rulebase_type = access; is_global = true }
      ∷ record { uid = "L"; name = "Network"; rulebase_type = access; is_global = false }
      ∷ [];
  package_layers = layer_at "L" 2 ∷ layer_at "G" 1 ∷ [];
  sections = [];
  access_rules =
      rule_at "G" "g1" 1 false
      ∷ rule_at "G" "g2" 2 true
      ∷ rule_at "L" "r1" 1 false
      ∷ rule_at "G" "g3" 3 false
      ∷ [];
  https_rules = [];
  threat_rules = [];
  nat_rules = rule_at "P" "n2" 2 false ∷ rule_at "P" "n1" 1 false ∷ [];
}

abbrev layer_numbers : List Numbering → List (List RuleNumber)
layer_numbers [] = []
layer_numbers (n ∷ ns) = numbers n.flat_rules ∷ layer_numbers ns

abbrev package_numbers : Option PackageRulebase → List (List RuleNumber)
package_numbers none = []
package_numbers (some pkg) = layer_numbers pkg.layers

numbered :
    package_numbers (number_package 3 snapshot "Standard" access)
    ≡ ((1 ∷ []) ∷ (2 ∷ []) ∷ (2 ∷ 1 ∷ []) ∷ (3 ∷ []) ∷ []) ∷ []
unfolding number_package number_layer find_layer find_in_layers number_found number_entries
    sorted_entries expand expansion flatten package_names package_layers
numbered = refl

numbered_nat : package_numbers (number_package 3 snapshot "P" nat) ≡ ((1 ∷ []) ∷ (2 ∷ []) ∷ []) ∷ []
unfolding number_package flatten package_names package_layers
numbered_nat = refl

abbrev absent : PackageRulebase
absent = record { package_uid = ""; package_name = ""; rulebase_type = access; layers = [] }

abbrev standard : PackageRulebase
standard = elim (number_package 3 snapshot "Standard" access) [ none ↦ absent | some p ↦ p ]

standard_found : number_package 3 snapshot "Standard" access ≡ some standard
unfolding number_package number_layer find_layer find_in_layers number_found number_entries
    sorted_entries expand expansion flatten package_names package_layers
standard_found = refl

number_package-IsHierarchical_example : AreHierarchical standard.layers
number_package-IsHierarchical_example =
    number_package-IsHierarchical 3 snapshot "Standard" access standard standard_found

abbrev refs : List String
refs = "G" ∷ "L" ∷ []

IsListed-none : IsListed refs none
unfolding truthy
IsListed-none u e = cc

IsListed-G : IsListed refs (some "G")
unfolding truthy mem_str
IsListed-G u e = ground (arith, str_eq_iff "G" u)

IsListed-L : IsListed refs (some "L")
unfolding truthy mem_str
IsListed-L u e = ground (arith, str_eq_iff "L" u)

references : ListsReferences refs snapshot
references = (
  (
    (IsListed-none, IsListed-none),
    (
      (IsListed-none, IsListed-none),
      ((IsListed-none, IsListed-none), ((IsListed-none, IsListed-none), tt)),
    ),
  ),
  tt,
  tt,
)

found_G :
    (t : Option RulebaseType) (layer : LayerEntry)
    → find_layer snapshot "G" t ≡ some layer
    → layer.uid ≡ "G"
unfolding find_layer find_in_layers find_in_packages find_in_rules
found_G none layer e = ground arith
found_G (some access) layer e = ground arith
found_G (some nat) layer e = ground arith
found_G (some https) layer e = ground arith
found_G (some threat) layer e = ground arith

found_L :
    (t : Option RulebaseType) (layer : LayerEntry)
    → find_layer snapshot "L" t ≡ some layer
    → layer.uid ≡ "L"
unfolding find_layer find_in_layers find_in_packages find_in_rules
found_L none layer e = ground arith
found_L (some access) layer e = ground arith
found_L (some nat) layer e = ground arith
found_L (some https) layer e = ground arith
found_L (some threat) layer e = ground arith

one_of : (u : String) → mem_str u refs ≡ true → ("G" ≡ u) ⊎ ("L" ≡ u)
unfolding mem_str
one_of u known = ground (arith, str_eq_iff "G" u, str_eq_iff "L" u)

by_uid : FindsByUid refs snapshot
by_uid u t layer known found = elim (one_of u known) [
  | inl e ↦ (found_G t layer (rw (sym e) at found)) ∙ e
  | inr e ↦ (found_L t layer (rw (sym e) at found)) ∙ e
]

number_package_returns_example :
    (pkg : PackageRulebase) × (number_package 3 snapshot "Standard" access ≡ some pkg)
number_package_returns_example =
    number_package_returns refs snapshot references by_uid 3 "Standard" access
      (IsListed-L, (IsListed-G, tt)) (omega arith)
