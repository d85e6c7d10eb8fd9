-- ===== src/Numbering/Policies/Examples.antt =====
-- A snapshot of two packages, one of which has NAT rules only.
use arodonata.Common.{◌≡◌, ◌≢◌, refl, ℕ, String, Bool, true, false, none, List, [], ◌∷◌, Perm}
use arodonata.Common.Sorting.{IsOrdered}
use arodonata.Numbering.Entries.{Snapshot, PackageLayer, RulebaseType, access, nat, https}
use arodonata.Numbering.Policies.{
  PolicyPackage, extract_policy_packages, sorted_layers, stays_before,
}
use arodonata.Numbering.Policies.Layers.{layers_at, entries_of}
use arodonata.Numbering.Policies.Grouped.{StandsBefore, extract_policy_packages-layers_at}

abbrev layer_at : String → RulebaseType → ℕ → PackageLayer
layer_at layer t position = record {
  package_uid = "P";
  package_name = "Standard";
  rulebase_type = t;
  position = position;
  layer_uid = layer;
  layer_name = layer;
}

abbrev snapshot : Snapshot
snapshot = record {
  layers = [];
  package_layers = layer_at "T" https 1 ∷ layer_at "L" access 2 ∷ layer_at "G" access 1 ∷ [];
  sections = [];
  access_rules = [];
  https_rules = [];
  threat_rules = [];
  nat_rules =
      record {
        uid = "n1";
        name = "";
        layer_uid = "N";
        layer_name = "Other";
        position = 1;
        is_placeholder = false;
        inline_layer_uid = none;
        placeholder_domain_layer_uid = none;
        section_uid = none;
      }
      ∷ [];
}

abbrev summary : List PolicyPackage → List (String × Bool)
summary [] = []
summary (p ∷ ps) = (p.name, p.has_nat_policy) ∷ summary ps

extracted : summary (extract_policy_packages snapshot) ≡ ("Standard", false) ∷ ("Other", true) ∷ []
unfolding extract_policy_packages sorted_layers
extracted = refl

access_layers :
    layers_at access "P" (extract_policy_packages snapshot)
    ≡ layer_at "G" access 1 ∷ layer_at "L" access 2 ∷ []
unfolding extract_policy_packages layers_at sorted_layers
access_layers = refl

access_is_kept : access ≢ nat
access_is_kept e = cc

extract_policy_packages-layers_at_example :
    Perm
      (layers_at access "P" (extract_policy_packages snapshot))
      (entries_of access "P" snapshot.package_layers)
    × IsOrdered stays_before StandsBefore (layers_at access "P" (extract_policy_packages snapshot))
extract_policy_packages-layers_at_example =
    extract_policy_packages-layers_at access access_is_kept "P" snapshot
