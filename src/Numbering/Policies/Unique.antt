-- ===== src/Numbering/Policies/Unique.antt =====
-- The packages have distinct uids.
use arodonata.Common.{◌≡◌, inl, inr, String, false, List, [], ◌∷◌, str_eq, All, Bool-cases}
use arodonata.Numbering.Entries.{Snapshot, PackageLayer, RuleEntry}
use arodonata.Numbering.Policies.{
  PolicyPackage, new_package, add_layer, add_layers, with_nat, add_nat_rule, add_nat_rules,
  sorted_layers, extract_policy_packages,
}
use arodonata.Numbering.Policies.Layers.{with_layer-uid}

-- No package has the uid.
abbrev IsFresh : String → List PolicyPackage → Type 0
IsFresh uid ps = All (λ p. str_eq uid p.uid ≡ false) ps

-- No two packages share a uid.
abbrev pub HasUniqueUids : List PolicyPackage → Type 0
HasUniqueUids [] = Unit {0}
HasUniqueUids (p ∷ ps) = IsFresh p.uid ps × HasUniqueUids ps

add_layer-IsFresh :
    (uid : String) (e : PackageLayer) (ps : List PolicyPackage)
    → str_eq uid e.package_uid ≡ false
    → IsFresh uid ps
    → IsFresh uid (add_layer e ps)
unfolding add_layer
add_layer-IsFresh uid e [] other h = (
  rw (with_layer-uid e e.rulebase_type (new_package e.package_uid e.package_name), new_package)
      other,
  tt,
)
add_layer-IsFresh uid e (p ∷ ps) other h = elim (Bool-cases (str_eq p.uid e.package_uid)) [
  | inl found ↦ rw found (rw (with_layer-uid e e.rulebase_type p) h.0, h.1)
  | inr later ↦ rw later (h.0, add_layer-IsFresh uid e ps other h.1)
]

add_layer-HasUniqueUids :
    (e : PackageLayer) (ps : List PolicyPackage) → HasUniqueUids ps → HasUniqueUids (add_layer e ps)
unfolding add_layer
add_layer-HasUniqueUids e [] h = (tt, tt)
add_layer-HasUniqueUids e (p ∷ ps) h = elim (Bool-cases (str_eq p.uid e.package_uid)) [
  | inl found ↦ rw found (rw (with_layer-uid e e.rulebase_type p) h.0, h.1)
  | inr later ↦ rw later (add_layer-IsFresh p.uid e ps later h.0, add_layer-HasUniqueUids e ps h.1)
]

add_layers-HasUniqueUids :
    (es : List PackageLayer) (ps : List PolicyPackage)
    → HasUniqueUids ps
    → HasUniqueUids (add_layers es ps)
unfolding add_layers
add_layers-HasUniqueUids [] ps h = h
add_layers-HasUniqueUids (e ∷ es) ps h =
    add_layers-HasUniqueUids es (add_layer e ps) (add_layer-HasUniqueUids e ps h)

add_nat_rule-IsFresh :
    (uid : String) (r : RuleEntry) (ps : List PolicyPackage)
    → str_eq uid r.layer_uid ≡ false
    → IsFresh uid ps
    → IsFresh uid (add_nat_rule r ps)
unfolding add_nat_rule with_nat new_package
add_nat_rule-IsFresh uid r [] other h = (other, tt)
add_nat_rule-IsFresh uid r (p ∷ ps) other h = elim (Bool-cases (str_eq p.uid r.layer_uid)) [
  | inl found ↦ rw found h
  | inr later ↦ rw later (h.0, add_nat_rule-IsFresh uid r ps other h.1)
]

add_nat_rule-HasUniqueUids :
    (r : RuleEntry) (ps : List PolicyPackage) → HasUniqueUids ps → HasUniqueUids (add_nat_rule r ps)
unfolding add_nat_rule with_nat
add_nat_rule-HasUniqueUids r [] h = (tt, tt)
add_nat_rule-HasUniqueUids r (p ∷ ps) h = elim (Bool-cases (str_eq p.uid r.layer_uid)) [
  | inl found ↦ rw found h
  | inr later ↦
      rw later (add_nat_rule-IsFresh p.uid r ps later h.0, add_nat_rule-HasUniqueUids r ps h.1)
]

add_nat_rules-HasUniqueUids :
    (rs : List RuleEntry) (ps : List PolicyPackage)
    → HasUniqueUids ps
    → HasUniqueUids (add_nat_rules rs ps)
unfolding add_nat_rules
add_nat_rules-HasUniqueUids [] ps h = h
add_nat_rules-HasUniqueUids (r ∷ rs) ps h =
    add_nat_rules-HasUniqueUids rs (add_nat_rule r ps) (add_nat_rule-HasUniqueUids r ps h)

-- No two of the packages that are extracted from a snapshot share a uid.
pub extract_policy_packages-HasUniqueUids :
    (s : Snapshot) → HasUniqueUids (extract_policy_packages s)
unfolding extract_policy_packages
extract_policy_packages-HasUniqueUids s =
    add_nat_rules-HasUniqueUids s.nat_rules (add_layers (sorted_layers s.package_layers) [])
      (add_layers-HasUniqueUids (sorted_layers s.package_layers) [] tt)
