-- ===== src/Numbering/Policies.antt =====
-- rulebase/numbering.py, `extract_policy_packages`: the packages of a snapshot with their layers. The
-- dictionary by uid and the list of its uids are one list of packages, in the order they come.
pub mod Layers
pub mod Grouped
pub mod Unique
pub mod NatFlag
pub mod Examples
use Prim.Native.Char.{code}
use arodonata.Common.{
  ℕ, String, Bool, true, false, ◌&&◌, ◌||◌, List, [], ◌∷◌, ◌++◌, if◌then◌else◌, ltb, leb, ◌==◌,
  str_eq,
}
use arodonata.Common.Sorting.{str_ltb, sort_with}
use arodonata.Numbering.Entries.{
  RulebaseType, access, nat, https, threat, Snapshot, PackageLayer, RuleEntry,
}

-- `PolicyPackageInfo`
pub record PolicyPackage : Type 0 where
  pub uid : String
  pub name : String
  pub has_nat_policy : Bool
  pub access_layers : List PackageLayer
  pub https_layers : List PackageLayer
  pub threat_layers : List PackageLayer

-- The order of the types' names.
pub rank : RulebaseType → ℕ
rank access = 0
rank https = 1
rank nat = 2
rank threat = 3

-- `e` stays before `d`, which came later: its key is not the greater one.
pub stays_before : PackageLayer → PackageLayer → Bool
unfolding str_ltb rank
stays_before e d =
    str_ltb e.package_name d.package_name
    || str_eq e.package_name d.package_name
      && (str_ltb e.package_uid d.package_uid
          || str_eq e.package_uid d.package_uid
            && (ltb (rank e.rulebase_type) (rank d.rulebase_type)
                || rank e.rulebase_type == rank d.rulebase_type && leb e.position d.position))

unfoldable pub sorted_layers : List PackageLayer → List PackageLayer
unfolding stays_before sort_with
sorted_layers es = sort_with stays_before es

pub with_layer : PackageLayer → RulebaseType → PolicyPackage → PolicyPackage
with_layer e nat p = record p { has_nat_policy = true }
with_layer e access p = record p { access_layers = p.access_layers ++ e ∷ [] }
with_layer e https p = record p { https_layers = p.https_layers ++ e ∷ [] }
with_layer e threat p = record p { threat_layers = p.threat_layers ++ e ∷ [] }

pub new_package : String → String → PolicyPackage
new_package uid name = record {
  uid = uid;
  name = name;
  has_nat_policy = false;
  access_layers = [];
  https_layers = [];
  threat_layers = [];
}

pub add_layer : PackageLayer → List PolicyPackage → List PolicyPackage
unfolding with_layer new_package
add_layer e [] = with_layer e e.rulebase_type (new_package e.package_uid e.package_name) ∷ []
add_layer e (p ∷ ps) =
    let rest = add_layer e ps in
    if str_eq p.uid e.package_uid then with_layer e e.rulebase_type p ∷ ps else p ∷ rest

pub add_layers : List PackageLayer → List PolicyPackage → List PolicyPackage
unfolding add_layer
add_layers [] ps = ps
add_layers (e ∷ es) ps = add_layers es (add_layer e ps)

with_nat : PolicyPackage → PolicyPackage
with_nat p = record p { has_nat_policy = true }

pub add_nat_rule : RuleEntry → List PolicyPackage → List PolicyPackage
unfolding with_nat new_package
add_nat_rule r [] = with_nat (new_package r.layer_uid r.layer_name) ∷ []
add_nat_rule r (p ∷ ps) =
    let rest = add_nat_rule r ps in if str_eq p.uid r.layer_uid then with_nat p ∷ ps else p ∷ rest

pub add_nat_rules : List RuleEntry → List PolicyPackage → List PolicyPackage
unfolding add_nat_rule
add_nat_rules [] ps = ps
add_nat_rules (r ∷ rs) ps = add_nat_rules rs (add_nat_rule r ps)

unfoldable pub extract_policy_packages : Snapshot → List PolicyPackage
unfolding add_nat_rules add_layers sorted_layers
extract_policy_packages s =
    add_nat_rules s.nat_rules (add_layers (sorted_layers s.package_layers) [])
