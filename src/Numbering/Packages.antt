-- ===== src/Numbering/Packages.antt =====
-- rulebase/numbering.py, `number_package_rulebase`: the layers of a policy package, each numbered on
-- its own, and the NAT rules of a package.
pub mod Layers
pub mod Returns
pub mod Examples
use Prim.Native.String.{◌++◌ as append}
use arodonata.Common.{
  ℕ, zero, suc, String, Bool, true, false, not, ◌&&◌, ◌||◌, Option, none, some, List, [], ◌∷◌, ◌++◌,
  if◌then◌else◌, str_eq,
}
use arodonata.Common.Text.{lower, strip}
use arodonata.Common.Affixes.{starts_with}
use arodonata.Numbering.Entries.{
  RulebaseType, access, nat, same_type, Snapshot, LayerEntry, PackageLayer, SectionEntry, RuleEntry,
  find_layer, sort_by, truthy, or_else,
}
use arodonata.Numbering.Models.{
  RuleNumber, NumberedSection, Numbered, Forest, empty, rule, flatten, tops,
}
use arodonata.Numbering.Sections.{build_sections}
use arodonata.Numbering.{Request, Numbering, number_layer, mem_str, ◌>>=◌}

-- `PackageRulebase`, whose rules and flat rules are those of its layers in order.
pub record PackageRulebase : Type 0 where
  pub package_uid : String
  pub package_name : String
  pub rulebase_type : RulebaseType
  pub layers : List Numbering

is_named : String → String → String → Bool
is_named target uid name = str_eq uid target || str_eq name target

package_layers_of : String → RulebaseType → List PackageLayer → List PackageLayer
unfolding is_named same_type
package_layers_of target t [] = []
package_layers_of target t (p ∷ ps) =
    let rest = package_layers_of target t ps in
    if is_named target p.package_uid p.package_name && same_type p.rulebase_type t
    then p ∷ rest
    else rest

-- The uid and the name of a package.
abbrev pub Names : Type 0
Names = String × String

named_in_layers : String → Names → List PackageLayer → Names
unfolding is_named
named_in_layers target names [] = names
named_in_layers target names (p ∷ ps) =
    if is_named target p.package_uid p.package_name
    then (p.package_uid, p.package_name)
    else named_in_layers target names ps

named_in_rules : String → Names → List RuleEntry → Names
unfolding is_named
named_in_rules target names [] = names
named_in_rules target names (r ∷ rs) =
    if is_named target r.layer_uid r.layer_name
    then (r.layer_uid, r.layer_name)
    else named_in_rules target names rs

unfoldable pub package_names : Snapshot → String → List PackageLayer → Names
unfolding named_in_layers named_in_rules
package_names s target [] =
    named_in_rules target (named_in_layers target (target, target) s.package_layers) s.nat_rules
package_names s target (p ∷ ps) = (p.package_uid, p.package_name)

pub nat_rules_of : Names → List RuleEntry → List RuleEntry
nat_rules_of (uid, name) [] = []
nat_rules_of (uid, name) (r ∷ rs) =
    let rest = nat_rules_of (uid, name) rs in
    if str_eq r.layer_uid uid || str_eq r.layer_name name then r ∷ rest else rest

pub number_nat : ℕ → List RuleEntry → Forest
number_nat idx [] = empty
number_nat idx (r ∷ rs) =
    rule (record { entry = r; number = idx ∷ []; parent_rule_uid = none; nested_sections = [] })
      empty (number_nat (suc idx) rs)

nat_sections_of : Names → List SectionEntry → List SectionEntry
unfolding same_type mem_str
nat_sections_of (uid, name) [] = []
nat_sections_of (uid, name) (x ∷ xs) =
    let rest = nat_sections_of (uid, name) xs in
    let own = append "nat:" uid ∷ uid ∷ name ∷ [] in
    if same_type x.rulebase_type nat && (mem_str x.layer_uid own || mem_str x.layer_name own)
    then x ∷ rest
    else rest

pub number_nat_layer : Snapshot → Names → Numbering
unfolding number_nat nat_rules_of nat_sections_of sort_by build_sections flatten tops
number_nat_layer s (uid, name) =
    let rules = number_nat 1 (sort_by (λ r. r.position) (nat_rules_of (uid, name) s.nat_rules)) in
    record {
      layer_uid = append "nat:" uid;
      layer_name = append name " NAT";
      rulebase_type = nat;
      prefix = [];
      is_global = false;
      sections = build_sections (nat_sections_of (uid, name) s.sections) (tops rules);
      rules = rules;
      flat_rules = flatten rules;
    }

is_global_layer : Snapshot → RulebaseType → PackageLayer → Bool
unfolding find_layer lower starts_with
is_global_layer s t p = elim (find_layer s p.layer_uid (some t)) [
  | none ↦ starts_with "global" (lower p.layer_name)
  | some l ↦ l.is_global
]

-- The first layer of the package that is not global.
pub fallback_layer : Snapshot → RulebaseType → List PackageLayer → Option String
unfolding is_global_layer
fallback_layer s t [] = none
fallback_layer s t (p ∷ ps) =
    if is_global_layer s t p then fallback_layer s t ps else some p.layer_uid

embedded_by : Option String → PackageLayer → RuleEntry → List String
unfolding truthy or_else
embedded_by fallback p r =
    if (str_eq r.layer_uid p.layer_uid || str_eq r.layer_name p.layer_name) && r.is_placeholder
    then elim (truthy (or_else (truthy r.placeholder_domain_layer_uid) fallback)) [
      | none ↦ []
      | some uid ↦ if str_eq uid p.layer_uid then [] else uid ∷ []
    ]
    else []

embedded_in : Option String → PackageLayer → List RuleEntry → List String
unfolding embedded_by
embedded_in fallback p [] = []
embedded_in fallback p (r ∷ rs) = embedded_by fallback p r ++ embedded_in fallback p rs

-- The layers that some placeholder of the package's layers stands for.
pub embedded_layers : Option String → List RuleEntry → List PackageLayer → List String
unfolding embedded_in
embedded_layers fallback rules [] = []
embedded_layers fallback rules (p ∷ ps) =
    embedded_in fallback p rules ++ embedded_layers fallback rules ps

pub layer_request : RulebaseType → Option String → PackageLayer → Request
layer_request t fallback p = record {
  target = p.layer_uid;
  rulebase_type = some t;
  prefix = [];
  parent_rule_uid = none;
  fallback_domain_layer_uid = fallback;
  expand_placeholders = true;
  expand_inline_layers = true;
  visited = [];
}

-- The loop over the layers, without those that a placeholder stands for; `none` as in `number_layer`.
pub number_layers :
    (Request → Option Numbering)
    → RulebaseType
    → Option String
    → List String
    → List PackageLayer
    → Option (List Numbering)
unfolding mem_str layer_request
number_layers sub t fallback embedded [] = some []
number_layers sub t fallback embedded (p ∷ ps) =
    let rest = number_layers sub t fallback embedded ps in
    if mem_str p.layer_uid embedded
    then rest
    else do n ← sub (layer_request t fallback p); ns ← rest; some (n ∷ ns)

unfoldable pub package_layers :
    ℕ → Snapshot → RulebaseType → List PackageLayer → Names → Option (List Numbering)
unfolding number_layers number_layer fallback_layer embedded_layers number_nat_layer
package_layers fuel s nat ps names = some (number_nat_layer s names ∷ [])
package_layers fuel s t ps names =
    let fallback = fallback_layer s t ps in
    number_layers (number_layer fuel s) t fallback (embedded_layers fallback s.access_rules ps) ps

pub package_of : RulebaseType → Names → Option (List Numbering) → Option PackageRulebase
package_of t names none = none
package_of t (uid, name) (some layers) =
    some (record { package_uid = uid; package_name = name; rulebase_type = t; layers = layers })

unfoldable pub number_package : ℕ → Snapshot → String → RulebaseType → Option PackageRulebase
unfolding package_layers_of package_names sort_by package_layers package_of strip
number_package fuel s package_name_or_uid t =
    let target = strip package_name_or_uid in
    let ps = sort_by (λ p. p.position) (package_layers_of target t s.package_layers) in
    let names = package_names s target ps in package_of t names (package_layers fuel s t ps names)
