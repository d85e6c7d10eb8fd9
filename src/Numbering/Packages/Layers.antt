-- ===== src/Numbering/Packages/Layers.antt =====
-- Every layer of a package is numbered from 1.
use arodonata.Common.{
  ℕ, suc, ◌≡◌, inl, inr, refl, String, Option, none, some, List, [], ◌∷◌, arith, Option-cases,
  Bool-cases,
}
use arodonata.Numbering.Entries.{
  RulebaseType, access, nat, https, threat, Snapshot, RuleEntry, PackageLayer, sort_by,
}
use arodonata.Numbering.{Numbering, number_layer, mem_str}
use arodonata.Numbering.Order.{IsHierarchical, number_layer-IsHierarchical}
use arodonata.Numbering.Packages.{
  PackageRulebase, Names, number_nat, number_nat_layer, fallback_layer, embedded_layers,
  layer_request, number_layers, package_layers, package_of, number_package, nat_rules_of,
}

-- The rules of each layer are numbered from 1, without a prefix.
abbrev pub AreHierarchical : List Numbering → Type 0
AreHierarchical [] = Unit {0}
AreHierarchical (n ∷ ns) = IsHierarchical [] 1 n.rules × AreHierarchical ns

number_nat-IsHierarchical :
    (idx : ℕ) (rs : List RuleEntry) → IsHierarchical [] idx (number_nat idx rs)
unfolding number_nat
number_nat-IsHierarchical idx [] = tt
number_nat-IsHierarchical idx (r ∷ rs) = (refl, tt, number_nat-IsHierarchical (suc idx) rs)

number_nat_layer-IsHierarchical :
    (s : Snapshot) (names : Names) → IsHierarchical [] 1 (number_nat_layer s names).rules
unfolding number_nat_layer
number_nat_layer-IsHierarchical s (uid, name) =
    number_nat-IsHierarchical 1 (sort_by (λ r. r.position) (nat_rules_of (uid, name) s.nat_rules))

number_layers-AreHierarchical :
    (fuel : ℕ) (s : Snapshot) (t : RulebaseType) (fallback : Option String) (embedded : List String)
    (ps : List PackageLayer) (ns : List Numbering)
    → number_layers (number_layer fuel s) t fallback embedded ps ≡ some ns
    → AreHierarchical ns
unfolding number_layers layer_request
number_layers-AreHierarchical fuel s t fallback embedded [] ns h =
    let same : ns ≡ [] = ground arith in rw same tt
number_layers-AreHierarchical fuel s t fallback embedded (p ∷ ps) ns h =
    elim (Bool-cases (mem_str p.layer_uid embedded)) [
      | inl known ↦ number_layers-AreHierarchical fuel s t fallback embedded ps ns (ground arith)
      | inr new ↦ elim (Option-cases (number_layer fuel s (layer_request t fallback p))) [
        | inl fails ↦ absurd (ground arith)
        | inr (n, gives) ↦
            elim (Option-cases (number_layers (number_layer fuel s) t fallback embedded ps)) [
              | inl fails ↦ absurd (ground arith)
              | inr (rest, goes_on) ↦
                  let same : ns ≡ n ∷ rest = ground arith in
                  rw same (
                    number_layer-IsHierarchical fuel s (layer_request t fallback p) n gives,
                    number_layers-AreHierarchical fuel s t fallback embedded ps rest goes_on,
                  )
            ]
      ]
    ]

package_layers-AreHierarchical :
    (fuel : ℕ) (s : Snapshot) (t : RulebaseType) (ps : List PackageLayer) (names : Names)
    (ns : List Numbering)
    → package_layers fuel s t ps names ≡ some ns
    → AreHierarchical ns
unfolding package_layers
package_layers-AreHierarchical fuel s nat ps names ns h =
    let same : ns ≡ number_nat_layer s names ∷ [] = ground arith in
    rw same (number_nat_layer-IsHierarchical s names, tt)
package_layers-AreHierarchical fuel s access ps names ns h =
    let fallback = fallback_layer s access ps in
    number_layers-AreHierarchical fuel s access fallback
      (embedded_layers fallback s.access_rules ps) ps ns h
package_layers-AreHierarchical fuel s https ps names ns h =
    let fallback = fallback_layer s https ps in
    number_layers-AreHierarchical fuel s https fallback (embedded_layers fallback s.access_rules ps)
      ps ns h
package_layers-AreHierarchical fuel s threat ps names ns h =
    let fallback = fallback_layer s threat ps in
    number_layers-AreHierarchical fuel s threat fallback
      (embedded_layers fallback s.access_rules ps) ps ns h

package_of-layers :
    (t : RulebaseType) (names : Names) (o : Option (List Numbering)) (pkg : PackageRulebase)
    → package_of t names o ≡ some pkg
    → o ≡ some pkg.layers
unfolding package_of
package_of-layers t names none pkg h = absurd (ground arith)
package_of-layers t (uid, name) (some ns) pkg h = ground arith

-- When the numbering of a package gives a rulebase, of NAT rules or of another type, the rules of
-- each of its layers are numbered from 1 without a prefix, and the rules below a rule from 1 below
-- the number of that rule.
pub number_package-IsHierarchical :
    (fuel : ℕ) (s : Snapshot) (package_name_or_uid : String) (t : RulebaseType)
    (pkg : PackageRulebase)
    → number_package fuel s package_name_or_uid t ≡ some pkg
    → AreHierarchical pkg.layers
unfolding number_package
number_package-IsHierarchical fuel s target t pkg h =
    package_layers-AreHierarchical fuel s t _ _ pkg.layers (package_of-layers t _ _ pkg h)
