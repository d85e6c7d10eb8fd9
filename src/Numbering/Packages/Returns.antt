-- ===== src/Numbering/Packages/Returns.antt =====
-- The numbering of a package ends.
use arodonata.Common.{
  ℕ, ◌<◌, ◌≡◌, inl, inr, refl, String, Option, some, List, [], ◌∷◌, ◌&&◌, length, All, Bool-cases,
}
use arodonata.Common.Text.{strip}
use arodonata.Numbering.Entries.{
  RulebaseType, access, nat, https, threat, Snapshot, PackageLayer, sort_by, same_type, truthy,
}
use arodonata.Numbering.{Numbering, number_layer, mem_str}
use arodonata.Numbering.Nested.{IsListed}
use arodonata.Numbering.Returns.{ListsReferences, FindsByUid, number_layer_returns, sort_by-All}
use arodonata.Numbering.Packages.{
  PackageRulebase, Names, package_names, number_nat_layer, fallback_layer, is_global_layer,
  is_named, layer_request, number_layers, package_layers, package_of, number_package,
  package_layers_of,
}

-- The layer of the package is a reference that is listed.
abbrev pub IsLayerListed : List String → PackageLayer → Type 0
IsLayerListed refs p = IsListed refs (some p.layer_uid)

package_layers_of-All :
    (P : PackageLayer → Type 0) (target : String) (t : RulebaseType) (ps : List PackageLayer)
    → All P ps
    → All P (package_layers_of target t ps)
unfolding package_layers_of
package_layers_of-All P target t [] h = tt
package_layers_of-All P target t (p ∷ ps) h =
    elim (Bool-cases
      (is_named target p.package_uid p.package_name && same_type p.rulebase_type t)) [
        | inl fits ↦ rw fits (h.0, package_layers_of-All P target t ps h.1)
        | inr other ↦ rw other (package_layers_of-All P target t ps h.1)
      ]

package_of_returns :
    (t : RulebaseType) (names : Names) (o : Option (List Numbering))
    → (ns : List Numbering) × (o ≡ some ns)
    → (pkg : PackageRulebase) × (package_of t names o ≡ some pkg)
unfolding package_of
package_of_returns t (uid, name) o (ns, gives) = (
  record { package_uid = uid; package_name = name; rulebase_type = t; layers = ns },
  rw (gives, package_of) refl,
)

module _ (refs : List String) (s : Snapshot) (lists : ListsReferences refs s)
    (finds : FindsByUid refs s) where
  fallback_layer-IsListed :
      (t : RulebaseType) (ps : List PackageLayer)
      → All (IsLayerListed refs) ps
      → IsListed refs (fallback_layer s t ps)
  unfolding fallback_layer truthy
  fallback_layer-IsListed t [] h = λ u e. cc
  fallback_layer-IsListed t (p ∷ ps) h = elim (Bool-cases (is_global_layer s t p)) [
    | inl global ↦ rw global (fallback_layer-IsListed t ps h.1)
    | inr local ↦ rw local h.0
  ]

  number_layers_returns :
      (fuel : ℕ) (t : RulebaseType) (fallback : Option String) (embedded : List String)
      (ps : List PackageLayer)
      → IsListed refs fallback
      → length refs < fuel
      → (ns : List Numbering) × (number_layers (number_layer fuel s) t fallback embedded ps
          ≡ some ns)
  unfolding number_layers
  number_layers_returns fuel t fallback embedded [] listed enough = ([], refl)
  number_layers_returns fuel t fallback embedded (p ∷ ps) listed enough =
      let (ns, goes_on) = number_layers_returns fuel t fallback embedded ps listed enough in
      elim (Bool-cases (mem_str p.layer_uid embedded)) [
        | inl known ↦ (ns, rw (known, goes_on) refl)
        | inr new ↦
            let (n, gives) =
              number_layer_returns refs s lists finds fuel (layer_request t fallback p)
                (unfold layer_request in listed) enough in
            (n ∷ ns, rw (new, gives, goes_on) refl)
      ]

  package_layers_returns :
      (fuel : ℕ) (t : RulebaseType) (ps : List PackageLayer) (names : Names)
      → All (IsLayerListed refs) ps
      → length refs < fuel
      → (ns : List Numbering) × (package_layers fuel s t ps names ≡ some ns)
  unfolding package_layers
  package_layers_returns fuel nat ps names h enough = (number_nat_layer s names ∷ [], refl)
  package_layers_returns fuel access ps names h enough =
      number_layers_returns fuel access _ _ ps (fallback_layer-IsListed access ps h) enough
  package_layers_returns fuel https ps names h enough =
      number_layers_returns fuel https _ _ ps (fallback_layer-IsListed https ps h) enough
  package_layers_returns fuel threat ps names h enough =
      number_layers_returns fuel threat _ _ ps (fallback_layer-IsListed threat ps h) enough

  -- If every reference of a rule and every layer of a package stands in a list of references, and each
  -- of these finds only a layer with it as its uid, then numbering any package, of any type, gives a
  -- rulebase when the layers may nest one deeper than the list is long.
  pub number_package_returns :
      (fuel : ℕ) (package_name_or_uid : String) (t : RulebaseType)
      → All (IsLayerListed refs) s.package_layers
      → length refs < fuel
      → (pkg : PackageRulebase) × (number_package fuel s package_name_or_uid t ≡ some pkg)
  unfolding number_package
  number_package_returns fuel name t listed enough =
      let target = strip name in
      let found = package_layers_of target t s.package_layers in
      let ps = sort_by (λ p. p.position) found in
      let names = package_names s target ps in
      package_of_returns t names (package_layers fuel s t ps names) (
        package_layers_returns fuel t ps names
          (sort_by-All (IsLayerListed refs) (λ p. p.position) found
            (package_layers_of-All (IsLayerListed refs) target t s.package_layers listed))
          enough)
