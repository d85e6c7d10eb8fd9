-- ===== src/Numbering/Policies/Layers.antt =====
-- The layers of a package, by type.
use mathlib.Core.List.{append-nil}
use arodonata.Common.{
  ◌≡◌, ◌≢◌, inl, inr, refl, sym, ap, String, true, false, ◌&&◌, List, [], ◌∷◌, ◌++◌, if◌then◌else◌,
  str_eq, str_eq_iff, Bool-cases,
}
use arodonata.Numbering.Entries.{RulebaseType, access, nat, https, threat, PackageLayer, same_type}
use arodonata.Numbering.Policies.{PolicyPackage, with_layer, new_package}

-- The layers of a type; a package has none of type NAT.
abbrev pub layers_of : RulebaseType → PolicyPackage → List PackageLayer
layers_of nat p = []
layers_of access p = p.access_layers
layers_of https p = p.https_layers
layers_of threat p = p.threat_layers

-- The layers of a type of the package with a uid, none when there is no such package.
unfoldable pub layers_at : RulebaseType → String → List PolicyPackage → List PackageLayer
layers_at t uid [] = []
layers_at t uid (p ∷ ps) =
    let rest = layers_at t uid ps in if str_eq p.uid uid then layers_of t p else rest

unfoldable pub entries_of : RulebaseType → String → List PackageLayer → List PackageLayer
unfolding same_type
entries_of t uid [] = []
entries_of t uid (e ∷ es) =
    let rest = entries_of t uid es in
    if str_eq e.package_uid uid && same_type e.rulebase_type t then e ∷ rest else rest

pub of_type : RulebaseType → RulebaseType → PackageLayer → List PackageLayer
unfolding same_type
of_type t x e = if same_type x t then e ∷ [] else []

pub own : RulebaseType → String → PackageLayer → List PackageLayer
unfolding of_type
own t uid e = if str_eq e.package_uid uid then of_type t e.rulebase_type e else []

pub with_layer-layers_of :
    (e : PackageLayer) (x t : RulebaseType) (p : PolicyPackage)
    → t ≢ nat
    → layers_of t (with_layer e x p) ≡ layers_of t p ++ of_type t x e
unfolding with_layer of_type same_type
with_layer-layers_of e x nat p h = absurd (h refl)
with_layer-layers_of e access access p h = refl
with_layer-layers_of e https access p h = sym (append-nil p.access_layers)
with_layer-layers_of e threat access p h = sym (append-nil p.access_layers)
with_layer-layers_of e nat access p h = sym (append-nil p.access_layers)
with_layer-layers_of e access https p h = sym (append-nil p.https_layers)
with_layer-layers_of e https https p h = refl
with_layer-layers_of e threat https p h = sym (append-nil p.https_layers)
with_layer-layers_of e nat https p h = sym (append-nil p.https_layers)
with_layer-layers_of e access threat p h = sym (append-nil p.threat_layers)
with_layer-layers_of e https threat p h = sym (append-nil p.threat_layers)
with_layer-layers_of e threat threat p h = refl
with_layer-layers_of e nat threat p h = sym (append-nil p.threat_layers)

pub with_layer-uid :
    (e : PackageLayer) (x : RulebaseType) (p : PolicyPackage) → (with_layer e x p).uid ≡ p.uid
unfolding with_layer
with_layer-uid e nat p = refl
with_layer-uid e access p = refl
with_layer-uid e https p = refl
with_layer-uid e threat p = refl

pub new_package-layers_of :
    (t : RulebaseType) (uid name : String) → layers_of t (new_package uid name) ≡ []
unfolding new_package
new_package-layers_of nat uid name = refl
new_package-layers_of access uid name = refl
new_package-layers_of https uid name = refl
new_package-layers_of threat uid name = refl

pub own_mine :
    (t : RulebaseType) (uid : String) (e : PackageLayer)
    → str_eq e.package_uid uid ≡ true
    → own t uid e ≡ of_type t e.rulebase_type e
unfolding own
own_mine t uid e h = rw h refl

pub own_other :
    (t : RulebaseType) (uid : String) (e : PackageLayer) (xs : List PackageLayer)
    → str_eq e.package_uid uid ≡ false
    → xs ≡ xs ++ own t uid e
unfolding own
own_other t uid e xs h = rw h (sym (append-nil xs))

pub entries_of-cons :
    (t : RulebaseType) (uid : String) (e : PackageLayer) (es : List PackageLayer)
    → entries_of t uid (e ∷ es) ≡ own t uid e ++ entries_of t uid es
unfolding entries_of own of_type
entries_of-cons t uid e es = elim (Bool-cases (str_eq e.package_uid uid)) [
  | inl mine ↦ rw mine (elim (Bool-cases (same_type e.rulebase_type t)) [
    | inl same ↦ rw same refl
    | inr differs ↦ rw differs refl
  ])
  | inr other ↦ rw other refl
]

pub same_as : (a b c : String) → str_eq a b ≡ true → str_eq b c ≡ str_eq a c
same_as a b c h = ap (λ x. str_eq x c) (sym ((str_eq_iff a b).0 h))
