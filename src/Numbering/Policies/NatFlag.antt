-- ===== src/Numbering/Policies/NatFlag.antt =====
-- The packages with a NAT policy.
use arodonata.Common.{
  ◌≡◌, inl, inr, refl, sym, ◌∙◌, ap, String, Bool, true, false, ◌&&◌, ◌||◌, List, [], ◌∷◌,
  if◌then◌else◌, str_eq, str_eq_iff, arith, Bool-cases,
}
use arodonata.Numbering.Entries.{
  RulebaseType, access, nat, https, threat, Snapshot, PackageLayer, RuleEntry, same_type,
}
use arodonata.Numbering.Policies.{
  PolicyPackage, with_layer, new_package, add_layer, add_layers, with_nat, add_nat_rule,
  add_nat_rules, sorted_layers, extract_policy_packages,
}
use arodonata.Numbering.Policies.Layers.{with_layer-uid, same_as}

-- Whether the package with a uid has a NAT policy; false when there is no such package.
unfoldable pub nat_at : String → List PolicyPackage → Bool
nat_at uid [] = false
nat_at uid (p ∷ ps) =
    let rest = nat_at uid ps in if str_eq p.uid uid then p.has_nat_policy else rest

is_nat_entry : String → PackageLayer → Bool
unfolding same_type
is_nat_entry uid e = str_eq e.package_uid uid && same_type e.rulebase_type nat

unfoldable pub any_nat_entry : String → List PackageLayer → Bool
unfolding is_nat_entry
any_nat_entry uid [] = false
any_nat_entry uid (e ∷ es) = is_nat_entry uid e || any_nat_entry uid es

unfoldable pub any_nat_rule : String → List RuleEntry → Bool
any_nat_rule uid [] = false
any_nat_rule uid (r ∷ rs) = str_eq r.layer_uid uid || any_nat_rule uid rs

with_layer-has_nat_policy :
    (e : PackageLayer) (x : RulebaseType) (p : PolicyPackage)
    → (with_layer e x p).has_nat_policy ≡ (p.has_nat_policy || same_type x nat)
unfolding with_layer same_type
with_layer-has_nat_policy e access p = ground arith
with_layer-has_nat_policy e https p = ground arith
with_layer-has_nat_policy e threat p = ground arith
with_layer-has_nat_policy e nat p = ground arith

or_assoc : (a b c : Bool) → ((a || b) || c) ≡ (a || (b || c))
or_assoc true b c = refl
or_assoc false b c = refl

or_false : (a : Bool) → (a || false) ≡ a
or_false true = refl
or_false false = refl

module _ (uid : String) where
  add_layer-nat_at :
      (e : PackageLayer) (ps : List PolicyPackage)
      → nat_at uid (add_layer e ps) ≡ (nat_at uid ps || is_nat_entry uid e)
  unfolding nat_at add_layer is_nat_entry
  add_layer-nat_at e [] =
      let new = new_package e.package_uid e.package_name in
      let same : (with_layer e e.rulebase_type new).uid ≡ e.package_uid =
        with_layer-uid e e.rulebase_type new ∙ unfold new_package in refl in
      elim (Bool-cases (str_eq e.package_uid uid)) [
        | inl mine ↦
            rw (same, mine)
              (with_layer-has_nat_policy e e.rulebase_type new ∙ unfold new_package in refl)
        | inr other ↦ rw (same, other) refl
      ]
  add_layer-nat_at e (p ∷ ps) = elim (Bool-cases (str_eq p.uid e.package_uid)) [
    | inl found ↦
        rw (found, with_layer-uid e e.rulebase_type p, same_as p.uid e.package_uid uid found)
          (elim (Bool-cases (str_eq p.uid uid)) [
            | inl here ↦ rw here (with_layer-has_nat_policy e e.rulebase_type p)
            | inr there ↦ rw there (sym (or_false (nat_at uid ps)))
          ])
    | inr later ↦ elim (Bool-cases (str_eq p.uid uid)) [
      | inl here ↦
          let other : str_eq e.package_uid uid ≡ false = ground (
            arith,
            str_eq_iff e.package_uid uid,
            str_eq_iff p.uid uid,
            str_eq_iff p.uid e.package_uid,
          ) in
          rw (later, here, other) (sym (or_false p.has_nat_policy))
      | inr there ↦ rw (later, there) (add_layer-nat_at e ps)
    ]
  ]

  add_layers-nat_at :
      (es : List PackageLayer) (ps : List PolicyPackage)
      → nat_at uid (add_layers es ps) ≡ (nat_at uid ps || any_nat_entry uid es)
  unfolding add_layers any_nat_entry
  add_layers-nat_at [] ps = sym (or_false (nat_at uid ps))
  add_layers-nat_at (e ∷ es) ps =
      add_layers-nat_at es (add_layer e ps)
      ∙ ap (λ b. b || any_nat_entry uid es) (add_layer-nat_at e ps)
      ∙ or_assoc (nat_at uid ps) (is_nat_entry uid e) (any_nat_entry uid es)

  add_nat_rule-nat_at :
      (r : RuleEntry) (ps : List PolicyPackage)
      → nat_at uid (add_nat_rule r ps) ≡ (nat_at uid ps || str_eq r.layer_uid uid)
  unfolding nat_at add_nat_rule with_nat new_package
  add_nat_rule-nat_at r [] = elim (Bool-cases (str_eq r.layer_uid uid)) [
    | inl mine ↦ rw mine refl
    | inr other ↦ rw other refl
  ]
  add_nat_rule-nat_at r (p ∷ ps) = elim (Bool-cases (str_eq p.uid r.layer_uid)) [
    | inl found ↦
        rw (found, same_as p.uid r.layer_uid uid found)
          (elim (Bool-cases (str_eq p.uid uid)) [
            | inl here ↦ rw here (ground arith)
            | inr there ↦ rw there (sym (or_false (nat_at uid ps)))
          ])
    | inr later ↦ elim (Bool-cases (str_eq p.uid uid)) [
      | inl here ↦
          let other : str_eq r.layer_uid uid ≡ false = ground (
            arith,
            str_eq_iff r.layer_uid uid,
            str_eq_iff p.uid uid,
            str_eq_iff p.uid r.layer_uid,
          ) in
          rw (later, here, other) (sym (or_false p.has_nat_policy))
      | inr there ↦ rw (later, there) (add_nat_rule-nat_at r ps)
    ]
  ]

  add_nat_rules-nat_at :
      (rs : List RuleEntry) (ps : List PolicyPackage)
      → nat_at uid (add_nat_rules rs ps) ≡ (nat_at uid ps || any_nat_rule uid rs)
  unfolding add_nat_rules any_nat_rule
  add_nat_rules-nat_at [] ps = sym (or_false (nat_at uid ps))
  add_nat_rules-nat_at (r ∷ rs) ps =
      add_nat_rules-nat_at rs (add_nat_rule r ps)
      ∙ ap (λ b. b || any_nat_rule uid rs) (add_nat_rule-nat_at r ps)
      ∙ or_assoc (nat_at uid ps) (str_eq r.layer_uid uid) (any_nat_rule uid rs)

  -- The package with a given uid has a NAT policy exactly when a NAT layer of the snapshot, or a NAT
  -- rule of it, is of that package.
  pub extract_policy_packages-nat_at :
      (s : Snapshot)
      → nat_at uid (extract_policy_packages s)
        ≡ (any_nat_entry uid (sorted_layers s.package_layers) || any_nat_rule uid s.nat_rules)
  unfolding extract_policy_packages nat_at
  extract_policy_packages-nat_at s =
      add_nat_rules-nat_at s.nat_rules (add_layers (sorted_layers s.package_layers) [])
      ∙ ap (λ b. b || any_nat_rule uid s.nat_rules)
          (add_layers-nat_at (sorted_layers s.package_layers) [])
