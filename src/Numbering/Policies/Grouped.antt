-- ===== src/Numbering/Policies/Grouped.antt =====
-- The layers that the extraction gives a package, beside those of the snapshot.
use mathlib.Core.List.{append-nil, append_assoc}
use arodonata.Common.{
  ◌≡◌, ◌≢◌, inl, inr, refl, sym, ◌∙◌, ap, String, true, false, List, [], ◌∷◌, ◌++◌, str_eq,
  str_eq_iff, arith, Bool-cases, Bool, not, ltb, filter, Perm, subst, ◌&&◌,
}
use arodonata.Common.Sorting.{str_ltb, sort_with, IsOrdered}
use arodonata.Common.Orders.{
  IsWeakOrder, then_by, then_by-IsWeakOrder, by_key-IsWeakOrder, ltb-IsWeakOrder,
  str_ltb-IsWeakOrder, str_eq-str_ltb, sort_with-NotBelow, sort_with-filter, filter-IsOrdered,
}
use arodonata.Numbering.Entries.{
  same_type, RulebaseType, access, nat, https, threat, Snapshot, PackageLayer, RuleEntry,
}
use arodonata.Numbering.Policies.{
  rank, stays_before, PolicyPackage, with_layer, new_package, add_layer, add_layers, with_nat,
  add_nat_rule, add_nat_rules, sorted_layers, extract_policy_packages,
}
use arodonata.Numbering.Policies.Layers.{
  layers_of, layers_at, entries_of, of_type, own, with_layer-layers_of, with_layer-uid,
  new_package-layers_of, own_mine, own_other, entries_of-cons, same_as,
}

-- The layer comes before the other: the name of its package is the lower one, or it is the same and its
-- position is the lower one.
abbrev pub precedes : PackageLayer → PackageLayer → Bool
precedes = then_by (λ e d. str_ltb e.package_name d.package_name) (λ e d. ltb e.position d.position)

-- No layer comes before one that stands before it.
abbrev pub StandsBefore : PackageLayer → PackageLayer → Type 0
StandsBefore e d = precedes d e ≡ false

-- The whole key: of one package and one type it is no more than the name and the position.
abbrev has_lower_key : PackageLayer → PackageLayer → Bool
has_lower_key =
    then_by (λ e d. str_ltb e.package_name d.package_name)
      (then_by (λ e d. str_ltb e.package_uid d.package_uid)
        (then_by (λ e d. ltb (rank e.rulebase_type) (rank d.rulebase_type))
          (λ e d. ltb e.position d.position)))

has_lower_key-IsWeakOrder : IsWeakOrder has_lower_key
has_lower_key-IsWeakOrder =
    then_by-IsWeakOrder _ _ (by_key-IsWeakOrder (λ e. e.package_name) str_ltb str_ltb-IsWeakOrder) (
      then_by-IsWeakOrder _ _ (by_key-IsWeakOrder (λ e. e.package_uid) str_ltb str_ltb-IsWeakOrder)
        (then_by-IsWeakOrder _ _
          (by_key-IsWeakOrder (λ e. rank e.rulebase_type) ltb ltb-IsWeakOrder)
          (by_key-IsWeakOrder (λ e. e.position) ltb ltb-IsWeakOrder)))

stays_before-key : (e d : PackageLayer) → stays_before e d ≡ not (has_lower_key d e)
unfolding stays_before
stays_before-key e d = ground (
  arith,
  str_eq-str_ltb e.package_name d.package_name,
  str_eq-str_ltb e.package_uid d.package_uid,
  str_ltb-IsWeakOrder.asym e.package_name d.package_name,
  str_ltb-IsWeakOrder.asym e.package_uid d.package_uid,
)

module _ (t : RulebaseType) (is_kept : t ≢ nat) (uid : String) where
  add_layer-layers_at :
      (e : PackageLayer) (ps : List PolicyPackage)
      → layers_at t uid (add_layer e ps) ≡ layers_at t uid ps ++ own t uid e
  unfolding layers_at add_layer
  add_layer-layers_at e [] =
      let new = new_package e.package_uid e.package_name in
      let same : (with_layer e e.rulebase_type new).uid ≡ e.package_uid =
        with_layer-uid e e.rulebase_type new ∙ unfold new_package in refl in
      elim (Bool-cases (str_eq e.package_uid uid)) [
        | inl mine ↦
            rw (same, mine, own_mine t uid e mine)
              (with_layer-layers_of e e.rulebase_type t new is_kept
                ∙ ap (λ xs. xs ++ of_type t e.rulebase_type e)
                    (new_package-layers_of t e.package_uid e.package_name))
        | inr other ↦ rw (same, other) (own_other t uid e [] other)
      ]
  add_layer-layers_at e (p ∷ ps) = elim (Bool-cases (str_eq p.uid e.package_uid)) [
    | inl found ↦ elim (Bool-cases (str_eq p.uid uid)) [
      | inl here ↦
          let mine = same_as p.uid e.package_uid uid found ∙ here in
          rw (found, with_layer-uid e e.rulebase_type p, here, own_mine t uid e mine)
            (with_layer-layers_of e e.rulebase_type t p is_kept)
      | inr there ↦
          let other = same_as p.uid e.package_uid uid found ∙ there in
          rw (found, with_layer-uid e e.rulebase_type p, there)
            (own_other t uid e (layers_at t uid ps) other)
    ]
    | inr later ↦ elim (Bool-cases (str_eq p.uid uid)) [
      | inl here ↦
          let other : str_eq e.package_uid uid ≡ false = ground (
            arith,
            str_eq_iff e.package_uid uid,
            str_eq_iff p.uid uid,
            str_eq_iff p.uid e.package_uid,
          ) in
          rw (later, here) (own_other t uid e (layers_of t p) other)
      | inr there ↦ rw (later, there) (add_layer-layers_at e ps)
    ]
  ]

  add_layers-layers_at :
      (es : List PackageLayer) (ps : List PolicyPackage)
      → layers_at t uid (add_layers es ps) ≡ layers_at t uid ps ++ entries_of t uid es
  unfolding add_layers entries_of
  add_layers-layers_at [] ps = sym (append-nil (layers_at t uid ps))
  add_layers-layers_at (e ∷ es) ps =
      add_layers-layers_at es (add_layer e ps)
      ∙ ap (λ xs. xs ++ entries_of t uid es) (add_layer-layers_at e ps)
      ∙ append_assoc (layers_at t uid ps) (own t uid e) (entries_of t uid es)
      ∙ ap (λ xs. layers_at t uid ps ++ xs) (sym (entries_of-cons t uid e es))

  with_nat-layers_of : (p : PolicyPackage) → layers_of t (with_nat p) ≡ layers_of t p
  unfolding with_nat
  with_nat-layers_of p = kept t
    where
      kept : (x : RulebaseType) → layers_of x (record p { has_nat_policy = true }) ≡ layers_of x p
      kept nat = refl
      kept access = refl
      kept https = refl
      kept threat = refl

  add_nat_rule-layers_at :
      (r : RuleEntry) (ps : List PolicyPackage)
      → layers_at t uid (add_nat_rule r ps) ≡ layers_at t uid ps
  unfolding layers_at add_nat_rule
  add_nat_rule-layers_at r [] =
      let new = new_package r.layer_uid r.layer_name in
      elim (Bool-cases (str_eq (with_nat new).uid uid)) [
        | inl mine ↦
            rw mine (with_nat-layers_of new ∙ new_package-layers_of t r.layer_uid r.layer_name)
        | inr other ↦ rw other refl
      ]
  add_nat_rule-layers_at r (p ∷ ps) = elim (Bool-cases (str_eq p.uid r.layer_uid)) [
    | inl found ↦ rw found (elim (Bool-cases (str_eq p.uid uid)) [
      | inl here ↦ rw (here, with_nat) (with_nat-layers_of p)
      | inr there ↦ rw (there, with_nat) refl
    ])
    | inr later ↦ rw later (rw (add_nat_rule-layers_at r ps) refl)
  ]

  add_nat_rules-layers_at :
      (rs : List RuleEntry) (ps : List PolicyPackage)
      → layers_at t uid (add_nat_rules rs ps) ≡ layers_at t uid ps
  unfolding add_nat_rules
  add_nat_rules-layers_at [] ps = refl
  add_nat_rules-layers_at (r ∷ rs) ps =
      add_nat_rules-layers_at rs (add_nat_rule r ps) ∙ add_nat_rule-layers_at r ps

  -- The layers of the package and the type.
  abbrev is_own : PackageLayer → Bool
  is_own e = str_eq e.package_uid uid && same_type e.rulebase_type t

  entries_of-filter : (es : List PackageLayer) → entries_of t uid es ≡ filter is_own es
  unfolding entries_of
  entries_of-filter [] = refl
  entries_of-filter (e ∷ es) = rw (entries_of-filter es) refl

  own-StandsBefore :
      (e d : PackageLayer)
      → is_own e ≡ true
      → is_own d ≡ true
      → has_lower_key d e ≡ false
      → StandsBefore e d
  unfolding same_type
  own-StandsBefore e d mine mine' h = ground (
    arith,
    h,
    str_eq-str_ltb d.package_uid e.package_uid,
    same_key d e (ground (arith, mine')) (ground (arith, mine)),
    same_rank d.rulebase_type e.rulebase_type t (ground (arith, mine')) (ground (arith, mine)),
  )
    where
      same_key :
          (x y : PackageLayer)
          → str_eq x.package_uid uid ≡ true
          → str_eq y.package_uid uid ≡ true
          → str_eq x.package_uid y.package_uid ≡ true
      same_key x y p q = ground (
        arith,
        str_eq_iff x.package_uid uid,
        str_eq_iff y.package_uid uid,
        str_eq_iff x.package_uid y.package_uid,
      )

      same_rank :
          (x y z : RulebaseType) → same_type x z ≡ true → same_type y z ≡ true → rank x ≡ rank y
      same_rank x y z p q = ground (arith, p, q)

  -- For a type other than NAT, the layers of the type that the package with a given uid gets, none when
  -- there is no such package, are the snapshot's layers of that package and type, each as often as
  -- there. They are in the order of the names that they give the package, and for one name in the order
  -- of their positions.
  pub extract_policy_packages-layers_at :
      (s : Snapshot)
      → Perm (layers_at t uid (extract_policy_packages s)) (entries_of t uid s.package_layers)
        × IsOrdered stays_before StandsBefore (layers_at t uid (extract_policy_packages s))
  unfolding extract_policy_packages layers_at sorted_layers
  extract_policy_packages-layers_at s =
      let es = sort_with stays_before s.package_layers in
      let same : layers_at t uid (extract_policy_packages s) ≡ filter is_own es =
        add_nat_rules-layers_at s.nat_rules (add_layers es [])
        ∙ add_layers-layers_at es []
        ∙ entries_of-filter es in
      (
        subst (λ xs. Perm xs (entries_of t uid s.package_layers)) (sym same)
            (subst (Perm (filter is_own es)) (sym (entries_of-filter s.package_layers))
              (sort_with-filter stays_before is_own s.package_layers)),
        subst (IsOrdered stays_before StandsBefore) (sym same) (
            filter-IsOrdered is_own (λ e d. has_lower_key d e ≡ false) StandsBefore own-StandsBefore
              es
              (sort_with-NotBelow stays_before has_lower_key has_lower_key-IsWeakOrder
                stays_before-key s.package_layers)),
      )
