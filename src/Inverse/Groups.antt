-- ===== src/Inverse/Groups.antt =====
-- The actions of a plan, grouped by domain.
use mathlib.Core.List.{append_assoc}
use arodonata.Common.{
  true, false, List, [], ◌∷◌, ◌++◌, if◌then◌else◌, str_eq_iff, str_eq_self, ◌≡◌, inl, inr, refl,
  sym, ap, ◌∙◌, All, arith, Bool-cases,
}
use arodonata.Inverse.{
  PlannedAction, DomainKey, same_key, key_of, Group, group_action, group_actions,
}

-- `domain_actions[key]`.
abbrev pub actions_of : DomainKey → List Group → List PlannedAction
unfolding same_key
actions_of k [] = []
actions_of k (g ∷ gs) = let rest = actions_of k gs in if same_key g.key k then g.actions else rest

-- The actions of a domain, in the order of the plan.
abbrev pub of_domain : DomainKey → List PlannedAction → List PlannedAction
unfolding same_key key_of
of_domain k [] = []
of_domain k (a ∷ more) =
    let rest = of_domain k more in if same_key (key_of a) k then a ∷ rest else rest

abbrev pub HasDistinctKeys : List Group → Type 0
HasDistinctKeys [] = Unit {0}
HasDistinctKeys (g ∷ gs) = All (λ h. same_key g.key h.key ≡ false) gs × HasDistinctKeys gs

same_key-eq : (k l : DomainKey) → same_key k l ≡ true → k ≡ l
unfolding same_key
same_key-eq k l h =
    ground (arith, str_eq_iff k.mgmt_name l.mgmt_name, str_eq_iff k.domain_name l.domain_name)

append_nothing : (xs : List PlannedAction) → xs ++ [] ≡ xs
append_nothing [] = refl
append_nothing (x ∷ xs) = ap (◌∷◌ x) (append_nothing xs)

same_key_self : (k : DomainKey) → same_key k k ≡ true
unfolding same_key
same_key_self k = ground (arith, str_eq_self k.mgmt_name, str_eq_self k.domain_name)

-- Two keys that a third one is the same as, and not.
same_key-differs :
    (k l m : DomainKey) → same_key k l ≡ false → same_key k m ≡ true → same_key l m ≡ false
same_key-differs k l m other same = elim (Bool-cases (same_key l m)) [
  | inr away ↦ away
  | inl there ↦
      let equal : k ≡ l = same_key-eq k m same ∙ sym (same_key-eq l m there) in
      absurd (ground (arith, rw equal at other, same_key_self l))
]

group_action-actions_of :
    (k : DomainKey) (a : PlannedAction) (gs : List Group)
    → actions_of k (group_action a gs) ≡ actions_of k gs ++ of_domain k (a ∷ [])
unfolding group_action
group_action-actions_of k a [] = refl
group_action-actions_of k a (g ∷ gs) = elim (Bool-cases (same_key g.key (key_of a))) [
  | inl joins ↦
      let e : g.key ≡ key_of a = same_key-eq g.key (key_of a) joins in
      elim (Bool-cases (same_key (key_of a) k)) [
        | inl here ↦ let there : same_key g.key k ≡ true = rw e here in rw (joins, there, here) refl
        | inr other ↦
            let away : same_key g.key k ≡ false = rw e other in
            rw (joins, away, other) (sym (append_nothing (actions_of k gs)))
      ]
  | inr passes ↦ elim (Bool-cases (same_key g.key k)) [
    | inl here ↦
        let other : same_key (key_of a) k ≡ false =
          same_key-differs g.key (key_of a) k passes here in
        rw (passes, here, other) (sym (append_nothing g.actions))
    | inr away ↦ rw (passes, away) (group_action-actions_of k a gs)
  ]
]

of_domain-first :
    (k : DomainKey) (a : PlannedAction) (more : List PlannedAction)
    → of_domain k (a ∷ []) ++ of_domain k more ≡ of_domain k (a ∷ more)
unfolding of_domain
of_domain-first k a more = elim (Bool-cases (same_key (key_of a) k)) [
  | inl here ↦ rw here refl
  | inr other ↦ rw other refl
]

group_actions-actions_of :
    (k : DomainKey) (actions : List PlannedAction) (gs : List Group)
    → actions_of k (group_actions actions gs) ≡ actions_of k gs ++ of_domain k actions
unfolding group_actions
group_actions-actions_of k [] gs = sym (append_nothing (actions_of k gs))
group_actions-actions_of k (a ∷ more) gs =
    rw
      (
        group_actions-actions_of k more (group_action a gs),
        group_action-actions_of k a gs,
        append_assoc (actions_of k gs) (of_domain k (a ∷ [])) (of_domain k more),
        of_domain-first k a more,
      )
      refl

group_action-away :
    (k : DomainKey) (a : PlannedAction) (gs : List Group)
    → same_key k (key_of a) ≡ false
    → All (λ h. same_key k h.key ≡ false) gs
    → All (λ h. same_key k h.key ≡ false) (group_action a gs)
unfolding group_action
group_action-away k a [] other h = (other, tt)
group_action-away k a (g ∷ gs) other h = elim (Bool-cases (same_key g.key (key_of a))) [
  | inl joins ↦ rw joins (h.0, h.1)
  | inr passes ↦ rw passes (h.0, group_action-away k a gs other h.1)
]

group_action-HasDistinctKeys :
    (a : PlannedAction) (gs : List Group) → HasDistinctKeys gs → HasDistinctKeys (group_action a gs)
unfolding group_action
group_action-HasDistinctKeys a [] h = (tt, tt)
group_action-HasDistinctKeys a (g ∷ gs) h = elim (Bool-cases (same_key g.key (key_of a))) [
  | inl joins ↦ rw joins (h.0, h.1)
  | inr passes ↦
      rw passes (group_action-away g.key a gs passes h.0, group_action-HasDistinctKeys a gs h.1)
]

group_actions-HasDistinctKeys :
    (actions : List PlannedAction) (gs : List Group)
    → HasDistinctKeys gs
    → HasDistinctKeys (group_actions actions gs)
unfolding group_actions
group_actions-HasDistinctKeys [] gs h = h
group_actions-HasDistinctKeys (a ∷ more) gs h =
    group_actions-HasDistinctKeys more (group_action a gs) (group_action-HasDistinctKeys a gs h)

-- The actions of a plan are grouped by their domains: no two groups are of one domain, and whichever
-- domain is looked up among the groups has the plan's actions of this domain, in the plan's order.
pub group_actions-IsGrouping :
    (actions : List PlannedAction)
    → HasDistinctKeys (group_actions actions [])
      × ((k : DomainKey) → actions_of k (group_actions actions []) ≡ of_domain k actions)
unfolding of_domain actions_of
group_actions-IsGrouping actions =
    (group_actions-HasDistinctKeys actions [] tt, λ k. group_actions-actions_of k actions [])
