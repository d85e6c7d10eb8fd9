-- ===== src/Topology/Locate/Grouped.antt =====
-- The entries of a group are on its interface, and each entry is in a group.
use arodonata.Common.{
  ◌≡◌, refl, sym, inl, inr, String, List, [], ◌∷◌, str_eq, str_eq_iff, All, Any, Bool-cases,
}
use arodonata.Common.Members.{IsIn, All-append, Any-append}
use arodonata.Common.Sorting.{least_with-P}
use arodonata.Topology.Entries.{Entry}
use arodonata.Topology.Scores.{Group, members, View, stays_best, score_interface_group}
use arodonata.Topology.Locate.{add_to_group, add_all, group_by_interface}

-- The entry is on the interface.
abbrev pub IsOn : String → Entry → Type 0
IsOn interface e = e.interface_name ≡ interface

module _ (P : Entry → Type 0) where
  abbrev pub IsGroup : Group → Type 0
  IsGroup g = All (λ e. IsOn g.interface e × P e) (members g)

  add_to_group-IsGroup :
      (e : Entry) (gs : List Group) → P e → All IsGroup gs → All IsGroup (add_to_group e gs)
  unfolding add_to_group
  add_to_group-IsGroup e [] p h = (((refl, p), tt), tt)
  add_to_group-IsGroup e (g ∷ gs) p h = elim (Bool-cases (str_eq g.interface e.interface_name)) [
    | inl mine ↦
        let same = (str_eq_iff g.interface e.interface_name).0 mine in
        rw mine (
          (
            h.0.0,
            All-append (λ d. IsOn g.interface d × P d) g.others (e ∷ []) h.0.1 ((sym same, p), tt),
          ),
          h.1,
        )
    | inr other ↦ rw other (h.0, add_to_group-IsGroup e gs p h.1)
  ]

  add_all-IsGroup :
      (es : List Entry) (gs : List Group) → All P es → All IsGroup gs → All IsGroup (add_all es gs)
  unfolding add_all
  add_all-IsGroup [] gs p h = h
  add_all-IsGroup (e ∷ es) gs p h =
      add_all-IsGroup es (add_to_group e gs) p.1 (add_to_group-IsGroup e gs p.0 h)

  pub group_by_interface-IsGroup :
      (es : List Entry) → All P es → All IsGroup (group_by_interface es)
  unfolding group_by_interface
  group_by_interface-IsGroup es p = add_all-IsGroup es [] p tt

  -- The best entry is one of the group.
  pub best-IsOn :
      (v : View) (g : Group)
      → IsGroup g
      → IsOn g.interface (score_interface_group v g).best × P (score_interface_group v g).best
  unfolding score_interface_group
  best-IsOn v g h = least_with-P stays_best (λ e. IsOn g.interface e × P e) g.first g.others h.0 h.1

module _ (e : Entry) where
  -- The entry is one of the group.
  abbrev pub HasMember : Group → Type 0
  HasMember g = IsIn e (members g)

  add_to_group-keeps :
      (d : Entry) (gs : List Group) → Any HasMember gs → Any HasMember (add_to_group d gs)
  unfolding add_to_group
  add_to_group-keeps d [] h = absurd h
  add_to_group-keeps d (g ∷ gs) h = elim (Bool-cases (str_eq g.interface d.interface_name)) [
    | inl mine ↦ rw mine (elim h [
      | inl here ↦ inl (Any-append (λ y. y ≡ e) (members g) (d ∷ []) (inl here))
      | inr there ↦ inr there
    ])
    | inr other ↦
        rw other (elim h [ inl here ↦ inl here | inr there ↦ inr (add_to_group-keeps d gs there) ])
  ]

  add_to_group-gets : (gs : List Group) → Any HasMember (add_to_group e gs)
  unfolding add_to_group
  add_to_group-gets [] = inl (inl refl)
  add_to_group-gets (g ∷ gs) = elim (Bool-cases (str_eq g.interface e.interface_name)) [
    | inl mine ↦ rw mine (inl (Any-append (λ y. y ≡ e) (members g) (e ∷ []) (inr (inl refl))))
    | inr other ↦ rw other (inr (add_to_group-gets gs))
  ]

  add_all-keeps :
      (es : List Entry) (gs : List Group) → Any HasMember gs → Any HasMember (add_all es gs)
  unfolding add_all
  add_all-keeps [] gs h = h
  add_all-keeps (d ∷ es) gs h = add_all-keeps es (add_to_group d gs) (add_to_group-keeps d gs h)

  add_all-gets : (es : List Entry) (gs : List Group) → IsIn e es → Any HasMember (add_all es gs)
  unfolding add_all
  add_all-gets [] gs h = absurd h
  add_all-gets (d ∷ es) gs h = elim h [
    | inl here ↦ rw here (add_all-keeps es (add_to_group e gs) (add_to_group-gets gs))
    | inr there ↦ add_all-gets es (add_to_group d gs) there
  ]

  pub group_by_interface-HasMember :
      (es : List Entry) → IsIn e es → Any HasMember (group_by_interface es)
  unfolding group_by_interface
  group_by_interface-HasMember es h = add_all-gets es [] h
