-- ===== src/Topology/Locate/Found.antt =====
-- Every interface with a part of the query has a match.
use arodonata.Common.{
  ◌≡◌, sym, ap, ◌∙◌, inl, inr, String, true, ◌&&◌, Option, none, some, List, [], ◌∷◌, map, any, All,
  Any, str_eq, arith, Bool-cases,
}
use arodonata.Common.Members.{IsIn, Any-weaken, All-Any, Any-append, filter-Any, map-Any}
use arodonata.Common.Sorting.{sort_with, sort_with-Any}
use arodonata.Topology.Intervals.{is_range_covered}
use arodonata.Topology.Entries.{Entry, internal, is_internal, overlaps}
use arodonata.Topology.Scores.{View, Group, members}
use arodonata.Topology.Locate.{
  Endpoint, InterfaceMatch, internal_match, match_group, locate_overlapping, external_entry,
  add_match, add_external, locate_wide, group_by_interface, interval_of, stays_by_name,
  overlapping_entries, external_entries,
}
use arodonata.Topology.Locate.Grouped.{
  IsOn, HasMember, IsGroup, group_by_interface-IsGroup, best-IsOn, group_by_interface-HasMember,
}
use arodonata.Topology.Locate.Placed.{Meets, IsOverlapping, IsOverlapping-All}

module _ (v : View) (q : Endpoint) where
  overlapping-IsIn :
      (e : Entry)
      → IsIn e v.entries
      → e.topology_zone ≡ internal
      → Meets q e
      → IsIn e (overlapping_entries v q)
  overlapping-IsIn e is_in zone meets =
      let test = λ (e : Entry). is_internal e.topology_zone && overlaps e q.ip_first q.ip_last in
      let fits : test e ≡ true = rw zone (ground arith) in
      filter-Any (λ y. y ≡ e) test v.entries
        (Any-weaken (λ y. y ≡ e) (λ y. (y ≡ e) × (test y ≡ true)) (λ y same. (same, rw same fits))
          v.entries is_in)

  module _ (e : Entry) where
    abbrev pub IsMatchOf : InterfaceMatch → Type 0
    IsMatchOf m = m.interface_name ≡ e.interface_name

    -- A group that has the entry is matched on the entry's interface.
    member-on :
        (P : Entry → Type 0) (interface : String) (es : List Entry)
        → All (λ d. IsOn interface d × P d) es
        → IsIn e es
        → interface ≡ e.interface_name
    member-on P interface [] h is_in = absurd is_in
    member-on P interface (d ∷ es) h is_in = elim is_in [
      | inl here ↦ sym h.0.0 ∙ ap (λ (x : Entry). x.interface_name) here
      | inr there ↦ member-on P interface es h.1 there
    ]

    match_group-IsMatchOf :
        (g : Group) → IsGroup (IsOverlapping v q) g × HasMember e g → IsMatchOf (match_group v g)
    unfolding match_group internal_match
    match_group-IsMatchOf g (is_group, member) =
        (best-IsOn (IsOverlapping v q) v g is_group).0
        ∙ member-on (IsOverlapping v q) g.interface (members g) is_group member

    locate_overlapping-finds :
        IsIn e (overlapping_entries v q)
        → Any IsMatchOf (locate_overlapping v (overlapping_entries v q))
    unfolding locate_overlapping
    locate_overlapping-finds is_in =
        let es = overlapping_entries v q in
        let groups = group_by_interface es in
        map-Any (match_group v) IsMatchOf (sort_with stays_by_name groups) (
          sort_with-Any stays_by_name (λ g. IsMatchOf (match_group v g)) groups
            (Any-weaken (λ g. IsGroup (IsOverlapping v q) g × HasMember e g)
              (λ g. IsMatchOf (match_group v g)) match_group-IsMatchOf groups
              (All-Any (IsGroup (IsOverlapping v q)) (HasMember e) groups
                (group_by_interface-IsGroup (IsOverlapping v q) es (IsOverlapping-All v q))
                (group_by_interface-HasMember e es is_in))))

    add_match-finds :
        (o : Option Entry) (ms : List InterfaceMatch)
        → Any IsMatchOf ms
        → Any IsMatchOf (add_match v.weights (external_entries v) o ms)
    unfolding add_match
    add_match-finds none ms h = h
    add_match-finds (some d) ms h =
        elim (Bool-cases (any (λ m. str_eq m.interface_name d.interface_name) ms)) [
          | inl has ↦ rw has h
          | inr new ↦ rw new (Any-append IsMatchOf ms _ (inl h))
        ]

    pub locate_wide-finds :
        IsIn e v.entries
        → e.topology_zone ≡ internal
        → Meets q e
        → Any IsMatchOf (locate_wide v q (overlapping_entries v q))
    unfolding locate_wide add_external
    locate_wide-finds is_in zone meets =
        let found = locate_overlapping-finds (overlapping-IsIn e is_in zone meets) in
        elim (Bool-cases
          (is_range_covered q.ip_first q.ip_last (map interval_of (overlapping_entries v q)))) [
            | inl covered ↦ rw covered found
            | inr open_part ↦ rw open_part (
                add_match-finds (external_entry (external_entries v))
                  (locate_overlapping v (overlapping_entries v q)) found)
          ]
