-- ===== src/Topology/Locate/Intervals.antt =====
-- Where `_locate_intervals_on_gateway` places a query.
use arodonata.Common.{◌≤◌, ◌≡◌, sym, refl, String, List, [], ◌∷◌, map, All, Any, subst, arith}
use arodonata.Common.Members.{IsIn, All-weaken, All-Any, Any-weaken, map-All, map-Any}
use arodonata.Common.Sorting.{sort_with, sort_with-All, sort_with-Any, sort_with-IsOrdered}
use arodonata.Topology.Entries.{Entry, internal}
use arodonata.Topology.Scores.{View}
use arodonata.Topology.Locate.{
  Endpoint, InterfaceMatch, scored, stays_first, locate_contained, locate_by, locate_intervals,
  group_by_interface, containing_entries,
}
use arodonata.Topology.Locate.Grouped.{
  HasMember, IsGroup, group_by_interface-IsGroup, group_by_interface-HasMember,
}
use arodonata.Topology.Locate.Placed.{Meets, IsPlaced, locate_wide-IsPlaced}
use arodonata.Topology.Locate.Found.{locate_wide-finds}
use arodonata.Topology.Locate.Chosen.{
  Surrounds, IsContaining, IsBest, LeadsEntry, IsChosen, Leads-trans, Outranks,
  stays_first-Outranks, stays_first-Outranks_not, IsContaining-All, containing-IsIn, scored-IsBest,
  group-LeadsEntry, first_scored-IsChosen,
}

module _ (v : View) (names : List String) (q : Endpoint) (ordered : q.ip_first ≤ q.ip_last) where
  locate_contained-IsChosen :
      (e : Entry)
      → IsContaining v names q e
      → IsChosen v names q (locate_contained v names (containing_entries v q))
  unfolding locate_contained
  locate_contained-IsChosen e around =
      let es = containing_entries v q in
      let groups = group_by_interface es in
      let ss = map (scored v names) groups in
      let are_groups =
        group_by_interface-IsGroup (IsContaining v names q) es (IsContaining-All v names q) in
      first_scored-IsChosen v names q (sort_with stays_first ss)
        (sort_with-IsOrdered stays_first Outranks
          (λ a b c.
            Leads-trans a.also_external b.also_external c.also_external a.score.best b.score.best
              c.score.best)
          stays_first-Outranks stays_first-Outranks_not ss)
        (sort_with-All stays_first (IsBest v names q) ss (
          map-All (scored v names) (IsBest v names q) groups (
            All-weaken (IsGroup (IsContaining v names q)) (λ g. IsBest v names q (scored v names g))
              (scored-IsBest v names q) groups are_groups)))
        (λ d (is_in, zone, surrounds). sort_with-Any stays_first (LeadsEntry v names q d) ss (
          map-Any (scored v names) (LeadsEntry v names q d) groups (
            Any-weaken (λ g. IsGroup (IsContaining v names q) g × HasMember d g)
              (λ g. LeadsEntry v names q d (scored v names g))
              (λ g (is_group, member). group-LeadsEntry v names q d g is_group member) groups
              (All-Any (IsGroup (IsContaining v names q)) (HasMember d) groups are_groups (
                group_by_interface-HasMember d es
                  (containing-IsIn v names q ordered d is_in zone surrounds))))))
        e around

  locate_by-IsChosen :
      (es : List Entry)
      → es ≡ containing_entries v q
      → (e : Entry) → IsContaining v names q e
      → IsChosen v names q (locate_by v names q es)
  unfolding locate_by
  locate_by-IsChosen [] same e (is_in, zone, surrounds) =
      absurd (rw (← same) at (containing-IsIn v names q ordered e is_in zone surrounds))
  locate_by-IsChosen (d ∷ es) same e around = rw same (locate_contained-IsChosen e around)

  -- A query that does not end before it starts, and that an internal entry of the gateway contains, has
  -- exactly one match. It is internal, with the interface and the prefix of an internal entry that
  -- contains the query and leads all others that do: entries of live routes and of the administrator
  -- lead other entries, then those lead whose interface is not also an external one, and then the
  -- narrower entry leads.
  pub locate_intervals-IsChosen :
      (e : Entry)
      → IsIn e v.entries
      → e.topology_zone ≡ internal
      → Surrounds q e
      → IsChosen v names q (locate_intervals v names q)
  unfolding locate_intervals
  locate_intervals-IsChosen e is_in zone surrounds =
      locate_by-IsChosen (containing_entries v q) refl e (is_in, zone, surrounds)

  chosen-IsPlaced :
      (ms : List InterfaceMatch)
      → IsChosen v names q ms
      → All (λ m. IsPlaced v q m.topology_zone m) ms
  chosen-IsPlaced ms (d, m, single, zone, on, cidr, (is_in, internal_zone, surrounds), leads) =
      rw single (rw zone (d, (is_in, internal_zone, on), (omega arith, omega arith)), tt)

  locate_by-IsPlaced :
      (es : List Entry)
      → es ≡ containing_entries v q
      → All (λ m. IsPlaced v q m.topology_zone m) (locate_by v names q es)
  unfolding locate_by
  locate_by-IsPlaced [] same = locate_wide-IsPlaced v q ordered
  locate_by-IsPlaced (d ∷ es) same =
      let first =
        subst (λ xs. All (IsContaining v names q) xs) (sym same) (IsContaining-All v names q) in
      rw same (chosen-IsPlaced _ (locate_contained-IsChosen d first.0))

  locate_by-finds :
      (es : List Entry)
      → es ≡ containing_entries v q
      → ((e : Entry) → ¬ IsContaining v names q e)
      → (e : Entry) → IsIn e v.entries
      → e.topology_zone ≡ internal
      → Meets q e
      → Any (λ m. m.interface_name ≡ e.interface_name) (locate_by v names q es)
  unfolding locate_by
  locate_by-finds [] same no_container e is_in zone meets = locate_wide-finds v q e is_in zone meets
  locate_by-finds (d ∷ es) same no_container e is_in zone meets =
      let first =
        subst (λ xs. All (IsContaining v names q) xs) (sym same) (IsContaining-All v names q) in
      absurd (no_container d first.0)

  -- For a query that does not end before it starts, an internal match is on the interface of an internal
  -- entry of the gateway that meets the query; an external match is on the interface of an external
  -- entry, and then not every address of the query is in an internal entry.
  pub locate_intervals-IsPlaced :
      All (λ m. IsPlaced v q m.topology_zone m) (locate_intervals v names q)
  unfolding locate_intervals
  locate_intervals-IsPlaced = locate_by-IsPlaced (containing_entries v q) refl

  -- If no internal entry contains the query, every interface with an internal entry that meets it has a
  -- match.
  pub locate_intervals-finds :
      ((e : Entry) → ¬ IsContaining v names q e)
      → (e : Entry) → IsIn e v.entries
      → e.topology_zone ≡ internal
      → Meets q e
      → Any (λ m. m.interface_name ≡ e.interface_name) (locate_intervals v names q)
  unfolding locate_intervals
  locate_intervals-finds = locate_by-finds (containing_entries v q) refl
