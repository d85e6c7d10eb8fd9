-- ===== src/Topology/Locate/Placed.antt =====
-- A query that no internal entry contains has a match for each interface with a part of it, and an
-- external one only if a part is behind no interface.
use arodonata.Common.{
  ℕ, ◌≤◌, ◌≡◌, refl, inl, inr, String, true, ◌&&◌, Option, none, some, List, [], ◌∷◌, map, filter,
  any, head, All, Any, str_eq, arith, Bool-cases, Option-cases,
}
use arodonata.Common.Members.{
  IsIn, All-IsIn, All-weaken, Any-weaken, All-append, filter-All, filter-Any, All-head, map-All,
  map-Any,
}
use arodonata.Common.Sorting.{sort_with, sort_with-All}
use arodonata.Topology.Intervals.{is_range_covered}
use arodonata.Topology.Intervals.Covered.{Contains, is_range_covered_iff}
use arodonata.Topology.Entries.{
  Entry, Zone, internal, external, is_internal, is_external, is_static, overlaps,
}
use arodonata.Topology.Scores.{View, Group, score_interface_group}
use arodonata.Topology.Locate.{
  Endpoint, InterfaceMatch, internal_match, match_group, locate_overlapping, external_entry,
  external_match, add_match, add_external, locate_wide, group_by_interface, interval_of,
  stays_by_name, overlapping_entries, external_entries, is_default_live,
}
use arodonata.Topology.Locate.Grouped.{IsOn, IsGroup, group_by_interface-IsGroup, best-IsOn}

-- The entry is one of the gateway's, in the zone, and on the interface.
abbrev pub IsEntry : View → Zone → String → Entry → Type 0
IsEntry v zone interface e = IsIn e v.entries × (e.topology_zone ≡ zone) × IsOn interface e

-- The entry has a part of the query.
abbrev pub Meets : Endpoint → Entry → Type 0
Meets q e = (q.ip_first ≤ e.ip_last) × (e.ip_first ≤ q.ip_last)

-- Each address of the query is in an internal entry.
abbrev pub IsBehind : View → Endpoint → Type 0
IsBehind v q =
    (a : ℕ)
    → q.ip_first ≤ a
    → a ≤ q.ip_last
    → Any (λ e. (e.topology_zone ≡ internal) × (e.ip_first ≤ a) × (a ≤ e.ip_last)) v.entries

abbrev pub IsPlaced : View → Endpoint → Zone → InterfaceMatch → Type 0
IsPlaced v q internal m = (e : Entry) × IsEntry v internal m.interface_name e × Meets q e
IsPlaced v q external m = ((e : Entry) × IsEntry v external m.interface_name e) × (¬ IsBehind v q)

pub zone_of_internal : (z : Zone) → is_internal z ≡ true → z ≡ internal
zone_of_internal internal h = refl
zone_of_internal external h = cc

zone_of_external : (z : Zone) → is_external z ≡ true → z ≡ external
zone_of_external internal h = cc
zone_of_external external h = refl

module _ (v : View) (q : Endpoint) where
  abbrev pub IsOverlapping : Entry → Type 0
  IsOverlapping e = IsIn e v.entries × (e.topology_zone ≡ internal) × Meets q e

  pub IsOverlapping-All : All IsOverlapping (overlapping_entries v q)
  IsOverlapping-All =
      let test = λ (e : Entry). is_internal e.topology_zone && overlaps e q.ip_first q.ip_last in
      All-weaken (λ e. IsIn e v.entries × (test e ≡ true)) IsOverlapping
        (λ e (is_in, fits).
          (is_in, zone_of_internal e.topology_zone (ground arith), (ground arith, ground arith)))
        (overlapping_entries v q)
        (filter-All (λ e. IsIn e v.entries) test v.entries (All-IsIn v.entries))

  match_group-IsPlaced :
      (g : Group) → IsGroup IsOverlapping g → IsPlaced v q internal (match_group v g)
  unfolding match_group internal_match
  match_group-IsPlaced g h =
      let best = (score_interface_group v g).best in
      let (on, (is_in, zone, meets)) = best-IsOn IsOverlapping v g h in
      (best, (is_in, zone, refl), meets)

  abbrev IsPlacedMatch : InterfaceMatch → Type 0
  IsPlacedMatch m = IsPlaced v q m.topology_zone m

  locate_overlapping-IsPlaced : All IsPlacedMatch (locate_overlapping v (overlapping_entries v q))
  unfolding locate_overlapping
  locate_overlapping-IsPlaced =
      let es = overlapping_entries v q in
      let groups = group_by_interface es in
      map-All (match_group v) IsPlacedMatch (sort_with stays_by_name groups) (
        sort_with-All stays_by_name (λ g. IsPlacedMatch (match_group v g)) groups
          (All-weaken (IsGroup IsOverlapping) (λ g. IsPlacedMatch (match_group v g))
            (λ g h. unfold match_group internal_match in match_group-IsPlaced g h) groups
            (group_by_interface-IsGroup IsOverlapping es IsOverlapping-All)))

  external_entry-IsEntry :
      (es : List Entry) (e : Entry) (P : Entry → Type 0)
      → All P es
      → external_entry es ≡ some e
      → P e
  unfolding external_entry
  external_entry-IsEntry es e P all h = elim (Option-cases (head (filter is_default_live es))) [
    | inr (d, found) ↦
        let same : d ≡ e = ground arith in
        rw (← same)
          (All-head (λ x. P x × (is_default_live x ≡ true)) _ d
            (filter-All P is_default_live es all) found).0
    | inl no_default ↦
        let static = λ (x : Entry). is_static x.source_type in
        elim (Option-cases (head (filter static es))) [
          | inr (d, found) ↦
              let same : d ≡ e = ground arith in
              rw (← same)
                (All-head (λ x. P x × (static x ≡ true)) _ d (filter-All P static es all) found).0
          | inl no_static ↦ All-head P es e all (ground arith)
        ]
  ]

  abbrev IsExternal : Entry → Type 0
  IsExternal e = IsIn e v.entries × (e.topology_zone ≡ external)

  external_entries-All : All IsExternal (external_entries v)
  external_entries-All =
      let test = λ (e : Entry). is_external e.topology_zone in
      All-weaken (λ e. IsIn e v.entries × (test e ≡ true)) IsExternal
        (λ e (is_in, fits). (is_in, zone_of_external e.topology_zone fits)) (external_entries v)
        (filter-All (λ e. IsIn e v.entries) test v.entries (All-IsIn v.entries))

  -- The addresses that internal entries have are those that the swept intervals have.
  IsBehind-covered :
      q.ip_first ≤ q.ip_last
      → IsBehind v q
      → is_range_covered q.ip_first q.ip_last (map interval_of (overlapping_entries v q)) ≡ true
  IsBehind-covered ordered behind =
      (is_range_covered_iff q.ip_first q.ip_last (map interval_of (overlapping_entries v q))
          ordered).1
        λ a above below. map-Any interval_of (Contains a) (overlapping_entries v q) (
          filter-Any (λ e. Contains a (interval_of e))
            (λ e. is_internal e.topology_zone && overlaps e q.ip_first q.ip_last) v.entries
            (Any-weaken (λ e. (e.topology_zone ≡ internal) × (e.ip_first ≤ a) × (a ≤ e.ip_last))
              (λ e.
                Contains a (interval_of e)
                × ((is_internal e.topology_zone && overlaps e q.ip_first q.ip_last) ≡ true))
              (λ e (zone, from, to). ((from, to), rw zone (ground arith))) v.entries
              (behind a above below)))

  add_match-IsPlaced :
      (o : Option Entry) (ms : List InterfaceMatch)
      → ((e : Entry) → o ≡ some e → IsExternal e)
      → ¬ IsBehind v q
      → All IsPlacedMatch ms
      → All IsPlacedMatch (add_match v.weights (external_entries v) o ms)
  unfolding add_match
  add_match-IsPlaced none ms from open_part h = h
  add_match-IsPlaced (some e) ms from open_part h =
      let (is_in, zone) = from e refl in
      elim (Bool-cases (any (λ m. str_eq m.interface_name e.interface_name) ms)) [
        | inl has ↦ rw has h
        | inr new ↦ rw new (
            All-append IsPlacedMatch ms (external_match v.weights (external_entries v) e ∷ []) h
              (unfold external_match in (((e, (is_in, zone, refl)), open_part), tt)))
      ]

  add_external-IsPlaced :
      (ms : List InterfaceMatch)
      → ¬ IsBehind v q
      → All IsPlacedMatch ms
      → All IsPlacedMatch (add_external v.weights (external_entries v) ms)
  unfolding add_external
  add_external-IsPlaced ms open_part h =
      add_match-IsPlaced (external_entry (external_entries v)) ms
        (λ e found.
          external_entry-IsEntry (external_entries v) e IsExternal external_entries-All found)
        open_part h

  pub locate_wide-IsPlaced :
      q.ip_first ≤ q.ip_last → All IsPlacedMatch (locate_wide v q (overlapping_entries v q))
  unfolding locate_wide
  locate_wide-IsPlaced ordered =
      elim (Bool-cases
        (is_range_covered q.ip_first q.ip_last (map interval_of (overlapping_entries v q)))) [
          | inl covered ↦ rw covered locate_overlapping-IsPlaced
          | inr open_part ↦ rw open_part (
              add_external-IsPlaced _
                (λ behind. let covered = IsBehind-covered ordered behind in cc)
                locate_overlapping-IsPlaced)
        ]
