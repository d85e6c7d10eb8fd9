-- ===== src/Topology/Locate.antt =====
-- core/services/topology_service.py, `_locate_intervals_on_gateway`: the interfaces of a gateway behind
-- which a queried interval is.
pub mod Grouped
pub mod Placed
pub mod Found
pub mod Chosen
pub mod Intervals
use arodonata.Common.{
  ℕ, String, Bool, true, false, not, ◌&&◌, ◌||◌, Option, none, some, List, [], ◌∷◌, ◌++◌,
  if◌then◌else◌, ltb, leb, ◌==◌, str_eq, any, filter, head, map,
}
use arodonata.Common.Sorting.{str_ltb, sort_with}
use arodonata.Topology.Intervals.{is_range_covered}
use arodonata.Topology.Entries.{
  SourceType, interface_connected, interface_specific, vs_static_route, external_interface,
  connected_route, gaia_static_route, clish_route, bgp_route, ospf_route, manual, is_live,
  is_static, Zone, internal, external, is_internal, is_external, Entry, Weights, contains, overlaps,
  is_narrower, is_as_wide,
}
use arodonata.Topology.Scores.{
  View, Group, members, Score, Delta, of_code, route_static, topology_external_fallback,
  is_preferred, total, clamp, score_interface_group,
}

-- `_ResolvedEndpointInterval`
pub record Endpoint : Type 0 where
  pub query_raw : String
  pub cidr_or_range : String
  pub ip_first : ℕ
  pub ip_last : ℕ

pub data MatchSource : Type 0 where
  of_source : SourceType → MatchSource
  external_fallback : MatchSource

-- `_InterfaceMatch`
pub record InterfaceMatch : Type 0 where
  pub interface_name : String
  pub topology_zone : Zone
  pub matched_cidr : String
  pub source_type : MatchSource
  pub source_ref : String
  pub confidence : ℕ
  pub is_standby_path : Bool
  pub confidence_factors : List Delta

-- The entries by interface, in the order in which the interfaces come first.
pub add_to_group : Entry → List Group → List Group
add_to_group e [] = record { interface = e.interface_name; first = e; others = [] } ∷ []
add_to_group e (g ∷ gs) =
    let rest = add_to_group e gs in
    if str_eq g.interface e.interface_name
    then record g { others = g.others ++ e ∷ [] } ∷ gs
    else g ∷ rest

pub add_all : List Entry → List Group → List Group
unfolding add_to_group
add_all [] gs = gs
add_all (e ∷ es) gs = add_all es (add_to_group e gs)

unfoldable pub group_by_interface : List Entry → List Group
unfolding add_all
group_by_interface es = add_all es []

pub internal_match : String → Score → InterfaceMatch
internal_match interface s = record {
  interface_name = interface;
  topology_zone = internal;
  matched_cidr = s.best.cidr_or_range;
  source_type = of_source s.best.source_type;
  source_ref = s.best.source_ref;
  confidence = s.confidence;
  is_standby_path = s.is_standby;
  confidence_factors = s.deltas;
}

-- A candidate with what its sort key is made of.
pub record Scored : Type 0 where
  pub group : String
  pub score : Score
  pub also_external : Bool

unfoldable pub scored : View → List String → Group → Scored
scored v external_names g = record {
  group = g.interface;
  score = score_interface_group v g;
  also_external = any (str_eq g.interface) external_names;
}

-- The last parts of the sort key: the prefix length, the confidence, the interface and the prefix.
unfoldable pub breaks_tie : Scored → Scored → Bool
unfolding str_ltb
breaks_tie a b =
    let d = a.score.best in
    let e = b.score.best in
    ltb e.prefix_len d.prefix_len
    || e.prefix_len == d.prefix_len
      && (ltb b.score.confidence a.score.confidence
          || a.score.confidence == b.score.confidence
            && (str_ltb a.group b.group
                || str_eq a.group b.group && not (str_ltb e.cidr_or_range d.cidr_or_range)))

-- The sort key of `a` is not after that of `b`.
pub stays_first : Scored → Scored → Bool
stays_first a b =
    let d = a.score.best in
    let e = b.score.best in
    is_preferred d && not (is_preferred e)
    || (is_preferred d || not (is_preferred e))
      && (not a.also_external && b.also_external
          || (not a.also_external || b.also_external)
            && (is_narrower d e || is_as_wide d e && breaks_tie a b))

pub first_scored : List Scored → List InterfaceMatch
first_scored [] = []
first_scored (s ∷ ss) = internal_match s.group s.score ∷ []

-- Case 1: an entry contains the whole query.
pub locate_contained : View → List String → List Entry → List InterfaceMatch
unfolding first_scored stays_first
locate_contained v external_names containing =
    first_scored
      (sort_with stays_first (map (scored v external_names) (group_by_interface containing)))

pub stays_by_name : Group → Group → Bool
unfolding str_ltb
stays_by_name a b = not (str_ltb b.interface a.interface)

pub match_group : View → Group → InterfaceMatch
unfolding internal_match
match_group v g = let s = score_interface_group v g in internal_match s.best.interface_name s

-- Case 2: the interfaces that have a part of the query.
pub locate_overlapping : View → List Entry → List InterfaceMatch
unfolding match_group stays_by_name
locate_overlapping v overlapping =
    map (match_group v) (sort_with stays_by_name (group_by_interface overlapping))

pub source_name : SourceType → String
source_name interface_connected = "interface_connected"
source_name interface_specific = "interface_specific"
source_name vs_static_route = "vs_static_route"
source_name external_interface = "external_interface"
source_name connected_route = "connected_route"
source_name gaia_static_route = "gaia_static_route"
source_name clish_route = "clish_route"
source_name bgp_route = "bgp_route"
source_name ospf_route = "ospf_route"
source_name manual = "manual"

is_default_live : Entry → Bool
is_default_live e = is_live e.source_type && (e.prefix_len == 0 && e.ip_first == 0)

-- A live default route, else a static external interface, else any external entry.
pub external_entry : List Entry → Option Entry
unfolding is_default_live
external_entry externals = elim (head (filter is_default_live externals)) [
  | some e ↦ some e
  | none ↦ elim (head (filter (λ e. is_static e.source_type) externals)) [
    | some e ↦ some e
    | none ↦ head externals
  ]
]

pub external_deltas : Weights → List Entry → String → List Delta
unfolding is_default_live
external_deltas w externals interface =
    let here = λ (e : Entry). str_eq e.interface_name interface in
    let live = any here (filter is_default_live externals) in
    let static = any here (filter (λ e. is_static e.source_type) externals) in
    (if live then of_code route_static w.route_static ∷ [] else [])
    ++ (if static || not live
        then of_code topology_external_fallback w.topology_external_fallback ∷ []
        else [])

pub external_match : Weights → List Entry → Entry → InterfaceMatch
unfolding external_deltas source_name total
external_match w externals e =
    let deltas = external_deltas w externals e.interface_name in
    record {
      interface_name = e.interface_name;
      topology_zone = external;
      matched_cidr = "0.0.0.0/0";
      source_type = external_fallback;
      source_ref = if str_eq e.source_ref "" then source_name e.source_type else e.source_ref;
      confidence = clamp (total deltas);
      is_standby_path = false;
      confidence_factors = deltas;
    }

-- The external match, unless its interface has a match already.
pub add_match : Weights → List Entry → Option Entry → List InterfaceMatch → List InterfaceMatch
unfolding external_match
add_match w externals none matches = matches
add_match w externals (some e) matches =
    if any (λ m. str_eq m.interface_name e.interface_name) matches
    then matches
    else matches ++ external_match w externals e ∷ []

pub add_external : Weights → List Entry → List InterfaceMatch → List InterfaceMatch
unfolding external_entry add_match
add_external w externals matches = add_match w externals (external_entry externals) matches

abbrev pub interval_of : Entry → ℕ × ℕ
interval_of e = (e.ip_first, e.ip_last)

abbrev pub containing_entries : View → Endpoint → List Entry
containing_entries v q =
    filter
      (λ e.
        is_internal e.topology_zone
        && (overlaps e q.ip_first q.ip_last && contains e q.ip_first q.ip_last))
      v.entries

abbrev pub overlapping_entries : View → Endpoint → List Entry
overlapping_entries v q =
    filter (λ e. is_internal e.topology_zone && overlaps e q.ip_first q.ip_last) v.entries

abbrev pub external_entries : View → List Entry
external_entries v = filter (λ e. is_external e.topology_zone) v.entries

pub locate_wide : View → Endpoint → List Entry → List InterfaceMatch
unfolding locate_overlapping add_external
locate_wide v q overlapping =
    let matches = locate_overlapping v overlapping in
    if is_range_covered q.ip_first q.ip_last (map interval_of overlapping)
    then matches
    else add_external v.weights (external_entries v) matches

pub locate_by : View → List String → Endpoint → List Entry → List InterfaceMatch
unfolding locate_contained locate_wide
locate_by v external_names q [] = locate_wide v q (overlapping_entries v q)
locate_by v external_names q (e ∷ es) = locate_contained v external_names (e ∷ es)

unfoldable pub locate_intervals : View → List String → Endpoint → List InterfaceMatch
unfolding locate_by
locate_intervals v external_names q = locate_by v external_names q (containing_entries v q)
