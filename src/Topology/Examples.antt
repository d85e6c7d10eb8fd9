-- ===== src/Topology/Examples.antt =====
-- A gateway with an external interface and two internal ones, one of them with a live route.
use arodonata.Common.{
  inr, ℕ, ◌≤◌, ◌≡◌, ◌↔◌, refl, inl, String, true, false, none, some, List, [], ◌∷◌, All, Any, any,
  arith, str_eq_iff,
}
use arodonata.Common.Sorting.{IsOrdered}
use arodonata.Topology.Intervals.{is_range_covered}
use arodonata.Topology.Intervals.Covered.{IsCovered, is_range_covered_iff}
use arodonata.Topology.Addresses.{parse_bounds, range_text, range_prefix_len}
use arodonata.Topology.Addresses.Sized.{IsSized, parse_bounds-IsSized}
use arodonata.Topology.Addresses.Printed.{parse_bounds-range_text}
use arodonata.Topology.Entries.{
  Entry, Annotation, Zone, internal, external, SourceType, interface_specific, external_interface,
  connected_route, unknown, default_weights, manual_entry, ignore, ByPrefix,
}
use arodonata.Topology.Scores.{View, disposition_of, score_interface_group}
use arodonata.Topology.Effective.{effective_entries, view_of}
use arodonata.Topology.Effective.Kept.{IsEffective, effective_entries-IsEffective}
use arodonata.Topology.Locate.{
  Endpoint, InterfaceMatch, external_fallback, scored, group_by_interface, locate_intervals,
}
use arodonata.Topology.Locate.Placed.{IsPlaced}
use arodonata.Topology.Locate.Chosen.{IsChosen}
use arodonata.Topology.Locate.Intervals.{locate_intervals-IsChosen, locate_intervals-IsPlaced}
use arodonata.Topology.Flows.{
  Flow, FlowType, is_type, Wanted, Gateway, flow_of, same_key, find_flows, external_names,
  stays_first, find_affected_gateways,
}
use arodonata.Topology.Flows.Sound.{IsFlow, HasUniqueKeys, find_flows-IsFlow}
use arodonata.Topology.Flows.Complete.{find_flows-finds}
use arodonata.Topology.Flows.Leading.{RankedBefore}
use arodonata.Topology.Flows.Ranked.{IsCandidate, IsServed, find_affected_gateways-IsRanked}

gap : is_range_covered 10 20 ((15, 30) ∷ (5, 13) ∷ []) ≡ false
unfolding is_range_covered
gap = refl

covered : is_range_covered 10 20 ((15, 30) ∷ (5, 14) ∷ []) ≡ true
unfolding is_range_covered
covered = refl

is_range_covered_iff_example :
    (is_range_covered 10 20 ((15, 30) ∷ (5, 14) ∷ []) ≡ true)
    ↔ ((a : ℕ) → 10 ≤ a → a ≤ 20 → IsCovered ((15, 30) ∷ (5, 14) ∷ []) a)
is_range_covered_iff_example = is_range_covered_iff 10 20 ((15, 30) ∷ (5, 14) ∷ []) (omega arith)

network : parse_bounds " 10.1.2.3/16 " ≡ some (167837696, 167903231, 16)
unfolding parse_bounds
network = refl

masked : parse_bounds "10.1.2.3/255.255.0.0" ≡ some (167837696, 167903231, 16)
unfolding parse_bounds
masked = refl

backwards : parse_bounds "10.0.0.9 - 10.0.0.2" ≡ some (167772162, 167772169, 29)
unfolding parse_bounds
backwards = refl

refused : parse_bounds "10.0.0.256" ≡ none
unfolding parse_bounds
refused = refl

parse_bounds-IsSized_example : IsSized (167772162, 167772169, 29)
parse_bounds-IsSized_example =
    parse_bounds-IsSized "10.0.0.9 - 10.0.0.2" 167772162 167772169 29 backwards

parse_bounds-range_text_example :
    parse_bounds (range_text 167772162 167772169)
    ≡ some (167772162, 167772169, range_prefix_len 167772162 167772169)
parse_bounds-range_text_example =
    parse_bounds-range_text 167772162 167772169 (omega arith) (omega arith)

abbrev entry : String → Zone → SourceType → String → ℕ → ℕ → ℕ → Entry
entry interface zone source cidr lo hi p = record {
  interface_name = interface;
  topology_zone = zone;
  anti_spoofing_mode = unknown;
  source_type = source;
  source_ref = "";
  cidr_or_range = cidr;
  ip_first = lo;
  ip_last = hi;
  prefix_len = p;
}

abbrev specific : Entry
specific = entry "eth1" internal interface_specific "10.0.0.0/8" 167772160 184549375 8

abbrev live : Entry
live = entry "eth2" internal connected_route "10.1.0.0/16" 167837696 167903231 16

abbrev outside : Entry
outside = entry "eth0" external external_interface "0.0.0.0/0" 0 4294967295 0

abbrev own_entries : List Entry
own_entries = specific ∷ live ∷ outside ∷ []

abbrev by_hand : Annotation
by_hand = record {
  interface_name = "eth3";
  cidr_or_range = "192.168.0.0/16";
  trust_static_topology = none;
  disposition = some manual_entry;
  topology_zone = none;
  comment = "";
}

abbrev ignored : Annotation
ignored = record {
  interface_name = "*";
  cidr_or_range = "10.0.0.0/8";
  trust_static_topology = none;
  disposition = some ignore;
  topology_zone = none;
  comment = "";
}

abbrev annotations : ByPrefix
annotations = (("eth3", "192.168.0.0/16"), by_hand) ∷ (("*", "10.0.0.0/8"), ignored) ∷ []

effective_entries-IsEffective_example :
    IsEffective annotations own_entries (effective_entries false annotations own_entries)
effective_entries-IsEffective_example =
    effective_entries-IsEffective false annotations own_entries (inr (λ e. cc))

abbrev view : View
view = view_of default_weights true [] own_entries

abbrev inside : Endpoint
inside = record {
  query_raw = "10.1.2.0/24";
  cidr_or_range = "10.1.2.0/24";
  ip_first = 167838208;
  ip_last = 167838463;
}

abbrev internet : Endpoint
internet = record {
  query_raw = "8.8.8.8";
  cidr_or_range = "8.8.8.8/32";
  ip_first = 134744072;
  ip_last = 134744072;
}

abbrev names_of : List InterfaceMatch → List (String × ℕ)
names_of [] = []
names_of (m ∷ ms) = (m.interface_name, m.confidence) ∷ names_of ms

located : names_of (locate_intervals view (external_names view) inside) ≡ ("eth2", 5500) ∷ []
unfolding view_of locate_intervals group_by_interface scored score_interface_group disposition_of
    is_range_covered
located = refl

located_outside :
    names_of (locate_intervals view (external_names view) internet) ≡ ("eth0", 3000) ∷ []
unfolding view_of locate_intervals group_by_interface scored score_interface_group disposition_of
    is_range_covered
located_outside = refl

view_entries : view.entries ≡ own_entries
unfolding view_of
view_entries = refl

locate_intervals-IsPlaced_example :
    All
      (λ m. IsPlaced view inside m.topology_zone m)
      (locate_intervals view (external_names view) inside)
locate_intervals-IsPlaced_example =
    locate_intervals-IsPlaced view (external_names view) inside (omega arith)

locate_intervals-IsChosen_example :
    IsChosen view (external_names view) inside (locate_intervals view (external_names view) inside)
unfolding view_of
locate_intervals-IsChosen_example =
    locate_intervals-IsChosen view (external_names view) inside (omega arith) specific (inl refl)
      refl (omega arith, omega arith)

abbrev wanted : Wanted
wanted = record { min_confidence = 2000; include_standby = true }

abbrev gateway : Gateway
gateway = record {
  mgmt_name = "m";
  domain_name = "d";
  gateway_name = "g";
  view = view;
  sources = inside ∷ [];
  destinations = internet ∷ inside ∷ [];
}

abbrev interfaces_of : List Flow → List (String × String × ℕ)
interfaces_of [] = []
interfaces_of (f ∷ fs) =
    (f.src.interface_name, f.dst.interface_name, f.confidence) ∷ interfaces_of fs

flows :
    interfaces_of (find_flows wanted view (inside ∷ []) (internet ∷ inside ∷ [])).flows
    ≡ ("eth2", "eth0", 3000) ∷ []
unfolding view_of locate_intervals group_by_interface scored score_interface_group disposition_of
    is_range_covered find_flows flow_of
flows = refl

find_flows-IsFlow_example :
    All
      (IsFlow wanted
        (locate_intervals view (external_names view))
        (inside ∷ [])
        (internet ∷ inside ∷ []))
      (find_flows wanted view (inside ∷ []) (internet ∷ inside ∷ [])).flows
    × HasUniqueKeys (find_flows wanted view (inside ∷ []) (internet ∷ inside ∷ [])).flows
    × ((t : FlowType)
        → any
            (is_type t)
            (find_flows wanted view (inside ∷ []) (internet ∷ inside ∷ [])).match_types
          ≡ any
              (λ f. is_type t f.match_type)
              (find_flows wanted view (inside ∷ []) (internet ∷ inside ∷ [])).flows)
find_flows-IsFlow_example = find_flows-IsFlow wanted view (inside ∷ []) (internet ∷ inside ∷ [])

abbrev first_match : List InterfaceMatch → InterfaceMatch
first_match [] = record {
  interface_name = "";
  topology_zone = internal;
  matched_cidr = "";
  source_type = external_fallback;
  source_ref = "";
  confidence = 0;
  is_standby_path = false;
  confidence_factors = [];
}
first_match (m ∷ ms) = m

abbrev src : InterfaceMatch
src = first_match (locate_intervals view (external_names view) inside)

abbrev dst : InterfaceMatch
dst = first_match (locate_intervals view (external_names view) internet)

is_flow :
    IsFlow wanted
      (locate_intervals view (external_names view))
      (inside ∷ [])
      (internet ∷ inside ∷ [])
      (flow_of inside internet src dst)
unfolding view_of locate_intervals group_by_interface scored score_interface_group disposition_of
    is_range_covered flow_of
is_flow = (
  inl refl,
  inl refl,
  inl refl,
  inl refl,
  λ e. ground (arith, str_eq_iff "eth2" "eth0"),
  λ e. cc,
  omega arith,
  omega arith,
  λ e. refl,
  λ e. refl,
)

find_flows-finds_example :
    Any
      (λ g. same_key (flow_of inside internet src dst) g ≡ true)
      (find_flows wanted view (inside ∷ []) (internet ∷ inside ∷ [])).flows
find_flows-finds_example =
    find_flows-finds wanted view (inside ∷ []) (internet ∷ inside ∷ []) inside internet src dst
      is_flow

find_affected_gateways-IsRanked_example :
    IsOrdered stays_first RankedBefore (find_affected_gateways wanted (gateway ∷ []))
    × All (IsCandidate wanted (gateway ∷ [])) (find_affected_gateways wanted (gateway ∷ []))
    × All (IsServed wanted (find_affected_gateways wanted (gateway ∷ []))) (gateway ∷ [])
find_affected_gateways-IsRanked_example = find_affected_gateways-IsRanked wanted (gateway ∷ [])
