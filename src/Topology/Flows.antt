-- ===== src/Topology/Flows.antt =====
-- core/services/topology_service.py, the loops of `find_affected_gateways` over the endpoints and their
-- matches on one gateway, and over the gateways. The gateway's policies, and the evidence and the
-- warnings that a result repeats, are left out.
pub mod Loops
pub mod Sound
pub mod Complete
pub mod Leading
pub mod Ranked
use arodonata.Common.{
  ℕ, String, Bool, true, false, not, ◌&&◌, ◌||◌, Option, none, some, List, [], ◌∷◌, ◌++◌,
  if◌then◌else◌, ltb, leb, ◌==◌, min, max, str_eq, any, filter, length, map,
}
use arodonata.Common.Sorting.{str_ltb, sort_with}
use arodonata.Topology.Entries.{Zone, internal, external, is_internal, is_external, Entry}
use arodonata.Topology.Scores.{View}
use arodonata.Topology.Locate.{Endpoint, InterfaceMatch, locate_intervals, external_entries}

pub data FlowType : Type 0 where
  internal_to_internal internal_to_external external_to_internal : FlowType

abbrev pub is_type : FlowType → FlowType → Bool
is_type internal_to_internal internal_to_internal = true
is_type internal_to_external internal_to_external = true
is_type external_to_internal external_to_internal = true
is_type _ t = false

-- `TrafficFlowMatch`
pub record Flow : Type 0 where
  pub source : Endpoint
  pub destination : Endpoint
  pub src : InterfaceMatch
  pub dst : InterfaceMatch
  pub match_type : FlowType
  pub confidence : ℕ
  pub is_standby_path : Bool

-- What the caller asks for.
pub record Wanted : Type 0 where
  pub min_confidence : ℕ
  pub include_standby : Bool

abbrev pub type_of : Zone → Zone → FlowType
type_of internal internal = internal_to_internal
type_of internal external = internal_to_external
type_of external z = external_to_internal

unfoldable pub flow_of : Endpoint → Endpoint → InterfaceMatch → InterfaceMatch → Flow
flow_of source destination src dst = record {
  source = source;
  destination = destination;
  src = src;
  dst = dst;
  match_type = type_of src.topology_zone dst.topology_zone;
  confidence = min src.confidence dst.confidence;
  is_standby_path = src.is_standby_path || dst.is_standby_path;
}

-- The conditions of the `continue`s.
unfoldable pub passes : Wanted → Flow → Bool
passes w f =
    not (str_eq f.src.interface_name f.dst.interface_name)
    && (not (is_external f.src.topology_zone && is_external f.dst.topology_zone)
        && ((w.include_standby || not f.is_standby_path) && leb w.min_confidence f.confidence))

-- The flows have one `flow_key`.
unfoldable pub same_key : Flow → Flow → Bool
same_key f g =
    str_eq f.source.query_raw g.source.query_raw
    && (str_eq f.destination.query_raw g.destination.query_raw
        && (str_eq f.source.cidr_or_range g.source.cidr_or_range
            && (str_eq f.destination.cidr_or_range g.destination.cidr_or_range
                && (str_eq f.src.interface_name g.src.interface_name
                    && str_eq f.dst.interface_name g.dst.interface_name))))

-- `matched_flows`, whose keys are `seen_flow_keys`, and `match_types_seen`.
pub record Found : Type 0 where
  pub flows : List Flow
  pub match_types : List FlowType

pub add_type : FlowType → List FlowType → List FlowType
add_type t ts = if any (is_type t) ts then ts else ts ++ t ∷ []

pub add_flow : Flow → Found → Found
unfolding add_type
add_flow f found = record {
  flows = found.flows ++ f ∷ [];
  match_types = add_type f.match_type found.match_types;
}

pub consider : Wanted → Flow → Found → Found
unfolding passes same_key add_flow
consider w f found =
    if passes w f && not (any (same_key f) found.flows) then add_flow f found else found

module _ (w : Wanted) where
  pub each_dst_match : Endpoint → Endpoint → InterfaceMatch → List InterfaceMatch → Found → Found
  unfolding consider flow_of
  each_dst_match s d src [] found = found
  each_dst_match s d src (dst ∷ dsts) found =
      each_dst_match s d src dsts (consider w (flow_of s d src dst) found)

  pub each_src_match :
      Endpoint → Endpoint → List InterfaceMatch → List InterfaceMatch → Found → Found
  unfolding each_dst_match
  each_src_match s d [] dsts found = found
  each_src_match s d (src ∷ srcs) dsts found =
      each_src_match s d srcs dsts (each_dst_match s d src dsts found)

  module _ (locate : Endpoint → List InterfaceMatch) where
    pub each_destination : Endpoint → List InterfaceMatch → List Endpoint → Found → Found
    unfolding each_src_match
    each_destination s srcs [] found = found
    each_destination s srcs (d ∷ ds) found =
        each_destination s srcs ds (each_src_match s d srcs (locate d) found)

    pub each_source : List Endpoint → List Endpoint → Found → Found
    unfolding each_destination
    each_source [] ds found = found
    each_source (s ∷ ss) ds found = each_source ss ds (each_destination s (locate s) ds found)

abbrev pub nothing_found : Found
nothing_found = record { flows = []; match_types = [] }

abbrev pub external_names : View → List String
external_names v = map (λ (e : Entry). e.interface_name) (external_entries v)

unfoldable pub find_flows : Wanted → View → List Endpoint → List Endpoint → Found
unfolding each_source
find_flows w v sources destinations =
    each_source w (locate_intervals v (external_names v)) sources destinations nothing_found

-- A gateway with its effective entries and the endpoints as they resolve in its domain.
pub record Gateway : Type 0 where
  pub mgmt_name : String
  pub domain_name : String
  pub gateway_name : String
  pub view : View
  pub sources : List Endpoint
  pub destinations : List Endpoint

-- `AffectedGatewayCandidate`
pub record Candidate : Type 0 where
  pub gateway : Gateway
  pub match_types : List FlowType
  pub flows : List Flow
  pub confidence : ℕ
  pub is_standby_path : Bool

unfoldable pub best_confidence : List Flow → ℕ
best_confidence [] = 0
best_confidence (f ∷ fs) = max f.confidence (best_confidence fs)

candidate_with : Gateway → List FlowType → List Flow → Option Candidate
unfolding best_confidence
candidate_with g types [] = none
candidate_with g types (f ∷ fs) = some (record {
  gateway = g;
  match_types = types;
  flows = f ∷ fs;
  confidence = best_confidence (f ∷ fs);
  is_standby_path = not (any (λ f. not f.is_standby_path) (f ∷ fs));
})

-- Without entries or endpoints a gateway has no flows.
pub candidate_of : Wanted → Gateway → Option Candidate
unfolding candidate_with
candidate_of w g =
    let found = find_flows w g.view g.sources g.destinations in
    candidate_with g found.match_types found.flows

pub candidates_of : Wanted → List Gateway → List Candidate
unfolding candidate_of
candidates_of w [] = []
candidates_of w (g ∷ gs) =
    let rest = candidates_of w gs in elim (candidate_of w g) [ none ↦ rest | some c ↦ c ∷ rest ]

abbrev pub has_internal : Candidate → Bool
has_internal c = any (is_type internal_to_internal) c.match_types

unfoldable pub breaks_tie : Candidate → Candidate → Bool
unfolding str_ltb
breaks_tie a b =
    str_ltb a.gateway.mgmt_name b.gateway.mgmt_name
    || str_eq a.gateway.mgmt_name b.gateway.mgmt_name
      && (str_ltb a.gateway.domain_name b.gateway.domain_name
          || str_eq a.gateway.domain_name b.gateway.domain_name
            && not (str_ltb b.gateway.gateway_name a.gateway.gateway_name))

-- The sort key of `a` is not after that of `b`.
pub stays_first : Candidate → Candidate → Bool
stays_first a b =
    has_internal a && not (has_internal b)
    || (has_internal a || not (has_internal b))
      && (not a.is_standby_path && b.is_standby_path
          || (not a.is_standby_path || b.is_standby_path)
            && (ltb b.confidence a.confidence
                || a.confidence == b.confidence
                  && (ltb (length b.flows) (length a.flows)
                      || length a.flows == length b.flows && breaks_tie a b)))

unfoldable pub find_affected_gateways : Wanted → List Gateway → List Candidate
unfolding candidates_of sort_with stays_first
find_affected_gateways w gs = sort_with stays_first (candidates_of w gs)
