-- ===== src/Topology/Scores.antt =====
-- core/services/topology_service.py, `_score_interface_group`: the evidence for an interface, as signed
-- deltas, and their sum between 0 and 1. The texts of details and warnings are left out.
use arodonata.Common.{
  ℕ, String, Bool, true, false, not, ◌&&◌, ◌||◌, Option, none, some, List, [], ◌∷◌, ◌++◌,
  if◌then◌else◌, ltb, leb, str_eq, any, min,
}
use arodonata.Common.Int.{ℤ, pos, ◌+ℤ◌, pos_part}
use arodonata.Common.Sorting.{str_ltb, least_with}
use arodonata.Matching.Texts.{contains_text}
use arodonata.Topology.Entries.{
  SourceType, interface_connected, interface_specific, vs_static_route, connected_route,
  gaia_static_route, clish_route, bgp_route, ospf_route, manual, is_source, is_live, is_internal,
  AntiSpoofing, prevent, detect, off, unknown, Disposition, confirmed, standby_dynamic, ignore,
  manual_entry, Entry, Annotation, Weights, ByPrefix, ByInterface, annotation_for, get_trust,
  contains, is_narrower, is_as_wide,
}

pub data DeltaCode : Type 0 where
  route_connected route_static route_dynamic topology_connected topology_specific_detect : DeltaCode
  topology_specific_prevent topology_external_fallback admin_manual admin_confirmed : DeltaCode
  admin_standby_dynamic conflict_routed_to_other_interface_static : DeltaCode
  conflict_missing_in_live_routes conflict_routed_to_other_interface_route : DeltaCode
  conflict_cluster_member_drift : DeltaCode

-- `ConfidenceDelta`
pub record Delta : Type 0 where
  pub delta_code : DeltaCode
  pub delta : ℤ

abbrev pub of_code : DeltaCode → ℤ → Delta
of_code c d = record { delta_code = c; delta = d }

-- What is the same for all interfaces of a gateway.
pub record View : Type 0 where
  pub entries : List Entry
  pub has_live_routes : Bool
  pub by_prefix : ByPrefix
  pub weights : Weights
  pub gw_trust_static : Option Bool
  pub if_trust_static : ByInterface

-- The entries that match on one interface; a group is made with its first entry.
pub record Group : Type 0 where
  pub interface : String
  pub first : Entry
  pub others : List Entry

abbrev pub members : Group → List Entry
members g = g.first ∷ g.others

pub record Score : Type 0 where
  pub best : Entry
  pub confidence : ℕ
  pub is_standby : Bool
  pub deltas : List Delta

-- A live route or an entry of the administrator goes first.
abbrev pub is_preferred : Entry → Bool
is_preferred e = is_live e.source_type || is_source e.source_type manual

-- Not after `d` in the order of the key of `min`.
unfoldable pub stays_best : Entry → Entry → Bool
unfolding str_ltb
stays_best e d =
    is_preferred e && not (is_preferred d)
    || (is_preferred e || not (is_preferred d))
      && (is_narrower e d
          || is_as_wide e d
            && (ltb d.prefix_len e.prefix_len
                || leb d.prefix_len e.prefix_len && not (str_ltb d.cidr_or_range e.cidr_or_range)))

pub has_source : SourceType → List Entry → Bool
has_source t es = any (λ e. is_source e.source_type t) es

-- The annotation of the first entry that has one.
pub matched_annotation : ByPrefix → String → List Entry → Option Annotation
unfolding annotation_for
matched_annotation anns interface [] = none
matched_annotation anns interface (e ∷ es) =
    let further = matched_annotation anns interface es in
    elim (annotation_for anns interface e.cidr_or_range) [ none ↦ further | some a ↦ some a ]

unfoldable pub disposition_of : Option Annotation → Option Disposition
disposition_of none = none
disposition_of (some a) = a.disposition

route_deltas : Weights → List Entry → List Delta
unfolding has_source
route_deltas w es =
    if has_source connected_route es
    then of_code route_connected w.route_connected ∷ []
    else if has_source gaia_static_route es
        || has_source clish_route es
        || has_source vs_static_route es
    then of_code route_static w.route_static ∷ []
    else if has_source bgp_route es || has_source ospf_route es
    then of_code route_dynamic w.route_dynamic ∷ []
    else []

abbrev is_distrust : Option Bool → Bool
is_distrust none = false
is_distrust (some b) = not b

abbrev is_lax : AntiSpoofing → Bool
is_lax prevent = false
is_lax detect = true
is_lax off = true
is_lax unknown = false

topology_deltas : Weights → Option Bool → List Entry → List Delta
unfolding has_source
topology_deltas w trust es =
    if has_source interface_connected es
    then of_code topology_connected w.topology_connected ∷ []
    else if has_source interface_specific es
    then if is_distrust trust
      then []
      else if any (λ e. is_source e.source_type interface_specific && is_lax e.anti_spoofing_mode)
          es
      then of_code topology_specific_detect w.topology_specific_detect ∷ []
      else of_code topology_specific_prevent w.topology_specific_prevent ∷ []
    else []

annotation_deltas : Weights → Bool → Option Disposition → List Delta
annotation_deltas w true d = of_code admin_manual w.admin_manual ∷ []
annotation_deltas w false none = []
annotation_deltas w false (some manual_entry) = of_code admin_manual w.admin_manual ∷ []
annotation_deltas w false (some confirmed) = of_code admin_confirmed w.admin_confirmed ∷ []
annotation_deltas w false (some standby_dynamic) =
    of_code admin_standby_dynamic w.admin_standby_dynamic ∷ []
annotation_deltas w false (some ignore) = []

standby : Bool → Option Disposition → Bool
standby false (some standby_dynamic) = true
standby _ d = false

abbrev pub is_confirmed : Option Disposition → Bool
is_confirmed none = false
is_confirmed (some confirmed) = true
is_confirmed (some standby_dynamic) = false
is_confirmed (some ignore) = false
is_confirmed (some manual_entry) = false

-- Another interface has an entry of the pool around the best entry.
abbrev elsewhere : String → Entry → Entry → Bool
elsewhere interface best e =
    not (str_eq e.interface_name interface) && contains e best.ip_first best.ip_last

-- The pools are those of the internal entries.
pub routed_elsewhere : View → String → Entry → Bool
routed_elsewhere v interface best =
    any (λ e. is_live e.source_type && is_internal e.topology_zone && elsewhere interface best e)
      v.entries

pub defined_elsewhere : View → String → Entry → Bool
unfolding get_trust
defined_elsewhere v interface best =
    any
      (λ e.
        (is_source e.source_type interface_connected || is_source e.source_type interface_specific)
        && is_internal e.topology_zone
        && not (is_distrust (get_trust e.interface_name v.gw_trust_static v.if_trust_static))
        && elsewhere interface best e)
      v.entries

conflict_deltas : View → String → Entry → List Entry → List Delta
unfolding has_source routed_elsewhere defined_elsewhere
conflict_deltas v interface best es =
    let live_here = any (λ e. is_live e.source_type) es in
    if not live_here && not (has_source manual es)
    then if routed_elsewhere v interface best
      then of_code conflict_routed_to_other_interface_static
          v.weights.conflict_routed_to_other_interface_static
        ∷ []
      else of_code conflict_missing_in_live_routes v.weights.conflict_missing_in_live_routes ∷ []
    else if live_here && defined_elsewhere v interface best
    then of_code conflict_routed_to_other_interface_route
        v.weights.conflict_routed_to_other_interface_route
      ∷ []
    else []

drift_deltas : Weights → List Entry → List Delta
unfolding contains_text
drift_deltas w es =
    if any (λ e. contains_text ";drift:" e.source_ref) es
    then of_code conflict_cluster_member_drift w.conflict_cluster_member_drift ∷ []
    else []

unfoldable pub total : List Delta → ℤ
unfolding ◌+ℤ◌
total [] = pos 0
total (d ∷ ds) = d.delta +ℤ total ds

-- `max(0.0, min(1.0, score))`
abbrev pub clamp : ℤ → ℕ
clamp z = min 10000 (pos_part z)

pub deltas_of : View → Group → Entry → Option Disposition → List Delta
unfolding route_deltas topology_deltas annotation_deltas standby conflict_deltas drift_deltas
    get_trust
deltas_of v g best d =
    let es = members g in
    let is_manual = has_source manual es in
    let conflicts =
      if v.has_live_routes && not (standby is_manual d) && not (is_confirmed d)
      then conflict_deltas v g.interface best es
      else [] in
    route_deltas v.weights es
    ++ (topology_deltas v.weights (get_trust g.interface v.gw_trust_static v.if_trust_static) es
        ++ (annotation_deltas v.weights is_manual d ++ (conflicts ++ drift_deltas v.weights es)))

unfoldable pub score_interface_group : View → Group → Score
unfolding least_with stays_best deltas_of matched_annotation total has_source
score_interface_group v g =
    let best = least_with stays_best g.first g.others in
    let d = disposition_of (matched_annotation v.by_prefix g.interface (members g)) in
    let deltas = deltas_of v g best d in
    record {
      best = best;
      confidence = clamp (total deltas);
      is_standby = standby (has_source manual (members g)) d;
      deltas = deltas;
    }
