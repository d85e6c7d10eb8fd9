-- ===== src/Topology/Effective.antt =====
-- core/services/topology_service.py, `_index_annotations_for_gateway` and
-- `_build_effective_gateway_entries`: a gateway's entries as the administrator's annotations change them.
pub mod Ignored
pub mod Made
pub mod Kept
use arodonata.Common.{
  ℕ, String, Bool, true, false, not, ◌&&◌, ◌||◌, Option, none, some, List, [], ◌∷◌, ◌++◌,
  if◌then◌else◌, ◌==◌, str_eq, any, filter,
}
use arodonata.Common.Sorting.{str_ltb, sort_with}
use arodonata.Topology.Addresses.{Bounds, parse_bounds}
use arodonata.Topology.Entries.{
  manual, is_live, Zone, internal, external, AntiSpoofing, unknown, Disposition, confirmed,
  standby_dynamic, ignore, manual_entry, Entry, Annotation, Weights, ByPrefix, ByInterface,
  get_prefix, put_prefix, put_trust, annotation_for,
}
use arodonata.Topology.Scores.{View}

-- The index, without the annotations of whole interfaces, which nothing here reads.
pub record Indexed : Type 0 where
  pub gw_trust_static : Option Bool
  pub if_trust_static : ByInterface
  pub by_prefix : ByPrefix

abbrev pub is_any : String → Bool
is_any s = str_eq s "*"

set_trust : Option Bool → String → Indexed → Indexed
unfolding put_trust
set_trust none interface x = x
set_trust (some trust) interface x = record x {
  if_trust_static = put_trust interface trust x.if_trust_static;
}

set_gateway_trust : Option Bool → Indexed → Indexed
set_gateway_trust none x = x
set_gateway_trust (some trust) x = record x { gw_trust_static = some trust }

pub index_annotation : Annotation → Indexed → Indexed
unfolding set_trust set_gateway_trust put_prefix
index_annotation a x =
    if is_any a.cidr_or_range
    then if is_any a.interface_name
      then set_gateway_trust a.trust_static_topology x
      else set_trust a.trust_static_topology a.interface_name x
    else let by_prefix = put_prefix a.interface_name a.cidr_or_range a x.by_prefix in
      let x' = record x { by_prefix = by_prefix } in
      if is_any a.interface_name then x' else set_trust a.trust_static_topology a.interface_name x'

pub index_all : List Annotation → Indexed → Indexed
unfolding index_annotation
index_all [] x = x
index_all (a ∷ as') x = index_all as' (index_annotation a x)

abbrev pub nothing_indexed : Indexed
nothing_indexed = record { gw_trust_static = none; if_trust_static = []; by_prefix = [] }

abbrev pub is_disposed : Option Disposition → Disposition → Bool
is_disposed none d = false
is_disposed (some ignore) ignore = true
is_disposed (some manual_entry) manual_entry = true
is_disposed (some confirmed) confirmed = true
is_disposed (some standby_dynamic) standby_dynamic = true
is_disposed (some c) d = false

-- The loop over the entries drops those that an annotation ignores.
unfoldable pub is_ignored : ByPrefix → Entry → Bool
unfolding annotation_for
is_ignored anns e = elim (annotation_for anns e.interface_name e.cidr_or_range) [
  | none ↦ false
  | some a ↦ is_disposed a.disposition ignore
]

-- Of `sorted(ann_by_if_cidr.items())`, whose keys are distinct, only the order of the keys matters.
stays_by_key : (String × String) × Annotation → (String × String) × Annotation → Bool
unfolding str_ltb
stays_by_key ((i, c), a) ((j, d), b) = str_ltb i j || str_eq i j && not (str_ltb d c)

pub zone_for : Option Zone → ℕ → ℕ → Zone
zone_for (some z) lo p = z
zone_for none lo p = if p == 0 && lo == 0 then external else internal

pub manual_of : Annotation → String → String → Bounds → Entry
unfolding zone_for
manual_of a interface cidr (lo, hi, p) = record {
  interface_name = interface;
  topology_zone = zone_for a.topology_zone lo p;
  anti_spoofing_mode = unknown;
  source_type = manual;
  source_ref = if str_eq a.comment "" then "manual_annotation" else a.comment;
  cidr_or_range = cidr;
  ip_first = lo;
  ip_last = hi;
  prefix_len = p;
}

abbrev pub is_at : String → String → Entry → Bool
is_at interface cidr e = str_eq e.interface_name interface && str_eq e.cidr_or_range cidr

-- An annotation adds an entry if the administrator made it by hand for one interface and one prefix, and
-- there is none yet.
pub adds_entry : String → String → Annotation → List Entry → Bool
adds_entry interface cidr a entries =
    is_disposed a.disposition manual_entry
    && (not (is_any interface) && (not (is_any cidr) && not (any (is_at interface cidr) entries)))

pub add_bounds : String → String → Annotation → Option Bounds → List Entry → List Entry
unfolding manual_of
add_bounds interface cidr a none entries = entries
add_bounds interface cidr a (some b) entries = entries ++ manual_of a interface cidr b ∷ []

pub add_manual : (String × String) × Annotation → List Entry → List Entry
unfolding adds_entry add_bounds parse_bounds
add_manual ((interface, cidr), a) entries =
    if adds_entry interface cidr a entries
    then add_bounds interface cidr a (parse_bounds cidr) entries
    else entries

pub add_all_manual : ByPrefix → List Entry → List Entry
unfolding add_manual
add_all_manual [] entries = entries
add_all_manual (x ∷ xs) entries = add_all_manual xs (add_manual x entries)

-- Whether manual entries can be made: the gateway is known by an entry or by its asset.
pub effective_entries : Bool → ByPrefix → List Entry → List Entry
unfolding is_ignored add_all_manual stays_by_key sort_with
effective_entries has_asset anns [] =
    if has_asset then add_all_manual (sort_with stays_by_key anns) [] else []
effective_entries has_asset anns (e ∷ es) =
    add_all_manual (sort_with stays_by_key anns) (filter (λ e. not (is_ignored anns e)) (e ∷ es))

-- The view of a gateway: `_build_effective_gateway_entries` with the weights of the settings.
unfoldable pub view_of : Weights → Bool → List Annotation → List Entry → View
unfolding index_all effective_entries
view_of weights has_asset annotations entries =
    let x = index_all annotations nothing_indexed in
    record {
      entries = effective_entries has_asset x.by_prefix entries;
      has_live_routes = any (λ e. is_live e.source_type) entries;
      by_prefix = x.by_prefix;
      weights = weights;
      gw_trust_static = x.gw_trust_static;
      if_trust_static = x.if_trust_static;
    }
