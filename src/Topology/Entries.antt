-- ===== src/Topology/Entries.antt =====
-- core/models/topology.py: what is behind an interface of a gateway, and what the administrator notes
-- about it. The gateway that an entry repeats, and the texts for display, are left out. Confidence is
-- counted in ten-thousandths, to which the code rounds it.
use arodonata.Common.{
  ℕ, ◌+◌, String, Bool, true, false, ◌&&◌, Option, none, some, List, [], ◌∷◌, if◌then◌else◌, ltb,
  leb, ◌==◌, str_eq,
}
use arodonata.Common.Int.{ℤ, pos, negsuc}

pub data SourceType : Type 0 where
  interface_connected interface_specific vs_static_route external_interface : SourceType
  connected_route gaia_static_route clish_route bgp_route ospf_route manual : SourceType

pub data Zone : Type 0 where
  internal external : Zone

pub data AntiSpoofing : Type 0 where
  prevent detect off unknown : AntiSpoofing

pub data Disposition : Type 0 where
  confirmed standby_dynamic ignore manual_entry : Disposition

abbrev pub number_of : SourceType → ℕ
number_of interface_connected = 0
number_of interface_specific = 1
number_of vs_static_route = 2
number_of external_interface = 3
number_of connected_route = 4
number_of gaia_static_route = 5
number_of clish_route = 6
number_of bgp_route = 7
number_of ospf_route = 8
number_of manual = 9

abbrev pub is_source : SourceType → SourceType → Bool
is_source s t = number_of s == number_of t

-- `STATIC_TOPOLOGY_SOURCES`
abbrev pub is_static : SourceType → Bool
is_static s = ltb (number_of s) 4

-- `LIVE_ROUTE_SOURCES`
abbrev pub is_live : SourceType → Bool
is_live s = leb 4 (number_of s) && ltb (number_of s) 9

abbrev pub is_internal : Zone → Bool
is_internal internal = true
is_internal external = false

abbrev pub is_external : Zone → Bool
is_external internal = false
is_external external = true

pub record Entry : Type 0 where
  pub interface_name : String
  pub topology_zone : Zone
  pub anti_spoofing_mode : AntiSpoofing
  pub source_type : SourceType
  pub source_ref : String
  pub cidr_or_range : String
  pub ip_first : ℕ
  pub ip_last : ℕ
  pub prefix_len : ℕ

pub record Annotation : Type 0 where
  pub interface_name : String
  pub cidr_or_range : String
  pub trust_static_topology : Option Bool
  pub disposition : Option Disposition
  pub topology_zone : Option Zone
  pub comment : String

-- `TopologyConfidenceWeights`
pub record Weights : Type 0 where
  pub route_connected : ℤ
  pub route_static : ℤ
  pub route_dynamic : ℤ
  pub topology_connected : ℤ
  pub topology_specific_prevent : ℤ
  pub topology_specific_detect : ℤ
  pub topology_external_fallback : ℤ
  pub admin_confirmed : ℤ
  pub admin_manual : ℤ
  pub admin_standby_dynamic : ℤ
  pub conflict_missing_in_live_routes : ℤ
  pub conflict_routed_to_other_interface_static : ℤ
  pub conflict_routed_to_other_interface_route : ℤ
  pub conflict_cluster_member_drift : ℤ

abbrev pub default_weights : Weights
default_weights = record {
  route_connected = pos 6500;
  route_static = pos 5500;
  route_dynamic = pos 5000;
  topology_connected = pos 5000;
  topology_specific_prevent = pos 4000;
  topology_specific_detect = pos 1500;
  topology_external_fallback = pos 3000;
  admin_confirmed = pos 5000;
  admin_manual = pos 6000;
  admin_standby_dynamic = pos 3500;
  conflict_missing_in_live_routes = negsuc 3499;
  conflict_routed_to_other_interface_static = negsuc 4999;
  conflict_routed_to_other_interface_route = negsuc 999;
  conflict_cluster_member_drift = negsuc 1999;
}

-- A dictionary by interface and prefix, and one by interface, in the order of their keys.
abbrev pub ByPrefix : Type 0
ByPrefix = List ((String × String) × Annotation)

abbrev pub ByInterface : Type 0
ByInterface = List (String × Bool)

unfoldable pub get_prefix : String → String → ByPrefix → Option Annotation
get_prefix interface cidr [] = none
get_prefix interface cidr (((i, c), a) ∷ rest) =
    let further = get_prefix interface cidr rest in
    if str_eq i interface && str_eq c cidr then some a else further

unfoldable pub put_prefix : String → String → Annotation → ByPrefix → ByPrefix
put_prefix interface cidr a [] = ((interface, cidr), a) ∷ []
put_prefix interface cidr a (((i, c), b) ∷ rest) =
    let further = put_prefix interface cidr a rest in
    if str_eq i interface && str_eq c cidr then ((i, c), a) ∷ rest else ((i, c), b) ∷ further

unfoldable pub get_trust : String → Option Bool → ByInterface → Option Bool
get_trust interface default [] = default
get_trust interface default ((i, trust) ∷ rest) =
    let further = get_trust interface default rest in
    if str_eq i interface then some trust else further

unfoldable pub put_trust : String → Bool → ByInterface → ByInterface
put_trust interface trust [] = (interface, trust) ∷ []
put_trust interface trust ((i, t) ∷ rest) =
    let further = put_trust interface trust rest in
    if str_eq i interface then (i, trust) ∷ rest else (i, t) ∷ further

-- The entry's prefix, on its interface or on any.
unfoldable pub annotation_for : ByPrefix → String → String → Option Annotation
unfolding get_prefix
annotation_for anns interface cidr = elim (get_prefix interface cidr anns) [
  | none ↦ get_prefix "*" cidr anns
  | some a ↦ some a
]

-- The two ends of the entry are around the interval.
abbrev pub contains : Entry → ℕ → ℕ → Bool
contains e lo hi = leb e.ip_first lo && leb hi e.ip_last

abbrev pub overlaps : Entry → ℕ → ℕ → Bool
overlaps e lo hi = leb lo e.ip_last && leb e.ip_first hi

-- `ip_last_int - ip_first_int` of the one is below that of the other, or equal to it.
abbrev pub is_narrower : Entry → Entry → Bool
is_narrower e d = ltb (e.ip_last + d.ip_first) (d.ip_last + e.ip_first)

abbrev pub is_as_wide : Entry → Entry → Bool
is_as_wide e d = e.ip_last + d.ip_first == d.ip_last + e.ip_first
