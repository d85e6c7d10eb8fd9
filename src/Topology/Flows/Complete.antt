-- ===== src/Topology/Flows/Complete.antt =====
-- All flows between matches that the caller wants are found.
use arodonata.Common.{
  ◌≡◌, inl, inr, Bool, true, not, ◌&&◌, List, [], ◌∷◌, any, Any, str_eq_self, str_eq_ne, arith,
  Bool-cases,
}
use arodonata.Common.Members.{Any-append}
use arodonata.Topology.Scores.{View}
use arodonata.Topology.Locate.{Endpoint, InterfaceMatch, locate_intervals}
use arodonata.Topology.Flows.{
  Flow, Wanted, Found, flow_of, passes, same_key, add_flow, consider, nothing_found, external_names,
  find_flows,
}
use arodonata.Topology.Flows.Sound.{IsFlow}
use arodonata.Topology.Flows.Loops.{each_source-gets}

any-Any : (test : Flow → Bool) (fs : List Flow) → any test fs ≡ true → Any (λ f. test f ≡ true) fs
any-Any test [] h = cc
any-Any test (f ∷ fs) h = elim (Bool-cases (test f)) [
  | inl here ↦ inl here
  | inr there ↦ inr (any-Any test fs (ground arith))
]

same_key_self : (f : Flow) → same_key f f ≡ true
unfolding same_key
same_key_self f = ground (
  arith,
  str_eq_self f.source.query_raw,
  str_eq_self f.destination.query_raw,
  str_eq_self f.source.cidr_or_range,
  str_eq_self f.destination.cidr_or_range,
  str_eq_self f.src.interface_name,
  str_eq_self f.dst.interface_name,
)

module _ (w : Wanted) (locate : Endpoint → List InterfaceMatch) (ss ds : List Endpoint) where
  IsFlow-passes :
      (s d : Endpoint) (src dst : InterfaceMatch)
      → IsFlow w locate ss ds (flow_of s d src dst)
      → passes w (flow_of s d src dst) ≡ true
  unfolding flow_of passes
  IsFlow-passes s d src dst
        (_, _, _, _, apart, zones, src_sure, dst_sure, src_standby, dst_standby) =
      ground (arith, str_eq_ne src.interface_name dst.interface_name apart)

module _ (w : Wanted) (f : Flow) where
  abbrev HasKey : Found → Type 0
  HasKey found = Any (λ g. same_key f g ≡ true) found.flows

  consider-keeps : (g : Flow) (found : Found) → HasKey found → HasKey (consider w g found)
  unfolding consider add_flow
  consider-keeps g found h = elim (Bool-cases (passes w g && not (any (same_key g) found.flows))) [
    | inl taken ↦ rw taken (Any-append (λ k. same_key f k ≡ true) found.flows (g ∷ []) (inl h))
    | inr skipped ↦ rw skipped h
  ]

  consider-gets : passes w f ≡ true → (found : Found) → HasKey (consider w f found)
  unfolding consider add_flow
  consider-gets ok found = elim (Bool-cases (any (same_key f) found.flows)) [
    | inl seen ↦ rw (ok, seen) (any-Any (same_key f) found.flows seen)
    | inr new ↦
        rw (ok, new)
          (Any-append (λ k. same_key f k ≡ true) found.flows (f ∷ []) (inr (inl (same_key_self f))))
  ]

-- Each pair of matches that makes such a flow is found: some flow has its key, that is, its two
-- interfaces and the names of its endpoints.
pub find_flows-finds :
    (w : Wanted) (v : View) (ss ds : List Endpoint) (s d : Endpoint) (src dst : InterfaceMatch)
    → IsFlow w (locate_intervals v (external_names v)) ss ds (flow_of s d src dst)
    → Any (λ g. same_key (flow_of s d src dst) g ≡ true) (find_flows w v ss ds).flows
unfolding find_flows flow_of
find_flows-finds w v ss ds s d src dst h =
    let locate = locate_intervals v (external_names v) in
    let f = flow_of s d src dst in
    let ok = IsFlow-passes w locate ss ds s d src dst h in
    let (s_in, d_in, src_in, dst_in, _, _, _, _, _, _) = h in
    each_source-gets w (HasKey w f) (λ g found. consider-keeps w f g found) s d src dst
      (λ found. consider-gets w f ok found) locate src_in dst_in ss ds s_in d_in nothing_found
