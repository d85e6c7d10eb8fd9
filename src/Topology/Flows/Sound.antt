-- ===== src/Topology/Flows/Sound.antt =====
-- The flows that are found, and that all are.
use arodonata.Common.{
  ◌≤◌, ◌≡◌, ◌≢◌, refl, sym, ap, ◌∙◌, inl, inr, Bool, true, false, not, ◌&&◌, ◌||◌, List, [], ◌∷◌,
  ◌++◌, any, All, str_eq_iff, arith, Bool-cases,
}
use arodonata.Common.Members.{IsIn, All-append}
use arodonata.Topology.Entries.{is_external}
use arodonata.Topology.Scores.{View}
use arodonata.Topology.Locate.{Endpoint, InterfaceMatch, locate_intervals}
use arodonata.Topology.Flows.{
  FlowType, internal_to_internal, internal_to_external, external_to_internal, is_type, Flow, Wanted,
  Found, flow_of, passes, same_key, add_type, add_flow, consider, each_source, nothing_found,
  external_names, find_flows,
}
use arodonata.Topology.Flows.Loops.{each_source-keeps}

-- A flow between matches of a source and of a destination, on two interfaces that are not both external,
-- as sure as the caller wants, and standby only if the caller wants those too.
abbrev pub IsFlow :
    Wanted → (Endpoint → List InterfaceMatch) → List Endpoint → List Endpoint → Flow → Type 0
IsFlow w locate ss ds f =
    IsIn f.source ss
    × IsIn f.destination ds
    × IsIn f.src (locate f.source)
    × IsIn f.dst (locate f.destination)
    × (f.src.interface_name ≢ f.dst.interface_name)
    × (is_external f.src.topology_zone ≡ true → is_external f.dst.topology_zone ≡ false)
    × (w.min_confidence ≤ f.src.confidence)
    × (w.min_confidence ≤ f.dst.confidence)
    × (f.src.is_standby_path ≡ true → w.include_standby ≡ true)
    × (f.dst.is_standby_path ≡ true → w.include_standby ≡ true)

-- No flow has the key of an earlier one.
abbrev pub HasUniqueKeys : List Flow → Type 0
HasUniqueKeys [] = Unit {0}
HasUniqueKeys (f ∷ fs) = All (λ g. same_key g f ≡ false) fs × HasUniqueKeys fs

HasUniqueKeys-append :
    (fs : List Flow) (g : Flow)
    → HasUniqueKeys fs
    → any (same_key g) fs ≡ false
    → HasUniqueKeys (fs ++ g ∷ [])
HasUniqueKeys-append [] g h new = (tt, tt)
HasUniqueKeys-append (f ∷ fs) g h new = (
  All-append (λ k. same_key k f ≡ false) fs (g ∷ []) h.0 (ground arith, tt),
  HasUniqueKeys-append fs g h.1 (ground arith),
)

any-append {ℓ} :
    {A : Type ℓ} (test : A → Bool) (xs ys : List A)
    → any test (xs ++ ys) ≡ (any test xs || any test ys)
any-append test [] ys = refl
any-append test (x ∷ xs) ys = ground (arith, any-append test xs ys)

-- The types that were seen are those of the flows.
abbrev SeesTypes : Found → Type 0
SeesTypes found =
    (t : FlowType)
    → any (is_type t) found.match_types ≡ any (λ f. is_type t f.match_type) found.flows

any-is_type :
    (t u : FlowType) (us : List FlowType)
    → any (is_type t) us ≡ true
    → is_type u t ≡ true
    → any (is_type u) us ≡ true
any-is_type internal_to_internal internal_to_internal us h e = h
any-is_type internal_to_external internal_to_external us h e = h
any-is_type external_to_internal external_to_internal us h e = h
any-is_type internal_to_internal internal_to_external us h e = cc
any-is_type internal_to_internal external_to_internal us h e = cc
any-is_type internal_to_external internal_to_internal us h e = cc
any-is_type internal_to_external external_to_internal us h e = cc
any-is_type external_to_internal internal_to_internal us h e = cc
any-is_type external_to_internal internal_to_external us h e = cc

add_type-any :
    (t u : FlowType) (us : List FlowType)
    → any (is_type u) (add_type t us) ≡ (any (is_type u) us || is_type u t)
unfolding add_type
add_type-any t u us = elim (Bool-cases (any (is_type t) us)) [
  | inl seen ↦ rw seen (elim (Bool-cases (is_type u t)) [
    | inl same ↦ ground (arith, any-is_type t u us)
    | inr differs ↦ ground arith
  ])
  | inr new ↦ rw new (ground (arith, any-append (is_type u) us (t ∷ [])))
]

module _ (w : Wanted) (locate : Endpoint → List InterfaceMatch) (ss ds : List Endpoint) where
  abbrev IsSound : Found → Type 0
  IsSound found =
      All (IsFlow w locate ss ds) found.flows × HasUniqueKeys found.flows × SeesTypes found

  passes-IsFlow :
      (s d : Endpoint) (src dst : InterfaceMatch)
      → IsIn s ss
      → IsIn d ds
      → IsIn src (locate s)
      → IsIn dst (locate d)
      → passes w (flow_of s d src dst) ≡ true
      → IsFlow w locate ss ds (flow_of s d src dst)
  unfolding passes flow_of
  passes-IsFlow s d src dst s_in d_in src_in dst_in ok = (
    s_in,
    d_in,
    src_in,
    dst_in,
    λ same. absurd (ground (arith, str_eq_iff src.interface_name dst.interface_name)),
    λ e. ground arith,
    ground arith,
    ground arith,
    λ e. ground arith,
    λ e. ground arith,
  )

  consider-IsSound :
      (f : Flow)
      → (passes w f ≡ true → IsFlow w locate ss ds f)
      → (found : Found) → IsSound found
      → IsSound (consider w f found)
  unfolding consider add_flow
  consider-IsSound f is_flow found (flows, distinct, types) =
      elim (Bool-cases (passes w f && not (any (same_key f) found.flows))) [
        | inr skipped ↦ rw skipped (flows, distinct, types)
        | inl taken ↦ rw taken (
          All-append (IsFlow w locate ss ds) found.flows (f ∷ []) flows
              (is_flow (ground arith), tt),
          HasUniqueKeys-append found.flows f distinct (ground arith),
          λ t.
              add_type-any f.match_type t found.match_types
              ∙ ap (λ b. b || is_type t f.match_type) (types t)
              ∙ sym (any-append (λ g. is_type t g.match_type) found.flows (f ∷ []) ∙ ground arith),
        )
      ]

  each_source-IsSound : IsSound (each_source w locate ss ds nothing_found)
  each_source-IsSound =
      each_source-keeps w IsSound locate ss ds
        (λ s d src dst s_in d_in src_in dst_in.
          consider-IsSound (flow_of s d src dst)
            (passes-IsFlow s d src dst s_in d_in src_in dst_in))
        nothing_found (tt, tt, λ t. refl)

-- On a gateway, for whichever endpoints, every flow that is found is between a match of a source and a
-- match of a destination, which are on two interfaces and not both external; both are at least as sure
-- as the caller wants, and neither is standby unless the caller includes these. No two flows have one
-- key, and the types that are reported are exactly the flows' types.
pub find_flows-IsFlow :
    (w : Wanted) (v : View) (ss ds : List Endpoint)
    → All (IsFlow w (locate_intervals v (external_names v)) ss ds) (find_flows w v ss ds).flows
      × HasUniqueKeys (find_flows w v ss ds).flows
      × ((t : FlowType)
          → any (is_type t) (find_flows w v ss ds).match_types
            ≡ any (λ f. is_type t f.match_type) (find_flows w v ss ds).flows)
unfolding find_flows
find_flows-IsFlow w v ss ds = each_source-IsSound w (locate_intervals v (external_names v)) ss ds
