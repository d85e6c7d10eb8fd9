-- ===== src/Topology/Flows/Ranked.antt =====
-- The candidates by rank.
use mathlib.Core.Option.{some-injective}
use arodonata.Common.{
  ℕ, ◌≤◌, ◌≡◌, ◌≢◌, ◌⊎◌, ◌∙◌, inl, inr, refl, true, false, some, List, [], ◌∷◌, All, Any, arith,
  Option-cases, Bool, not, any, subst, Bool-cases, leb, ◌||◌,
}
use arodonata.Common.Members.{IsIn, All-IsIn, All-weaken, Any-weaken}
use arodonata.Common.Sorting.{sort_with, IsOrdered, sort_with-All, sort_with-Any}
use arodonata.Common.Orders.{sort_with-NotBelow}
use arodonata.Topology.Flows.Leading.{leads, RankedBefore, leads-IsWeakOrder, stays_first-leads}
use arodonata.Topology.Flows.{
  best_confidence, Wanted, Gateway, Candidate, Flow, FlowType, find_flows, candidate_with,
  candidate_of, candidates_of, stays_first, find_affected_gateways,
}

-- No flow is surer, and one is as sure.
abbrev pub IsBest : ℕ → List Flow → Type 0
IsBest n fs = All (λ f. f.confidence ≤ n) fs × Any (λ f. f.confidence ≡ n) fs

best_confidence-IsBest : (f : Flow) (fs : List Flow) → IsBest (best_confidence (f ∷ fs)) (f ∷ fs)
unfolding best_confidence
best_confidence-IsBest f [] = ((omega arith, tt), inl (omega arith))
best_confidence-IsBest f (g ∷ gs) =
    let (all, one) = best_confidence-IsBest g gs in
    (
      (
        omega arith,
        All-weaken (λ h. h.confidence ≤ best_confidence (g ∷ gs)) _
            (λ h below. omega (arith, below)) (g ∷ gs) all,
      ),
      elim (Bool-cases (leb (best_confidence (g ∷ gs)) f.confidence)) [
        | inl surer ↦ inl (ground (arith, surer))
        | inr surest ↦ inr (
            Any-weaken (λ h. h.confidence ≡ best_confidence (g ∷ gs)) _
              (λ h same. ground (arith, same, surest)) (g ∷ gs) one)
      ],
    )

-- It counts as standby if all flows are standby, and does not if one is not.
abbrev pub IsStandby : Bool → List Flow → Type 0
IsStandby true fs = All (λ f. f.is_standby_path ≡ true) fs
IsStandby false fs = Any (λ f. f.is_standby_path ≡ false) fs

cons-IsStandby :
    (f : Flow) (fs : List Flow) (standby others : Bool)
    → f.is_standby_path ≡ standby
    → IsStandby (not others) fs
    → IsStandby (not (not standby || others)) (f ∷ fs)
cons-IsStandby f fs false others here rest = inl here
cons-IsStandby f fs true true here rest = inr rest
cons-IsStandby f fs true false here rest = (here, rest)

any-IsStandby : (fs : List Flow) → IsStandby (not (any (λ f. not f.is_standby_path) fs)) fs
any-IsStandby [] = tt
any-IsStandby (f ∷ fs) =
    cons-IsStandby f fs f.is_standby_path (any (λ f. not f.is_standby_path) fs) refl
      (any-IsStandby fs)

-- The candidate is a gateway's, with all flows that are found on it, one at least, and their types; its
-- confidence is that of the surest flow, and it counts as standby if all flows do.
abbrev pub IsCandidate : Wanted → List Gateway → Candidate → Type 0
IsCandidate w gs c =
    IsIn c.gateway gs
    × (c.flows ≡ (find_flows w c.gateway.view c.gateway.sources c.gateway.destinations).flows)
    × (c.match_types
        ≡ (find_flows w c.gateway.view c.gateway.sources c.gateway.destinations).match_types)
    × (c.flows ≢ [])
    × IsBest c.confidence c.flows
    × IsStandby c.is_standby_path c.flows

candidate_with-IsCandidate :
    (g : Gateway) (types : List FlowType) (flows : List Flow) (c : Candidate)
    → candidate_with g types flows ≡ some c
    → (c.gateway ≡ g)
      × (c.flows ≡ flows)
      × (c.match_types ≡ types)
      × (c.flows ≢ [])
      × IsBest c.confidence c.flows
      × IsStandby c.is_standby_path c.flows
unfolding candidate_with
candidate_with-IsCandidate g types [] c h = cc
candidate_with-IsCandidate g types (f ∷ fs) c h =
    subst
      (λ c.
        (c.gateway ≡ g)
        × (c.flows ≡ f ∷ fs)
        × (c.match_types ≡ types)
        × (c.flows ≢ [])
        × IsBest c.confidence c.flows
        × IsStandby c.is_standby_path c.flows)
      (some-injective _ _ h)
      (refl, refl, refl, (λ e. cc), best_confidence-IsBest f fs, any-IsStandby (f ∷ fs))

candidate_with-some :
    (g : Gateway) (types : List FlowType) (f : Flow) (fs : List Flow)
    → (c : Candidate) × (candidate_with g types (f ∷ fs) ≡ some c) × (c.gateway ≡ g)
unfolding candidate_with
candidate_with-some g types f fs = (_, refl, refl)

module _ (w : Wanted) where
  candidate_of-IsCandidate :
      (g : Gateway) (gs : List Gateway) (c : Candidate)
      → IsIn g gs
      → candidate_of w g ≡ some c
      → IsCandidate w gs c
  unfolding candidate_of
  candidate_of-IsCandidate g gs c is_in h =
      let found = find_flows w g.view g.sources g.destinations in
      let (gateway, flows, types, filled, best, standby) =
        candidate_with-IsCandidate g found.match_types found.flows c h in
      (rw gateway is_in, rw gateway flows, rw gateway types, filled, best, standby)

  candidates_of-All : (gs : List Gateway) → All (IsCandidate w gs) (candidates_of w gs)
  unfolding candidates_of
  candidates_of-All [] = tt
  candidates_of-All (g ∷ gs) =
      let rest =
        All-weaken (IsCandidate w gs) (IsCandidate w (g ∷ gs))
          (λ c (is_in, flows, types, filled, best, standby).
            (inr is_in, flows, types, filled, best, standby))
          (candidates_of w gs) (candidates_of-All gs) in
      elim (Option-cases (candidate_of w g)) [
        | inl no_flow ↦ rw (no_flow, All) rest
        | inr (c, is_candidate) ↦
            rw (is_candidate, All)
              (candidate_of-IsCandidate g (g ∷ gs) c (inl refl) is_candidate, rest)
      ]

  candidate_of-gateway :
      (g : Gateway)
      → (find_flows w g.view g.sources g.destinations).flows ≢ []
      → (c : Candidate) × (candidate_of w g ≡ some c) × (c.gateway ≡ g)
  unfolding candidate_of
  candidate_of-gateway g some_flow =
      go (find_flows w g.view g.sources g.destinations).match_types
        (find_flows w g.view g.sources g.destinations).flows some_flow
    where
      go :
          (types : List FlowType) (fs : List Flow)
          → fs ≢ []
          → (c : Candidate) × (candidate_with g types fs ≡ some c) × (c.gateway ≡ g)
      go types [] h = absurd (h refl)
      go types (f ∷ fs) h = candidate_with-some g types f fs

  candidates_of-Any :
      (g : Gateway) (gs : List Gateway)
      → IsIn g gs
      → (find_flows w g.view g.sources g.destinations).flows ≢ []
      → Any (λ c. c.gateway ≡ g) (candidates_of w gs)
  unfolding candidates_of
  candidates_of-Any g [] is_in h = absurd is_in
  candidates_of-Any g (k ∷ gs) is_in h = elim (Option-cases (candidate_of w k)) [
    | inl no_flow ↦
        rw (no_flow, Any)
          (elim is_in [
            | inl here ↦ let (c, is_candidate, _) = candidate_of-gateway k (rw (← here) at h) in cc
            | inr there ↦ candidates_of-Any g gs there h
          ])
    | inr (c, is_candidate) ↦
        rw (is_candidate, Any)
          (elim is_in [
            | inl here ↦
                let (d, is_candidate', same) = candidate_of-gateway k (rw (← here) at h) in
                let equal : d ≡ c = ground arith in inl (rw (← equal) same ∙ here)
            | inr there ↦ inr (candidates_of-Any g gs there h)
          ])
  ]

  flows_or_none : (fs : List Flow) → (fs ≡ []) ⊎ (fs ≢ [])
  flows_or_none [] = inl refl
  flows_or_none (f ∷ fs) = inr (λ e. cc)

  -- Every gateway without a candidate has no flow.
  abbrev pub IsServed : List Candidate → Gateway → Type 0
  IsServed cs g =
      ((find_flows w g.view g.sources g.destinations).flows ≡ []) ⊎ Any (λ c. c.gateway ≡ g) cs

  All-IsServed : (gs : List Gateway) → All (IsServed (find_affected_gateways w gs)) gs
  unfolding find_affected_gateways
  All-IsServed gs =
      All-weaken (λ g. IsIn g gs) (IsServed (sort_with stays_first (candidates_of w gs)))
        (λ g is_in. elim (flows_or_none (find_flows w g.view g.sources g.destinations).flows) [
          | inl no_flow ↦ inl no_flow
          | inr some_flow ↦ inr (
              sort_with-Any stays_first (λ c. c.gateway ≡ g) (candidates_of w gs)
                (candidates_of-Any g gs is_in some_flow))
        ])
        gs (All-IsIn gs)

  -- No candidate of the result leads one that stands before it, by the seven keys of the order. Each is a
  -- gateway's, with the flows that are found on it, one at least, and their types; its confidence is
  -- that of the surest flow, and it counts as standby exactly if all its flows do. Every gateway is there
  -- or has no flow.
  pub find_affected_gateways-IsRanked :
      (gs : List Gateway)
      → IsOrdered stays_first RankedBefore (find_affected_gateways w gs)
        × All (IsCandidate w gs) (find_affected_gateways w gs)
        × All (IsServed (find_affected_gateways w gs)) gs
  unfolding find_affected_gateways
  find_affected_gateways-IsRanked gs =
      let cs = candidates_of w gs in
      (
        sort_with-NotBelow stays_first leads leads-IsWeakOrder stays_first-leads cs,
        sort_with-All stays_first (IsCandidate w gs) cs (candidates_of-All gs),
        All-IsServed gs,
      )
