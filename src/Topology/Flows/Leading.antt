-- ===== src/Topology/Flows/Leading.antt =====
-- The order of the candidates: their seven keys, one after another.

use arodonata.Common.{ℕ, ◌≡◌, false, arith, Bool, not, ltb, length}
use arodonata.Common.Sorting.{str_ltb}
use arodonata.Common.Orders.{
  IsWeakOrder, then_by, then_by-IsWeakOrder, by_key-IsWeakOrder, bool_ltb, bool_ltb-IsWeakOrder,
  str_ltb-IsWeakOrder, str_eq-str_ltb,
}
use arodonata.Topology.Flows.{breaks_tie, Candidate, has_internal, stays_first}

-- The candidate leads: it has a flow between two internal interfaces and the other has none. Where this
-- is the same: it has a flow that is not standby and the other has none, then it has the greater
-- confidence, then more flows, then the lower name of its management server, of its domain, of its own.
abbrev pub leads : Candidate → Candidate → Bool
leads =
    then_by (λ a b. bool_ltb (not (has_internal a)) (not (has_internal b)))
      (then_by (λ a b. bool_ltb a.is_standby_path b.is_standby_path)
        (then_by (λ a b. ltb b.confidence a.confidence)
          (then_by (λ a b. ltb (length b.flows) (length a.flows))
            (then_by (λ a b. str_ltb a.gateway.mgmt_name b.gateway.mgmt_name)
              (then_by (λ a b. str_ltb a.gateway.domain_name b.gateway.domain_name)
                (λ a b. str_ltb a.gateway.gateway_name b.gateway.gateway_name))))))

-- No candidate leads one that stands before it.
abbrev pub RankedBefore : Candidate → Candidate → Type 0
RankedBefore a b = leads b a ≡ false

flip-IsWeakOrder : IsWeakOrder (λ (m : ℕ) (n : ℕ). ltb n m)
flip-IsWeakOrder = record {
  asym = λ x y h. ground (arith, h);
  chain = λ x y z h k. ground (arith, h, k);
}

pub leads-IsWeakOrder : IsWeakOrder leads
leads-IsWeakOrder =
    then_by-IsWeakOrder _ _
      (by_key-IsWeakOrder (λ a. not (has_internal a)) bool_ltb bool_ltb-IsWeakOrder)
      (then_by-IsWeakOrder _ _
        (by_key-IsWeakOrder (λ a. a.is_standby_path) bool_ltb bool_ltb-IsWeakOrder)
        (then_by-IsWeakOrder _ _
          (by_key-IsWeakOrder (λ a. a.confidence) (λ m n. ltb n m) flip-IsWeakOrder)
          (then_by-IsWeakOrder _ _
            (by_key-IsWeakOrder (λ a. length a.flows) (λ m n. ltb n m) flip-IsWeakOrder)
            (then_by-IsWeakOrder _ _
              (by_key-IsWeakOrder (λ a. a.gateway.mgmt_name) str_ltb str_ltb-IsWeakOrder)
              (then_by-IsWeakOrder _ _
                (by_key-IsWeakOrder (λ a. a.gateway.domain_name) str_ltb str_ltb-IsWeakOrder)
                (by_key-IsWeakOrder (λ a. a.gateway.gateway_name) str_ltb str_ltb-IsWeakOrder))))))

breaks_tie-names :
    (a b : Candidate)
    → breaks_tie a b
      ≡ not (
          then_by
            (λ a b. str_ltb a.gateway.mgmt_name b.gateway.mgmt_name)
            (then_by
              (λ a b. str_ltb a.gateway.domain_name b.gateway.domain_name)
              (λ a b. str_ltb a.gateway.gateway_name b.gateway.gateway_name))
            b
            a)
unfolding breaks_tie
breaks_tie-names a b = ground (
  arith,
  str_eq-str_ltb a.gateway.mgmt_name b.gateway.mgmt_name,
  str_eq-str_ltb a.gateway.domain_name b.gateway.domain_name,
  str_ltb-IsWeakOrder.asym a.gateway.mgmt_name b.gateway.mgmt_name,
  str_ltb-IsWeakOrder.asym a.gateway.domain_name b.gateway.domain_name,
)

pub stays_first-leads : (a b : Candidate) → stays_first a b ≡ not (leads b a)
unfolding stays_first
stays_first-leads a b = rw (breaks_tie-names a b) (ground arith)
