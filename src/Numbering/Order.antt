-- ===== src/Numbering/Order.antt =====
-- The numbers are hierarchical, in the order of the display, and no two rules share one.

use arodonata.Common.{
  ℕ, zero, suc, ◌≡◌, inl, inr, refl, String, Option, none, some, List, [], ◌∷◌, ◌++◌, arith,
  Option-cases,
}
use arodonata.Numbering.Entries.{
  RulebaseType, access, nat, https, threat, Snapshot, LayerEntry, RuleEntry, find_layer,
}
use arodonata.Numbering.Models.{RuleNumber, NumberedSection, Forest, empty, rule}
use arodonata.Numbering.{
  Request, Numbering, number_layer, number_found, number_entries, expand, missing, expansion,
  sorted_entries, unless_visited, inline_request,
}

-- From the index `k` on, the rules below `prefix` are numbered in sequence, and the children of each
-- are numbered from 1 below its own number.
abbrev pub IsHierarchical : RuleNumber → ℕ → Forest → Type 0
IsHierarchical prefix k empty = Unit {0}
IsHierarchical prefix k (rule r children rest) =
    (r.number ≡ prefix ++ k ∷ [])
    × IsHierarchical (prefix ++ k ∷ []) 1 children
    × IsHierarchical prefix (suc k) rest

-- What a call has to give: its rules are numbered below its prefix.
abbrev Fits : Request → Numbering → Type 0
Fits q n = IsHierarchical q.prefix 1 n.rules

module _ (sub : Request → Option Numbering)
    (fits : (q : Request) (n : Numbering) → sub q ≡ some n → Fits q n)
    (below : RuleNumber → RuleEntry → Option Request)
    (prefixed : (number : RuleNumber) (e : RuleEntry) (q : Request)
      → below number e ≡ some q
      → q.prefix ≡ number) where
  expand-IsHierarchical :
      (number : RuleNumber) (e : RuleEntry) (children : Forest) (nested : List NumberedSection)
      → expand sub (below number e) ≡ some (children, nested)
      → IsHierarchical number 1 children
  unfolding expand
  expand-IsHierarchical number e children nested h = go (below number e) refl h
    where
      go :
          (o : Option Request)
          → below number e ≡ o
          → expand sub o ≡ some (children, nested)
          → IsHierarchical number 1 children
      go none f g = let same : children ≡ empty = ground arith in rw same tt
      go (some q) f g = elim (Option-cases (sub q)) [
        | inl fails ↦ absurd (ground arith)
        | inr (n, gives) ↦
            let same : children ≡ n.rules = ground arith in
            rw same (rw (prefixed number e q f) at (fits q n gives))
      ]

  entries-IsHierarchical :
      (q : Request) (es : List RuleEntry) (idx : ℕ) (rules : Forest)
      → number_entries sub below q idx es ≡ some rules
      → IsHierarchical q.prefix idx rules
  unfolding number_entries
  entries-IsHierarchical q [] idx rules h = let same : rules ≡ empty = ground arith in rw same tt
  entries-IsHierarchical q (e ∷ es) idx rules h =
      let number = q.prefix ++ idx ∷ [] in
      elim (Option-cases (expand sub (below number e))) [
        | inl fails ↦ absurd (ground arith)
        | inr ((children, nested), gives) ↦
            elim (Option-cases (number_entries sub below q (suc idx) es)) [
              | inl fails ↦ absurd (ground arith)
              | inr (siblings, goes_on) ↦
                  let same : rules
                      ≡ rule
                          (record {
                            entry = e;
                            number = number;
                            parent_rule_uid = q.parent_rule_uid;
                            nested_sections = nested;
                          })
                          children siblings =
                    ground arith in
                  rw same (
                    refl,
                    expand-IsHierarchical number e children nested gives,
                    entries-IsHierarchical q es (suc idx) siblings goes_on,
                  )
            ]
      ]

unless_visited-prefix :
    (visited : List String) (q q' : Request)
    → unless_visited visited q ≡ some q'
    → q'.prefix ≡ q.prefix
unfolding unless_visited
unless_visited-prefix visited q q' h = ground arith

inline_request-prefix :
    (t : RulebaseType) (q : Request) (visited : List String) (number : RuleNumber) (e : RuleEntry)
    (q' : Request)
    → inline_request t q visited number e ≡ some q'
    → q'.prefix ≡ number
unfolding inline_request
inline_request-prefix t q visited number e q' h = ground arith

expansion-prefix :
    (t : RulebaseType) (q : Request) (visited : List String) (number : RuleNumber) (e : RuleEntry)
    (q' : Request)
    → expansion t q visited number e ≡ some q'
    → q'.prefix ≡ number
unfolding expansion
expansion-prefix access q visited number e q' h = access_case
  where
    access_case : q'.prefix ≡ number
    access_case = ground (arith, inline_request-prefix access q visited number e q')
expansion-prefix https q visited number e q' h = inline_request-prefix https q visited number e q' h
expansion-prefix nat q visited number e q' h = cc
expansion-prefix threat q visited number e q' h = cc

number_found-IsHierarchical :
    (sub : Request → Option Numbering) (s : Snapshot) (q : Request) (layer : LayerEntry)
    (n : Numbering)
    → ((q : Request) (n : Numbering) → sub q ≡ some n → Fits q n)
    → number_found sub s q layer ≡ some n
    → Fits q n
unfolding number_found
number_found-IsHierarchical sub s q layer n fits h =
    let below = expansion layer.rulebase_type q (layer.uid ∷ q.visited) in
    elim (Option-cases (number_entries sub below q 1 (sorted_entries s layer))) [
      | inl fails ↦ absurd (ground arith)
      | inr (rules, gives) ↦
          let same : n.rules ≡ rules = ground arith in
          rw same (
            entries-IsHierarchical sub fits below
              (expansion-prefix layer.rulebase_type q (layer.uid ∷ q.visited)) q
              (sorted_entries s layer) 1 rules gives)
    ]

-- The rules of a numbered layer are numbered in sequence from 1 below its prefix, and the rules of
-- the layers that are expanded below a rule likewise below that rule's number, at every depth.
pub number_layer-IsHierarchical :
    (fuel : ℕ) (s : Snapshot) (q : Request) (n : Numbering)
    → number_layer fuel s q ≡ some n
    → IsHierarchical q.prefix 1 n.rules
unfolding number_layer missing
number_layer-IsHierarchical zero s q n h = cc
number_layer-IsHierarchical (suc fuel) s q n h =
    elim (Option-cases (find_layer s q.target q.rulebase_type)) [
      | inl absent ↦ let same : n.rules ≡ empty = ground arith in rw same tt
      | inr (layer, found) ↦
          number_found-IsHierarchical (number_layer fuel s) s q layer n
            (number_layer-IsHierarchical fuel s) (ground arith)
    ]
