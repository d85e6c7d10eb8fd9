-- ===== src/Numbering/Ascending.antt =====
-- The numbers in the order of the display.
use mathlib.Core.List.{append_assoc}
use arodonata.Common.{
  ℕ, zero, suc, ◌≤◌, ◌<◌, ◌≡◌, ◌⊎◌, inl, inr, refl, ap, ◌∙◌, Option, some, List, [], ◌∷◌, ◌++◌, All,
  arith, Option-cases,
}
use arodonata.Numbering.Entries.{Snapshot, LayerEntry, find_layer}
use arodonata.Numbering.Models.{RuleNumber, Numbered, Forest, empty, rule, flatten}
use arodonata.Numbering.Order.{IsHierarchical, number_layer-IsHierarchical}
use arodonata.Numbering.{
  Request, Numbering, number_layer, number_found, number_entries, expansion, sorted_entries,
  missing,
}

-- `m` is displayed before `n`: it is smaller at the first place where they differ, or `n` continues
-- `m`.
abbrev pub Precedes : RuleNumber → RuleNumber → Type 0
Precedes m [] = ⊥
Precedes [] (y ∷ ys) = Unit {0}
Precedes (x ∷ xs) (y ∷ ys) = (x < y) ⊎ ((x ≡ y) × Precedes xs ys)

Precedes-irrefl : (m : RuleNumber) → ¬ Precedes m m
Precedes-irrefl [] h = h
Precedes-irrefl (x ∷ xs) (inl lt) = omega arith
Precedes-irrefl (x ∷ xs) (inr (e, h)) = Precedes-irrefl xs h

abbrev pub IsAscending : List RuleNumber → Type 0
IsAscending [] = Unit {0}
IsAscending (n ∷ ns) = All (Precedes n) ns × IsAscending ns

Precedes-continued : (m : RuleNumber) (i : ℕ) (rest : RuleNumber) → Precedes m (m ++ i ∷ rest)
Precedes-continued [] i rest = tt
Precedes-continued (x ∷ xs) i rest = inr (refl, Precedes-continued xs i rest)

Precedes-sibling :
    (p : RuleNumber) (k i : ℕ) (xs ys : RuleNumber) → k < i → Precedes (p ++ k ∷ xs) (p ++ i ∷ ys)
Precedes-sibling [] k i xs ys h = inl h
Precedes-sibling (x ∷ p) k i xs ys h = inr (refl, Precedes-sibling p k i xs ys h)

-- Numbers that continue the prefix by an index from `k` on.
abbrev Continues : RuleNumber → ℕ → RuleNumber → Type 0
Continues p k n = (i : ℕ) × (rest : RuleNumber) × (n ≡ p ++ i ∷ rest) × (k ≤ i)

All-append :
    (P : RuleNumber → Type 0) (xs ys : List RuleNumber) → All P xs → All P ys → All P (xs ++ ys)
All-append P [] ys hx hy = hy
All-append P (x ∷ xs) ys hx hy = (hx.0, All-append P xs ys hx.1 hy)

All-imp :
    {P Q : RuleNumber → Type 0}
    → ((n : RuleNumber) → P n → Q n)
    → (ns : List RuleNumber) → All P ns
    → All Q ns
All-imp f [] h = tt
All-imp f (n ∷ ns) h = (f n h.0, All-imp f ns h.1)

IsAscending-append :
    (xs ys : List RuleNumber)
    → IsAscending xs
    → IsAscending ys
    → All (λ x. All (Precedes x) ys) xs
    → IsAscending (xs ++ ys)
IsAscending-append [] ys hx hy h = hy
IsAscending-append (x ∷ xs) ys hx hy h =
    (All-append (Precedes x) xs ys hx.0 h.0, IsAscending-append xs ys hx.1 hy h.1)

-- The numbers of a forest and of all below it.
abbrev pub numbers : List Numbered → List RuleNumber
numbers [] = []
numbers (r ∷ rs) = r.number ∷ numbers rs

numbers-append : (xs ys : List Numbered) → numbers (xs ++ ys) ≡ numbers xs ++ numbers ys
numbers-append [] ys = refl
numbers-append (r ∷ rs) ys = ap (◌∷◌ r.number) (numbers-append rs ys)

deepen :
    (p : RuleNumber) (k : ℕ) (n : RuleNumber)
    → Continues (p ++ k ∷ []) 1 n
    → (rest : RuleNumber) × (n ≡ p ++ k ∷ rest)
deepen p k n (i, rest, e, h) = (i ∷ rest, e ∙ append_assoc p (k ∷ []) (i ∷ rest))

flatten-Continues :
    (f : Forest) (p : RuleNumber) (k : ℕ)
    → IsHierarchical p k f
    → All (Continues p k) (numbers (flatten f))
unfolding flatten
flatten-Continues empty p k h = tt
flatten-Continues (rule r children rest) p k (here, below, after) =
    rw (numbers-append (flatten children) (flatten rest)) (
      (k, [], here, omega arith),
      All-append (Continues p k) (numbers (flatten children)) (numbers (flatten rest))
          (All-imp (λ n c. let (more, e) = deepen p k n c in (k, more, e, omega arith)) _
            (flatten-Continues children (p ++ k ∷ []) 1 below))
          (All-imp (λ n (i, more, e, h). (i, more, e, omega arith)) _
            (flatten-Continues rest p (suc k) after)),
    )

flatten-IsAscending :
    (f : Forest) (p : RuleNumber) (k : ℕ) → IsHierarchical p k f → IsAscending (numbers (flatten f))
unfolding flatten
flatten-IsAscending empty p k h = tt
flatten-IsAscending (rule r children rest) p k (here, below, after) =
    rw (numbers-append (flatten children) (flatten rest), here)
      (
        All-append (Precedes (p ++ k ∷ [])) (numbers (flatten children)) (numbers (flatten rest))
            (All-imp (λ n (i, more, e, h). rw e (Precedes-continued (p ++ k ∷ []) i more)) _ inner)
            (All-imp (λ n (i, more, e, h). rw e (Precedes-sibling p k i [] more (omega arith))) _
              outer),
        IsAscending-append (numbers (flatten children)) (numbers (flatten rest))
            (flatten-IsAscending children (p ++ k ∷ []) 1 below)
            (flatten-IsAscending rest p (suc k) after)
            (All-imp
              (λ n c.
                let (ms, e) = deepen p k n c in
                All-imp
                  (λ m (i, more, f, h). rw (e, f) (Precedes-sibling p k i ms more (omega arith))) _
                  outer)
              _ inner),
      )
  where
    inner : All (Continues (p ++ k ∷ []) 1) (numbers (flatten children))
    inner = flatten-Continues children (p ++ k ∷ []) 1 below

    outer : All (Continues p (suc k)) (numbers (flatten rest))
    outer = flatten-Continues rest p (suc k) after

number_found-flat :
    (sub : Request → Option Numbering) (s : Snapshot) (q : Request) (layer : LayerEntry)
    (n : Numbering)
    → number_found sub s q layer ≡ some n
    → n.flat_rules ≡ flatten n.rules
unfolding number_found
number_found-flat sub s q layer n h =
    elim (Option-cases (
      number_entries sub (expansion layer.rulebase_type q (layer.uid ∷ q.visited)) q 1
        (sorted_entries s layer))) [
          | inl fails ↦ absurd (ground arith)
          | inr (rules, gives) ↦
              let list : n.flat_rules ≡ flatten rules = ground arith in
              let tree : n.rules ≡ rules = ground arith in rw (list, tree) refl
        ]

number_layer-flat :
    (fuel : ℕ) (s : Snapshot) (q : Request) (n : Numbering)
    → number_layer fuel s q ≡ some n
    → n.flat_rules ≡ flatten n.rules
unfolding number_layer missing flatten
number_layer-flat zero s q n h = cc
number_layer-flat (suc fuel) s q n h = elim (Option-cases (find_layer s q.target q.rulebase_type)) [
  | inl absent ↦
      let list : n.flat_rules ≡ [] = ground arith in
      let tree : n.rules ≡ empty = ground arith in rw (list, tree) refl
  | inr (layer, found) ↦ number_found-flat (number_layer fuel s) s q layer n (ground arith)
]

-- In the flat list of a numbered layer every number is displayed after all the numbers before it,
-- which no number is after itself: the rules are in the order of the display and no two share a
-- number.
pub number_layer-IsAscending :
    (fuel : ℕ) (s : Snapshot) (q : Request) (n : Numbering)
    → number_layer fuel s q ≡ some n
    → IsAscending (numbers n.flat_rules) × ((m : RuleNumber) → ¬ Precedes m m)
number_layer-IsAscending fuel s q n h = (
  rw (number_layer-flat fuel s q n h)
      (flatten-IsAscending n.rules q.prefix 1 (number_layer-IsHierarchical fuel s q n h)),
  Precedes-irrefl,
)
