-- ===== src/Numbering/Returns.antt =====
-- The expansion of layers ends.
use arodonata.Common.{
  ℕ, zero, suc, ◌≤◌, ◌<◌, ◌≡◌, inl, inr, refl, String, true, ◌||◌, Option, some, List, [], ◌∷◌,
  ◌++◌, leb, length, str_eq, All, arith, Bool-cases, Option-cases,
}
use arodonata.Numbering.Entries.{
  RulebaseType, access, nat, https, threat, Snapshot, LayerEntry, RuleEntry, find_layer, rules_of,
  sort_by, insert_by, sections_of,
}
use arodonata.Numbering.Models.{RuleNumber, NumberedSection, Forest, empty, rule, flatten, tops}
use arodonata.Numbering.Sections.{build_sections}
use arodonata.Numbering.Nested.{
  unvisited, unvisited-less, unvisited-length, IsListed, EntryIsListed, IsNested,
  expansion-IsNested,
}
use arodonata.Numbering.{
  Request, Numbering, number_layer, number_found, number_entries, expand, missing, expansion,
  sorted_entries, entries_by_type, mem_str,
}

module _ (P : RuleEntry → Type 0) where
  rules_of-All : (layer : LayerEntry) (es : List RuleEntry) → All P es → All P (rules_of layer es)
  unfolding rules_of
  rules_of-All layer [] h = tt
  rules_of-All layer (e ∷ es) h =
      elim (Bool-cases (str_eq e.layer_uid layer.uid || str_eq e.layer_name layer.name)) [
        | inl fits ↦ rw fits (h.0, rules_of-All layer es h.1)
        | inr other ↦ rw other (rules_of-All layer es h.1)
      ]

module _ {A : Type 0} (P : A → Type 0) where
  insert_by-All :
      (position : A → ℕ) (e : A) (es : List A) → P e → All P es → All P (insert_by position e es)
  unfolding insert_by
  insert_by-All position e [] here h = (here, tt)
  insert_by-All position e (d ∷ es) here h = elim (Bool-cases (leb (position e) (position d))) [
    | inl before ↦ rw before (here, h)
    | inr after ↦ rw after (h.0, insert_by-All position e es here h.1)
  ]

  pub sort_by-All : (position : A → ℕ) (es : List A) → All P es → All P (sort_by position es)
  unfolding sort_by
  sort_by-All position [] h = tt
  sort_by-All position (e ∷ es) h =
      insert_by-All position e (sort_by position es) h.0 (sort_by-All position es h.1)

-- The references of the rules that may have some are listed.
abbrev pub ListsReferences : List String → Snapshot → Type 0
ListsReferences refs s =
    All (EntryIsListed refs) s.access_rules
    × All (EntryIsListed refs) s.https_rules
    × All (EntryIsListed refs) s.threat_rules

-- The layer that is found by a listed reference has it as its uid.
abbrev pub FindsByUid : List String → Snapshot → Type 0
FindsByUid refs s =
    (u : String) (t : Option RulebaseType) (layer : LayerEntry)
    → mem_str u refs ≡ true
    → find_layer s u t ≡ some layer
    → layer.uid ≡ u

entries_by_type-listed :
    (refs : List String) (s : Snapshot) (t : RulebaseType)
    → ListsReferences refs s
    → All (EntryIsListed refs) (entries_by_type s t)
unfolding entries_by_type
entries_by_type-listed refs s access (a, h, t) = a
entries_by_type-listed refs s nat (a, h, t) = tt
entries_by_type-listed refs s https (a, h, t) = h
entries_by_type-listed refs s threat (a, h, t) = t

sorted_entries-listed :
    (refs : List String) (s : Snapshot) (layer : LayerEntry)
    → ListsReferences refs s
    → All (EntryIsListed refs) (sorted_entries s layer)
unfolding sorted_entries
sorted_entries-listed refs s layer h =
    sort_by-All (EntryIsListed refs) (λ r. r.position)
      (rules_of layer (entries_by_type s layer.rulebase_type))
      (rules_of-All (EntryIsListed refs) layer (entries_by_type s layer.rulebase_type)
        (entries_by_type-listed refs s layer.rulebase_type h))

module _ (sub : Request → Option Numbering) (below : RuleNumber → RuleEntry → Option Request) where
  -- Every layer that is expanded below a rule has a result.
  abbrev Expands : RuleEntry → Type 0
  Expands e =
      (number : RuleNumber) (q : Request)
      → below number e ≡ some q
      → (n : Numbering) × (sub q ≡ some n)

  expand_returns :
      (number : RuleNumber) (e : RuleEntry)
      → Expands e
      → (r : Forest × List NumberedSection) × (expand sub (below number e) ≡ some r)
  unfolding expand
  expand_returns number e h = elim (Option-cases (below number e)) [
    | inl nothing ↦ ((empty, []), rw nothing refl)
    | inr (q, there) ↦
        let (n, gives) = h number q there in ((n.rules, n.sections), rw (there, gives) refl)
  ]

  number_entries_returns :
      (q : Request) (idx : ℕ) (es : List RuleEntry)
      → All Expands es
      → (rules : Forest) × (number_entries sub below q idx es ≡ some rules)
  unfolding number_entries
  number_entries_returns q idx [] h = (empty, refl)
  number_entries_returns q idx (e ∷ es) h =
      let number = q.prefix ++ idx ∷ [] in
      let ((children, nested), here) = expand_returns number e h.0 in
      let (siblings, after) = number_entries_returns q (suc idx) es h.1 in
      (
        rule
            (record {
              entry = e;
              number = number;
              parent_rule_uid = q.parent_rule_uid;
              nested_sections = nested;
            })
            children siblings,
        rw (here, after) refl,
      )

module _ (refs : List String) (s : Snapshot) (lists : ListsReferences refs s)
    (by_uid : FindsByUid refs s) where
  -- A layer is numbered if the layers below it are.
  number_found_returns :
      (sub : Request → Option Numbering) (q : Request) (layer : LayerEntry)
      → IsListed refs q.fallback_domain_layer_uid
      → ((q' : Request)
          → IsNested refs (layer.uid ∷ q.visited) q'
          → (n : Numbering) × (sub q' ≡ some n))
      → (n : Numbering) × (number_found sub s q layer ≡ some n)
  unfolding number_found
  number_found_returns sub q layer fallback nested =
      let visited = layer.uid ∷ q.visited in
      let below = expansion layer.rulebase_type q visited in
      let (rules, gives) =
        number_entries_returns sub below q 1 (sorted_entries s layer)
          (expanded (sorted_entries s layer) (sorted_entries-listed refs s layer lists)) in
      (
        record {
          layer_uid = layer.uid;
          layer_name = layer.name;
          rulebase_type = layer.rulebase_type;
          prefix = q.prefix;
          is_global = layer.is_global;
          sections = build_sections (sections_of layer s.sections) (tops rules);
          rules = rules;
          flat_rules = flatten rules;
        },
        rw gives refl,
      )
    where
      expanded :
          (es : List RuleEntry)
          → All (EntryIsListed refs) es
          → All (Expands sub (expansion layer.rulebase_type q (layer.uid ∷ q.visited))) es
      expanded [] h = tt
      expanded (e ∷ es) h = (
        (λ number q' there. nested q' (
            expansion-IsNested layer.rulebase_type q refs (layer.uid ∷ q.visited) number e q' h.0
              fallback there)),
        expanded es h.1,
      )

  nested_returns :
      (fuel : ℕ) (q : Request)
      → IsNested refs q.visited q
      → unvisited q.visited refs ≤ fuel
      → (n : Numbering) × (number_layer fuel s q ≡ some n)
  unfolding number_layer
  nested_returns zero q (known, new, same, fallback) enough =
      absurd (omega (arith, unvisited-less q.target q.visited refs known new))
  nested_returns (suc fuel) q (listed, fresh, itself, fallback) enough =
      elim (Option-cases (find_layer s q.target q.rulebase_type)) [
        | inl absent ↦ (missing q, rw (absent, number_layer) refl)
        | inr (layer, found) ↦
            let uid = by_uid q.target q.rulebase_type layer listed found in
            let (n, gives) =
              number_found_returns (number_layer fuel s) q layer fallback
                (λ q' (known, new, same, later).
                  nested_returns fuel q' (known, rw same new, refl, later)
                    (rw (same, uid)
                      (omega (arith, unvisited-less q.target q.visited refs listed fresh)))) in
            (n, rw (found, number_layer) gives)
      ]

  -- If every reference of a rule, and the fallback of the call, stands in a list of references, and each
  -- of these finds only a layer with it as its uid, then numbering any layer gives a result, and the
  -- layers nest at most one deeper than the list is long, although layers may refer to each other.
  pub number_layer_returns :
      (fuel : ℕ) (q : Request)
      → IsListed refs q.fallback_domain_layer_uid
      → length refs < fuel
      → (n : Numbering) × (number_layer fuel s q ≡ some n)
  unfolding number_layer
  number_layer_returns zero q fallback enough = absurd (omega arith)
  number_layer_returns (suc fuel) q fallback enough =
      elim (Option-cases (find_layer s q.target q.rulebase_type)) [
        | inl absent ↦ (missing q, rw (absent, number_layer) refl)
        | inr (layer, found) ↦
            let (n, gives) =
              number_found_returns (number_layer fuel s) q layer fallback
                (λ q' (known, new, same, listed).
                  nested_returns fuel q' (known, rw same new, refl, listed)
                    (omega (arith, unvisited-length q'.visited refs))) in
            (n, rw (found, number_layer) gives)
      ]
