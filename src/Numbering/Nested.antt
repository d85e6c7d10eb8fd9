-- ===== src/Numbering/Nested.antt =====
-- The layers that are expanded below a rule are new ones, which its references name.
use arodonata.Common.{
  ℕ, suc, ◌≤◌, ◌<◌, ◌≡◌, inl, inr, refl, sym, subst, String, true, false, ◌&&◌, Option, none, some,
  List, [], ◌∷◌, length, if◌then◌else◌, str_eq, str_eq_iff, arith, Bool-cases, Option-cases,
}
use arodonata.Numbering.Entries.{
  RulebaseType, access, nat, https, threat, RuleEntry, truthy, or_else,
}
use arodonata.Numbering.Models.{RuleNumber}
use arodonata.Numbering.{
  Request, expansion, unless_visited, inline_request, placeholder_request, domain_layer,
  access_request, mem_str,
}

-- How many of the texts are not visited.
abbrev pub unvisited : List String → List String → ℕ
unfolding mem_str
unvisited visited [] = 0
unvisited visited (u ∷ us) =
    let rest = unvisited visited us in if mem_str u visited then rest else suc rest

unvisited-more :
    (u : String) (visited us : List String) → unvisited (u ∷ visited) us ≤ unvisited visited us
unfolding mem_str
unvisited-more u visited [] = omega arith
unvisited-more u visited (v ∷ us) = ground (arith, unvisited-more u visited us)

pub unvisited-less :
    (u : String) (visited us : List String)
    → mem_str u us ≡ true
    → mem_str u visited ≡ false
    → unvisited (u ∷ visited) us < unvisited visited us
unfolding mem_str
unvisited-less u visited [] h k = cc
unvisited-less u visited (v ∷ us) h k = elim (Bool-cases (str_eq v u)) [
  | inl same ↦
      let equal : v ≡ u = (str_eq_iff v u).0 same in
      let here : str_eq u v ≡ true = (str_eq_iff u v).1 (sym equal) in
      let old : mem_str v visited ≡ false = rw equal k in
      rw (here, old) (ground (arith, unvisited-more u visited us))
  | inr other ↦
      let there : mem_str u us ≡ true = ground arith in
      ground (arith, unvisited-less u visited us there k)
]

-- A reference, where there is one, is listed.
abbrev pub IsListed : List String → Option String → Type 0
IsListed refs o = (u : String) → truthy o ≡ some u → mem_str u refs ≡ true

abbrev pub EntryIsListed : List String → RuleEntry → Type 0
EntryIsListed refs e =
    IsListed refs e.inline_layer_uid × IsListed refs e.placeholder_domain_layer_uid

-- A request for a layer below a rule.
abbrev pub IsNested : List String → List String → Request → Type 0
IsNested refs visited q =
    (mem_str q.target refs ≡ true)
    × (mem_str q.target visited ≡ false)
    × (q.visited ≡ visited)
    × IsListed refs q.fallback_domain_layer_uid

unless_visited-IsNested :
    (refs visited : List String) (q q' : Request)
    → mem_str q.target refs ≡ true
    → q.visited ≡ visited
    → q.fallback_domain_layer_uid ≡ none
    → unless_visited visited q ≡ some q'
    → IsNested refs visited q'
unfolding unless_visited truthy
unless_visited-IsNested refs visited q q' known same nothing h =
    elim (Bool-cases (mem_str q.target visited)) [
      | inl old ↦ absurd (ground arith)
      | inr new ↦
          let equal : q ≡ q' = ground arith in
          subst (IsNested refs visited) equal (known, new, same, λ u e. absurd (ground arith))
    ]

inline_request-IsNested :
    (t : RulebaseType) (q : Request) (refs visited : List String) (number : RuleNumber)
    (e : RuleEntry) (q' : Request)
    → EntryIsListed refs e
    → inline_request t q visited number e ≡ some q'
    → IsNested refs visited q'
unfolding inline_request
inline_request-IsNested t q refs visited number e q' listed h =
    elim (Bool-cases q.expand_inline_layers) [
      | inr off ↦ absurd (ground arith)
      | inl on ↦ elim (Option-cases (truthy e.inline_layer_uid)) [
        | inl nothing ↦ absurd (ground arith)
        | inr (uid, e') ↦
            unless_visited-IsNested refs visited _ q' (listed.0 uid e') refl refl (rw (on, e') at h)
      ]
    ]

placeholder_request-IsNested :
    (q : Request) (refs visited : List String) (number : RuleNumber) (e : RuleEntry) (uid : String)
    (q' : Request)
    → mem_str uid refs ≡ true
    → placeholder_request q visited number e uid ≡ some q'
    → IsNested refs visited q'
unfolding placeholder_request
placeholder_request-IsNested q refs visited number e uid q' known h =
    unless_visited-IsNested refs visited _ q' known refl refl h

domain_layer-IsListed :
    (q : Request) (refs : List String) (e : RuleEntry) (uid : String)
    → EntryIsListed refs e
    → IsListed refs q.fallback_domain_layer_uid
    → domain_layer q e ≡ some uid
    → mem_str uid refs ≡ true
unfolding domain_layer or_else
domain_layer-IsListed q refs e uid listed fallback h =
    elim (Option-cases (truthy e.placeholder_domain_layer_uid)) [
      | inr (own, e') ↦ listed.1 uid (unfold truthy in ground arith)
      | inl nothing ↦ elim (Bool-cases e.is_placeholder) [
        | inl is ↦ fallback uid (rw (nothing, is) at h)
        | inr not ↦ absurd (ground arith)
      ]
    ]

access_request-IsNested :
    (q : Request) (refs visited : List String) (number : RuleNumber) (e : RuleEntry) (q' : Request)
    → EntryIsListed refs e
    → IsListed refs q.fallback_domain_layer_uid
    → access_request q visited number e ≡ some q'
    → IsNested refs visited q'
unfolding access_request
access_request-IsNested q refs visited number e q' listed fallback h =
    elim (Bool-cases (q.expand_placeholders && e.is_placeholder)) [
      | inr off ↦ inline_request-IsNested access q refs visited number e q' listed (rw off at h)
      | inl on ↦ elim (Option-cases (domain_layer q e)) [
        | inl nothing ↦
            inline_request-IsNested access q refs visited number e q' listed (rw (on, nothing) at h)
        | inr (uid, e') ↦
            placeholder_request-IsNested q refs visited number e uid q'
              (domain_layer-IsListed q refs e uid listed fallback e') (rw (on, e') at h)
      ]
    ]

pub expansion-IsNested :
    (t : RulebaseType) (q : Request) (refs visited : List String) (number : RuleNumber)
    (e : RuleEntry) (q' : Request)
    → EntryIsListed refs e
    → IsListed refs q.fallback_domain_layer_uid
    → expansion t q visited number e ≡ some q'
    → IsNested refs visited q'
unfolding expansion
expansion-IsNested access q refs visited number e q' listed fallback h =
    access_request-IsNested q refs visited number e q' listed fallback h
expansion-IsNested https q refs visited number e q' listed fallback h =
    inline_request-IsNested https q refs visited number e q' listed h
expansion-IsNested nat q refs visited number e q' listed fallback h = cc
expansion-IsNested threat q refs visited number e q' listed fallback h = cc

pub unvisited-length : (visited us : List String) → unvisited visited us ≤ length us
unfolding unvisited
unvisited-length visited [] = omega arith
unvisited-length visited (u ∷ us) = ground (arith, unvisited-length visited us)
