-- ===== src/Topology/Effective/Kept.antt =====
-- What the annotations drop and add.
use arodonata.Common.{
  ◌≡◌, ◌≢◌, refl, inl, inr, ◌⊎◌, String, Bool, true, false, not, Option, none, some, List, [], ◌∷◌,
  any, filter, All, Any, str_eq, str_eq_iff, str_eq_self, str_eq_ne, arith, Bool-cases,
  Option-cases,
}
use arodonata.Common.Members.{
  IsIn, All-IsIn, All-weaken, Any-weaken, Any-append, filter-All, filter-Any,
}
use arodonata.Common.Sorting.{sort_with, sort_with-All, sort_with-Any}
use arodonata.Topology.Addresses.{Bounds, parse_bounds}
use arodonata.Topology.Entries.{Entry, Annotation, ByPrefix, manual_entry}
use arodonata.Topology.Effective.Ignored.{IsIgnored, is_ignored-IsIgnored, IsIgnored-is_ignored}
use arodonata.Topology.Effective.Made.{Item, Extends, add_all_manual-Extends}
use arodonata.Topology.Effective.{
  is_disposed, is_ignored, is_at, manual_of, adds_entry, add_bounds, add_manual, add_all_manual,
  stays_by_key, effective_entries,
}

-- The annotation is for making an entry.
abbrev pub IsMaking : String → String → Annotation → Type 0
IsMaking interface cidr a =
    (is_disposed a.disposition manual_entry ≡ true)
    × (interface ≢ "*")
    × (cidr ≢ "*")
    × ((b : Bounds) × (parse_bounds cidr ≡ some b))

module _ (P : Entry → Type 0) where
  add_bounds-keeps :
      (interface cidr : String) (a : Annotation) (o : Option Bounds) (es : List Entry)
      → Any P es
      → Any P (add_bounds interface cidr a o es)
  unfolding add_bounds
  add_bounds-keeps interface cidr a none es h = h
  add_bounds-keeps interface cidr a (some b) es h = Any-append P es _ (inl h)

  add_manual-keeps : (x : Item) (es : List Entry) → Any P es → Any P (add_manual x es)
  unfolding add_manual
  add_manual-keeps ((interface, cidr), a) es h =
      elim (Bool-cases (adds_entry interface cidr a es)) [
        | inr no_entry ↦ rw no_entry h
        | inl adds ↦ rw adds (add_bounds-keeps interface cidr a (parse_bounds cidr) es h)
      ]

  add_all_manual-keeps :
      (xs : List Item) (es : List Entry) → Any P es → Any P (add_all_manual xs es)
  unfolding add_all_manual
  add_all_manual-keeps [] es h = h
  add_all_manual-keeps (x ∷ xs) es h =
      add_all_manual-keeps xs (add_manual x es) (add_manual-keeps x es h)

abbrev pub HasEntryAt : String → String → List Entry → Type 0
HasEntryAt interface cidr es = Any (λ e. is_at interface cidr e ≡ true) es

any-Any : (test : Entry → Bool) (es : List Entry) → any test es ≡ true → Any (λ e. test e ≡ true) es
any-Any test [] h = cc
any-Any test (e ∷ es) h = elim (Bool-cases (test e)) [
  | inl here ↦ inl here
  | inr there ↦ inr (any-Any test es (ground arith))
]

module _ (interface cidr : String) (a : Annotation) (making : IsMaking interface cidr a) where
  add_manual-gets :
      (es : List Entry) → HasEntryAt interface cidr (add_manual ((interface, cidr), a) es)
  unfolding add_manual adds_entry add_bounds manual_of
  add_manual-gets es =
      let (disposed, not_any, not_any', (b, parsed)) = making in
      elim (Bool-cases (any (is_at interface cidr) es)) [
        | inl has ↦
            rw (disposed, str_eq_ne interface "*" not_any, str_eq_ne cidr "*" not_any', has)
              (any-Any (is_at interface cidr) es has)
        | inr new ↦
            rw (disposed, str_eq_ne interface "*" not_any, str_eq_ne cidr "*" not_any', new, parsed)
              (Any-append (λ e. is_at interface cidr e ≡ true) es
                (manual_of a interface cidr b ∷ [])
                (inr (inl (rw (str_eq_self interface, str_eq_self cidr) refl))))
      ]

  add_all_manual-gets :
      (xs : List Item) (es : List Entry)
      → IsIn ((interface, cidr), a) xs
      → HasEntryAt interface cidr (add_all_manual xs es)
  unfolding add_all_manual
  add_all_manual-gets [] es is_in = absurd is_in
  add_all_manual-gets (x ∷ xs) es is_in = elim is_in [
    | inl here ↦ rw here (
        add_all_manual-keeps (λ e. is_at interface cidr e ≡ true) xs
          (add_manual ((interface, cidr), a) es) (add_manual-gets es))
    | inr there ↦ add_all_manual-gets xs (add_manual x es) there
  ]

module _ (anns : ByPrefix) (es : List Entry) where
  abbrev sorted : List Item
  sorted = sort_with stays_by_key anns

  abbrev own : List Entry
  own = filter (λ e. not (is_ignored anns e)) es

  abbrev result : List Entry
  result = add_all_manual sorted own

  all_kept : (e : Entry) → IsIn e es → is_ignored anns e ≡ false → IsIn e own
  all_kept e is_in kept =
      filter-Any (λ y. y ≡ e) (λ e. not (is_ignored anns e)) es
        (Any-weaken (λ y. y ≡ e) (λ y. (y ≡ e) × (not (is_ignored anns y) ≡ true))
          (λ y same. (same, rw (same, kept) refl)) es is_in)

  all_made :
      (interface cidr : String) (a : Annotation)
      → IsMaking interface cidr a
      → IsIn ((interface, cidr), a) anns
      → HasEntryAt interface cidr result
  all_made interface cidr a making is_in =
      add_all_manual-gets interface cidr a making sorted own
        (sort_with-Any stays_by_key (λ y. y ≡ ((interface, cidr), a)) anns is_in)

effective_entries_lem :
    (has_asset : Bool) (anns : ByPrefix) (es : List Entry)
    → (has_asset ≡ true) ⊎ (es ≢ [])
    → effective_entries has_asset anns es ≡ result anns es
unfolding effective_entries
effective_entries_lem has_asset anns [] known = elim known [
  | inl has ↦ rw has refl
  | inr none_is ↦ absurd (none_is refl)
]
effective_entries_lem has_asset anns (e ∷ es) known = refl

-- The annotation is not for making an entry, or an entry of its interface and prefix is there.
abbrev pub IsHeeded : List Entry → Item → Type 0
IsHeeded result ((interface, cidr), a) =
    (a.disposition ≢ some manual_entry)
    ⊎ (interface ≡ "*")
    ⊎ (cidr ≡ "*")
    ⊎ (parse_bounds cidr ≡ none)
    ⊎ HasEntryAt interface cidr result

All-IsHeeded : (anns : ByPrefix) (es : List Entry) → All (IsHeeded (result anns es)) anns
All-IsHeeded anns es =
    All-weaken (λ x. IsIn x anns) (IsHeeded (result anns es)) heeded anns (All-IsIn anns)
  where
    heeded : (x : Item) → IsIn x anns → IsHeeded (result anns es) x
    heeded ((interface, cidr), a) is_in =
        elim (Bool-cases (is_disposed a.disposition manual_entry)) [
          | inr other ↦ inl (λ e. ground (arith, other, e))
          | inl by_hand ↦ inr (elim (Bool-cases (str_eq interface "*")) [
            | inl any_interface ↦ inl ((str_eq_iff interface "*").0 any_interface)
            | inr one ↦ inr (elim (Bool-cases (str_eq cidr "*")) [
              | inl any_prefix ↦ inl ((str_eq_iff cidr "*").0 any_prefix)
              | inr prefix ↦ inr (elim (Option-cases (parse_bounds cidr)) [
                | inl no_bounds ↦ inl no_bounds
                | inr bounds ↦ inr (
                    all_made anns es interface cidr a
                      (
                        by_hand,
                        (λ e. absurd (ground (arith, str_eq_iff interface "*"))),
                        (λ e. absurd (ground (arith, str_eq_iff cidr "*"))),
                        bounds,
                      )
                      is_in)
              ])
            ])
          ])
        ]

-- The entries are the gateway's own that are kept, none of them ignored and all that are not, and after
-- them those that are made.
abbrev pub IsEffective : ByPrefix → List Entry → List Entry → Type 0
IsEffective anns es result =
    (kept : List Entry) × Extends anns kept result
    × All (λ e. IsIn e es × ¬ IsIgnored anns e) kept
    × All (λ e. IsIgnored anns e ⊎ IsIn e kept) es
    × All (IsHeeded result) anns

-- For a gateway with an entry or an asset: the effective entries are its own entries that no annotation
-- of their prefix ignores, all of them, and after these entries made from annotations by hand. Each of
-- the latter has the interface and the prefix of such an annotation, which are no wildcards, the bounds
-- of this prefix and the zone of the annotation, and no entry before it has both the interface and the
-- prefix. Each annotation by hand for an interface and a prefix that is parsed has an effective entry
-- with both.
pub effective_entries-IsEffective :
    (has_asset : Bool) (anns : ByPrefix) (es : List Entry)
    → (has_asset ≡ true) ⊎ (es ≢ [])
    → IsEffective anns es (effective_entries has_asset anns es)
effective_entries-IsEffective has_asset anns es known =
    rw (effective_entries_lem has_asset anns es known) (
      own anns es,
      add_all_manual-Extends anns (sorted anns es) (own anns es)
          (sort_with-All stays_by_key (λ x. IsIn x anns) anns (All-IsIn anns)),
      All-weaken (λ e. IsIn e es × (not (is_ignored anns e) ≡ true))
          (λ e. IsIn e es × ¬ IsIgnored anns e)
          (λ e (is_in, kept).
            (is_in, λ ignored. ground (arith, kept, IsIgnored-is_ignored anns e ignored)))
          (own anns es)
          (filter-All (λ e. IsIn e es) (λ e. not (is_ignored anns e)) es (All-IsIn es)),
      All-weaken (λ e. IsIn e es) (λ e. IsIgnored anns e ⊎ IsIn e (own anns es))
          (λ e is_in. elim (Bool-cases (is_ignored anns e)) [
            | inl ignored ↦ inl (is_ignored-IsIgnored anns e ignored)
            | inr kept ↦ inr (all_kept anns es e is_in kept)
          ])
          es (All-IsIn es),
      All-IsHeeded anns es,
    )
