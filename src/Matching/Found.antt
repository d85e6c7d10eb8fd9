-- ===== src/Matching/Found.antt =====
-- Which rule `match_rule` finds, and what the traffic of a rule depends on.
use arodonata.Common.{
  String, Bool, true, false, ◌||◌, none, some, List, [], ◌∷◌, str_eq, str_eq_iff, ◌≡◌, ◌⊎◌, inl,
  inr, All, arith, Bool-cases, Option-cases,
}
use arodonata.Common.Text.{lower, strip}
use arodonata.Common.Json.{Value, Fields, Items, to_list, text_by}
use arodonata.Numbering.Entries.{RulebaseType, nat, same_type}
use arodonata.Matching.Canonical.Same.{SameMembers, canonical-same}
use arodonata.Matching.Sentinels.{normalize_refs, normalize_traffic_list}
use arodonata.Matching.{
  Rule, first, requested, number_value, has_number, is_skipped_cleanup, has_nat_traffic,
  has_access_traffic, match_traffic, match_unnamed, match_named, or_match, match_rule, is_missing,
  has_traffic_fields,
}

abbrev pub IsIn : Rule → List Rule → Type 0
IsIn r [] = ⊥
IsIn r (x ∷ xs) = (x ≡ r) ⊎ IsIn r xs

pub first-IsIn :
    (p : Rule → Bool) (rules : List Rule) (r : Rule)
    → first p rules ≡ some r
    → IsIn r rules × (p r ≡ true)
unfolding first
first-IsIn p [] r h = cc
first-IsIn p (x ∷ xs) r h = elim (Bool-cases (p x)) [
  | inl fits ↦ let same : x ≡ r = ground arith in (inl same, rw same at fits)
  | inr other ↦ let (there, fits) = first-IsIn p xs r (rw other at h) in (inr there, fits)
]

first-none :
    (p : Rule → Bool) (rules : List Rule) → first p rules ≡ none → All (λ r. p r ≡ false) rules
unfolding first
first-none p [] h = tt
first-none p (x ∷ xs) h = elim (Bool-cases (p x)) [
  | inl fits ↦ absurd (ground arith)
  | inr other ↦ (other, first-none p xs (rw other at h))
]

module _ (show : Value → String) (spec : Fields) (t : RulebaseType)
    (objects resolutions : Fields) where
  -- The traffic is compared by the type of the rulebase.
  abbrev pub HasTraffic : Rule → Type 0
  HasTraffic r =
      ((same_type t nat ≡ true) × (has_nat_traffic show spec t objects resolutions r ≡ true))
      ⊎ ((same_type t nat ≡ false) × (has_access_traffic show spec t objects resolutions r ≡ true))

  -- A requested number decides alone, and without one the traffic does.
  abbrev pub HasNumberOrTraffic : Rule → Type 0
  HasNumberOrTraffic r =
      let number = number_value show spec t objects resolutions in
      ((is_missing show spec t objects resolutions number ≡ false)
        × (has_number show spec t objects resolutions (strip (text_by show number)) r ≡ true))
      ⊎ ((is_missing show spec t objects resolutions number ≡ true) × HasTraffic r)

  -- By what a rule may be found: by its uid if one is requested, and else by its name, by its number, or,
  -- if no number is requested, by its traffic.
  abbrev pub IsMatch : Rule → Type 0
  IsMatch r =
      let uid = requested show spec t objects resolutions "uid" in
      let name = requested show spec t objects resolutions "name" in
      ((str_eq uid "" ≡ false) × (r.uid ≡ uid))
      ⊎ ((str_eq uid "" ≡ true)
          × (((str_eq name "" ≡ false) × (r.name ≡ name)) ⊎ HasNumberOrTraffic r))

  match_traffic-HasTraffic :
      (rules : List Rule) (r : Rule)
      → match_traffic show spec t objects resolutions rules ≡ some r
      → IsIn r rules × HasTraffic r
  unfolding match_traffic
  match_traffic-HasTraffic rules r h = elim (Bool-cases (same_type t nat)) [
    | inl is ↦ let (there, fits) = first-IsIn _ rules r (rw is at h) in (there, inl (is, fits))
    | inr other ↦
        elim (Bool-cases (
          str_eq (requested show spec t objects resolutions "name") ""
          || has_traffic_fields show spec t objects resolutions)) [
            | inl compares ↦
                let (there, fits) = first-IsIn _ rules r (rw (other, compares) at h) in
                (there, inr (other, fits))
            | inr skips ↦ absurd (ground arith)
          ]
  ]

  match_unnamed-IsIn :
      (rules : List Rule) (r : Rule)
      → match_unnamed show spec t objects resolutions rules ≡ some r
      → IsIn r rules × HasNumberOrTraffic r
  unfolding match_unnamed
  match_unnamed-IsIn rules r h =
      elim (Bool-cases (
        is_missing show spec t objects resolutions
          (number_value show spec t objects resolutions))) [
            | inl absent ↦
                let (there, fits) = match_traffic-HasTraffic rules r (rw absent at h) in
                (there, inr (absent, fits))
            | inr given ↦
                let (there, fits) = first-IsIn _ rules r (rw given at h) in
                (there, inl (given, fits))
          ]

  match_named-IsIn :
      (rules : List Rule) (r : Rule)
      → match_named show spec t objects resolutions rules ≡ some r
      → IsIn r rules
        × (str_eq (requested show spec t objects resolutions "name") "" ≡ false)
        × (r.name ≡ requested show spec t objects resolutions "name")
  unfolding match_named
  match_named-IsIn rules r h =
      elim (Bool-cases (str_eq (requested show spec t objects resolutions "name") "")) [
        | inl absent ↦ absurd (ground arith)
        | inr given ↦
            let (there, fits) = first-IsIn _ rules r (rw given at h) in
            (there, given, (str_eq_iff _ _).0 fits)
      ]

  -- A rule that is found is one of the rules, and has the requested uid; if none is requested, it has
  -- the requested name, or the requested number or, if that is missing, the desired traffic.
  pub match_rule-IsMatch :
      (rules : List Rule) (r : Rule)
      → match_rule show spec t objects resolutions rules ≡ some r
      → IsIn r rules × IsMatch r
  unfolding match_rule or_match
  match_rule-IsMatch rules r h =
      elim (Bool-cases (str_eq (requested show spec t objects resolutions "uid") "")) [
        | inr given ↦
            let (there, fits) = first-IsIn _ rules r (rw given at h) in
            (there, inl (given, (str_eq_iff _ _).0 fits))
        | inl absent ↦ elim (Option-cases (match_named show spec t objects resolutions rules)) [
          | inr (r', found) ↦
              let same : r' ≡ r = ground arith in
              let (there, given, named) = match_named-IsIn rules r (rw same at found) in
              (there, inr (absent, inl (given, named)))
          | inl unnamed ↦
              let (there, fits) = match_unnamed-IsIn rules r (rw (absent, unnamed) at h) in
              (there, inr (absent, inr fits))
        ]
      ]

  -- Traffic never finds a rule that is named "Cleanup rule", unless the desired rule has this name too.
  pub has_access_traffic-cleanup :
      (r : Rule)
      → has_access_traffic show spec t objects resolutions r ≡ true
      → str_eq (lower (strip r.name)) "cleanup rule" ≡ true
      → str_eq (lower (requested show spec t objects resolutions "name")) "cleanup rule" ≡ true
  unfolding has_access_traffic is_skipped_cleanup
  has_access_traffic-cleanup r h named = ground arith

-- The normalised form of a list of references depends only on which names they are normalised to: two
-- lists that give the same names are the same traffic, in whatever order and however often each is
-- repeated.
pub normalize_traffic_list-same :
    (show : Value → String) (objects resolutions : Fields) (vs ws : Items)
    → SameMembers
        (normalize_refs show objects resolutions (to_list vs))
        (normalize_refs show objects resolutions (to_list ws))
    → normalize_traffic_list show objects resolutions (Value.arr vs)
      ≡ normalize_traffic_list show objects resolutions (Value.arr ws)
unfolding normalize_traffic_list
normalize_traffic_list-same show objects resolutions vs ws same = canonical-same _ _ same
