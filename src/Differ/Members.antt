-- ===== src/Differ/Members.antt =====
-- The change of a group's members has the effect of the request, and is missing only if that has none.
use arodonata.Common.{
  String, Bool, true, false, not, ◌&&◌, ◌||◌, Option, none, some, List, [], ◌∷◌, str_eq, str_eq_iff,
  ◌≡◌, ◌⊎◌, inl, inr, refl, ◌∙◌, arith, Bool-cases,
}
use arodonata.Common.Json.{Value, Fields}
use arodonata.Tasks.{contains}
use arodonata.Differ.{
  is_subset, same_set, missing_from, present_in, MemberChange, replace, edit, is_empty_list,
  replaced, edited,
}

-- The members after some were added and some removed.
abbrev pub is_member_after : List String → List String → List String → String → Bool
is_member_after current adds removes u =
    (contains u current || contains u adds) && not (contains u removes)

-- The members after a change, which may be missing.
abbrev pub is_member_changed : List String → Option MemberChange → String → Bool
is_member_changed current none u = contains u current
is_member_changed current (some (replace members)) u = contains u members
is_member_changed current (some (edit adds removes)) u = is_member_after current adds removes u

missing_from-contains :
    (u : String) (ys xs : List String)
    → contains u (missing_from ys xs) ≡ (contains u xs && not (contains u ys))
unfolding missing_from contains
missing_from-contains u ys [] = refl
missing_from-contains u ys (x ∷ xs) = elim (Bool-cases (str_eq x u)) [
  | inl same ↦
      let e : x ≡ u = (str_eq_iff x u).0 same in
      elim (Bool-cases (contains u ys)) [
        | inl old ↦
            let old_x : contains x ys ≡ true = rw e old in
            rw old_x (missing_from-contains u ys xs ∙ ground arith)
        | inr new ↦ let new_x : contains x ys ≡ false = rw e new in rw (new_x, same) (ground arith)
      ]
  | inr other ↦ elim (Bool-cases (contains x ys)) [
    | inl old ↦ rw (old, other) (missing_from-contains u ys xs)
    | inr new ↦ rw (new, other) (missing_from-contains u ys xs)
  ]
]

present_in-contains :
    (u : String) (ys xs : List String)
    → contains u (present_in ys xs) ≡ (contains u xs && contains u ys)
unfolding present_in contains
present_in-contains u ys [] = refl
present_in-contains u ys (x ∷ xs) = elim (Bool-cases (str_eq x u)) [
  | inl same ↦
      let e : x ≡ u = (str_eq_iff x u).0 same in
      elim (Bool-cases (contains u ys)) [
        | inl old ↦ let old_x : contains x ys ≡ true = rw e old in rw (old_x, same) (ground arith)
        | inr new ↦
            let new_x : contains x ys ≡ false = rw e new in
            rw new_x (present_in-contains u ys xs ∙ ground arith)
      ]
  | inr other ↦ elim (Bool-cases (contains x ys)) [
    | inl old ↦ rw (old, other) (present_in-contains u ys xs)
    | inr new ↦ rw (new, other) (present_in-contains u ys xs)
  ]
]

empty-contains : (u : String) (xs : List String) → is_empty_list xs ≡ true → contains u xs ≡ false
unfolding is_empty_list contains
empty-contains u [] h = refl
empty-contains u (x ∷ xs) h = cc

-- If nothing is to be both added and removed, a change that adds only what is missing and removes only
-- what is there leaves the same members as the whole request would; and so does the group as it is, where
-- there is no change.
pub edited-members :
    (show : Value → String) (resolutions : Fields) (current to_add to_remove : List String)
    → ((u : String) → contains u to_add ≡ true → contains u to_remove ≡ false)
    → (u : String)
    → is_member_changed current (edited show resolutions current to_add to_remove) u
      ≡ is_member_after current to_add to_remove u
unfolding edited
edited-members show resolutions current to_add to_remove apart u =
    let adds = missing_from current to_add in
    let removes = present_in current to_remove in
    let added = missing_from-contains u current to_add in
    let removed = present_in-contains u current to_remove in
    elim (Bool-cases (is_empty_list adds && is_empty_list removes)) [
      | inl same ↦
          rw same (
            ground
              (arith, added, removed, empty-contains u adds, empty-contains u removes, apart u))
      | inr some_change ↦ rw (some_change, added, removed) (ground (arith, apart u))
    ]

is_subset-contains :
    (xs ys : List String) (u : String)
    → is_subset xs ys ≡ true
    → contains u xs ≡ true
    → contains u ys ≡ true
unfolding is_subset contains
is_subset-contains [] ys u h k = cc
is_subset-contains (x ∷ xs) ys u h k = elim (Bool-cases (str_eq x u)) [
  | inl same ↦
      let e : x ≡ u = (str_eq_iff x u).0 same in
      let there : contains x ys ≡ true = ground arith in rw e at there
  | inr other ↦ is_subset-contains xs ys u (ground arith) (ground arith)
]

same_set-contains :
    (xs ys : List String) → same_set xs ys ≡ true → (u : String) → contains u xs ≡ contains u ys
unfolding same_set
same_set-contains xs ys h u = ground (arith, is_subset-contains xs ys u, is_subset-contains ys xs u)

-- A list of members replaces the group's, or there is no change, and then the list has the same
-- members as the group, by their names or by their uids.
pub replaced-members :
    (show : Value → String) (resolutions : Fields) (names uids wanted : List String)
    → (replaced show resolutions names uids wanted ≡ some (replace wanted))
      ⊎ ((replaced show resolutions names uids wanted ≡ none)
          × (((u : String) → contains u wanted ≡ contains u names)
              ⊎ ((u : String) → contains u wanted ≡ contains u uids)))
unfolding replaced
replaced-members show resolutions names uids wanted = elim (Bool-cases (same_set wanted names)) [
  | inl by_name ↦ inr (rw by_name refl, inl (same_set-contains wanted names by_name))
  | inr other ↦ elim (Bool-cases (same_set wanted uids)) [
    | inl by_uid ↦ inr (rw (other, by_uid) refl, inr (same_set-contains wanted uids by_uid))
    | inr changed ↦ inl (rw (other, changed) refl)
  ]
]
