-- ===== src/Matching/Canonical/Same.antt =====
-- The canonical form forgets the order and the repetitions of references.
use arodonata.Common.{
  String, true, false, not, ◌&&◌, List, [], ◌∷◌, ◌≡◌, inl, inr, refl, sym, ◌∙◌, str_eq, str_eq_iff,
  str_eq_self, All, arith, Bool-cases,
}
use arodonata.Tasks.{contains}
use arodonata.Matching.Texts.{before, before_irrefl, before_trans, before_total}
use arodonata.Matching.Canonical.{from_keys, insert_text, sort_texts, is_any, all_any, canonical}

-- The lists have the same members.
abbrev pub SameMembers : List String → List String → Type 0
SameMembers xs ys = (u : String) → contains u xs ≡ contains u ys

abbrev IsSorted : List String → Type 0
IsSorted [] = Unit {0}
IsSorted (x ∷ xs) = All (λ y. before x y ≡ true) xs × IsSorted xs

-- No member of a list that all come after a text is that text.
contains-after :
    (u : String) (ys : List String) → All (λ y. before u y ≡ true) ys → contains u ys ≡ false
unfolding contains
contains-after u [] h = refl
contains-after u (y ∷ ys) h = elim (Bool-cases (str_eq y u)) [
  | inl same ↦ absurd (ground (arith, rw ((str_eq_iff y u).0 same) at h.0, before_irrefl u))
  | inr other ↦ ground (arith, contains-after u ys h.1)
]

All-contains :
    (P : String → Type 0) (u : String) (ys : List String) → All P ys → contains u ys ≡ true → P u
unfolding contains
All-contains P u [] h k = cc
All-contains P u (y ∷ ys) h k = elim (Bool-cases (str_eq y u)) [
  | inl same ↦ rw ((str_eq_iff y u).0 same) at h.0
  | inr other ↦ All-contains P u ys h.1 (ground arith)
]

contains-head : (x : String) (xs : List String) → contains x (x ∷ xs) ≡ true
unfolding contains
contains-head x xs = ground (arith, str_eq_self x)

contains-tail :
    (u x : String) (xs : List String) → str_eq x u ≡ false → contains u (x ∷ xs) ≡ contains u xs
unfolding contains
contains-tail u x xs h = rw h refl

-- Two sorted lists with the same members are equal.
head-same :
    (x y : String) (xs ys : List String)
    → IsSorted (x ∷ xs)
    → IsSorted (y ∷ ys)
    → SameMembers (x ∷ xs) (y ∷ ys)
    → x ≡ y
head-same x y xs ys hx hy same = elim (Bool-cases (str_eq x y)) [
  | inl e ↦ (str_eq_iff x y).0 e
  | inr other ↦
      let back : str_eq y x ≡ false = ground (arith, str_eq_iff x y, str_eq_iff y x) in
      let x_in : contains x ys ≡ true =
        sym (contains-tail x y ys back) ∙ sym (same x) ∙ contains-head x xs in
      let y_in : contains y xs ≡ true =
        sym (contains-tail y x xs other) ∙ same y ∙ contains-head y ys in
      let xy = All-contains (λ z. before x z ≡ true) y xs hx.0 y_in in
      let yx = All-contains (λ z. before y z ≡ true) x ys hy.0 x_in in
      absurd (ground (arith, before_trans x y x xy yx, before_irrefl x))
]

sorted_unique : (xs ys : List String) → IsSorted xs → IsSorted ys → SameMembers xs ys → xs ≡ ys
sorted_unique [] [] hx hy same = refl
sorted_unique [] (y ∷ ys) hx hy same =
    absurd (unfold contains in ground (arith, same y, contains-head y ys))
sorted_unique (x ∷ xs) [] hx hy same =
    absurd (unfold contains in ground (arith, same x, contains-head x xs))
sorted_unique (x ∷ xs) (y ∷ ys) hx hy same =
    let e : x ≡ y = head-same x y xs ys hx hy same in
    rw (e, sorted_unique xs ys hx.1 hy.1 (rest e)) refl
  where
    rest : x ≡ y → SameMembers xs ys
    rest e u = elim (Bool-cases (str_eq x u)) [
      | inl here ↦
          let same_x : x ≡ u = (str_eq_iff x u).0 here in
          (rw same_x at (contains-after x xs hx.0))
          ∙ sym (rw (sym e ∙ same_x) at (contains-after y ys hy.0))
      | inr there ↦ sym (contains-tail u x xs there) ∙ same u ∙ contains-tail u y ys (rw e at there)
    ]

insert_text-members :
    (u x : String) (ys : List String) → contains u (insert_text x ys) ≡ contains u (x ∷ ys)
unfolding insert_text contains
insert_text-members u x [] = refl
insert_text-members u x (y ∷ ys) = elim (Bool-cases (before y x)) [
  | inl later ↦ rw later (ground (arith, insert_text-members u x ys))
  | inr first ↦ rw first refl
]

sort_texts-members : (u : String) (xs : List String) → contains u (sort_texts xs) ≡ contains u xs
unfolding sort_texts contains
sort_texts-members u [] = refl
sort_texts-members u (x ∷ xs) =
    ground (arith, insert_text-members u x (sort_texts xs), sort_texts-members u xs)

All-insert :
    (P : String → Type 0) (x : String) (ys : List String)
    → P x
    → All P ys
    → All P (insert_text x ys)
unfolding insert_text
All-insert P x [] here h = (here, tt)
All-insert P x (y ∷ ys) here h = elim (Bool-cases (before y x)) [
  | inl later ↦ rw later (h.0, All-insert P x ys here h.1)
  | inr first ↦ rw first (here, h)
]

All-weaken :
    (x y : String) (zs : List String)
    → before x y ≡ true
    → All (λ z. before y z ≡ true) zs
    → All (λ z. before x z ≡ true) zs
All-weaken x y [] h k = tt
All-weaken x y (z ∷ zs) h k = (before_trans x y z h k.0, All-weaken x y zs h k.1)

insert_text-IsSorted :
    (x : String) (ys : List String)
    → contains x ys ≡ false
    → IsSorted ys
    → IsSorted (insert_text x ys)
unfolding insert_text contains
insert_text-IsSorted x [] new h = (tt, tt)
insert_text-IsSorted x (y ∷ ys) new h = elim (Bool-cases (before y x)) [
  | inl later ↦ rw later (
    All-insert (λ z. before y z ≡ true) x ys later h.0,
    insert_text-IsSorted x ys (ground arith) h.1,
  )
  | inr first ↦ elim (Bool-cases (before x y)) [
    | inl earlier ↦ rw first ((earlier, All-weaken x y ys earlier h.0), h)
    | inr level ↦ absurd (ground (arith, before_total y x first level, str_eq_iff y x))
  ]
]

abbrev IsDistinct : List String → Type 0
IsDistinct [] = Unit {0}
IsDistinct (x ∷ xs) = (contains x xs ≡ false) × IsDistinct xs

sort_texts-IsSorted : (xs : List String) → IsDistinct xs → IsSorted (sort_texts xs)
unfolding sort_texts
sort_texts-IsSorted [] h = tt
sort_texts-IsSorted (x ∷ xs) h =
    insert_text-IsSorted x (sort_texts xs) (sort_texts-members x xs ∙ h.0)
      (sort_texts-IsSorted xs h.1)

from_keys-members :
    (u : String) (seen xs : List String)
    → contains u (from_keys seen xs) ≡ (contains u xs && not (contains u seen))
unfolding from_keys contains
from_keys-members u seen [] = refl
from_keys-members u seen (x ∷ xs) = elim (Bool-cases (contains x seen)) [
  | inl old ↦ elim (Bool-cases (str_eq x u)) [
    | inl same ↦
        let e : x ≡ u = (str_eq_iff x u).0 same in
        let old_u : contains u seen ≡ true = rw e at old in
        rw old (from_keys-members u seen xs ∙ ground arith)
    | inr other ↦ rw (old, other) (from_keys-members u seen xs)
  ]
  | inr new ↦ elim (Bool-cases (str_eq x u)) [
    | inl same ↦
        let e : x ≡ u = (str_eq_iff x u).0 same in
        let new_u : contains u seen ≡ false = rw e at new in rw (new, same) (ground arith)
    | inr other ↦ rw (new, other) (from_keys-members u (x ∷ seen) xs ∙ ground arith)
  ]
]

from_keys-IsDistinct : (seen xs : List String) → IsDistinct (from_keys seen xs)
unfolding from_keys
from_keys-IsDistinct seen [] = tt
from_keys-IsDistinct seen (x ∷ xs) = elim (Bool-cases (contains x seen)) [
  | inl old ↦ rw old (from_keys-IsDistinct seen xs)
  | inr new ↦ rw new (
    from_keys-members x (x ∷ seen) xs ∙ ground (arith, contains-head x seen),
    from_keys-IsDistinct (x ∷ seen) xs,
  )
]

all_any-member :
    (u : String) (xs : List String) → all_any xs ≡ true → contains u xs ≡ true → is_any u ≡ true
unfolding all_any contains
all_any-member u [] h k = cc
all_any-member u (x ∷ xs) h k = elim (Bool-cases (str_eq x u)) [
  | inl same ↦
      let e : x ≡ u = (str_eq_iff x u).0 same in
      let first : is_any x ≡ true = ground arith in rw e at first
  | inr other ↦ all_any-member u xs (ground arith) (ground arith)
]

all_any-from :
    (xs : List String) → ((u : String) → contains u xs ≡ true → is_any u ≡ true) → all_any xs ≡ true
unfolding all_any contains
all_any-from [] h = refl
all_any-from (x ∷ xs) h =
    let rest : all_any xs ≡ true = all_any-from xs (λ u k. h u (ground arith)) in
    ground (arith, rest, h x (contains-head x xs))

all_any-same : (xs ys : List String) → SameMembers xs ys → all_any xs ≡ all_any ys
all_any-same xs ys same = elim (Bool-cases (all_any xs)) [
  | inl all ↦ all ∙ sym (all_any-from ys (λ u k. all_any-member u xs all (same u ∙ k)))
  | inr some_not ↦ elim (Bool-cases (all_any ys)) [
    | inr also ↦ some_not ∙ sym also
    | inl all ↦
        absurd (ground (arith, all_any-from xs (λ u k. all_any-member u ys all (sym (same u) ∙ k))))
  ]
]

-- The normalised form of a list of references depends only on which references the list has: neither
-- their order nor their repetition counts.
pub canonical-same : (xs ys : List String) → SameMembers xs ys → canonical xs ≡ canonical ys
unfolding canonical
canonical-same xs ys same = rw (all_any-same xs ys same, sorted) refl
  where
    members : SameMembers (sort_texts (from_keys [] xs)) (sort_texts (from_keys [] ys))
    members u =
        sort_texts-members u (from_keys [] xs)
        ∙ from_keys-members u [] xs
        ∙ (rw (same u) refl)
        ∙ sym (sort_texts-members u (from_keys [] ys) ∙ from_keys-members u [] ys)

    sorted : sort_texts (from_keys [] xs) ≡ sort_texts (from_keys [] ys)
    sorted =
        sorted_unique _ _ (sort_texts-IsSorted (from_keys [] xs) (from_keys-IsDistinct [] xs))
          (sort_texts-IsSorted (from_keys [] ys) (from_keys-IsDistinct [] ys)) members
