-- ===== src/Differ/Tags.antt =====
-- The tags of a difference are stripped, sorted, and stay as they are when that is done again.
use arodonata.Common.{
  String, true, false, List, [], ◌∷◌, str_eq, str_eq_self, ◌≡◌, inl, inr, refl, ap, ◌∙◌, All, arith,
  Bool-cases,
}
use arodonata.Common.Text.{strip}
use arodonata.Common.Text.Stripped.{strip_idem}
use arodonata.Matching.Texts.{before, before_irrefl, before_trans, before_total}
use arodonata.Differ.{insert_tag, sort_tags, nonblank, clean_tags, same_list}

-- Stripped, and not blank.
abbrev IsClean : String → Type 0
IsClean t = (strip t ≡ t) × (str_eq t "" ≡ false)

clean_tags-clean : (ts : List String) → All IsClean ts → clean_tags ts ≡ ts
unfolding clean_tags nonblank
clean_tags-clean [] h = refl
clean_tags-clean (t ∷ ts) ((stripped, full), h) = rw (stripped, full, clean_tags-clean ts h) refl

All-IsClean : (ts : List String) → All IsClean (clean_tags ts)
unfolding clean_tags nonblank
All-IsClean [] = tt
All-IsClean (t ∷ ts) = elim (Bool-cases (str_eq (strip t) "")) [
  | inl blank ↦ rw blank (All-IsClean ts)
  | inr full ↦ rw full ((strip_idem t, full), All-IsClean ts)
]

insert_tag-All :
    (P : String → Type 0) (x : String) (ys : List String) → P x → All P ys → All P (insert_tag x ys)
unfolding insert_tag
insert_tag-All P x [] here h = (here, tt)
insert_tag-All P x (y ∷ ys) here h = elim (Bool-cases (before y x)) [
  | inl later ↦ rw later (h.0, insert_tag-All P x ys here h.1)
  | inr first ↦ rw first (here, h)
]

sort_tags-All : (P : String → Type 0) (xs : List String) → All P xs → All P (sort_tags xs)
unfolding sort_tags
sort_tags-All P [] h = tt
sort_tags-All P (x ∷ xs) h = insert_tag-All P x (sort_tags xs) h.0 (sort_tags-All P xs h.1)

-- Nothing in the list comes before the text.
abbrev IsLeast : String → List String → Type 0
IsLeast x ys = All (λ y. before y x ≡ false) ys

abbrev IsSorted : List String → Type 0
IsSorted [] = Unit {0}
IsSorted (x ∷ xs) = IsLeast x xs × IsSorted xs

not_before : (x y z : String) → before z y ≡ false → before y x ≡ false → before z x ≡ false
not_before x y z zy yx = elim (Bool-cases (before z x)) [
  | inr later ↦ later
  | inl earlier ↦ elim (Bool-cases (before x y)) [
    | inl xy ↦ absurd (ground (arith, before_trans z x y earlier xy))
    | inr level ↦ let e : y ≡ x = before_total y x yx level in absurd (ground (arith, rw e at zy))
  ]
]

IsLeast-more : (x y : String) (ys : List String) → before y x ≡ false → IsLeast y ys → IsLeast x ys
IsLeast-more x y [] yx h = tt
IsLeast-more x y (z ∷ ys) yx h = (not_before x y z h.0 yx, IsLeast-more x y ys yx h.1)

before_asym : (x y : String) → before y x ≡ true → before x y ≡ false
before_asym x y yx = elim (Bool-cases (before x y)) [
  | inr level ↦ level
  | inl xy ↦ absurd (ground (arith, before_trans x y x xy yx, before_irrefl x))
]

insert_tag-IsSorted : (x : String) (ys : List String) → IsSorted ys → IsSorted (insert_tag x ys)
unfolding insert_tag
insert_tag-IsSorted x [] h = (tt, tt)
insert_tag-IsSorted x (y ∷ ys) h = elim (Bool-cases (before y x)) [
  | inl later ↦ rw later (
    insert_tag-All (λ z. before z y ≡ false) x ys (before_asym x y later) h.0,
    insert_tag-IsSorted x ys h.1,
  )
  | inr first ↦ rw first ((first, IsLeast-more x y ys first h.0), h)
]

sort_tags-IsSorted : (xs : List String) → IsSorted (sort_tags xs)
unfolding sort_tags
sort_tags-IsSorted [] = tt
sort_tags-IsSorted (x ∷ xs) = insert_tag-IsSorted x (sort_tags xs) (sort_tags-IsSorted xs)

insert_tag-first : (x : String) (ys : List String) → IsLeast x ys → insert_tag x ys ≡ x ∷ ys
unfolding insert_tag
insert_tag-first x [] h = refl
insert_tag-first x (y ∷ ys) h = rw h.0 refl

sort_tags-sorted : (xs : List String) → IsSorted xs → sort_tags xs ≡ xs
unfolding sort_tags
sort_tags-sorted [] h = refl
sort_tags-sorted (x ∷ xs) h =
    ap (insert_tag x) (sort_tags-sorted xs h.1) ∙ insert_tag-first x xs h.0

pub tags_idem :
    (ts : List String)
    → sort_tags (clean_tags (sort_tags (clean_tags ts))) ≡ sort_tags (clean_tags ts)
tags_idem ts =
    ap sort_tags (
      clean_tags-clean (sort_tags (clean_tags ts))
        (sort_tags-All IsClean (clean_tags ts) (All-IsClean ts)))
    ∙ sort_tags-sorted (sort_tags (clean_tags ts)) (sort_tags-IsSorted (clean_tags ts))

pub same_list_self : (xs : List String) → same_list xs xs ≡ true
unfolding same_list
same_list_self [] = refl
same_list_self (x ∷ xs) = ground (arith, same_list_self xs, str_eq_self x)
