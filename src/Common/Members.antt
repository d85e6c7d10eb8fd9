-- ===== src/Common/Members.antt =====
-- What holds of all or some elements of a list, and of the lists made from it.
use mathlib.Core.Path.{◌≡◌, refl}
use mathlib.Core.Logic.{◌⊎◌, inl, inr}
use mathlib.Core.Bool.{Bool, true}
use mathlib.Core.List.{List, [], ◌∷◌, ◌++◌, map}
use mathlib.Core.Option.{some}
use native.Mathlib.Omega.{arith}
use arodonata.Common.Tests.{Bool-cases}
use arodonata.Common.Lists.{All, Any, filter, head}

module _ {ℓ} {A : Type ℓ} where
  module _ (P Q : A → Type 0) (f : (x : A) → P x → Q x) where
    pub All-weaken : (xs : List A) → All P xs → All Q xs
    All-weaken [] h = tt
    All-weaken (x ∷ xs) h = (f x h.0, All-weaken xs h.1)

    pub Any-weaken : (xs : List A) → Any P xs → Any Q xs
    Any-weaken [] h = h
    Any-weaken (x ∷ xs) h = elim h [ inl p ↦ inl (f x p) | inr r ↦ inr (Any-weaken xs r) ]

  module _ (P : A → Type 0) where
    pub All-tabulate : ((x : A) → P x) → (xs : List A) → All P xs
    All-tabulate f [] = tt
    All-tabulate f (x ∷ xs) = (f x, All-tabulate f xs)

    pub All-append : (xs ys : List A) → All P xs → All P ys → All P (xs ++ ys)
    All-append [] ys h k = k
    All-append (x ∷ xs) ys h k = (h.0, All-append xs ys h.1 k)

    pub Any-append : (xs ys : List A) → Any P xs ⊎ Any P ys → Any P (xs ++ ys)
    Any-append [] ys h = elim h [ inl none_there ↦ absurd none_there | inr k ↦ k ]
    Any-append (x ∷ xs) ys h = elim h [
      | inl there ↦ elim there [ inl p ↦ inl p | inr r ↦ inr (Any-append xs ys (inl r)) ]
      | inr k ↦ inr (Any-append xs ys (inr k))
    ]

    pub filter-All :
        (test : A → Bool) (xs : List A)
        → All P xs
        → All (λ x. P x × (test x ≡ true)) (filter test xs)
    filter-All test [] h = tt
    filter-All test (x ∷ xs) h = elim (Bool-cases (test x)) [
      | inl kept ↦ rw kept ((h.0, kept), filter-All test xs h.1)
      | inr dropped ↦ rw dropped (filter-All test xs h.1)
    ]

    pub filter-Any :
        (test : A → Bool) (xs : List A)
        → Any (λ x. P x × (test x ≡ true)) xs
        → Any P (filter test xs)
    filter-Any test [] h = h
    filter-Any test (x ∷ xs) h = elim (Bool-cases (test x)) [
      | inl kept ↦ rw kept (elim h [ inl p ↦ inl p.0 | inr r ↦ inr (filter-Any test xs r) ])
      | inr dropped ↦
          rw dropped
            (elim h [ inl p ↦ absurd (ground (arith, p.1)) | inr r ↦ filter-Any test xs r ])
    ]

    pub Any-filter :
        (test : A → Bool) (xs : List A)
        → Any P (filter test xs)
        → Any (λ x. P x × (test x ≡ true)) xs
    Any-filter test [] h = h
    Any-filter test (x ∷ xs) h = elim (Bool-cases (test x)) [
      | inl kept ↦
          let there : P x ⊎ Any P (filter test xs) = rw kept at h in
          elim there [ inl p ↦ inl (p, kept) | inr r ↦ inr (Any-filter test xs r) ]
      | inr dropped ↦ inr (Any-filter test xs (rw dropped at h))
    ]

  -- An element that has both properties.
  pub All-Any : (P Q : A → Type 0) (xs : List A) → All P xs → Any Q xs → Any (λ x. P x × Q x) xs
  All-Any P Q [] h k = k
  All-Any P Q (x ∷ xs) h k = elim k [ inl q ↦ inl (h.0, q) | inr r ↦ inr (All-Any P Q xs h.1 r) ]

  pub All-head : (P : A → Type 0) (xs : List A) (x : A) → All P xs → head xs ≡ some x → P x
  All-head P [] x h e = cc
  All-head P (y ∷ ys) x h e = let same : y ≡ x = cc in rw (← same) (h.0)

module _ {A : Type 0} where
  abbrev pub IsIn : A → List A → Type 0
  IsIn x ys = Any (λ y. y ≡ x) ys

  pub All-IsIn : (xs : List A) → All (λ x. IsIn x xs) xs
  All-IsIn [] = tt
  All-IsIn (x ∷ xs) = (
    inl refl,
    All-weaken (λ y. IsIn y xs) (λ y. IsIn y (x ∷ xs)) (λ y there. inr there) xs (All-IsIn xs),
  )

module _ {A B : Type 0} (f : A → B) where
  pub map-All : (P : B → Type 0) (xs : List A) → All (λ x. P (f x)) xs → All P (map f xs)
  map-All P [] h = tt
  map-All P (x ∷ xs) h = (h.0, map-All P xs h.1)

  pub map-Any : (P : B → Type 0) (xs : List A) → Any (λ x. P (f x)) xs → Any P (map f xs)
  map-Any P [] h = h
  map-Any P (x ∷ xs) h = elim h [ inl p ↦ inl p | inr r ↦ inr (map-Any P xs r) ]

  pub Any-map : (P : B → Type 0) (xs : List A) → Any P (map f xs) → Any (λ x. P (f x)) xs
  Any-map P [] h = h
  Any-map P (x ∷ xs) h = elim h [ inl p ↦ inl p | inr r ↦ inr (Any-map P xs r) ]
