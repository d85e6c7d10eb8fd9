-- ===== src/Common/Sorting.antt =====
-- `list.sort` and `min` with a key, and the orders that their keys are built from.
use Prim.Native.Char.{code}
use Prim.Native.String.{String}
use mathlib.Core.Path.{◌≡◌}
use mathlib.Core.Logic.{◌⊎◌, inl, inr}
use mathlib.Core.Bool.{Bool, true, false, ◌&&◌, ◌||◌}
use mathlib.Core.List.{List, [], ◌∷◌}
use arodonata.Common.Tests.{ltb, ◌==◌, if◌then◌else◌, Bool-cases}
use arodonata.Common.Lists.{All, Any}

-- Python's `<` on texts.
unfoldable pub str_ltb : String → String → Bool
str_ltb s String.[] = false
str_ltb String.[] (String.◌∷◌ d t) = true
str_ltb (String.◌∷◌ c s) (String.◌∷◌ d t) =
    let rest = str_ltb s t in ltb (code c) (code d) || code c == code d && rest

-- `stays x y` says that the key of `y` is not below that of `x`, so that `x`, which came first, stays
-- before `y`.
module _ {ℓ} {A : Type ℓ} (stays : A → A → Bool) where
  unfoldable pub insert_with : A → List A → List A
  insert_with x [] = x ∷ []
  insert_with x (y ∷ ys) = let rest = insert_with x ys in if stays x y then x ∷ y ∷ ys else y ∷ rest

  unfoldable pub sort_with : List A → List A
  unfolding insert_with
  sort_with [] = []
  sort_with (x ∷ xs) = insert_with x (sort_with xs)

  -- `min`: the first of the elements with the least key.
  unfoldable pub least_with : A → List A → A
  least_with best [] = best
  least_with best (x ∷ xs) = least_with (if stays best x then best else x) xs

  module _ (P : A → Type 0) where
    insert_with-All : (x : A) (xs : List A) → P x → All P xs → All P (insert_with x xs)
    unfolding insert_with
    insert_with-All x [] p h = (p, tt)
    insert_with-All x (y ∷ ys) p h = elim (Bool-cases (stays x y)) [
      | inl first ↦ rw first (p, h)
      | inr later ↦ rw later (h.0, insert_with-All x ys p h.1)
    ]

    pub sort_with-All : (xs : List A) → All P xs → All P (sort_with xs)
    unfolding sort_with
    sort_with-All [] h = tt
    sort_with-All (x ∷ xs) h = insert_with-All x (sort_with xs) h.0 (sort_with-All xs h.1)

    insert_with-Any : (x : A) (xs : List A) → P x ⊎ Any P xs → Any P (insert_with x xs)
    unfolding insert_with
    insert_with-Any x [] h = h
    insert_with-Any x (y ∷ ys) h = elim (Bool-cases (stays x y)) [
      | inl first ↦ rw first h
      | inr later ↦ rw later (elim h [
        | inl p ↦ inr (insert_with-Any x ys (inl p))
        | inr rest ↦ elim rest [ inl q ↦ inl q | inr r ↦ inr (insert_with-Any x ys (inr r)) ]
      ])
    ]

    Any-insert_with : (x : A) (xs : List A) → Any P (insert_with x xs) → P x ⊎ Any P xs
    unfolding insert_with
    Any-insert_with x [] h = h
    Any-insert_with x (y ∷ ys) h = elim (Bool-cases (stays x y)) [
      | inl first ↦ rw first at h
      | inr later ↦
          let there : P y ⊎ Any P (insert_with x ys) = rw later at h in
          elim there [
            | inl q ↦ inr (inl q)
            | inr r ↦ elim (Any-insert_with x ys r) [ inl p ↦ inl p | inr s ↦ inr (inr s) ]
          ]
    ]

    pub sort_with-Any : (xs : List A) → Any P xs → Any P (sort_with xs)
    unfolding sort_with
    sort_with-Any [] h = h
    sort_with-Any (x ∷ xs) h =
        insert_with-Any x (sort_with xs)
          (elim h [ inl p ↦ inl p | inr r ↦ inr (sort_with-Any xs r) ])

    pub Any-sort_with : (xs : List A) → Any P (sort_with xs) → Any P xs
    unfolding sort_with
    Any-sort_with [] h = h
    Any-sort_with (x ∷ xs) h = elim (Any-insert_with x (sort_with xs) h) [
      | inl p ↦ inl p
      | inr r ↦ inr (Any-sort_with xs r)
    ]

    pub least_with-P : (best : A) (xs : List A) → P best → All P xs → P (least_with best xs)
    unfolding least_with
    least_with-P best [] p h = p
    least_with-P best (x ∷ xs) p h = elim (Bool-cases (stays best x)) [
      | inl kept ↦ rw kept (least_with-P best xs p h.1)
      | inr better ↦ rw better (least_with-P x xs h.0 h.1)
    ]

  -- Each element stands in the relation to all that follow it.
  module _ (R : A → A → Type 0) where
    abbrev pub IsOrdered : List A → Type 0
    IsOrdered [] = Unit
    IsOrdered (x ∷ xs) = All (R x) xs × IsOrdered xs

    module _ (trans : (x y z : A) → R x y → R y z → R x z)
        (before : (x y : A) → stays x y ≡ true → R x y)
        (after : (x y : A) → stays x y ≡ false → R y x) where
      raise : (x y : A) (ys : List A) → R x y → All (R y) ys → All (R x) ys
      raise x y [] r h = tt
      raise x y (z ∷ zs) r h = (trans x y z r h.0, raise x y zs r h.1)

      insert_with-IsOrdered : (x : A) (xs : List A) → IsOrdered xs → IsOrdered (insert_with x xs)
      unfolding insert_with
      insert_with-IsOrdered x [] h = (tt, tt)
      insert_with-IsOrdered x (y ∷ ys) h = elim (Bool-cases (stays x y)) [
        | inl first ↦ rw first ((before x y first, raise x y ys (before x y first) h.0), h)
        | inr later ↦
            rw later
              (insert_with-All (R y) x ys (after x y later) h.0, insert_with-IsOrdered x ys h.1)
      ]

      pub sort_with-IsOrdered : (xs : List A) → IsOrdered (sort_with xs)
      unfolding sort_with
      sort_with-IsOrdered [] = tt
      sort_with-IsOrdered (x ∷ xs) = insert_with-IsOrdered x (sort_with xs) (sort_with-IsOrdered xs)

      least_below : (b : A) (best : A) (xs : List A) → R best b → R (least_with best xs) b
      unfolding least_with
      least_below b best [] r = r
      least_below b best (x ∷ xs) r = elim (Bool-cases (stays best x)) [
        | inl kept ↦ rw kept (least_below b best xs r)
        | inr better ↦ rw better (least_below b x xs (trans x best b (after best x better) r))
      ]

      first_of_two :
          ((x : A) → R x x)
          → (best x : A)
          → R (if stays best x then best else x) best × R (if stays best x then best else x) x
      first_of_two self best x = elim (Bool-cases (stays best x)) [
        | inl kept ↦ rw kept (self best, before best x kept)
        | inr better ↦ rw better (after best x better, self x)
      ]

      -- The least element stands in the relation to all.
      pub least_with-IsLeast :
          ((x : A) → R x x) → (best : A) (xs : List A) → All (R (least_with best xs)) (best ∷ xs)
      unfolding least_with
      least_with-IsLeast self best [] = (self best, tt)
      least_with-IsLeast self best (x ∷ xs) =
          let new = if stays best x then best else x in
          let (to_best, to_x) = first_of_two self best x in
          (
            least_below best new xs to_best,
            (least_below x new xs to_x, (least_with-IsLeast self new xs).1),
          )
