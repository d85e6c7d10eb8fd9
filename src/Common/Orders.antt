-- ===== src/Common/Orders.antt =====
-- Orders by keys: what `list.sort` relies on, and orders by one key after another.

use Prim.Native.Char.{code}
use Prim.Native.String.{String}
use mathlib.Core.Path.{sym, subst, ◌≡◌, refl}
use mathlib.Core.Logic.{inl, inr}
use mathlib.Core.Bool.{Bool, true, false, not, ◌&&◌, ◌||◌}
use mathlib.Core.List.Perm
use mathlib.Core.List.{◌∷◌, [], Perm, List}
use native.Mathlib.Omega.{arith}
use text.Mathlib.Text.{◌==◌ as str_eq}
use text.Mathlib.TextEquality.{eq_iff, Char-path}
use arodonata.Common.Lists.{filter}
use arodonata.Common.Members.{All-weaken, filter-All}
use arodonata.Common.Tests.{if◌then◌else◌, ltb, Bool-cases, str_eq_self}
use arodonata.Common.Sorting.{insert_with, str_ltb, sort_with, IsOrdered, sort_with-IsOrdered}

-- "Is below" of keys: of two elements one at most is below the other, and what is not below is not below
-- along a chain.
pub record IsWeakOrder {ℓ} {A : Type ℓ} (lt : A → A → Bool) : Type ℓ where
  pub asym : (x y : A) → lt x y ≡ true → lt y x ≡ false
  pub chain : (x y z : A) → lt x y ≡ false → lt y z ≡ false → lt x z ≡ false

pub ltb-IsWeakOrder : IsWeakOrder ltb
ltb-IsWeakOrder = record {
  asym = λ x y h. ground (arith, h);
  chain = λ x y z h k. ground (arith, h, k);
}

-- `False` is below `True`.
abbrev pub bool_ltb : Bool → Bool → Bool
bool_ltb a b = not a && b

pub bool_ltb-IsWeakOrder : IsWeakOrder bool_ltb
bool_ltb-IsWeakOrder = record {
  asym = λ x y h. ground (arith, h);
  chain = λ x y z h k. ground (arith, h, k);
}

str_ltb-asym : (s t : String) → str_ltb s t ≡ true → str_ltb t s ≡ false
unfolding str_ltb
str_ltb-asym s String.[] h = ground (arith, h)
str_ltb-asym String.[] (String.◌∷◌ d t) h = refl
str_ltb-asym (String.◌∷◌ c s) (String.◌∷◌ d t) h = ground (arith, h, str_ltb-asym s t)

str_ltb-chain : (s t u : String) → str_ltb s t ≡ false → str_ltb t u ≡ false → str_ltb s u ≡ false
unfolding str_ltb
str_ltb-chain s t String.[] h k = refl
str_ltb-chain s String.[] (String.◌∷◌ e u) h k = ground (arith, k)
str_ltb-chain String.[] (String.◌∷◌ d t) (String.◌∷◌ e u) h k = ground (arith, h)
str_ltb-chain (String.◌∷◌ c s) (String.◌∷◌ d t) (String.◌∷◌ e u) h k =
    ground (arith, h, k, str_ltb-chain s t u)

pub str_ltb-IsWeakOrder : IsWeakOrder str_ltb
str_ltb-IsWeakOrder = record { asym = str_ltb-asym; chain = str_ltb-chain }

str_ltb-path : (s t : String) → str_ltb s t ≡ false → str_ltb t s ≡ false → s ≡ t
unfolding str_ltb
str_ltb-path String.[] String.[] h k = refl
str_ltb-path String.[] (String.◌∷◌ d t) h k = absurd (ground (arith, h))
str_ltb-path (String.◌∷◌ c s) String.[] h k = absurd (ground (arith, k))
str_ltb-path (String.◌∷◌ c s) (String.◌∷◌ d t) h k =
    let same : code c ≡ code d = ground (arith, h, k) in
    let here = Char-path c d same in
    let there = str_ltb-path s t (ground (arith, h, k, same)) (ground (arith, h, k, same)) in
    λ i. String.◌∷◌ (here i) (there i)

-- Two texts are equal if neither is below the other.
pub str_eq-str_ltb : (s t : String) → str_eq s t ≡ (not (str_ltb s t) && not (str_ltb t s))
str_eq-str_ltb s t = elim (Bool-cases (str_eq s t)) [
  | inl same ↦
      let equal = (eq_iff s t).0 same in
      let one : str_ltb s t ≡ false = subst (λ u. str_ltb s u ≡ false) equal (irreflexive s) in
      let other : str_ltb t s ≡ false = subst (λ u. str_ltb u s ≡ false) equal (irreflexive s) in
      ground (arith, same, one, other)
  | inr apart ↦ elim (Bool-cases (str_ltb s t)) [
    | inl below ↦ ground (arith, apart, below)
    | inr no_below ↦ elim (Bool-cases (str_ltb t s)) [
      | inl above ↦ ground (arith, apart, above)
      | inr no_above ↦
          let equal = str_ltb-path s t no_below no_above in
          let same : str_eq s t ≡ true = subst (λ u. str_eq s u ≡ true) equal (str_eq_self s) in
          absurd (ground (arith, same, apart))
    ]
  ]
]
  where
    irreflexive : (u : String) → str_ltb u u ≡ false
    irreflexive u = ground (arith, str_ltb-asym u u)

module _ {ℓ} {A : Type ℓ} where
  -- By the first key, and by the second where the first is the same.
  abbrev pub then_by : (A → A → Bool) → (A → A → Bool) → A → A → Bool
  then_by first second x y = first x y || not (first y x) && second x y

  pub then_by-IsWeakOrder :
      (first second : A → A → Bool)
      → IsWeakOrder first
      → IsWeakOrder second
      → IsWeakOrder (then_by first second)
  then_by-IsWeakOrder first second v w = record {
    asym = λ x y h. ground (arith, h, v.asym x y, w.asym x y);
    chain = λ x y z h k.
        ground (arith, h, k, v.chain x y z, v.chain y z x, v.chain z x y, w.chain x y z);
  }

  -- By a key.
  abbrev pub by_key {κ} : {B : Type κ} → (A → B) → (B → B → Bool) → A → A → Bool
  by_key key lt x y = lt (key x) (key y)

  pub by_key-IsWeakOrder {κ} :
      {B : Type κ} (key : A → B) (lt : B → B → Bool) → IsWeakOrder lt → IsWeakOrder (by_key key lt)
  by_key-IsWeakOrder key lt v = record {
    asym = λ x y. v.asym (key x) (key y);
    chain = λ x y z. v.chain (key x) (key y) (key z);
  }

  -- Sorting by a test that says that what comes later is not below leaves nothing below what stands
  -- before it.
  pub sort_with-NotBelow :
      (stays lt : A → A → Bool)
      → IsWeakOrder lt
      → ((x y : A) → stays x y ≡ not (lt y x))
      → (xs : List A) → IsOrdered stays (λ x y. lt y x ≡ false) (sort_with stays xs)
  sort_with-NotBelow stays lt v same xs =
      sort_with-IsOrdered stays (λ x y. lt y x ≡ false) (λ x y z h k. v.chain z y x k h)
        (λ x y h. ground (arith, h, same x y)) (λ x y h. v.asym y x (ground (arith, h, same x y)))
        xs

module _ {ℓ} {A : Type ℓ} (stays : A → A → Bool) (p : A → Bool) where
  keep : A → List A → List A
  keep x xs = if p x then x ∷ xs else xs

  keep-Perm : (x : A) {xs ys : List A} → Perm xs ys → Perm (keep x xs) (keep x ys)
  unfolding keep
  keep-Perm x {xs} {ys} h = elim (Bool-cases (p x)) [
    | inl kept ↦ rw kept (Perm.cons x h)
    | inr dropped ↦ rw dropped h
  ]

  keep-swap : (x y : A) (xs : List A) → Perm (keep y (keep x xs)) (keep x (keep y xs))
  unfolding keep
  keep-swap x y xs = elim (Bool-cases (p x)) [
    | inl kept ↦ elim (Bool-cases (p y)) [
      | inl kept' ↦ rw (kept, kept') (Perm.swap x y xs)
      | inr dropped ↦ rw (kept, dropped) (Perm.refl (x ∷ xs))
    ]
    | inr dropped ↦ rw dropped (Perm.refl (if p y then y ∷ xs else xs))
  ]

  filter-keep : (x : A) (xs : List A) → filter p (x ∷ xs) ≡ keep x (filter p xs)
  unfolding keep
  filter-keep x xs = refl

  insert_with-filter :
      (x : A) (xs : List A) → Perm (filter p (insert_with stays x xs)) (keep x (filter p xs))
  unfolding insert_with
  insert_with-filter x [] = rw (← filter-keep x []) (Perm.refl (filter p (x ∷ [])))
  insert_with-filter x (y ∷ ys) = elim (Bool-cases (stays x y)) [
    | inl first ↦ rw (first, filter-keep x (y ∷ ys)) (Perm.refl (keep x (filter p (y ∷ ys))))
    | inr later ↦
        rw (later, filter-keep y (insert_with stays x ys), filter-keep y ys)
          (Perm.trans (keep-Perm y (insert_with-filter x ys)) (keep-swap x y (filter p ys)))
  ]

  -- What a test keeps of a sorted list is what it keeps of the list, in another order.
  pub sort_with-filter : (xs : List A) → Perm (filter p (sort_with stays xs)) (filter p xs)
  unfolding sort_with
  sort_with-filter [] = Perm.refl []
  sort_with-filter (x ∷ xs) = Perm.trans (insert_with-filter x (sort_with stays xs)) (
      subst (λ ys. Perm (keep x (filter p (sort_with stays xs))) ys) (sym (filter-keep x xs))
        (keep-Perm x (sort_with-filter xs)))

-- What a test keeps of an ordered list is ordered, also by what follows for the elements kept.
pub filter-IsOrdered {ℓ} :
    {A : Type ℓ} (p : A → Bool) (R S : A → A → Type 0)
    → ((x y : A) → p x ≡ true → p y ≡ true → R x y → S x y)
    → (xs : List A) → IsOrdered (λ (x : A) (y : A). true) R xs
    → IsOrdered (λ (x : A) (y : A). true) S (filter p xs)
filter-IsOrdered p R S follows [] h = tt
filter-IsOrdered p R S follows (x ∷ xs) h = elim (Bool-cases (p x)) [
  | inl kept ↦ rw kept (
    All-weaken (λ y. R x y × (p y ≡ true)) (S x) (λ y (r, kept'). follows x y kept kept' r)
        (filter p xs) (filter-All (R x) p xs h.0),
    filter-IsOrdered p R S follows xs h.1,
  )
  | inr dropped ↦ rw dropped (filter-IsOrdered p R S follows xs h.1)
]
