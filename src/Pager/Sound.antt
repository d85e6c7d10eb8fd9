-- ===== src/Pager/Sound.antt =====
-- What a listing holds that `paginate_objects` returns, and how its rounds go on.
use arodonata.Common.{
  ℕ, suc, String, true, false, some, List, [], ◌∷◌, ◌++◌, ◌≡◌, ◌≢◌, ◌⊎◌, inl, inr, refl,
  str_eq_self, Bool-cases, All, arith,
}
use arodonata.Common.Json.{Value, get}
use arodonata.Tasks.{contains}
use arodonata.Pager.{
  Discontinuity, discontinuity, bad_number, Collected, Turn, stop, Number, missing, number,
  unreadable, add_item, collect, differs, check, item_identity, text_of, is_unreadable,
}

-- No two values share a text `uid`.
abbrev pub OtherUid : Value → Value → Type 0
OtherUid v w = (u : String) → text_of (get "uid" v) ≡ some u → text_of (get "uid" w) ≢ some u

abbrev pub UniqueUids : List Value → Type 0
UniqueUids [] = Unit {0}
UniqueUids (v ∷ vs) = All (OtherUid v) vs × UniqueUids vs

UniqueUids-append :
    (vs : List Value) (w : Value)
    → UniqueUids vs
    → All (λ v. OtherUid v w) vs
    → UniqueUids (vs ++ w ∷ [])
UniqueUids-append [] w h other = (tt, tt)
UniqueUids-append (v ∷ vs) w h other = (All-last vs h.0, UniqueUids-append vs w h.1 other.1)
  where
    All-last : (xs : List Value) → All (OtherUid v) xs → All (OtherUid v) (xs ++ w ∷ [])
    All-last [] k = (other.0, tt)
    All-last (x ∷ xs) k = (k.0, All-last xs k.1)

-- The uid of a collected item was seen.
abbrev Seen : List String → Value → Type 0
Seen seen v = (u : String) → text_of (get "uid" v) ≡ some u → contains u seen ≡ true

-- What holds of what is collected, after every item.
abbrev pub IsDistinct : Collected → Type 0
IsDistinct c = UniqueUids c.items × All (Seen c.seen) c.items

identity-uid :
    (show : Value → String) (item : Value) (idx : ℕ) (u : String)
    → text_of (get "uid" item) ≡ some u
    → item_identity show item idx ≡ u
unfolding item_identity
identity-uid show item idx u h = rw (h, item_identity) refl

contains-there :
    (s t : String) (ts : List String) → contains s ts ≡ true → contains s (t ∷ ts) ≡ true
unfolding contains
contains-there s t ts h = ground arith

contains-here : (s : String) (ts : List String) → contains s (s ∷ ts) ≡ true
unfolding contains
contains-here s ts = ground (arith, str_eq_self s)

Seen-more :
    (t : String) (seen : List String) (vs : List Value)
    → All (Seen seen) vs
    → All (Seen (t ∷ seen)) vs
Seen-more t seen [] h = tt
Seen-more t seen (v ∷ vs) h = ((λ u e. contains-there u t seen (h.0 u e)), Seen-more t seen vs h.1)

Seen-last :
    (seen : List String) (vs : List Value) (w : Value)
    → All (Seen seen) vs
    → Seen seen w
    → All (Seen seen) (vs ++ w ∷ [])
Seen-last seen [] w h k = (k, tt)
Seen-last seen (v ∷ vs) w h k = (h.0, Seen-last seen vs w h.1 k)

Seen-other :
    (seen : List String) (w : Value) (vs : List Value)
    → ((u : String) → text_of (get "uid" w) ≡ some u → contains u seen ≡ false)
    → All (Seen seen) vs
    → All (λ v. OtherUid v w) vs
Seen-other seen w [] fresh h = tt
Seen-other seen w (v ∷ vs) fresh h =
    ((λ u e f. ground (arith, fresh u f, h.0 u e)), Seen-other seen w vs fresh h.1)

add_item-IsDistinct :
    (show : Value → String) (idx : ℕ) (item : Value) (c : Collected)
    → IsDistinct c
    → IsDistinct (add_item show idx item c)
unfolding add_item
add_item-IsDistinct show idx item c h =
    elim (Bool-cases (contains (item_identity show item idx) c.seen)) [
      | inl old ↦ rw old h
      | inr new ↦ rw new (
        UniqueUids-append c.items item h.0 (
            Seen-other c.seen item c.items (λ u e. rw (identity-uid show item idx u e) at new) h.1),
        Seen-last (item_identity show item idx ∷ c.seen) c.items item
            (Seen-more (item_identity show item idx) c.seen c.items h.1)
            (λ u e. rw (identity-uid show item idx u e) (contains-here u c.seen)),
      )
    ]

pub collect-IsDistinct :
    (show : Value → String) (idx : ℕ) (items : List Value) (c : Collected)
    → IsDistinct c
    → IsDistinct (collect show idx items c)
unfolding collect
collect-IsDistinct show idx [] c h = h
collect-IsDistinct show idx (item ∷ items) c h =
    collect-IsDistinct show (suc idx) items (add_item show idx item c)
      (add_item-IsDistinct show idx item c h)

-- A number in an answer is missing or as expected.
abbrev pub Agrees : Number → ℕ → Type 0
Agrees n expected = (n ≡ missing) ⊎ (n ≡ number expected)

differs-Agrees :
    (n : Number) (expected : ℕ)
    → is_unreadable n ≡ false
    → differs n expected ≡ false
    → Agrees n expected
unfolding is_unreadable differs
differs-Agrees missing e h k = inl refl
differs-Agrees (number m) e h k = let same : m ≡ e = ground arith in inr (rw same refl)
differs-Agrees unreadable e h k = cc

-- What holds of a check holds of the ends it may have, and of what follows it.
pub check-cases :
    (P : Turn → Type 0) (n : Number) (expected : ℕ) (reason : Discontinuity) (next : Turn)
    (calls : ℕ)
    → P (stop calls bad_number)
    → P (stop calls (discontinuity reason))
    → (Agrees n expected → P next)
    → P (check n expected reason next calls)
unfolding check
check-cases P n expected reason next calls raised gap goes_on =
    elim (Bool-cases (is_unreadable n)) [
      | inl bad ↦ rw bad raised
      | inr fine ↦ elim (Bool-cases (differs n expected)) [
        | inl other ↦ rw (fine, other) gap
        | inr same ↦ rw (fine, same) (goes_on (differs-Agrees n expected fine same))
      ]
    ]
