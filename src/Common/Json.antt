-- ===== src/Common/Json.antt =====
-- The values that the Check Point API answers with, as `json.loads` gives them. Numbers are the
-- natural ones: the fields that the modelled code reads as numbers are counts and percentages.
use Prim.Native.Nat.{ℕ, zero, suc}
use Prim.Native.String.{String}
use mathlib.Core.Bool.{Bool, true, false}
use mathlib.Core.List.{List, [], ◌∷◌}
use text.Mathlib.Text.{◌==◌ as str_eq}
use text.Mathlib.TextEquality.{eq_iff as str_eq_iff}
use mathlib.Core.Path.{◌≡◌, refl}
use mathlib.Core.Logic.{inl, inr}
use native.Mathlib.Omega.{arith}
use arodonata.Common.Tests.{if◌then◌else◌, Bool-cases, str_eq_self}

mutual
  pub data Value : Type 0 where
    str : String → Value
    num : ℕ → Value
    bool : Bool → Value
    null : Value
    obj : Fields → Value
    arr : Items → Value

  pub data Fields : Type 0 where
    field : String → Value → Fields → Fields
    end : Fields

  pub data Items : Type 0 where
    cons : Value → Items → Items
    nil : Items

-- `d.get(key)` and `key in d` on a dictionary; on any other value nothing is found.
unfoldable pub find : String → Fields → Value
find key end = null
find key (field k v fs) = if str_eq k key then v else find key fs

unfoldable pub get : String → Value → Value
unfolding find
get key (obj fs) = find key fs
get key _ = null

unfoldable pub has_field : String → Fields → Bool
has_field key end = false
has_field key (field k v fs) = if str_eq k key then true else has_field key fs

unfoldable pub has : String → Value → Bool
unfolding has_field
has key (obj fs) = has_field key fs
has key _ = false

unfoldable pub to_list : Items → List Value
to_list nil = []
to_list (cons v vs) = v ∷ to_list vs

-- The elements of a list value.
unfoldable pub elements : Value → List Value
unfolding to_list
elements (arr vs) = to_list vs
elements _ = []

abbrev pub is_dict : Value → Bool
is_dict (obj fs) = true
is_dict _ = false

-- What `if value:` tests.
unfoldable pub is_truthy : Value → Bool
is_truthy null = false
is_truthy (bool b) = b
is_truthy (num zero) = false
is_truthy (num (suc n)) = true
is_truthy (str s) = if str_eq s "" then false else true
is_truthy (arr nil) = false
is_truthy (arr (cons v vs)) = true
is_truthy (obj end) = false
is_truthy (obj (field k v fs)) = true

-- `d[key] = v`.
unfoldable pub put : String → Value → Fields → Fields
put key v end = field key v end
put key v (field k w fs) =
    let rest = put key v fs in if str_eq k key then field k v fs else field k w rest

pub find-put : (key : String) (v : Value) (fs : Fields) → find key (put key v fs) ≡ v
unfolding find put
find-put key v end = ground (arith, str_eq_self key)
find-put key v (field k w fs) = ground (arith, find-put key v fs)

pub find-put-other :
    (key other : String) (v : Value) (fs : Fields)
    → str_eq key other ≡ false
    → find other (put key v fs) ≡ find other fs
unfolding find put
find-put-other key other v end h = ground arith
find-put-other key other v (field k w fs) h = elim (Bool-cases (str_eq k key)) [
  | inl here ↦
      let same : k ≡ key = (str_eq_iff k key).0 here in
      let away : str_eq k other ≡ false = rw same h in rw (here, away) refl
  | inr there ↦ ground (arith, find-put-other key other v fs h)
]

-- What `str` gives of a value; of one that is not a text, `show` does.
abbrev pub text_by : (Value → String) → Value → String
text_by show (str s) = s
text_by show v = show v
