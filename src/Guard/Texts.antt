-- ===== src/Guard/Texts.antt =====
-- The ends and beginnings of texts that mcp/security.py cuts off.
use Prim.Native.Char.{Char, code}
use Prim.Native.String.{◌++◌ as append}
use text.Mathlib.TextLemmas.{nil-append, cons-append}
use text.Mathlib.TextEquality.{Char-path}
use arodonata.Common.{
  String, Option, none, some, ◌≡◌, inl, inr, sym, ap, ◌∙◌, if◌then◌else◌, ◌==◌, str_eq, str_eq_iff,
  arith, Bool-cases, Option-cases,
}

pub prepend : Char → Option String → Option String
prepend c none = none
prepend c (some s) = some (String.◌∷◌ c s)

-- `allowed[:-2]` of a text that ends with ":*".
unfoldable pub without_wildcard : String → Option String
unfolding prepend
without_wildcard String.[] = none
without_wildcard (String.◌∷◌ c s) =
    let rest = without_wildcard s in
    if str_eq (String.◌∷◌ c s) ":*" then some "" else prepend c rest

-- What follows a text that another one starts with.
unfoldable pub after : String → String → Option String
after String.[] s = some s
after (String.◌∷◌ c p) String.[] = none
after (String.◌∷◌ c p) (String.◌∷◌ d s) =
    let rest = after p s in if code c == code d then rest else none

-- `split(" ", 1)`, if it gives two parts.
pub prepend_first : Char → Option (String × String) → Option (String × String)
prepend_first c none = none
prepend_first c (some (s, t)) = some (String.◌∷◌ c s, t)

unfoldable pub split_space : String → Option (String × String)
unfolding prepend_first
split_space String.[] = none
split_space (String.◌∷◌ c s) =
    let rest = split_space s in if code c == 32 then some ("", s) else prepend_first c rest

pub without_wildcard-append : (s b : String) → without_wildcard s ≡ some b → s ≡ append b ":*"
unfolding without_wildcard prepend
without_wildcard-append String.[] b h = cc
without_wildcard-append (String.◌∷◌ c s) b h = elim (Bool-cases (str_eq (String.◌∷◌ c s) ":*")) [
  | inl all ↦
      let e : "" ≡ b = ground arith in
      rw (sym e) ((str_eq_iff (String.◌∷◌ c s) ":*").0 all ∙ sym (nil-append ":*"))
  | inr longer ↦ elim (Option-cases (without_wildcard s)) [
    | inl absent ↦ absurd (ground arith)
    | inr (b', rest) ↦
        let e : String.◌∷◌ c b' ≡ b = ground arith in
        rw (sym e)
          (ap (String.◌∷◌ c) (without_wildcard-append s b' rest) ∙ sym (cons-append c b' ":*"))
  ]
]

pub after-append : (p s r : String) → after p s ≡ some r → s ≡ append p r
unfolding after
after-append String.[] s r h = let e : s ≡ r = ground arith in e ∙ sym (nil-append r)
after-append (String.◌∷◌ c p) String.[] r h = cc
after-append (String.◌∷◌ c p) (String.◌∷◌ d s) r h = elim (Bool-cases (code c == code d)) [
  | inr other ↦ absurd (ground arith)
  | inl same ↦
      let e : d ≡ c = Char-path d c (ground arith) in
      let rest : s ≡ append p r = after-append p s r (ground arith) in
      rw (e, rest) (sym (cons-append c p r))
]
