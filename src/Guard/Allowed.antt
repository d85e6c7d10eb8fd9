-- ===== src/Guard/Allowed.antt =====
-- Which hosts and origins pass.
use Prim.Native.String.{◌++◌ as append}
use arodonata.Common.{
  String, true, ◌||◌, Option, none, some, List, [], ◌∷◌, ◌≡◌, ◌⊎◌, inl, inr, refl, str_eq,
  str_eq_iff, arith, Bool-cases, Option-cases,
}
use arodonata.Common.Text.{strip, lower}
use arodonata.Guard.Texts.{without_wildcard, after, without_wildcard-append, after-append}
use arodonata.Guard.{
  is_valid_port_suffix, matches_port, matches_wildcard, matches_entry, matches_any,
  host_matches_allowed, origin_matches_allowed, passes, OriginGuard, HttpRequest, check_origin,
}

-- An entry permits everything, or itself, or, if it ends with ":*", what stands before that, alone or
-- with a port.
abbrev pub IsPermitted : String → String → Type 0
IsPermitted clean entry =
    (entry ≡ "*")
    ⊎ ((clean ≡ entry)
        ⊎ ((base : String) × (entry ≡ append base ":*")
            × ((clean ≡ base)
                ⊎ ((port : String) × (clean ≡ append (append base ":") port)
                    × (is_valid_port_suffix port ≡ true)))))

-- Some entry permits the text.
abbrev pub IsAllowed : String → List String → Type 0
IsAllowed clean [] = ⊥
IsAllowed clean (a ∷ more) = IsPermitted clean (lower (strip a)) ⊎ IsAllowed clean more

matches_wildcard-base :
    (clean base : String)
    → matches_wildcard clean (some base) ≡ true
    → (clean ≡ base)
      ⊎ ((port : String) × (clean ≡ append (append base ":") port)
          × (is_valid_port_suffix port ≡ true))
unfolding matches_wildcard matches_port
matches_wildcard-base clean base h = elim (Bool-cases (str_eq clean base)) [
  | inl same ↦ inl ((str_eq_iff clean base).0 same)
  | inr other ↦ elim (Option-cases (after (append base ":") clean)) [
    | inl absent ↦ absurd (ground arith)
    | inr (port, follows) ↦
        inr (port, after-append (append base ":") clean port follows, ground arith)
  ]
]

matches_entry-IsPermitted :
    (clean entry : String) → matches_entry clean entry ≡ true → IsPermitted clean entry
unfolding matches_entry
matches_entry-IsPermitted clean entry h = elim (Bool-cases (str_eq entry "*")) [
  | inl all ↦ inl ((str_eq_iff entry "*").0 all)
  | inr not_all ↦ elim (Bool-cases (str_eq clean entry)) [
    | inl same ↦ inr (inl ((str_eq_iff clean entry).0 same))
    | inr other ↦ elim (Option-cases (without_wildcard entry)) [
      | inl plain ↦ absurd (unfold matches_wildcard in ground arith)
      | inr (base, wild) ↦
          let there : matches_wildcard clean (without_wildcard entry) ≡ true = ground arith in
          inr (
            inr (
              base,
              without_wildcard-append entry base wild,
              matches_wildcard-base clean base (rw wild at there),
            ))
    ]
  ]
]

matches_any-IsAllowed :
    (clean : String) (allowed : List String)
    → matches_any clean allowed ≡ true
    → IsAllowed clean allowed
unfolding matches_any
matches_any-IsAllowed clean [] h = cc
matches_any-IsAllowed clean (a ∷ more) h =
    elim (Bool-cases (matches_entry clean (lower (strip a)))) [
      | inl here ↦ inl (matches_entry-IsPermitted clean (lower (strip a)) here)
      | inr other ↦ inr (matches_any-IsAllowed clean more (ground arith))
    ]

host-IsAllowed :
    (host : Option String) (allowed : List String)
    → host_matches_allowed host allowed ≡ true
    → (h : String) × (host ≡ some h) × IsAllowed (lower (strip h)) allowed
unfolding host_matches_allowed
host-IsAllowed none allowed h = cc
host-IsAllowed (some host) allowed h =
    (host, refl, matches_any-IsAllowed (lower (strip host)) allowed (ground arith))

origin-IsAllowed :
    (origin : Option String) (allowed : List String) (o : String)
    → origin_matches_allowed origin allowed ≡ true
    → origin ≡ some o
    → (strip o ≡ "") ⊎ IsAllowed (lower (strip o)) allowed
unfolding origin_matches_allowed
origin-IsAllowed none allowed o h e = cc
origin-IsAllowed (some origin) allowed o h e =
    let same : origin ≡ o = ground arith in
    elim (Bool-cases (str_eq (strip o) "")) [
      | inl blank ↦ inl ((str_eq_iff (strip o) "").0 blank)
      | inr full ↦
          let there : (str_eq (strip o) "" || matches_any (lower (strip o)) allowed) ≡ true =
            rw same at h in
          inr (matches_any-IsAllowed (lower (strip o)) allowed (ground arith))
    ]

-- An HTTP request that passes an enabled guard has a host that some allowed host permits, and no
-- origin, a blank one, or one that some allowed origin permits.
pub check_origin-IsAllowed :
    (g : OriginGuard) (r : HttpRequest)
    → r.is_http ≡ true
    → g.enabled ≡ true
    → check_origin g r ≡ passes
    → ((h : String) × (r.host ≡ some h) × IsAllowed (lower (strip h)) g.allowed_hosts)
      × ((o : String)
          → r.origin ≡ some o
          → (strip o ≡ "") ⊎ IsAllowed (lower (strip o)) g.allowed_origins)
unfolding check_origin
check_origin-IsAllowed g r http enabled h = (
  host-IsAllowed r.host g.allowed_hosts (ground arith),
  λ o e. origin-IsAllowed r.origin g.allowed_origins o (ground arith) e,
)
