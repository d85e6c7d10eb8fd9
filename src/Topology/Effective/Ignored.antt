-- ===== src/Topology/Effective/Ignored.antt =====
-- The entries that the annotations ignore, said on the annotations of their prefix.
use arodonata.Common.{
  ◌≡◌, ◌≢◌, refl, inl, inr, ◌⊎◌, String, true, false, Option, none, some, [], ◌∷◌, All, str_eq,
  str_eq_iff, str_eq_self, arith, Bool-cases, Option-cases, ◌&&◌, ap,
}
use arodonata.Topology.Entries.{
  Entry, Annotation, ByPrefix, Disposition, ignore, get_prefix, annotation_for,
}
use arodonata.Topology.Effective.{is_disposed, is_ignored}

-- The annotation is the first for an interface and a prefix.
abbrev pub IsFirst : String → String → ByPrefix → Annotation → Type 0
IsFirst interface cidr [] a = ⊥
IsFirst interface cidr (((i, c), b) ∷ rest) a =
    ((i ≡ interface) × (c ≡ cidr) × (b ≡ a))
    ⊎ (((i ≢ interface) ⊎ (c ≢ cidr)) × IsFirst interface cidr rest a)

-- No annotation is for an interface and a prefix.
abbrev pub HasNone : String → String → ByPrefix → Type 0
HasNone interface cidr anns = All (λ x. (x.0.0 ≢ interface) ⊎ (x.0.1 ≢ cidr)) anns

-- The annotation is for the prefix of the entry, on its interface, or on any if there is none for its
-- own.
abbrev pub Annotates : ByPrefix → Entry → Annotation → Type 0
Annotates anns e a =
    IsFirst e.interface_name e.cidr_or_range anns a
    ⊎ (HasNone e.interface_name e.cidr_or_range anns × IsFirst "*" e.cidr_or_range anns a)

-- The annotation for the entry says that it is to be ignored.
abbrev pub IsIgnored : ByPrefix → Entry → Type 0
IsIgnored anns e = (a : Annotation) × Annotates anns e a × (a.disposition ≡ some ignore)

module _ (interface cidr : String) where
  is_key-false :
      (i c : String) → (str_eq i interface && str_eq c cidr) ≡ false → (i ≢ interface) ⊎ (c ≢ cidr)
  is_key-false i c h = elim (Bool-cases (str_eq i interface)) [
    | inr other ↦ inl (λ e. ground (arith, other, str_eq_iff i interface, e))
    | inl same ↦ inr (λ e. ground (arith, same, h, str_eq_iff c cidr, e))
  ]

  false-is_key :
      (i c : String) → (i ≢ interface) ⊎ (c ≢ cidr) → (str_eq i interface && str_eq c cidr) ≡ false
  false-is_key i c h = elim (Bool-cases (str_eq i interface && str_eq c cidr)) [
    | inr other ↦ other
    | inl same ↦ absurd (elim h [
      | inl p ↦ p ((str_eq_iff i interface).0 (ground (arith, same)))
      | inr p ↦ p ((str_eq_iff c cidr).0 (ground (arith, same)))
    ])
  ]

  get_prefix-HasNone :
      (anns : ByPrefix) → get_prefix interface cidr anns ≡ none → HasNone interface cidr anns
  unfolding get_prefix
  get_prefix-HasNone [] h = tt
  get_prefix-HasNone (((i, c), b) ∷ rest) h =
      elim (Bool-cases (str_eq i interface && str_eq c cidr)) [
        | inl here ↦ absurd (ground (arith, h, here))
        | inr there ↦
            (is_key-false i c there, get_prefix-HasNone rest (rw (get_prefix, there) at h))
      ]

  get_prefix-IsFirst :
      (anns : ByPrefix) (a : Annotation)
      → get_prefix interface cidr anns ≡ some a
      → IsFirst interface cidr anns a
  unfolding get_prefix
  get_prefix-IsFirst [] a h = cc
  get_prefix-IsFirst (((i, c), b) ∷ rest) a h =
      elim (Bool-cases (str_eq i interface && str_eq c cidr)) [
        | inl here ↦ inl (
          (str_eq_iff i interface).0 (ground (arith, here)),
          (str_eq_iff c cidr).0 (ground (arith, here)),
          ground (arith, h, here),
        )
        | inr there ↦
            inr (is_key-false i c there, get_prefix-IsFirst rest a (rw (get_prefix, there) at h))
      ]

  IsFirst-get_prefix :
      (anns : ByPrefix) (a : Annotation)
      → IsFirst interface cidr anns a
      → get_prefix interface cidr anns ≡ some a
  unfolding get_prefix
  IsFirst-get_prefix [] a h = absurd h
  IsFirst-get_prefix (((i, c), b) ∷ rest) a h = elim h [
    | inl (p, q, same) ↦ rw (p, q, str_eq_self interface, str_eq_self cidr) (ap (λ x. some x) same)
    | inr (other, later) ↦ rw (false-is_key i c other) (IsFirst-get_prefix rest a later)
  ]

  HasNone-get_prefix :
      (anns : ByPrefix) → HasNone interface cidr anns → get_prefix interface cidr anns ≡ none
  unfolding get_prefix
  HasNone-get_prefix [] h = refl
  HasNone-get_prefix (((i, c), b) ∷ rest) h =
      rw (false-is_key i c h.0) (HasNone-get_prefix rest h.1)

annotation_for-Annotates :
    (anns : ByPrefix) (e : Entry) (a : Annotation)
    → annotation_for anns e.interface_name e.cidr_or_range ≡ some a
    → Annotates anns e a
unfolding annotation_for
annotation_for-Annotates anns e a h =
    elim (Option-cases (get_prefix e.interface_name e.cidr_or_range anns)) [
      | inr (b, found) ↦
          inl
            (get_prefix-IsFirst e.interface_name e.cidr_or_range anns a (ground (arith, h, found)))
      | inl absent ↦ inr (
        get_prefix-HasNone e.interface_name e.cidr_or_range anns absent,
        get_prefix-IsFirst "*" e.cidr_or_range anns a (ground (arith, h, absent)),
      )
    ]

Annotates-annotation_for :
    (anns : ByPrefix) (e : Entry) (a : Annotation)
    → Annotates anns e a
    → annotation_for anns e.interface_name e.cidr_or_range ≡ some a
unfolding annotation_for
Annotates-annotation_for anns e a h = elim h [
  | inl first ↦ ground (arith, IsFirst-get_prefix e.interface_name e.cidr_or_range anns a first)
  | inr (absent, any) ↦ ground (
    arith,
    HasNone-get_prefix e.interface_name e.cidr_or_range anns absent,
    IsFirst-get_prefix "*" e.cidr_or_range anns a any,
  )
]

-- A disposition is the one that is asked for.
pub is_disposed-some :
    (o : Option Disposition) (d : Disposition) → is_disposed o d ≡ true → o ≡ some d
is_disposed-some o d h = ground (arith, h)

pub is_ignored-IsIgnored :
    (anns : ByPrefix) (e : Entry) → is_ignored anns e ≡ true → IsIgnored anns e
unfolding is_ignored
is_ignored-IsIgnored anns e h =
    elim (Option-cases (annotation_for anns e.interface_name e.cidr_or_range)) [
      | inl absent ↦ absurd (ground (arith, h, absent))
      | inr (a, found) ↦ (
        a,
        annotation_for-Annotates anns e a found,
        is_disposed-some a.disposition ignore (ground (arith, h, found)),
      )
    ]

pub IsIgnored-is_ignored :
    (anns : ByPrefix) (e : Entry) → IsIgnored anns e → is_ignored anns e ≡ true
unfolding is_ignored
IsIgnored-is_ignored anns e (a, annotates, ignores) =
    ground (arith, Annotates-annotation_for anns e a annotates, ignores)
