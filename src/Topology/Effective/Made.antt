-- ===== src/Topology/Effective/Made.antt =====
-- The entries that the annotations by hand add, one after another.
use mathlib.Core.List.{append-nil, append_assoc}
use arodonata.Common.{
  ◌≡◌, ◌≢◌, refl, inl, inr, ◌⊎◌, String, true, false, Option, none, some, List, [], ◌∷◌, ◌++◌, any,
  All, str_eq, str_eq_iff, arith, Bool-cases, sym, ap, subst, ◌∙◌, ◌&&◌, ◌==◌,
}
use arodonata.Common.Members.{IsIn, All-append}
use arodonata.Topology.Addresses.{Bounds, parse_bounds}
use arodonata.Topology.Entries.{
  Entry, Annotation, ByPrefix, manual_entry, manual, Zone, internal, external,
}
use arodonata.Topology.Effective.{
  is_at, manual_of, adds_entry, add_bounds, add_manual, add_all_manual, zone_for,
}
use arodonata.Topology.Effective.Ignored.{is_disposed-some}

abbrev pub Item : Type 0
Item = (String × String) × Annotation

-- The zone that the annotation gives, or by default external for the default route and internal else.
abbrev pub IsZoned : Option Zone → Entry → Type 0
IsZoned (some z) e = e.topology_zone ≡ z
IsZoned none e =
    ((e.prefix_len ≡ 0) × (e.ip_first ≡ 0) × (e.topology_zone ≡ external))
    ⊎ (((e.prefix_len ≢ 0) ⊎ (e.ip_first ≢ 0)) × (e.topology_zone ≡ internal))

-- The entry is made from an annotation by hand for its interface and its prefix, which both are no
-- wildcards, with the bounds of the prefix and the zone of the annotation.
abbrev pub IsMade : ByPrefix → Entry → Type 0
IsMade anns e =
    (a : Annotation) × IsIn ((e.interface_name, e.cidr_or_range), a) anns
    × (a.disposition ≡ some manual_entry)
    × (e.interface_name ≢ "*")
    × (e.cidr_or_range ≢ "*")
    × (parse_bounds e.cidr_or_range ≡ some (e.ip_first, e.ip_last, e.prefix_len))
    × (e.source_type ≡ manual)
    × IsZoned a.topology_zone e

-- No entry is at the place of one that was there before it.
abbrev pub AreNew : List Entry → List Entry → Type 0
AreNew before [] = Unit
AreNew before (e ∷ more) =
    All (λ d. (d.interface_name ≢ e.interface_name) ⊎ (d.cidr_or_range ≢ e.cidr_or_range)) before
    × AreNew (before ++ e ∷ []) more

-- The list is another one and the entries made after it, at new places.
abbrev pub Extends : ByPrefix → List Entry → List Entry → Type 0
Extends anns before after =
    (made : List Entry) × (after ≡ before ++ made) × All (IsMade anns) made × AreNew before made

zone_for-IsZoned :
    (z : Option Zone) (e : Entry)
    → e.topology_zone ≡ zone_for z e.ip_first e.prefix_len
    → IsZoned z e
unfolding zone_for
zone_for-IsZoned (some z) e h = h
zone_for-IsZoned none e h = elim (Bool-cases (e.prefix_len == 0 && e.ip_first == 0)) [
  | inl default ↦ inl (ground (arith, default), ground (arith, default), ground (arith, h, default))
  | inr other ↦ inr (
    elim (Bool-cases (e.prefix_len == 0)) [
      | inl zero_len ↦ inr (λ q. ground (arith, zero_len, other, q))
      | inr longer ↦ inl (λ q. ground (arith, longer, q))
    ],
    ground (arith, h, other),
  )
]

any-new :
    (interface cidr : String) (es : List Entry)
    → any (is_at interface cidr) es ≡ false
    → All (λ d. (d.interface_name ≢ interface) ⊎ (d.cidr_or_range ≢ cidr)) es
any-new interface cidr [] h = tt
any-new interface cidr (d ∷ es) h = (
  elim (Bool-cases (str_eq d.interface_name interface)) [
    | inr other ↦ inl (λ q. ground (arith, other, str_eq_iff d.interface_name interface, q))
    | inl same ↦ inr (λ q. ground (arith, same, h, str_eq_iff d.cidr_or_range cidr, q))
  ],
  any-new interface cidr es (ground (arith, h)),
)

AreNew-append :
    (before m n : List Entry) → AreNew before m → AreNew (before ++ m) n → AreNew before (m ++ n)
AreNew-append before [] n h k = subst (λ xs. AreNew xs n) (append-nil before) k
AreNew-append before (e ∷ m) n h k = (
  h.0,
  AreNew-append (before ++ e ∷ []) m n h.1
      (subst (λ xs. AreNew xs n) (sym (append_assoc before (e ∷ []) m)) k),
)

module _ (anns : ByPrefix) where
  Extends-refl : (es : List Entry) → Extends anns es es
  Extends-refl es = ([], sym (append-nil es), tt, tt)

  Extends-trans :
      (xs ys zs : List Entry) → Extends anns xs ys → Extends anns ys zs → Extends anns xs zs
  Extends-trans xs ys zs (m, same, made, new) (n, same', made', new') = (
    m ++ n,
    same' ∙ ap (λ es. es ++ n) same ∙ append_assoc xs m n,
    All-append (IsMade anns) m n made made',
    AreNew-append xs m n new (subst (λ es. AreNew es n) same new'),
  )

  add_bounds-Extends :
      (interface cidr : String) (a : Annotation) (o : Option Bounds) (es : List Entry)
      → IsIn ((interface, cidr), a) anns
      → adds_entry interface cidr a es ≡ true
      → parse_bounds cidr ≡ o
      → Extends anns es (add_bounds interface cidr a o es)
  unfolding add_bounds adds_entry manual_of
  add_bounds-Extends interface cidr a none es is_in adds parsed = Extends-refl es
  add_bounds-Extends interface cidr a (some (lo, hi, p)) es is_in adds parsed =
      let e = manual_of a interface cidr (lo, hi, p) in
      (
        e ∷ [],
        refl,
        (
          (
            a,
            is_in,
            is_disposed-some a.disposition manual_entry (ground (arith, adds)),
            (λ q. ground (arith, adds, str_eq_iff interface "*", q)),
            (λ q. ground (arith, adds, str_eq_iff cidr "*", q)),
            parsed,
            refl,
            zone_for-IsZoned a.topology_zone e refl,
          ),
          tt,
        ),
        (any-new interface cidr es (ground (arith, adds)), tt),
      )

  add_manual-Extends :
      (x : Item) (es : List Entry) → IsIn x anns → Extends anns es (add_manual x es)
  unfolding add_manual
  add_manual-Extends ((interface, cidr), a) es is_in =
      elim (Bool-cases (adds_entry interface cidr a es)) [
        | inr no_entry ↦ rw no_entry (Extends-refl es)
        | inl adds ↦
            rw adds (add_bounds-Extends interface cidr a (parse_bounds cidr) es is_in adds refl)
      ]

  pub add_all_manual-Extends :
      (xs : List Item) (es : List Entry)
      → All (λ x. IsIn x anns) xs
      → Extends anns es (add_all_manual xs es)
  unfolding add_all_manual
  add_all_manual-Extends [] es are_in = Extends-refl es
  add_all_manual-Extends (x ∷ xs) es are_in =
      Extends-trans es (add_manual x es) (add_all_manual xs (add_manual x es))
        (add_manual-Extends x es are_in.0) (add_all_manual-Extends xs (add_manual x es) are_in.1)
