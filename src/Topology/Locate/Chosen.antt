-- ===== src/Topology/Locate/Chosen.antt =====
-- A query that an internal entry contains has one match, by the most specific of these entries.
use arodonata.Common.{
  ℕ, ◌+◌, ◌≤◌, ◌<◌, ◌⊎◌, if◌then◌else◌, ◌≡◌, refl, inl, inr, String, Bool, true, false, ◌&&◌, List,
  [], ◌∷◌, any, All, Any, str_eq, arith,
}
use arodonata.Common.Members.{IsIn, All-IsIn, All-weaken, filter-All, filter-Any, Any-weaken}
use arodonata.Common.Sorting.{IsOrdered, least_with-IsLeast}
use arodonata.Topology.Entries.{Entry, internal, is_internal, overlaps, contains}
use arodonata.Topology.Scores.{
  View, Group, members, is_preferred, stays_best, score_interface_group,
}
use arodonata.Topology.Locate.{
  Endpoint, InterfaceMatch, Scored, scored, stays_first, first_scored, internal_match,
  containing_entries,
}
use arodonata.Topology.Locate.Placed.{zone_of_internal}
use arodonata.Topology.Locate.Grouped.{IsOn, HasMember, IsGroup, best-IsOn}

-- The entry contains the query.
abbrev pub Surrounds : Endpoint → Entry → Type 0
Surrounds q e = (e.ip_first ≤ q.ip_first) × (q.ip_last ≤ e.ip_last)

-- A live route or an entry of the administrator goes first; then an interface that is not external.
abbrev pub tier : Bool → Entry → ℕ
tier also_external e = (if is_preferred e then 0 else 2) + (if also_external then 1 else 0)

-- The first entry is of a better tier, or of the same and no wider.
abbrev pub Leads : Bool → Entry → Bool → Entry → Type 0
Leads x d y e =
    (tier x d < tier y e)
    ⊎ ((tier x d ≡ tier y e) × (d.ip_last + e.ip_first ≤ e.ip_last + d.ip_first))

pub Leads-trans : (x y z : Bool) (a b c : Entry) → Leads x a y b → Leads y b z c → Leads x a z c
Leads-trans x y z a b c h k = elim h [
  | inl less ↦ elim k [ inl less' ↦ inl (omega arith) | inr (same, _) ↦ inl (omega arith) ]
  | inr (same, narrow) ↦ elim k [
    | inl less' ↦ inl (omega arith)
    | inr (same', narrow') ↦ inr (omega arith, omega arith)
  ]
]

-- The order of the entries of one interface.
stays_best-Leads : (x : Bool) (d e : Entry) → stays_best d e ≡ true → Leads x d x e
unfolding stays_best
stays_best-Leads x d e h = ground arith

stays_best-Leads_not : (x : Bool) (d e : Entry) → stays_best d e ≡ false → Leads x e x d
unfolding stays_best
stays_best-Leads_not x d e h = ground arith

abbrev pub Outranks : Scored → Scored → Type 0
Outranks a b = Leads a.also_external a.score.best b.also_external b.score.best

pub stays_first-Outranks : (a b : Scored) → stays_first a b ≡ true → Outranks a b
unfolding stays_first
stays_first-Outranks a b h = ground arith

pub stays_first-Outranks_not : (a b : Scored) → stays_first a b ≡ false → Outranks b a
unfolding stays_first
stays_first-Outranks_not a b h = ground arith

-- Whether an interface is also one of the external ones.
abbrev pub is_external_name : List String → String → Bool
is_external_name names interface = any (str_eq interface) names

module _ (v : View) (names : List String) (q : Endpoint) where
  abbrev pub IsContaining : Entry → Type 0
  IsContaining e = IsIn e v.entries × (e.topology_zone ≡ internal) × Surrounds q e

  -- The entry leads all others that contain the query.
  abbrev pub LeadsAll : Entry → Type 0
  LeadsAll d =
      (e : Entry)
      → IsIn e v.entries
      → e.topology_zone ≡ internal
      → Surrounds q e
      → Leads (is_external_name names d.interface_name) d (is_external_name names e.interface_name)
          e

  pub IsContaining-All : All IsContaining (containing_entries v q)
  IsContaining-All =
      let test = λ (e : Entry).
        is_internal e.topology_zone
        && (overlaps e q.ip_first q.ip_last && contains e q.ip_first q.ip_last) in
      All-weaken (λ e. IsIn e v.entries × (test e ≡ true)) IsContaining
        (λ e (is_in, fits).
          (is_in, zone_of_internal e.topology_zone (ground arith), (ground arith, ground arith)))
        (containing_entries v q)
        (filter-All (λ e. IsIn e v.entries) test v.entries (All-IsIn v.entries))

  pub containing-IsIn :
      q.ip_first ≤ q.ip_last
      → (e : Entry) → IsIn e v.entries
      → e.topology_zone ≡ internal
      → Surrounds q e
      → IsIn e (containing_entries v q)
  containing-IsIn ordered e is_in zone around =
      let test = λ (e : Entry).
        is_internal e.topology_zone
        && (overlaps e q.ip_first q.ip_last && contains e q.ip_first q.ip_last) in
      let fits : test e ≡ true = rw zone (ground arith) in
      filter-Any (λ y. y ≡ e) test v.entries
        (Any-weaken (λ y. y ≡ e) (λ y. (y ≡ e) × (test y ≡ true)) (λ y same. (same, rw same fits))
          v.entries is_in)

  -- The best entry of a group leads the group, and is on its interface.
  abbrev pub IsBest : Scored → Type 0
  IsBest s =
      IsOn s.group s.score.best
      × IsContaining s.score.best
      × (s.also_external ≡ is_external_name names s.group)

  pub scored-IsBest : (g : Group) → IsGroup IsContaining g → IsBest (scored v names g)
  unfolding scored
  scored-IsBest g h =
      let (on, is_containing) = best-IsOn IsContaining v g h in (on, is_containing, refl)

  scored-Leads :
      (g : Group)
      → All
          (λ e.
            Leads
              (scored v names g).also_external
              (scored v names g).score.best
              (scored v names g).also_external
              e)
          (members g)
  unfolding scored score_interface_group
  scored-Leads g =
      let x = is_external_name names g.interface in
      least_with-IsLeast stays_best (λ d e. Leads x d x e) (λ a b c. Leads-trans x x x a b c)
        (stays_best-Leads x) (stays_best-Leads_not x) (λ e. inr (refl, omega arith)) g.first
        g.others

  -- The candidate's entry leads the entry.
  abbrev pub LeadsEntry : Entry → Scored → Type 0
  LeadsEntry e s = Leads s.also_external s.score.best (is_external_name names e.interface_name) e

  pub group-LeadsEntry :
      (e : Entry) (g : Group)
      → IsGroup IsContaining g
      → HasMember e g
      → LeadsEntry e (scored v names g)
  unfolding scored
  group-LeadsEntry e g is_group member =
      let x = is_external_name names g.interface in
      found (members g) (unfold scored in scored-Leads g) is_group member
    where
      found :
          (es : List Entry)
          → All
              (λ d.
                Leads
                  (is_external_name names g.interface)
                  (score_interface_group v g).best
                  (is_external_name names g.interface)
                  d)
              es
          → All (λ d. IsOn g.interface d × IsContaining d) es
          → IsIn e es
          → Leads
              (is_external_name names g.interface)
              (score_interface_group v g).best
              (is_external_name names e.interface_name)
              e
      found [] leads on is_in = absurd is_in
      found (d ∷ es) leads on is_in = elim is_in [
        | inl here ↦ rw (← here) (rw on.0.0 leads.0)
        | inr there ↦ found es leads.1 on.1 there
      ]

  abbrev pub IsChosen : List InterfaceMatch → Type 0
  IsChosen ms =
      (d : Entry) × (m : InterfaceMatch) × (ms ≡ m ∷ [])
      × (m.topology_zone ≡ internal)
      × IsOn m.interface_name d
      × (m.matched_cidr ≡ d.cidr_or_range)
      × IsContaining d
      × LeadsAll d

  pub first_scored-IsChosen :
      (ss : List Scored)
      → IsOrdered stays_first Outranks ss
      → All IsBest ss
      → ((e : Entry) → IsContaining e → Any (LeadsEntry e) ss)
      → (e : Entry) → IsContaining e
      → IsChosen (first_scored ss)
  unfolding first_scored internal_match
  first_scored-IsChosen [] ordered best leads e around = absurd (leads e around)
  first_scored-IsChosen (s ∷ ss) ordered best leads e around =
      let (on, is_containing, also) = best.0 in
      (
        s.score.best,
        internal_match s.group s.score,
        refl,
        refl,
        on,
        refl,
        is_containing,
        λ d is_in zone surrounds. leads_first d (elim (leads d (is_in, zone, surrounds)) [
          | inl here ↦ here
          | inr there ↦ passed_on d ss ordered.0 there
        ]),
      )
    where
      leads_first :
          (d : Entry)
          → LeadsEntry d s
          → Leads
              (is_external_name names s.score.best.interface_name)
              s.score.best
              (is_external_name names d.interface_name)
              d
      leads_first d h = rw best.0.0 (rw best.0.2 at h)

      passed_on :
          (d : Entry) (rest : List Scored)
          → All (Outranks s) rest
          → Any (LeadsEntry d) rest
          → LeadsEntry d s
      passed_on d [] outranks there = absurd there
      passed_on d (r ∷ rest) outranks there = elim there [
        | inl here ↦
            Leads-trans s.also_external r.also_external (is_external_name names d.interface_name)
              s.score.best r.score.best d outranks.0 here
        | inr further ↦ passed_on d rest outranks.1 further
      ]
