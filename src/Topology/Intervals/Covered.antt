-- ===== src/Topology/Intervals/Covered.antt =====
-- The sweep over sorted intervals answers whether each address is in one of them.
use arodonata.Common.{
  ℕ, ◌+◌, ◌≤◌, ◌<◌, ◌≡◌, ◌↔◌, inl, inr, true, ◌&&◌, List, [], ◌∷◌, ltb, leb, ltb→lt, leb→le, max,
  All, Any, arith, Bool-cases,
}
use arodonata.Common.Sorting.{
  sort_with, IsOrdered, sort_with-All, sort_with-Any, Any-sort_with, sort_with-IsOrdered,
}
use arodonata.Topology.Intervals.{Interval, clip, stays_below, extend, covered_by, is_range_covered}

abbrev pub Contains : ℕ → Interval → Type 0
Contains a (lo, hi) = (lo ≤ a) × (a ≤ hi)

-- Some interval contains the address.
abbrev pub IsCovered : List Interval → ℕ → Type 0
IsCovered intervals a = Any (Contains a) intervals

abbrev Starts : Interval → Interval → Type 0
Starts x y = x.0 ≤ y.0

abbrev IsClipped : ℕ → ℕ → Interval → Type 0
IsClipped q_lo q_hi x = (q_lo ≤ x.1) × (x.0 ≤ q_hi)

clip-IsClipped :
    (q_lo q_hi : ℕ)
    → q_lo ≤ q_hi
    → (is : List Interval) → All (IsClipped q_lo q_hi) (clip q_lo q_hi is)
unfolding clip
clip-IsClipped q_lo q_hi h [] = tt
clip-IsClipped q_lo q_hi h ((lo, hi) ∷ is) = elim (Bool-cases (leb q_lo hi && leb lo q_hi)) [
  | inl meets ↦ rw meets ((ground arith, ground arith), clip-IsClipped q_lo q_hi h is)
  | inr apart ↦ rw apart (clip-IsClipped q_lo q_hi h is)
]

clip-IsCovered :
    (q_lo q_hi a : ℕ) (is : List Interval)
    → q_lo ≤ a
    → a ≤ q_hi
    → IsCovered (clip q_lo q_hi is) a ↔ IsCovered is a
unfolding clip
clip-IsCovered q_lo q_hi a [] h k = (λ c. c, λ c. c)
clip-IsCovered q_lo q_hi a ((lo, hi) ∷ is) h k =
    let (back, forth) = clip-IsCovered q_lo q_hi a is h k in
    elim (Bool-cases (leb q_lo hi && leb lo q_hi)) [
      | inl meets ↦ rw meets (
        λ c. elim c [ inl here ↦ inl (omega arith) | inr there ↦ inr (back there) ],
        λ c. elim c [ inl here ↦ inl (omega arith) | inr there ↦ inr (forth there) ],
      )
      | inr apart ↦ rw apart (
        λ c. inr (back c),
        λ c. elim c [ inl here ↦ absurd (ground arith) | inr there ↦ forth there ],
      )
    ]

-- When the sweep succeeds, the rest covers what lies between its end and the query's.
extend_sound :
    (q_hi curr_end a : ℕ) (rest : List Interval)
    → extend q_hi curr_end rest ≡ true
    → curr_end < a
    → a ≤ q_hi
    → IsCovered rest a
unfolding extend
extend_sound q_hi curr_end a [] h above below = absurd (ground arith)
extend_sound q_hi curr_end a ((lo, hi) ∷ rest) h above below = elim (Bool-cases (leb a hi)) [
  | inl reached ↦ inl (ground arith, ground arith)
  | inr beyond ↦
      inr (extend_sound q_hi (max curr_end hi) a rest (ground arith) (ground arith) below)
]

none_before :
    (a lo : ℕ) (rest : List Interval) → a < lo → All (λ y. lo ≤ y.0) rest → IsCovered rest a → ⊥
none_before a lo [] h starts c = c
none_before a lo (y ∷ rest) h starts c = elim c [
  | inl here ↦ absurd (omega arith)
  | inr there ↦ none_before a lo rest h starts.1 there
]

extend_complete :
    (q_lo q_hi curr_end : ℕ) (rest : List Interval)
    → IsOrdered stays_below Starts rest
    → All (IsClipped q_lo q_hi) rest
    → ((a : ℕ) → curr_end < a → a ≤ q_hi → IsCovered rest a)
    → extend q_hi curr_end rest ≡ true
unfolding extend
extend_complete q_lo q_hi curr_end [] ordered clipped covers =
    elim (Bool-cases (leb q_hi curr_end)) [
      | inl reached ↦ reached
      | inr short ↦ absurd (covers q_hi (ground arith) (omega arith))
    ]
extend_complete q_lo q_hi curr_end ((lo, hi) ∷ rest) ordered clipped covers =
    elim (Bool-cases (ltb (curr_end + 1) lo)) [
      | inl gap ↦
          let below = ltb→lt (curr_end + 1) lo gap in
          absurd (elim (covers (curr_end + 1) (omega arith) (omega (arith, clipped.0.1))) [
            | inl here ↦ absurd (omega arith)
            | inr there ↦ none_before (curr_end + 1) lo rest below ordered.0 there
          ])
      | inr joins ↦ rw joins (elim (Bool-cases (leb q_hi (max curr_end hi))) [
        | inl reached ↦ rw reached
        | inr short ↦ rw short (
            extend_complete q_lo q_hi (max curr_end hi) rest ordered.1 clipped.1 λ a above below.
              elim (covers a (omega arith) below) [
                | inl here ↦ absurd (omega arith)
                | inr there ↦ there
              ])
      ])
    ]

covered_by_iff :
    (q_lo q_hi : ℕ) (is : List Interval)
    → q_lo ≤ q_hi
    → IsOrdered stays_below Starts is
    → All (IsClipped q_lo q_hi) is
    → (covered_by q_lo q_hi is ≡ true) ↔ ((a : ℕ) → q_lo ≤ a → a ≤ q_hi → IsCovered is a)
unfolding covered_by
covered_by_iff q_lo q_hi [] h ordered clipped =
    (λ e. cc, λ covers. absurd (covers q_lo (omega arith) h))
covered_by_iff q_lo q_hi ((lo, hi) ∷ rest) h ordered clipped = elim (Bool-cases (ltb q_lo lo)) [
  | inl late ↦ rw late (
    λ e. cc,
    λ covers. absurd (elim (covers q_lo (omega arith) h) [
      | inl here ↦ absurd (ground arith)
      | inr there ↦ none_before q_lo lo rest (ltb→lt q_lo lo late) ordered.0 there
    ]),
  )
  | inr starts ↦ rw starts (
    λ e a above below. elim (Bool-cases (leb a hi)) [
      | inl reached ↦ inl (ground arith, ground arith)
      | inr beyond ↦ inr (extend_sound q_hi hi a rest e (ground arith) below)
    ],
    λ covers. extend_complete q_lo q_hi hi rest ordered.1 clipped.1 λ a above below.
        elim (Bool-cases (leb q_lo a)) [
          | inl inside ↦ elim (covers a (leb→le q_lo a inside) below) [
            | inl here ↦ absurd (omega arith)
            | inr there ↦ there
          ]
          | inr outside ↦ absurd (ground (arith, clipped.0.0))
        ],
  )
]

sorts : (is : List Interval) → IsOrdered stays_below Starts (sort_with stays_below is)
unfolding stays_below
sorts is =
    sort_with-IsOrdered stays_below Starts (λ x y z h k. omega arith)
      (λ (a, b) (c, d) h. ground arith) (λ (a, b) (c, d) h. ground arith) is

-- For a query that does not end before it starts, the sweep answers true exactly when each address of
-- the query is in one of the intervals, whatever their order and overlaps, and also when some of them
-- end before they start.
pub is_range_covered_iff :
    (q_lo q_hi : ℕ) (intervals : List Interval)
    → q_lo ≤ q_hi
    → (is_range_covered q_lo q_hi intervals ≡ true)
      ↔ ((a : ℕ) → q_lo ≤ a → a ≤ q_hi → IsCovered intervals a)
unfolding is_range_covered
is_range_covered_iff q_lo q_hi is h =
    let cut = clip q_lo q_hi is in
    let sorted = sort_with stays_below cut in
    let (sound, complete) =
      covered_by_iff q_lo q_hi sorted h (sorts cut)
        (sort_with-All stays_below (IsClipped q_lo q_hi) cut (clip-IsClipped q_lo q_hi h is)) in
    (
      λ e a above below.
          (clip-IsCovered q_lo q_hi a is above below).0
            (Any-sort_with stays_below (Contains a) cut (sound e a above below)),
      λ covers. complete λ a above below.
          sort_with-Any stays_below (Contains a) cut
            ((clip-IsCovered q_lo q_hi a is above below).1 (covers a above below)),
    )
