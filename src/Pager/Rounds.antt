-- ===== src/Pager/Rounds.antt =====
-- How a round of a pass ends or goes on.
use arodonata.Common.{
  ℕ, suc, ◌+◌, ◌-◌, ◌*◌, ◌≤◌, ◌<◌, max, String, true, false, ◌&&◌, Option, some, List, length, ◌≡◌,
  ◌⊎◌, inl, inr, refl, ltb, leb, ◌==◌, Bool-cases, arith,
}
use arodonata.Common.Json.{Value, get}
use arodonata.Tasks.{is_nonempty}
use arodonata.Pager.{
  PageCaller, QueryResult, from_gap, to_gap, recovery_total_changed, Pass, returned, discontinuity,
  bad_number, Collected, Progress, Turn, stop, again, Query, Number, missing, number, unreadable,
  page_data, to_int, failed, collect, advance, recover, take_items, counted_page, read_page, turn,
  extract_page_items, expected_or, number_or, boundary_window_radius,
}
use arodonata.Pager.Sound.{UniqueUids, IsDistinct, collect-IsDistinct, Agrees, check-cases}

-- A listing whose number of items is what its total promises from the offset on, each with its own
-- uid.
abbrev pub IsComplete : Query → QueryResult → Type 0
IsComplete q r = (length r.objects ≡ r.total - q.initial_offset) × UniqueUids r.objects

module _ (show : Value → String) (parse_int : String → Option ℕ) (caller : PageCaller)
    (q : Query) where
  -- The items of one answer that has no total.
  abbrev pub IsUncounted : QueryResult → Type 0
  IsUncounted r =
      (calls : ℕ) × (offset : ℕ) × (to_int parse_int
          (get "total" (page_data q (caller calls offset q.limit)))
        ≡ missing)
      × (r.objects
          ≡ extract_page_items q.collection_key (page_data q (caller calls offset q.limit)))

  -- What holds of the end of a pass: only a result that is a success promises a listing.
  abbrev pub IsListing : Pass → Type 0
  IsListing (returned r) = r.success ≡ true → IsUncounted r ⊎ IsComplete q r
  IsListing (discontinuity d) = Unit {0}
  IsListing bad_number = Unit {0}

  -- A round makes at most two calls. If it goes on, the offset has moved by the items of its page, one
  -- at least, the total is that of its page, and no collected items share a uid.
  abbrev pub Continues : Progress → Turn → Type 0
  Continues p (stop calls result) = (p.calls < calls) × (calls ≤ p.calls + 2) × IsListing result
  Continues p (again p') =
      let page = page_data q (caller p.calls p.offset q.limit) in
      (p'.calls ≤ p.calls + 2)
      × (p'.offset ≡ p.offset + length (extract_page_items q.collection_key page))
      × (p.offset < p'.offset)
      × IsDistinct p'.collected
      × (total : ℕ) × (p'.expected_total ≡ some total)
      × (to_int parse_int (get "total" page) ≡ number total)

  module _ (p : Progress) (items : List Value)
      (read : extract_page_items q.collection_key (page_data q (caller p.calls p.offset q.limit))
        ≡ items)
      (total : ℕ)
      (counted : to_int parse_int (get "total" (page_data q (caller p.calls p.offset q.limit)))
        ≡ number total) where
    advance-Continues :
        (to : Number) (c : Collected) (calls : ℕ)
        → Agrees to (p.offset + length items)
        → IsDistinct c
        → p.calls < calls
        → calls ≤ p.calls + 2
        → Continues p (advance p total to (p.offset + length items) c calls)
    unfolding advance number_or
    advance-Continues to c calls agrees distinct low high =
        let same : number_or to (p.offset + length items) ≡ p.offset + length items = elim agrees [
          | inl e ↦ rw e refl
          | inr e ↦ rw e refl
        ] in
        elim (Bool-cases (leb (number_or to (p.offset + length items)) p.offset)) [
          | inl stuck ↦ rw stuck (low, high, tt)
          | inr moves ↦
              rw moves
                (high, rw read same, ground (arith, same, moves), distinct, total, refl, counted)
        ]

    recover-Continues :
        (c : Collected) (next : Collected → ℕ → Turn)
        → IsDistinct c
        → ((c' : Collected) (calls : ℕ)
            → IsDistinct c'
            → p.calls < calls
            → calls ≤ p.calls + 2
            → Continues p (next c' calls))
        → Continues p (recover show parse_int caller q p total c next)
    unfolding recover failed
    recover-Continues c next distinct goes_on =
        let offset = max q.initial_offset (p.offset - boundary_window_radius) in
        let r = caller (suc p.calls) offset (boundary_window_radius * 2) in
        elim (Bool-cases r.success) [
          | inl works ↦ rw works (
              check-cases (Continues p) (to_int parse_int (get "total" (page_data q r))) total
                recovery_total_changed _ (suc (suc p.calls)) (omega arith, omega arith, tt)
                (omega arith, omega arith, tt)
                (λ agrees.
                  goes_on _ (suc (suc p.calls))
                    (collect-IsDistinct show offset
                      (extract_page_items q.collection_key (page_data q r)) c distinct)
                    (omega arith) (omega arith)))
          | inr fails ↦ rw fails (omega arith, omega arith, λ e. cc)
        ]

    take_items-Continues :
        (to : Number)
        → Agrees to (p.offset + length items)
        → IsDistinct p.collected
        → Continues p (take_items show parse_int caller q p total items to)
    unfolding take_items
    take_items-Continues to agrees distinct =
        let c =
          collect show p.offset items
            (record { seen = p.collected.seen; items = p.collected.items; duplicates = false }) in
        let fresh : IsDistinct c = collect-IsDistinct show p.offset items _ distinct in
        elim (Bool-cases (c.duplicates && ltb q.initial_offset p.offset)) [
          | inl twice ↦ rw twice (
              recover-Continues c _ fresh
                (λ c' calls d low high. advance-Continues to c' calls agrees d low high))
          | inr once ↦
              rw once
                (advance-Continues to c (suc p.calls) agrees fresh (omega arith) (omega arith))
        ]

    counted_page-Continues :
        (from to : Number)
        → IsDistinct p.collected
        → Continues p (counted_page show parse_int caller q p total items from to)
    unfolding counted_page
    counted_page-Continues from to distinct = elim (Bool-cases (total == 0)) [
      | inl nothing ↦ rw nothing (omega arith, omega arith, λ e. inr (omega arith, tt))
      | inr some_there ↦ elim (Bool-cases (is_nonempty items)) [
        | inr stalls ↦ rw (some_there, stalls) (omega arith, omega arith, tt)
        | inl full ↦
            rw (some_there, full)
              (check-cases (Continues p) from (p.offset + 1) from_gap _ (suc p.calls)
                (omega arith, omega arith, tt) (omega arith, omega arith, tt)
                (λ a.
                  check-cases (Continues p) to (p.offset + length items) to_gap _ (suc p.calls)
                    (omega arith, omega arith, tt) (omega arith, omega arith, tt)
                    (λ agrees. take_items-Continues to agrees distinct)))
      ]
    ]

  read_page-Continues :
      (p : Progress) (n : Number)
      → IsDistinct p.collected
      → to_int parse_int (get "total" (page_data q (caller p.calls p.offset q.limit))) ≡ n
      → Continues p
          (read_page show parse_int caller q p (page_data q (caller p.calls p.offset q.limit)))
  unfolding read_page
  read_page-Continues p missing distinct e =
      rw (e, read_page) (omega arith, omega arith, λ works. inl (p.calls, p.offset, e, refl))
  read_page-Continues p unreadable distinct e = rw (e, read_page) (omega arith, omega arith, tt)
  read_page-Continues p (number total) distinct e =
      elim (Bool-cases (total == expected_or p.expected_total total)) [
        | inl same ↦
            rw (e, read_page, same)
              (counted_page-Continues p _ refl total e
                (to_int parse_int (get "from" (page_data q (caller p.calls p.offset q.limit))))
                (to_int parse_int (get "to" (page_data q (caller p.calls p.offset q.limit))))
                distinct)
        | inr other ↦ rw (e, read_page, other) (omega arith, omega arith, tt)
      ]

  pub turn-Continues :
      (p : Progress) → IsDistinct p.collected → Continues p (turn show parse_int caller q p)
  unfolding turn failed
  turn-Continues p distinct = elim (Bool-cases (caller p.calls p.offset q.limit).success) [
    | inl works ↦ rw works (read_page-Continues p _ distinct refl)
    | inr fails ↦ rw fails (omega arith, omega arith, λ e. cc)
  ]
