-- ===== src/Pager/Returns.antt =====
-- `paginate_objects` ends, and what it returns.
use arodonata.Common.{
  ℕ, zero, suc, ◌+◌, ◌-◌, ◌*◌, ◌≤◌, ◌<◌, String, true, false, Option, some, length, ◌≡◌, ◌⊎◌, inl,
  inr, refl, leb, ◌==◌, Bool-cases, arith,
}
use arodonata.Common.Json.{Value, get}
use arodonata.Common.Text.{strip}
use arodonata.Pager.{
  PageCaller, Pass, returned, discontinuity, bad_number, Progress, Turn, stop, again, Query, number,
  page_data, to_int, or_zero, turn, conclude, pass_loop, run_single_pagination_pass, first_attempt,
  last_attempt, two_passes, paginate_objects, start, effective_limit, is_task_command,
  without_slashes, inconsistent,
}
use arodonata.Pager.Sound.{IsDistinct}
use arodonata.Pager.Rounds.{IsComplete, IsUncounted, IsListing, Continues, turn-Continues}

beyond :
    (n total offset bound : ℕ) → n ≡ total → total ≤ bound → leb n offset ≡ false → offset < bound
beyond n total offset bound e le more = ground arith

module _ (show : Value → String) (parse_int : String → Option ℕ) (caller : PageCaller)
    (q : Query) where
  -- No answer reports a larger total.
  abbrev pub TotalsUpTo : ℕ → Type 0
  TotalsUpTo bound =
      (calls offset total : ℕ)
      → to_int parse_int (get "total" (page_data q (caller calls offset q.limit))) ≡ number total
      → total ≤ bound

  conclude-IsListing :
      (p : Progress)
      → IsDistinct p.collected
      → IsListing show parse_int caller q (conclude show parse_int caller q p)
  unfolding conclude
  conclude-IsListing p distinct =
      elim (Bool-cases (length p.collected.items == or_zero p.expected_total - q.initial_offset)) [
        | inl full ↦ rw full (λ works. inr (ground arith, distinct.0))
        | inr short ↦ rw short tt
      ]

  -- A run of the loop that started after `before` calls: it made at most two calls for each unit of
  -- the distance, and it ends as a pass may.
  abbrev Ends : ℕ → ℕ → Option (ℕ × Pass) → Type 0
  Ends before distance o =
      (calls : ℕ) × (result : Pass) × (o ≡ some (calls, result))
      × (calls ≤ before + 2 * distance)
      × IsListing show parse_int caller q result

  -- What the loop does after a round, given how it ends after the next ones.
  turn-Ends :
      (bound fuel : ℕ) (p : Progress)
      → TotalsUpTo bound
      → ((p' : Progress)
          → IsDistinct p'.collected
          → bound - p'.offset < fuel
          → Ends p'.calls (suc (bound - p'.offset)) (pass_loop show parse_int caller q fuel p'))
      → bound - p.offset < suc fuel
      → (t : Turn) → turn show parse_int caller q p ≡ t
      → Continues show parse_int caller q p t
      → Ends p.calls (suc (bound - p.offset)) (pass_loop show parse_int caller q (suc fuel) p)
  unfolding pass_loop or_zero
  turn-Ends bound fuel p totals later h (stop calls result) e (low, high, listing) =
      (calls, result, rw (e, pass_loop) refl, omega arith, listing)
  turn-Ends bound fuel p totals later h (again p') e
        (high, moved, low, fresh, total, expected, counted) =
      elim (Bool-cases (leb (or_zero p'.expected_total) p'.offset)) [
        | inl over ↦ (
          p'.calls,
          conclude show parse_int caller q p',
          rw (e, pass_loop, over) refl,
          omega arith,
          conclude-IsListing p' fresh,
        )
        | inr more ↦
            let same : or_zero p'.expected_total ≡ total = rw (expected, or_zero) refl in
            let inside : p'.offset < bound =
              beyond (or_zero p'.expected_total) total p'.offset bound same
                (totals p.calls p.offset total counted) more in
            let (calls, result, runs, few, listing) = later p' fresh (omega arith) in
            (calls, result, rw (e, pass_loop, more) runs, omega arith, listing)
      ]

  pass_loop-Ends :
      (bound : ℕ)
      → TotalsUpTo bound
      → (fuel : ℕ) (p : Progress) → IsDistinct p.collected
      → bound - p.offset < fuel
      → Ends p.calls (suc (bound - p.offset)) (pass_loop show parse_int caller q fuel p)
  pass_loop-Ends bound totals zero p distinct h = absurd (omega arith)
  pass_loop-Ends bound totals (suc fuel) p distinct h =
      turn-Ends bound fuel p totals (pass_loop-Ends bound totals fuel) h _ refl
        (turn-Continues show parse_int caller q p distinct)

  pass-Ends :
      (bound fuel calls : ℕ)
      → TotalsUpTo bound
      → bound - q.initial_offset < fuel
      → Ends calls
          (suc (bound - q.initial_offset))
          (run_single_pagination_pass show parse_int caller q fuel calls)
  unfolding run_single_pagination_pass start
  pass-Ends bound fuel calls totals h =
      pass_loop-Ends bound totals fuel (start show parse_int caller q calls) (tt, tt) h

  -- What `paginate_objects` gives: the discontinuities of its passes are over.
  abbrev pub IsOutcome : Pass → Type 0
  IsOutcome (returned r) = r.success ≡ true → IsUncounted show parse_int caller q r ⊎ IsComplete q r
  IsOutcome (discontinuity d) = ⊥
  IsOutcome bad_number = Unit {0}

  abbrev Gives : ℕ → Option (ℕ × Pass) → Type 0
  Gives most o =
      (calls : ℕ) × (result : Pass) × (o ≡ some (calls, result)) × (calls ≤ most) × IsOutcome result

  last_attempt-Gives :
      (most : ℕ) (o : Option (ℕ × Pass)) (calls : ℕ) (result : Pass)
      → o ≡ some (calls, result)
      → calls ≤ most
      → IsListing show parse_int caller q result
      → Gives most (last_attempt show parse_int caller q o)
  unfolding last_attempt inconsistent
  last_attempt-Gives most o calls (returned r) e few listing =
      rw e (calls, returned r, refl, few, listing)
  last_attempt-Gives most o calls (discontinuity d) e few listing =
      rw e (calls, _, refl, few, λ works. cc)
  last_attempt-Gives most o calls bad_number e few listing = rw e (calls, bad_number, refl, few, tt)

  first_attempt-Gives :
      (more most : ℕ) (o : Option (ℕ × Pass)) (second : ℕ → Option (ℕ × Pass)) (calls : ℕ)
      (result : Pass)
      → o ≡ some (calls, result)
      → calls ≤ most
      → most ≤ more
      → IsListing show parse_int caller q result
      → ((before : ℕ)
          → before ≤ most
          → Gives more (last_attempt show parse_int caller q (second before)))
      → Gives more (first_attempt show parse_int caller q o second)
  unfolding first_attempt
  first_attempt-Gives more most o second calls (returned r) e few le listing later =
      rw e (calls, returned r, refl, omega arith, listing)
  first_attempt-Gives more most o second calls (discontinuity d) e few le listing later =
      rw e (later calls few)
  first_attempt-Gives more most o second calls bad_number e few le listing later =
      rw e (calls, bad_number, refl, omega arith, tt)

  two_passes-Gives :
      (bound fuel : ℕ)
      → TotalsUpTo bound
      → bound - q.initial_offset < fuel
      → Gives (4 * suc (bound - q.initial_offset)) (two_passes show parse_int caller q fuel)
  unfolding two_passes
  two_passes-Gives bound fuel totals h =
      let distance = suc (bound - q.initial_offset) in
      let (calls, result, e, few, listing) = pass-Ends bound fuel 0 totals h in
      first_attempt-Gives (4 * distance) (2 * distance) _
        (run_single_pagination_pass show parse_int caller q fuel) calls result e (omega arith)
        (omega arith) listing
        (λ before le.
          let (calls', result', e', few', listing') = pass-Ends bound fuel before totals h in
          last_attempt-Gives (4 * distance) _ calls' result' e' (omega arith) listing')

-- The query that a call makes.
abbrev pub query_of : String → ℕ → ℕ → Option String → Query
query_of command initial_offset limit collection_key = record {
  initial_offset = initial_offset;
  limit = effective_limit limit;
  is_task_query = is_task_command (without_slashes (strip command));
  collection_key = collection_key;
}

-- If no answer reports a total above a bound, the call returns, or raises the error of a field that
-- is no number, within as many rounds for each pass as the bound is beyond the offset, and one more,
-- and after at most four calls for each of them; a result that is a success has the items of
-- one answer without a total, or as many items as its total is beyond the offset, no two of which
-- share a uid.
pub paginate_objects-IsOutcome :
    (show : Value → String) (parse_int : String → Option ℕ) (caller : PageCaller) (command : String)
    (initial_offset limit : ℕ) (collection_key : Option String) (bound fuel : ℕ)
    → TotalsUpTo show parse_int caller (query_of command initial_offset limit collection_key) bound
    → bound - initial_offset < fuel
    → (calls : ℕ) × (result : Pass) × (paginate_objects show parse_int caller command initial_offset
          limit collection_key fuel
        ≡ some (calls, result))
      × (calls ≤ 4 * suc (bound - initial_offset))
      × IsOutcome show parse_int caller
          (query_of command initial_offset limit collection_key)
          result
unfolding paginate_objects
paginate_objects-IsOutcome show parse_int caller command initial_offset limit collection_key bound
      fuel totals h =
    two_passes-Gives show parse_int caller (query_of command initial_offset limit collection_key)
      bound fuel totals h
