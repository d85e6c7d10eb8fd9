-- ===== src/Pager.antt =====
-- adapters/checkpoint/pager.py: `paginate_objects` and its single pass. The caller of a page is a
-- function of the number of calls before, the offset and the limit, since the rest of the payload is
-- the same for all calls. The texts of errors are left out; `show` is Python's `str` of a value that is
-- not a text, and `parse_int` Python's `int` of a text, which may raise.
mod Page
mod Parts
pub mod Sound
pub mod Rounds
pub mod Returns
pub mod Examples
use Prim.Native.String.{◌++◌ as append}
use arodonata.Common.{
  ℕ, zero, suc, ◌+◌, ◌-◌, ◌*◌, min, max, String, Bool, true, false, not, ◌&&◌, ◌||◌, Option, none,
  some, List, [], ◌∷◌, ◌++◌, length, ltb, leb, ◌==◌, if◌then◌else◌, str_eq,
}
use arodonata.Common.Text.{strip}
use arodonata.Common.Json.{Value, get, has}
use arodonata.Tasks.{ApiCallResult, contains, is_nonempty}
unfoldable pub use Page.{
  extract_page_items, unpack_task_details_page, item_identity, text_of, dicts, without_slashes,
}
pub use Parts.{
  PageCaller, QueryResult, Discontinuity, Pass, Collected, Progress, Turn, Query, Number,
  total_changed, stalled, from_gap, to_gap, not_advancing, recovery_total_changed, count_mismatch,
  returned, discontinuity, bad_number, stop, again, missing, number, unreadable, max_page_limit,
  boundary_window_radius,
}
unfoldable pub use Parts.{
  effective_limit, is_task_command, page_data, to_int, failed, or_zero, collect, check, advance,
  expected_or, add_item, differs, number_or, is_unreadable, failure_code,
}

module _ (show : Value → String) (parse_int : String → Option ℕ) (caller : PageCaller)
    (q : Query) where
  -- The window around a boundary is read again, once.
  pub recover : Progress → ℕ → Collected → (Collected → ℕ → Turn) → Turn
  unfolding page_data to_int failed check collect extract_page_items get
  recover p total c next =
      let win_offset = max q.initial_offset (p.offset - boundary_window_radius) in
      let r = caller (suc p.calls) win_offset (boundary_window_radius * 2) in
      if r.success
      then check (to_int parse_int (get "total" (page_data q r))) total recovery_total_changed
          (next (collect show win_offset (extract_page_items q.collection_key (page_data q r)) c)
            (suc (suc p.calls)))
          (suc (suc p.calls))
      else stop (suc (suc p.calls)) (failed show total r)

  -- The items of a page are collected; where one of them was seen before, the window is read again.
  pub take_items : Progress → ℕ → List Value → Number → Turn
  unfolding collect recover advance
  take_items p total items to =
      let c =
        collect show p.offset items
          (record { seen = p.collected.seen; items = p.collected.items; duplicates = false }) in
      let expected_to = p.offset + length items in
      if c.duplicates && ltb q.initial_offset p.offset
      then recover p total c (advance p total to expected_to)
      else advance p total to expected_to c (suc p.calls)

  -- A page with a total.
  pub counted_page : Progress → ℕ → List Value → Number → Number → Turn
  unfolding check take_items is_nonempty
  counted_page p total items from to =
      if total == 0
      then stop (suc p.calls)
          (returned (record { success = true; objects = []; total = 0; code = none }))
      else if is_nonempty items
      then check from (p.offset + 1) from_gap
          (check to (p.offset + length items) to_gap (take_items p total items to) (suc p.calls))
          (suc p.calls)
      else stop (suc p.calls) (discontinuity stalled)

  -- An answer that is a success.
  pub read_page : Progress → Value → Turn
  unfolding to_int get extract_page_items counted_page expected_or
  read_page p page =
      let items = extract_page_items q.collection_key page in
      elim (to_int parse_int (get "total" page)) [
        | missing ↦ stop (suc p.calls) (
            returned
              (record { success = true; objects = items; total = length items; code = none }))
        | unreadable ↦ stop (suc p.calls) bad_number
        | number total ↦
            if total == expected_or p.expected_total total
            then counted_page p total items (to_int parse_int (get "from" page))
                (to_int parse_int (get "to" page))
            else stop (suc p.calls) (discontinuity total_changed)
      ]

  -- One round of the loop.
  pub turn : Progress → Turn
  unfolding page_data failed or_zero read_page
  turn p =
      let r = caller p.calls p.offset q.limit in
      if r.success
      then read_page p (page_data q r)
      else stop (suc p.calls) (failed show (or_zero p.expected_total) r)

  -- After the loop.
  pub conclude : Progress → Pass
  unfolding or_zero
  conclude p =
      let total = or_zero p.expected_total in
      if length p.collected.items == total - q.initial_offset
      then returned
          (record { success = true; objects = p.collected.items; total = total; code = none })
      else discontinuity count_mismatch

  -- `none` means that the loop took more rounds than the fuel.
  pub pass_loop : ℕ → Progress → Option (ℕ × Pass)
  unfolding turn conclude or_zero
  pass_loop zero p = none
  pass_loop (suc fuel) p = elim (turn p) [
    | stop calls result ↦ some (calls, result)
    | again p' ↦
        let rest = pass_loop fuel p' in
        if leb (or_zero p'.expected_total) p'.offset then some (p'.calls, conclude p') else rest
  ]

  start : ℕ → Progress
  start calls = record {
    offset = q.initial_offset;
    expected_total = none;
    collected = record { seen = []; items = []; duplicates = false };
    calls = calls;
  }

  pub run_single_pagination_pass : ℕ → ℕ → Option (ℕ × Pass)
  unfolding pass_loop start
  run_single_pagination_pass fuel calls = pass_loop fuel (start calls)

  inconsistent : QueryResult
  inconsistent = record {
    success = false;
    objects = [];
    total = 0;
    code = some "paging_inconsistent";
  }

  -- The second pass decides; a second discontinuity is an inconsistent listing.
  pub last_attempt : Option (ℕ × Pass) → Option (ℕ × Pass)
  unfolding inconsistent
  last_attempt (some (calls, discontinuity d)) = some (calls, returned inconsistent)
  last_attempt o = o

  pub first_attempt : Option (ℕ × Pass) → (ℕ → Option (ℕ × Pass)) → Option (ℕ × Pass)
  unfolding last_attempt
  first_attempt (some (calls, discontinuity d)) second = last_attempt (second calls)
  first_attempt o second = o

  pub two_passes : ℕ → Option (ℕ × Pass)
  unfolding run_single_pagination_pass first_attempt
  two_passes fuel =
      first_attempt (run_single_pagination_pass fuel 0) (run_single_pagination_pass fuel)

-- `paginate_objects`, with the initial offset of its payload: how many calls it made, and its end.
pub paginate_objects :
    (Value → String)
    → (String → Option ℕ)
    → PageCaller
    → String
    → ℕ
    → ℕ
    → Option String
    → ℕ
    → Option (ℕ × Pass)
unfolding two_passes effective_limit is_task_command strip without_slashes
paginate_objects show parse_int caller command initial_offset limit collection_key fuel =
    two_passes show parse_int caller
      (record {
        initial_offset = initial_offset;
        limit = effective_limit limit;
        is_task_query = is_task_command (without_slashes (strip command));
        collection_key = collection_key;
      })
      fuel
