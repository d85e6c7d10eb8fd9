-- ===== src/Pager/Examples.antt =====
-- A listing of three objects, of which a page holds two.
use arodonata.Common.{
  ℕ, zero, suc, ◌-◌, ◌*◌, ◌≤◌, String, true, false, Option, none, some, [], ◌∷◌, ◌≡◌, refl,
  if◌then◌else◌, ◌==◌, arith,
}
use arodonata.Common.Json.{Value, get, field, end, Items, cons, nil}
use arodonata.Pager.{
  PageCaller, Query, Pass, returned, Progress, paginate_objects, is_task_command, effective_limit,
  page_data, to_int, number, unpack_task_details_page, without_slashes,
}
use arodonata.Pager.Returns.{IsOutcome, query_of, paginate_objects-IsOutcome}

abbrev object : String → Value
object uid = Value.obj (field "uid" (Value.str uid) end)

abbrev page : ℕ → ℕ → Items → Value
page from to items = Value.obj (
    field "objects" (Value.arr items)
      (field "total" (Value.num 3) (field "from" (Value.num from) (field "to" (Value.num to) end))))

abbrev pages : PageCaller
pages calls offset limit = record {
  success = true;
  status_code = 200;
  response =
      if offset == 0
      then page 1 2 (cons (object "a") (cons (object "b") nil))
      else page 3 3 (cons (object "c") nil);
  error_code = none;
  task_id = none;
}

abbrev no_text : Value → String
no_text v = ""

abbrev no_int : String → Option ℕ
no_int s = none

all_pages :
    paginate_objects no_text no_int pages "/show-hosts" 0 2 none 4
    ≡ some (
      2,
      returned (record {
        success = true;
        objects = object "a" ∷ object "b" ∷ object "c" ∷ [];
        total = 3;
        code = none;
      }),
    )
unfolding paginate_objects
all_pages = refl

abbrev gap : PageCaller
gap calls offset limit = record {
  success = true;
  status_code = 200;
  response = page 2 3 (cons (object "a") (cons (object "b") nil));
  error_code = none;
  task_id = none;
}

-- The listing is asked for twice, and is inconsistent.
restarted :
    paginate_objects no_text no_int gap "show-hosts" 0 2 none 4
    ≡ some (
      2,
      returned
          (record { success = false; objects = []; total = 0; code = some "paging_inconsistent" }),
    )
unfolding paginate_objects
restarted = refl

abbrev hosts : Query
hosts = query_of "/show-hosts" 0 2 none

total_of :
    (calls offset total : ℕ)
    → to_int no_int (get "total" (page_data hosts (pages calls offset hosts.limit))) ≡ number total
    → total ≤ 3
unfolding page_data to_int is_task_command effective_limit unpack_task_details_page without_slashes
total_of calls zero total e = ground arith
total_of calls (suc offset) total e = ground arith

paginate_objects-IsOutcome_example :
    (calls : ℕ) × (result : Pass) × (paginate_objects no_text no_int pages "/show-hosts" 0 2 none 4
      ≡ some (calls, result))
    × (calls ≤ 4 * suc (3 - 0))
    × IsOutcome no_text no_int pages hosts result
paginate_objects-IsOutcome_example =
    paginate_objects-IsOutcome no_text no_int pages "/show-hosts" 0 2 none 3 4 total_of
      (omega arith)

abbrev begun : Progress
begun = record {
  offset = 0;
  expected_total = none;
  collected = record { seen = []; items = []; duplicates = false };
  calls = 0;
}
