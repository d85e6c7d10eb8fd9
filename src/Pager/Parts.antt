-- ===== src/Pager/Parts.antt =====
-- adapters/checkpoint/pager.py: the data of a pass, and the checks of a page.
use Prim.Native.String.{◌++◌ as append}
use arodonata.Common.{
  ℕ, suc, min, max, String, Bool, true, false, not, ◌||◌, Option, none, some, List, [], ◌∷◌, ◌++◌,
  leb, ◌==◌, if◌then◌else◌, str_eq,
}
use arodonata.Common.Json.{Value, has}
use arodonata.Tasks.{ApiCallResult, contains}
use arodonata.Pager.Page.{unpack_task_details_page, item_identity}

abbrev pub PageCaller : Type 0
PageCaller = ℕ → ℕ → ℕ → ApiCallResult

-- `ApiQueryResult`.
pub record QueryResult : Type 0 where
  pub success : Bool
  pub objects : List Value
  pub total : ℕ
  pub code : Option String

pub data Discontinuity : Type 0 where
  total_changed stalled from_gap to_gap not_advancing recovery_total_changed count_mismatch :
      Discontinuity

-- How a pass ends: by a result, by `_DiscontinuityError`, or by the error that `int` raises.
pub data Pass : Type 0 where
  returned : QueryResult → Pass
  discontinuity : Discontinuity → Pass
  bad_number : Pass

-- What a pass has seen and collected, and whether an item was seen before.
pub record Collected : Type 0 where
  pub seen : List String
  pub items : List Value
  pub duplicates : Bool

pub record Progress : Type 0 where
  pub offset : ℕ
  pub expected_total : Option ℕ
  pub collected : Collected
  pub calls : ℕ

pub data Turn : Type 0 where
  stop : ℕ → Pass → Turn
  again : Progress → Turn

-- The arguments of a pass.
pub record Query : Type 0 where
  pub initial_offset : ℕ
  pub limit : ℕ
  pub is_task_query : Bool
  pub collection_key : Option String

abbrev pub max_page_limit : ℕ
max_page_limit = 500

abbrev pub boundary_window_radius : ℕ
boundary_window_radius = 10

unfoldable pub effective_limit : ℕ → ℕ
effective_limit limit = max 1 (min limit max_page_limit)

-- `clean_cmd in TASK_QUERY_COMMANDS`.
unfoldable pub is_task_command : String → Bool
is_task_command c =
    str_eq c "show-unused-objects"
    || str_eq c "where-used"
    || str_eq c "show-changes"
    || str_eq c "show-Gateways-and-servers-task"

unfoldable pub page_data : Query → ApiCallResult → Value
unfolding unpack_task_details_page has
page_data q r =
    if q.is_task_query || has "tasks" r.response
    then unpack_task_details_page r.response
    else r.response

pub data Number : Type 0 where
  missing : Number
  number : ℕ → Number
  unreadable : Number

-- `int` of a field, if it is not None.
unfoldable pub to_int : (String → Option ℕ) → Value → Number
to_int parse_int Value.null = missing
to_int parse_int (Value.num n) = number n
to_int parse_int (Value.bool true) = number 1
to_int parse_int (Value.bool false) = number 0
to_int parse_int (Value.str s) = elim (parse_int s) [ none ↦ unreadable | some n ↦ number n ]
to_int parse_int _ = unreadable

-- Code of a call that failed: `call_res.error_code or f"http_{call_res.status_code}"`.
unfoldable pub failure_code : (Value → String) → ApiCallResult → String
failure_code show r = elim r.error_code [
  | none ↦ append "http_" (show (Value.num r.status_code))
  | some c ↦ if str_eq c "" then append "http_" (show (Value.num r.status_code)) else c
]

unfoldable pub failed : (Value → String) → ℕ → ApiCallResult → Pass
unfolding failure_code
failed show total r =
    returned
      (record { success = false; objects = []; total = total; code = some (failure_code show r) })

unfoldable pub or_zero : Option ℕ → ℕ
or_zero none = 0
or_zero (some n) = n

unfoldable pub add_item : (Value → String) → ℕ → Value → Collected → Collected
unfolding item_identity contains
add_item show idx item c =
    let uid = item_identity show item idx in
    if contains uid c.seen
    then record c { duplicates = true }
    else record c { seen = uid ∷ c.seen; items = c.items ++ item ∷ [] }

unfoldable pub collect : (Value → String) → ℕ → List Value → Collected → Collected
unfolding add_item
collect show idx [] c = c
collect show idx (item ∷ items) c = collect show (suc idx) items (add_item show idx item c)

-- `raw is not None and int(raw) != expected`, by what `int` gives.
unfoldable pub differs : Number → ℕ → Bool
differs missing n = false
differs (number m) n = not (m == n)
differs unreadable n = false

unfoldable pub is_unreadable : Number → Bool
is_unreadable unreadable = true
is_unreadable _ = false

-- Each check of an answer in turn: it passes, or ends the pass.
unfoldable pub check : Number → ℕ → Discontinuity → Turn → ℕ → Turn
unfolding differs is_unreadable
check n expected reason next calls =
    if is_unreadable n
    then stop calls bad_number
    else if differs n expected
    then stop calls (discontinuity reason)
    else next

unfoldable pub number_or : Number → ℕ → ℕ
number_or (number n) d = n
number_or _ d = d

-- From the update of the offset to the end of the round.
unfoldable pub advance : Progress → ℕ → Number → ℕ → Collected → ℕ → Turn
unfolding number_or
advance p total to expected_to c calls =
    let effective_to = number_or to expected_to in
    if leb effective_to p.offset
    then stop calls (discontinuity not_advancing)
    else again (record {
      offset = effective_to;
      expected_total = some total;
      collected = c;
      calls = calls;
    })

unfoldable pub expected_or : Option ℕ → ℕ → ℕ
expected_or none total = total
expected_or (some n) total = n
