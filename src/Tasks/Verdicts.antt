-- ===== src/Tasks/Verdicts.antt =====
-- What one answer of `show-task` says of the tasks that are waited for.
use Prim.Native.String.{◌++◌ as append}
use arodonata.Common.{
  ℕ, String, Bool, true, false, ◌&&◌, ◌||◌, Option, none, some, List, [], ◌∷◌, length, ltb,
  if◌then◌else◌, str_eq,
}
use arodonata.Common.Text.{strip, lower, underscored}
use arodonata.Common.Json.{Value, get, elements, is_dict}

-- core/models/common.py, `ApiCallResult`, without its texts for people.
pub record ApiCallResult : Type 0 where
  pub success : Bool
  pub status_code : ℕ
  pub response : Value
  pub error_code : Option String
  pub task_id : Option String

-- `TASK_SUCCESS_STATUSES`, `TASK_FAILURE_STATUSES`, `TASK_IN_PROGRESS_STATUSES`.
pub data Class : Type 0 where
  succeeded failed in_progress unknown : Class

unfoldable pub classify : String → Class
classify status =
    if str_eq status "succeeded"
    then succeeded
    else if str_eq status "failed" || str_eq status "partially succeeded" || str_eq status "aborted"
    then failed
    else if str_eq status "in progress"
        || str_eq status "pending"
        || str_eq status "initializing"
        || str_eq status "queued"
    then in_progress
    else unknown

-- One element of `tasks` that is a dictionary: its status, stripped and lowered, and its progress.
pub record TaskEntry : Type 0 where
  pub status : String
  pub progress : Option ℕ

-- `str(t.get("status") or "")`: the API's statuses are texts, and any other value reads as none.
status_text : Value → String
status_text (Value.str s) = s
status_text _ = ""

-- `isinstance(progress, int | float)`: a truth value is an integer in Python.
progress_of : Value → Option ℕ
progress_of (Value.num n) = some n
progress_of (Value.bool true) = some 1
progress_of (Value.bool false) = some 0
progress_of _ = none

unfoldable pub entry_of : Value → TaskEntry
unfolding status_text progress_of strip lower get
entry_of task = record {
  status = lower (strip (status_text (get "status" task)));
  progress = progress_of (get "progress-percentage" task);
}

-- `[t for t in tasks_raw if isinstance(t, dict)]`, each read.
unfoldable pub entries : List Value → List TaskEntry
unfolding entry_of
entries [] = []
entries (t ∷ ts) = let rest = entries ts in if is_dict t then entry_of t ∷ rest else rest

below_100 : Option ℕ → Bool
below_100 none = false
below_100 (some p) = ltb p 100

unfoldable pub is_running : TaskEntry → Bool
unfolding classify below_100
is_running t = elim (classify t.status) [
  | succeeded ↦ false
  | failed ↦ false
  | in_progress ↦ true
  | unknown ↦ below_100 t.progress
]

unfoldable pub any_running : List TaskEntry → Bool
unfolding is_running
any_running [] = false
any_running (t ∷ ts) = is_running t || any_running ts

unfoldable pub is_success : TaskEntry → Bool
unfolding classify
is_success t = elim (classify t.status) [ succeeded ↦ true | _ ↦ false ]

unfoldable pub all_success : List TaskEntry → Bool
unfolding is_success
all_success [] = true
all_success (t ∷ ts) = is_success t && all_success ts

-- `next((st for st in statuses if st not in TASK_SUCCESS_STATUSES), "failed")`.
unfoldable pub first_failed : List TaskEntry → String
unfolding is_success
first_failed [] = "failed"
first_failed (t ∷ ts) = if is_success t then first_failed ts else t.status

unfoldable pub is_nonempty {ℓ} : {A : Type ℓ} → List A → Bool
is_nonempty [] = false
is_nonempty (x ∷ xs) = true

-- The result once every task has reached a terminal state.
unfoldable pub task_result : String → ApiCallResult → List TaskEntry → ApiCallResult
unfolding all_success first_failed is_nonempty underscored
task_result primary reply ts =
    if is_nonempty ts && all_success ts
    then record {
      success = true;
      status_code = reply.status_code;
      response = reply.response;
      error_code = none;
      task_id = some primary;
    }
    else record {
      success = false;
      status_code = reply.status_code;
      response = reply.response;
      error_code = some (append "task_" (underscored (first_failed ts)));
      task_id = some primary;
    }

pub data Judgement : Type 0 where
  -- The call failed, or `tasks` is missing, malformed or empty.
  unusable : Judgement
  running : Judgement
  finished : ApiCallResult → Judgement

unfoldable pub judge_entries : ℕ → String → ApiCallResult → List TaskEntry → Judgement
judge_entries wanted primary reply ts =
    if any_running ts || ltb (length ts) wanted
    then running
    else finished (task_result primary reply ts)

-- The body of the loop from `if not poll_res.success` on; `wanted` is the number of tasks.
unfoldable pub judge : ℕ → String → ApiCallResult → Judgement
judge wanted primary reply =
    let tasks = elements (get "tasks" reply.response) in
    if reply.success && is_nonempty tasks
    then judge_entries wanted primary reply (entries tasks)
    else unusable
