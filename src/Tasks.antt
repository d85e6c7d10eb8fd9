-- ===== src/Tasks.antt =====
-- adapters/checkpoint/task_waiter.py: the task ids of an answer, and `TaskWaiter.wait_for_tasks`.
-- Times are whole milliseconds. The texts of errors and the summary of a failed task are not
-- modelled, nor is `span_attrs`.
mod Verdicts
pub mod Ids
pub mod Outcomes
pub mod Success
pub mod Returns
pub mod Examples
use arodonata.Common.{
  ℕ, zero, suc, ◌+◌, ◌-◌, ◌*◌, ◌/◌, min, String, Bool, true, false, not, ◌&&◌, ◌||◌, Option, none,
  some, List, [], ◌∷◌, ◌++◌, map, length, ltb, leb, ◌==◌, if◌then◌else◌, str_eq,
}
use arodonata.Common.Text.{strip, is_empty}
use arodonata.Common.Json.{Value, get, elements, is_dict}
pub use Verdicts.{
  ApiCallResult, TaskEntry, Class, succeeded, failed, in_progress, unknown, Judgement, unusable,
  running, finished,
}
unfoldable pub use Verdicts.{
  classify, entry_of, entries, is_running, any_running, is_success, all_success, first_failed,
  is_nonempty, judge, judge_entries, task_result,
}

unfoldable pub contains : String → List String → Bool
contains s [] = false
contains s (t ∷ ts) = str_eq t s || contains s ts

-- `value.strip()` of a text that is not blank, and which `seen` does not hold yet.
pub new_id : List String → Value → List String
unfolding contains strip
new_id seen (Value.str s) =
    let clean = strip s in if is_empty clean || contains clean seen then [] else clean ∷ []
new_id seen _ = []

pub id_value : Value → Value
unfolding get
id_value (Value.str s) = Value.str s
id_value v = get "task-id" v

pub more_ids : List String → List Value → List String
unfolding new_id id_value
more_ids seen [] = seen
more_ids seen (v ∷ vs) = more_ids (seen ++ new_id seen (id_value v)) vs

-- `extract_task_ids`: the direct id, then those of the list, each once.
pub extract_task_ids : Value → List String
unfolding more_ids new_id get elements
extract_task_ids v = more_ids (new_id [] (get "task-id" v)) (elements (get "tasks" v))

-- `[t.strip() for t in ids if t and t.strip()]`.
pub clean_ids : List String → List String
unfolding strip
clean_ids [] = []
clean_ids (t ∷ ts) =
    let rest = clean_ids ts in let clean = strip t in if is_empty clean then rest else clean ∷ rest

-- The settings of a `TaskWaiter`; the backoff factor is in tenths.
pub record Waiter : Type 0 where
  pub task_timeout : ℕ
  pub initial_delay : ℕ
  pub max_delay : ℕ
  pub backoff_tenths : ℕ
  pub max_consecutive_errors : ℕ

-- `DEFAULT_INITIAL_DELAY`, `DEFAULT_MAX_DELAY`, `DEFAULT_BACKOFF_FACTOR`,
-- `MAX_CONSECUTIVE_POLL_ERRORS`, and the default timeout.
abbrev pub default_waiter : Waiter
default_waiter = record {
  task_timeout = 900000;
  initial_delay = 2000;
  max_delay = 10000;
  backoff_tenths = 15;
  max_consecutive_errors = 5;
}

-- What `poll_fn` does: it answers, or raises one of `ApiTimeoutError`, `TransportError` and
-- `OSError`, or `ServerIdentityError`, which is passed on.
pub data Polled : Type 0 where
  answered : ApiCallResult → Polled
  transport_error : Polled
  identity_error : Polled

-- One round of the loop as the outside world makes it: the time since the last round, the time by
-- which the sleep is longer than asked for, and the poll.
pub record Round : Type 0 where
  pub lag : ℕ
  pub oversleep : ℕ
  pub polled : Polled

-- `clock` is what `self._monotonic()` reads.
pub record Loop : Type 0 where
  pub clock : ℕ
  pub delay : ℕ
  pub consecutive_errors : ℕ
  pub polls : ℕ

pub data Outcome : Type 0 where
  returned : ApiCallResult → Outcome
  task_timeout_error : Outcome
  task_poll_error : Outcome
  server_identity_error : Outcome

pub data Turn : Type 0 where
  again : Loop → Turn
  ends : Outcome → Turn

abbrev pub backoff : Waiter → ℕ → ℕ
backoff w delay = min w.max_delay (delay * w.backoff_tenths / 10)

-- A transport error, or an answer that cannot be used.
pub count_error : Waiter → Loop → Turn
count_error w l =
    if leb w.max_consecutive_errors (l.consecutive_errors + 1)
    then ends task_poll_error
    else again
        (record l { delay = backoff w l.delay; consecutive_errors = l.consecutive_errors + 1 })

pub after_judgement : Waiter → Loop → Judgement → Turn
unfolding count_error
after_judgement w l unusable = count_error w l
after_judgement w l running = again (record l { delay = backoff w l.delay; consecutive_errors = 0 })
after_judgement w l (finished result) = ends (returned result)

pub after_poll : Waiter → ℕ → String → Loop → Polled → Turn
unfolding after_judgement count_error
after_poll w wanted primary l (answered reply) = after_judgement w l (judge wanted primary reply)
after_poll w wanted primary l transport_error = count_error w l
after_poll w wanted primary l identity_error = ends server_identity_error

-- One pass through the body of `while True`.
unfoldable pub turn : Waiter → ℕ → String → ℕ → Loop → Round → Turn
unfolding after_poll
turn w wanted primary deadline l r =
    let now = l.clock + r.lag in
    let woken = now + min l.delay (deadline - now) + r.oversleep in
    if leb deadline now
    then ends task_timeout_error
    else if leb deadline woken
    then ends task_timeout_error
    else after_poll w wanted primary (record l { clock = woken; polls = l.polls + 1 }) r.polled

-- The loop; `none` means that the fuel ran out.
pub wait_loop : ℕ → Waiter → ℕ → String → ℕ → (ℕ → Round) → Loop → Option Outcome
wait_loop zero w wanted primary deadline rounds l = none
wait_loop (suc fuel) w wanted primary deadline rounds l =
    elim (turn w wanted primary deadline l (rounds 0)) [
      | ends outcome ↦ some outcome
      | again l' ↦ wait_loop fuel w wanted primary deadline (λ i. rounds (suc i)) l'
    ]

pub budget_of : Waiter → Option ℕ → ℕ
budget_of w none = w.task_timeout
budget_of w (some timeout) = timeout

pub wait_for_clean :
    ℕ → Waiter → Option ℕ → ApiCallResult → ℕ → (ℕ → Round) → List String → Option Outcome
unfolding budget_of
wait_for_clean fuel w timeout initial start rounds [] = some (returned initial)
wait_for_clean fuel w timeout initial start rounds (primary ∷ rest) =
    wait_loop fuel w (length (primary ∷ rest)) primary (start + budget_of w timeout) rounds
      (record { clock = start; delay = w.initial_delay; consecutive_errors = 0; polls = 0 })

-- `wait_for_tasks` at the time `start`; `initial` is `initial_result`, or a plain success in its
-- place.
pub wait_for_tasks :
    ℕ → Waiter → List String → Option ℕ → ApiCallResult → ℕ → (ℕ → Round) → Option Outcome
unfolding wait_for_clean
wait_for_tasks fuel w ids timeout initial start rounds =
    wait_for_clean fuel w timeout initial start rounds (clean_ids ids)
