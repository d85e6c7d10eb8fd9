-- ===== src/Tasks/Examples.antt =====
-- Tests of the task waiter, and its theorems at a concrete run.
use arodonata.Common.{ℕ, zero, suc, ◌≡◌, refl, String, true, none, some, [], ◌∷◌, arith}
use arodonata.Common.Json.{Value, Items, Fields, get, elements}
use arodonata.Tasks.{
  Round, Outcome, returned, wait_for_tasks, default_waiter, ApiCallResult, answered,
  transport_error, clean_ids, extract_task_ids, turn, judge, judge_entries, entries, is_nonempty,
  wait_loop, any_running, task_result, budget_of,
}
use arodonata.Tasks.Returns.{wait_for_tasks_returns}
use arodonata.Tasks.Outcomes.{wait_for_tasks-Explains, Explains}
use arodonata.Tasks.Success.{wait_for_tasks-IsVerdict, IsVerdict}

abbrev task : String → String → Value
task id status =
    Value.obj
      (Fields.field "task-id" (Value.str id) (Fields.field "status" (Value.str status) Fields.end))

abbrev answer : String → ApiCallResult
answer status = record {
  success = true;
  status_code = 200;
  response =
      Value.obj
        (Fields.field "tasks" (Value.arr (Items.cons (task " t1 " status) Items.nil)) Fields.end);
  error_code = none;
  task_id = none;
}

abbrev script : ℕ → Round
script zero = record { lag = 1; oversleep = 0; polled = transport_error }
script (suc zero) = record { lag = 1; oversleep = 3; polled = answered (answer "in progress") }
script (suc (suc i)) = record { lag = 1; oversleep = 0; polled = answered (answer " Succeeded") }

abbrev done : ApiCallResult
done = record {
  success = true;
  status_code = 200;
  response = (answer " Succeeded").response;
  error_code = none;
  task_id = some "t1";
}

named : clean_ids (" t1 " ∷ "  " ∷ []) ≡ "t1" ∷ []
unfolding clean_ids
named = refl

ids_read : extract_task_ids (answer "queued").response ≡ "t1" ∷ []
unfolding extract_task_ids
ids_read = refl

run : wait_for_tasks 4 default_waiter (" t1 " ∷ "  " ∷ []) none done 0 script ≡ some (returned done)
unfolding wait_for_tasks clean_ids wait_loop turn judge judge_entries entries get elements
    is_nonempty any_running task_result
run = refl

wait_for_tasks_returns_example :
    (outcome : Outcome) × (wait_for_tasks 31 default_waiter (" t1 " ∷ []) (some 30) done 0 script
      ≡ some outcome)
unfolding budget_of
wait_for_tasks_returns_example =
    wait_for_tasks_returns 31 default_waiter (" t1 " ∷ []) (some 30) done 0 script (omega arith)
      (omega arith)

wait_for_tasks-Explains_example :
    (i : ℕ) × (wait_for_tasks i default_waiter (" t1 " ∷ "  " ∷ []) none done 0 script ≡ none)
    × (wait_for_tasks (suc i) default_waiter (" t1 " ∷ "  " ∷ []) none done 0 script
        ≡ some (returned done))
    × Explains default_waiter 1 "t1" 0 script (returned done) i
wait_for_tasks-Explains_example =
    wait_for_tasks-Explains 4 default_waiter "t1" (" t1 " ∷ "  " ∷ []) [] none done 0 script
      (returned done) named run

wait_for_tasks-IsVerdict_example :
    (i : ℕ) × (reply : ApiCallResult) × ((script i).polled ≡ answered reply)
    × IsVerdict 1 reply done
wait_for_tasks-IsVerdict_example =
    wait_for_tasks-IsVerdict 4 default_waiter "t1" (" t1 " ∷ "  " ∷ []) [] none done done 0 script
      named run
