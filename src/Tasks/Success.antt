-- ===== src/Tasks/Success.antt =====
-- When `wait_for_tasks` reports success.
use arodonata.Common.{
  ℕ, suc, ◌≤◌, ◌≡◌, ◌↔◌, refl, String, true, false, Option, some, List, [], ◌∷◌, length, arith, All,
  str_eq_iff,
}
use arodonata.Common.Json.{get, elements}
use arodonata.Tasks.{
  Waiter, Round, wait_for_tasks, ApiCallResult, TaskEntry, returned, clean_ids, judge,
  judge_entries, answered, finished, entries, is_running, any_running, is_success, all_success,
  task_result,
}
use arodonata.Tasks.Outcomes.{wait_for_tasks-Explains}

abbrev pub HasSucceeded : TaskEntry → Type 0
HasSucceeded t = t.status ≡ "succeeded"

is_success_iff : (t : TaskEntry) → (is_success t ≡ true) ↔ HasSucceeded t
unfolding is_success
is_success_iff t = (
  λ h. ground (arith, str_eq_iff t.status "succeeded"),
  λ h. ground (arith, str_eq_iff t.status "succeeded"),
)

all_success_iff : (ts : List TaskEntry) → (all_success ts ≡ true) ↔ All HasSucceeded ts
unfolding all_success
all_success_iff [] = (λ h. tt, λ h. refl)
all_success_iff (t ∷ ts) =
    let (one, one') = is_success_iff t in
    let (more, more') = all_success_iff ts in
    (λ h. (one (ground arith), more (ground arith)), λ h. ground (arith, one' h.0, more' h.1))

any_running-All :
    (ts : List TaskEntry) → any_running ts ≡ false → All (λ t. is_running t ≡ false) ts
unfolding any_running
any_running-All [] h = tt
any_running-All (t ∷ ts) h = (ground arith, any_running-All ts (ground arith))

-- What the final answer says: the tasks that it names, none of which is in progress, are at least as
-- many as were asked for, and the result is a success exactly if each of them succeeded.
abbrev pub IsVerdict : ℕ → ApiCallResult → ApiCallResult → Type 0
IsVerdict wanted reply r =
    let ts = entries (elements (get "tasks" reply.response)) in
    (wanted ≤ length ts)
    × All (λ t. is_running t ≡ false) ts
    × ((r.success ≡ true) ↔ All HasSucceeded ts)
    × (r.response ≡ reply.response)

task_result-success :
    (primary : String) (reply : ApiCallResult) (ts : List TaskEntry)
    → 1 ≤ length ts
    → ((task_result primary reply ts).success ≡ true) ↔ All HasSucceeded ts
unfolding task_result
task_result-success primary reply [] h = absurd (omega arith)
task_result-success primary reply (t ∷ ts) h =
    let (all, all') = all_success_iff (t ∷ ts) in
    (λ s. all (ground arith), λ a. ground (arith, all' a))

task_result-response :
    (primary : String) (reply : ApiCallResult) (ts : List TaskEntry)
    → (task_result primary reply ts).response ≡ reply.response
unfolding task_result
task_result-response primary reply ts = ground arith

judge_entries-finished :
    (wanted : ℕ) (primary : String) (reply r : ApiCallResult) (ts : List TaskEntry)
    → judge_entries wanted primary reply ts ≡ finished r
    → (any_running ts ≡ false) × (wanted ≤ length ts) × (r ≡ task_result primary reply ts)
unfolding judge_entries
judge_entries-finished wanted primary reply r ts e = ground arith

judge-finished :
    (wanted : ℕ) (primary : String) (reply r : ApiCallResult)
    → judge wanted primary reply ≡ finished r
    → judge_entries wanted primary reply (entries (elements (get "tasks" reply.response)))
      ≡ finished r
unfolding judge
judge-finished wanted primary reply r e = ground arith

judge-IsVerdict :
    (n : ℕ) (primary : String) (reply r : ApiCallResult)
    → judge (suc n) primary reply ≡ finished r
    → IsVerdict (suc n) reply r
judge-IsVerdict n primary reply r e =
    let ts = entries (elements (get "tasks" reply.response)) in
    let (quiet, enough, same) =
      judge_entries-finished (suc n) primary reply r ts
        (judge-finished (suc n) primary reply r e) in
    (
      enough,
      any_running-All ts quiet,
      rw same (task_result-success primary reply ts (omega (arith, enough))),
      rw same (task_result-response primary reply ts),
    )

-- If an id is left once the blank ones are dropped, a wait for tasks that returns a result returns it by
-- the answer to one of its polls, in which at least as many tasks are named as were asked for and none
-- is in progress; it reports success exactly if each of these tasks has the status `succeeded`, and it
-- carries that answer.
pub wait_for_tasks-IsVerdict :
    (fuel : ℕ) (w : Waiter) (primary : String) (ids rest : List String) (timeout : Option ℕ)
    (initial r : ApiCallResult) (start : ℕ) (rounds : ℕ → Round)
    → clean_ids ids ≡ primary ∷ rest
    → wait_for_tasks fuel w ids timeout initial start rounds ≡ some (returned r)
    → (i : ℕ) × (reply : ApiCallResult) × ((rounds i).polled ≡ answered reply)
      × IsVerdict (length (primary ∷ rest)) reply r
wait_for_tasks-IsVerdict fuel w primary ids rest timeout initial r start rounds named e =
    let (i, _, _, (_, (reply, polled, verdict))) =
      wait_for_tasks-Explains fuel w primary ids rest timeout initial start rounds (returned r)
        named e in
    (i, reply, polled, judge-IsVerdict (length rest) primary reply r verdict)
