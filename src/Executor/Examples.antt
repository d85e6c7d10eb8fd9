-- ===== src/Executor/Examples.antt =====
-- A pass over one domain, with a server that answers in order or fails, and the theorems at it.
use arodonata.Common.{All, String, Option, Bool, true, false, none, some, List, [], ◌∷◌, ◌≡◌, refl}
use arodonata.Common.Json.{end, find}
use arodonata.Inverse.Actions.{create, update}
use arodonata.Executor.Plan.{
  PlannedAction, Stamp, ActionResult, resolve_command, allowed_command, is_head_stale,
  spec_references,
}
use arodonata.Executor.Wire.{
  Call, show_head, open_session, write, publish, discard, logout, Answer, replied, failed,
  cancelled, Server, History, history_of, Ends, and_then, check_head, after_head, after_quiet,
  discard_quietly, send, Run, returned, raised,
}
use arodonata.Executor.Session.{
  Setting, Pass, add_name, after_write, get_result, is_broken, or_else, put_failure, put_success,
  result_of, run_action, run_actions, write_action,
}
use arodonata.Executor.Publish.{
  run_session, after_publish, close, conclude, discard_and, fail_results, give_up, publish_if_fresh,
  publish_session, put_published, put_session, put_unpublished, set_outcome, verify_and_publish,
  wrap_up,
}
use arodonata.Executor.Passes.{
  Stamps, Domain, empty_pass, apply_pass, apply_groups, group_by_domain, apply_domains, add_action,
  apply_domain, write_if_fresh, find_stamp, write_domain, after_open, start_session, in_order,
}
use arodonata.Common.Affixes.{ends_with}
use arodonata.Executor.Reported.Every.{IsReported, apply_domain-IsReported}
use arodonata.Executor.Closed.{watch, idle}
use arodonata.Executor.Closed.Every.{apply_pass-idle}
use arodonata.Executor.Guarded.{is_guarded}
use arodonata.Executor.Guarded.Every.{apply_pass-guarded}

abbrev publishing : Setting
publishing = record { force = false; no_publish = false; keep_session = false }

abbrev add_host : PlannedAction
add_host = record {
  action_id = "a1";
  mgmt_name = "m";
  domain_name = "D";
  object_type = "host";
  name = "web";
  requested_name = "web";
  target_uid = none;
  outcome = create;
  command = some "add-host";
  payload = end;
  desired_spec = end;
  depends_on = [];
}

abbrev set_group : PlannedAction
set_group = record add_host {
  action_id = "a2";
  object_type = "group";
  name = "all";
  requested_name = "all";
  outcome = update;
  command = none;
  depends_on = "a1" ∷ [];
}

abbrev plan : List PlannedAction
plan = add_host ∷ set_group ∷ []

abbrev stamps : Stamps
stamps =
    ("m:D", record { last_session_uid = some "u"; last_published_at = some 5; readable = true })
    ∷ []

abbrev reply : Answer
reply = replied (record { success = true; sid = "s"; uid = some "u"; published_at = some 5 })

abbrev answers : Server
answers h k c = reply

-- The command of the action does not reach the server.
abbrev fails : Server
fails h k (write sid command payload) = failed
fails h k c = reply

-- The task is cancelled while it publishes.
abbrev interrupts : Server
interrupts h k (publish sid) = cancelled
interrupts h k c = reply

abbrev calls_of : History → List Call
calls_of [] = []
calls_of (e ∷ h) = e.call ∷ calls_of h

abbrev outcomes_of : List ActionResult → List (String × Bool)
outcomes_of [] = []
outcomes_of (r ∷ rs) = (r.action_id, r.success) ∷ outcomes_of rs

abbrev report_of : Run Pass → List (String × Bool)
report_of (returned pass h) = outcomes_of pass.results
report_of (raised fault h) = []

run : Server → Setting → Run Pass
unfolding apply_pass apply_groups group_by_domain resolve_command allowed_command and_then
    apply_domains add_action apply_domain check_head after_head write_if_fresh is_head_stale
    find_stamp write_domain after_open start_session run_session ends_with spec_references
    after_publish close conclude discard_and fail_results give_up publish_if_fresh publish_session
    put_published put_session put_unpublished set_outcome verify_and_publish wrap_up add_name
    after_write get_result is_broken or_else put_failure put_success result_of run_action
    run_actions write_action after_quiet discard_quietly send in_order
run server s = apply_pass server s stamps plan []

test_published : calls_of (history_of (run answers publishing)) ≡ (
    logout "s"
    ∷ publish "s"
    ∷ show_head
    ∷ write "s" "set-group" end
    ∷ write "s" "add-host" end
    ∷ open_session
    ∷ show_head
    ∷ [])
unfolding run find
test_published = refl

test_reported : report_of (run answers publishing) ≡ ("a1", true) ∷ ("a2", true) ∷ []
unfolding run find
test_reported = refl

-- The group depends on the host, which fails, so that nothing is left to publish.
test_failed :
    calls_of (history_of (run fails publishing))
    ≡ (logout "s" ∷ discard "s" ∷ write "s" "add-host" end ∷ open_session ∷ show_head ∷ [])
unfolding run find
test_failed = refl

test_interrupted : calls_of (history_of (run interrupts publishing)) ≡ (
    logout "s"
    ∷ discard "s"
    ∷ publish "s"
    ∷ show_head
    ∷ write "s" "set-group" end
    ∷ write "s" "add-host" end
    ∷ open_session
    ∷ show_head
    ∷ [])
unfolding run find
test_interrupted = refl

apply_pass-idle_example :
    watch (history_of (apply_pass interrupts publishing stamps plan [])) ≡ idle
apply_pass-idle_example = apply_pass-idle interrupts publishing stamps plan refl

apply_pass-guarded_example :
    is_guarded stamps (history_of (apply_pass answers publishing stamps plan [])) ≡ true
apply_pass-guarded_example = apply_pass-guarded answers publishing stamps plan refl

abbrev domain : Domain
domain = record { key = record { mgmt_name = "m"; domain_name = "D" }; actions = plan }

abbrev known : Option Stamp
known = some (record { last_session_uid = some "u"; last_published_at = some 5; readable = true })

apply_domain-IsReported_example :
    Ends
      (λ out g. All (λ a. IsReported "m:D" a out) plan)
      (λ g. Unit {0})
      (apply_domain answers publishing known domain empty_pass [])
apply_domain-IsReported_example =
    apply_domain-IsReported answers publishing known domain empty_pass [] refl
