-- ===== src/Executor/Session.antt =====
-- cpcrud/executor.py: what `_stream_single_pass` does in one write session.
use arodonata.Common.{
  String, Bool, true, false, not, ◌&&◌, ◌||◌, Option, none, some, List, [], ◌∷◌, if◌then◌else◌,
  str_eq, any,
}
use arodonata.Common.Text.{is_empty}
use arodonata.Inverse.Actions.{Outcome, error, skipped_dependency}
use arodonata.Executor.Plan.{
  PlannedAction, ActionResult, is_write, is_settled, resolve_command, spec_references,
}
use arodonata.Executor.Wire.{
  Key, write, Reply, Answer, replied, failed, refused, cancelled, History, Server, identity_error,
  interrupted, invalid_command, Run, returned, raised, and_then, send,
}

-- `results_by_id`: an entry covers the earlier ones of its id.
abbrev pub Results : Type 0
Results = List ActionResult

unfoldable pub get_result : String → Results → Option ActionResult
get_result id [] = none
get_result id (r ∷ rs) =
    let rest = get_result id rs in if str_eq r.action_id id then some r else rest

pub record Setting : Type 0 where
  pub force : Bool
  pub no_publish : Bool
  pub keep_session : Bool

-- The session is staged: it stays open.
abbrev pub keeps : Setting → Bool
keeps s = s.no_publish && s.keep_session

-- The lists that the report has. `published_sessions` and the stamps are keyed by labels.
pub record Pass : Type 0 where
  pub results : Results
  pub published_domains : List String
  pub published_sessions : List (String × String)
  pub staged_sessions : List (String × Option String)
  pub stale_domains : List String

pub record Progress : Type 0 where
  pub failed_names : List String
  pub failed_ids : List String
  pub any_write_succeeded : Bool
  pub results : Results

unfoldable pub add_name : String → List String → List String
add_name name names = if is_empty name then names else name ∷ names

-- The result of an action that is not written.
unfoldable pub result_of : Outcome → Bool → Option String → PlannedAction → ActionResult
result_of o ok command a = record {
  action_id = a.action_id;
  planned_outcome = a.outcome;
  outcome = o;
  success = ok;
  command = command;
  target_uid = a.target_uid;
}

unfoldable pub put_failure : PlannedAction → Outcome → Option String → Progress → Progress
put_failure a o command p = record p {
  failed_names = add_name a.name (add_name a.requested_name p.failed_names);
  failed_ids = a.action_id ∷ p.failed_ids;
  results = result_of o false command a ∷ p.results;
}

-- An action that planning did not make a write.
unfoldable pub put_planned : PlannedAction → Progress → Progress
unfolding result_of
put_planned a p =
    if is_settled a.outcome
    then record p { results = result_of a.outcome true a.command a ∷ p.results }
    else put_failure a a.outcome a.command p

unfoldable pub or_else : Option String → Option String → Option String
or_else none o = o
or_else (some s) o = if is_empty s then o else some s

abbrev text_or_none : Option String → Option String
text_or_none none = none
text_or_none (some s) = if is_empty s then none else some s

unfoldable pub put_success : PlannedAction → String → Reply → Progress → Progress
put_success a command r p = record p {
  any_write_succeeded = true;
  results =
      record {
        action_id = a.action_id;
        planned_outcome = a.outcome;
        outcome = a.outcome;
        success = true;
        command = some command;
        target_uid = text_or_none (or_else r.uid a.target_uid);
      }
      ∷ p.results;
}

unfoldable pub mem : String → List String → Bool
mem s names = any (str_eq s) names

-- `broken_runtime_deps` has an element.
unfoldable pub is_broken : PlannedAction → Progress → Bool
unfolding mem
is_broken a p =
    any (λ d. mem d p.failed_ids || mem d p.failed_names) a.depends_on
    || any (λ r. mem r p.failed_names) (spec_references a)

unfoldable pub after_write : PlannedAction → String → Progress → Answer → History → Run Progress
after_write a command p (replied r) h =
    returned (if r.success then put_success a command r p else put_failure a error (some command) p)
      h
after_write a command p failed h = returned (put_failure a error (some command) p) h
after_write a command p refused h = raised identity_error h
after_write a command p cancelled h = raised interrupted h

module _ (server : Server) (k : Key) (sid : String) where
  unfoldable pub write_action : PlannedAction → Option String → Progress → History → Run Progress
  write_action a none p h = raised invalid_command h
  write_action a (some command) p h =
      after_write a command p (server h k (write sid command a.payload))
        (send server k (write sid command a.payload) h)

  unfoldable pub run_action : PlannedAction → Progress → History → Run Progress
  run_action a p h =
      if not (is_write a.outcome)
      then returned (put_planned a p) h
      else if is_broken a p
      then returned (put_failure a skipped_dependency a.command p) h
      else write_action a (resolve_command a) p h

  unfoldable pub run_actions : List PlannedAction → Progress → History → Run Progress
  run_actions [] p h = returned p h
  run_actions (a ∷ actions) p h = and_then (run_action a p h) (λ q g. run_actions actions q g)
