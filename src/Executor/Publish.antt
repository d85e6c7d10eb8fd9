-- ===== src/Executor/Publish.antt =====
-- cpcrud/executor.py: the end of a write session in `_stream_single_pass`, by staging, discarding or
-- publishing, with its `except` and `finally`.
use arodonata.Common.{
  String, Bool, true, false, Option, none, some, List, [], ◌∷◌, ◌++◌, if◌then◌else◌,
}
use arodonata.Inverse.Actions.{Outcome, error, plan_stale}
use arodonata.Executor.Plan.{PlannedAction, ActionResult, is_write, Stamp, Head, is_head_stale}
use arodonata.Executor.Wire.{
  Key, publish, discard, logout, Answer, replied, failed, refused, cancelled, History, Server,
  identity_error, interrupted, Run, returned, raised, and_then, send, check_head, discard_quietly,
}
use arodonata.Executor.Session.{Results, get_result, Setting, keeps, Pass, Progress, run_actions}

-- `prev_r.model_copy(update={...})`
unfoldable pub set_outcome : Outcome → ActionResult → ActionResult
set_outcome o r = record r { outcome = o; success = false }

-- The loop over the domain's actions, for the results that `test` selects.
unfoldable pub fail_results :
    Outcome → (ActionResult → Bool) → List PlannedAction → Results → Results
fail_results o test [] results = results
fail_results o test (a ∷ actions) results = elim (get_result a.action_id results) [
  | none ↦ fail_results o test actions results
  | some r ↦ fail_results o test actions (if test r then set_outcome o r ∷ results else results)
]

abbrev pub every_result : ActionResult → Bool
every_result r = true

abbrev pub is_written : ActionResult → Bool
is_written r = is_write r.outcome

-- A pass, and whether its session is published or discarded.
pub record Ended : Type 0 where
  pub pass : Pass
  pub is_closed : Bool

abbrev ended : Pass → Bool → History → Run Ended
ended pass closed h = returned (record { pass = pass; is_closed = closed }) h

unfoldable pub put_session :
    String → Option String → List (String × String) → List (String × String)
put_session label none sessions = sessions
put_session label (some uid) sessions = (label, uid) ∷ sessions

unfoldable pub put_published : String → Option String → Pass → Pass
put_published label uid pass = record pass {
  published_domains = pass.published_domains ++ label ∷ [];
  published_sessions = put_session label uid pass.published_sessions;
}

unfoldable pub put_stale : String → List PlannedAction → Pass → Pass
put_stale label actions pass = record pass {
  stale_domains = pass.stale_domains ++ label ∷ [];
  results = fail_results plan_stale every_result actions pass.results;
}

unfoldable pub put_unpublished : List PlannedAction → Pass → Pass
put_unpublished actions pass = record pass {
  results = fail_results error is_written actions pass.results;
}

abbrev started : Results → Progress
started results = record {
  failed_names = [];
  failed_ids = [];
  any_write_succeeded = false;
  results = results;
}

module _ (server : Server) (k : Key) (sid : String) where
  unfoldable pub discard_and : Pass → History → Run Ended
  discard_and pass h = and_then (discard_quietly server k sid h) (λ done g. ended pass true g)

  module _ (label : String) (actions : List PlannedAction) where
    unfoldable pub after_publish : Pass → Answer → History → Run Ended
    after_publish pass (replied r) h =
        if r.success
        then ended (put_published label r.uid pass) true h
        else discard_and (put_unpublished actions pass) h
    after_publish pass failed h = discard_and (put_unpublished actions pass) h
    after_publish pass refused h = raised identity_error h
    after_publish pass cancelled h = raised interrupted h

    unfoldable pub publish_session : Pass → History → Run Ended
    publish_session pass h =
        after_publish pass (server h k (publish sid)) (send server k (publish sid) h)

    unfoldable pub publish_if_fresh : Stamp → Pass → Head → History → Run Ended
    publish_if_fresh stamp pass head h =
        if is_head_stale (some stamp) head
        then discard_and (put_stale label actions pass) h
        else publish_session pass h

    -- The domain is read again, if the plan has its stamp.
    unfoldable pub verify_and_publish : Bool → Option Stamp → Pass → History → Run Ended
    verify_and_publish force none pass h = publish_session pass h
    verify_and_publish true (some stamp) pass h = publish_session pass h
    verify_and_publish false (some stamp) pass h =
        and_then (check_head server k h) (λ head g. publish_if_fresh stamp pass head g)

    unfoldable pub conclude : Setting → Option Stamp → Pass → Bool → History → Run Ended
    conclude s stamp pass any_write_succeeded h =
        if keeps s
        then ended pass false h
        else if s.no_publish
        then discard_and pass h
        else if any_write_succeeded
        then verify_and_publish s.force stamp pass h
        else ended pass false h

  module _ (s : Setting) where
    -- `finally`
    unfoldable pub wrap_up : Bool → History → History
    wrap_up closed h =
        if keeps s
        then h
        else send server k (logout sid) (if closed then h else send server k (discard sid) h)

    -- `except BaseException`; nothing that raises comes after the session is published or discarded.
    unfoldable pub give_up : History → History
    give_up h = if keeps s then h else send server k (discard sid) h

    unfoldable pub close : Run Ended → Run Pass
    close (returned e h) = returned e.pass (wrap_up e.is_closed h)
    close (raised fault h) = raised fault (wrap_up true (give_up h))

    unfoldable pub run_session :
        Option Stamp → String → List PlannedAction → Pass → History → Run Pass
    run_session stamp label actions pass h = close (
        and_then (run_actions server k sid actions (started pass.results) h) (λ p g.
          conclude label actions s stamp (record pass { results = p.results }) p.any_write_succeeded
            g))
