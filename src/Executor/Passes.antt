-- ===== src/Executor/Passes.antt =====
-- cpcrud/executor.py: `_stream_single_pass` over the domains of a plan.
use arodonata.Common.{
  String, Bool, true, false, not, ◌&&◌, ◌||◌, Option, none, some, List, [], ◌∷◌, ◌++◌,
  if◌then◌else◌, str_eq, any,
}
use arodonata.Common.Text.{append}
use arodonata.Inverse.Actions.{Outcome, error, plan_stale}
use arodonata.Executor.Plan.{
  PlannedAction, is_write, is_settled, resolve_command, Stamp, Head, is_head_stale,
}
use arodonata.Executor.Wire.{
  Key, same_domain, open_session, show_session, Answer, replied, failed, refused, cancelled,
  History, Server, identity_error, interrupted, invalid_command, Run, returned, raised, and_then,
  send, check_head,
}
use arodonata.Executor.Session.{Results, get_result, Setting, keeps, Pass, result_of}
use arodonata.Executor.Publish.{run_session}

abbrev pub Stamps : Type 0
Stamps = List (String × Stamp)

unfoldable pub find_stamp : String → Stamps → Option Stamp
find_stamp label [] = none
find_stamp label ((l, stamp) ∷ stamps) =
    let rest = find_stamp label stamps in if str_eq l label then some stamp else rest

abbrev pub label_of : Key → String
label_of k = append k.mgmt_name (append ":" k.domain_name)

abbrev pub is_readable : Option Stamp → Bool
is_readable none = false
is_readable (some stamp) = stamp.readable

-- Every action of the domain has the same failure.
unfoldable pub fail_all : Outcome → List PlannedAction → Results → Results
fail_all o [] results = results
fail_all o (a ∷ actions) results = fail_all o actions (result_of o false a.command a ∷ results)

unfoldable pub plan_all : List PlannedAction → Results → Results
plan_all [] results = results
plan_all (a ∷ actions) results =
    plan_all actions (result_of a.outcome (is_settled a.outcome) a.command a ∷ results)

pub record Domain : Type 0 where
  pub key : Key
  pub actions : List PlannedAction

abbrev key_of : PlannedAction → Key
key_of a = record { mgmt_name = a.mgmt_name; domain_name = a.domain_name }

-- `domain_groups` in the order of `domain_order`.
unfoldable pub add_action : PlannedAction → List Domain → List Domain
add_action a [] = record { key = key_of a; actions = a ∷ [] } ∷ []
add_action a (d ∷ ds) =
    let rest = add_action a ds in
    if same_domain d.key (key_of a)
    then record d { actions = d.actions ++ a ∷ [] } ∷ ds
    else d ∷ rest

-- A write without an allowed command raises.
abbrev is_allowed : PlannedAction → Bool
is_allowed a = elim (resolve_command a) [ none ↦ not (is_write a.outcome) | some c ↦ true ]

unfoldable pub group_by_domain : List PlannedAction → List Domain → Option (List Domain)
group_by_domain [] ds = some ds
group_by_domain (a ∷ actions) ds =
    let rest = group_by_domain actions (add_action a ds) in if is_allowed a then rest else none

unfoldable pub staged_uid : Answer → Option String
staged_uid (replied r) = if r.success then r.uid else none
staged_uid _ = none

module _ (server : Server) (s : Setting) (stamp : Option Stamp) (d : Domain) where
  -- `show-session` under `suppress(Exception)`.
  unfoldable pub after_show : String → Pass → Answer → History → Run Pass
  after_show sid pass cancelled h = raised interrupted h
  after_show sid pass answer h =
      run_session server d.key sid s stamp (label_of d.key) d.actions
        (record pass { staged_sessions = pass.staged_sessions ++ (sid, staged_uid answer) ∷ [] }) h

  unfoldable pub start_session : String → Pass → History → Run Pass
  start_session sid pass h =
      if keeps s
      then after_show sid pass (server h d.key (show_session sid))
          (send server d.key (show_session sid) h)
      else run_session server d.key sid s stamp (label_of d.key) d.actions pass h

  unfoldable pub after_open : Pass → Answer → History → Run Pass
  after_open pass (replied r) h = start_session r.sid pass h
  after_open pass failed h =
      returned (record pass { results = fail_all error d.actions pass.results }) h
  after_open pass refused h = raised identity_error h
  after_open pass cancelled h = raised interrupted h

  abbrev has_writes : Bool
  has_writes = any (λ (a : PlannedAction). is_write a.outcome) d.actions

  unfoldable pub write_domain : Pass → History → Run Pass
  write_domain pass h =
      if has_writes
      then after_open pass (server h d.key open_session) (send server d.key open_session h)
      else returned (record pass { results = plan_all d.actions pass.results }) h

  abbrev stale : Pass → Pass
  stale pass = record pass {
    stale_domains = pass.stale_domains ++ label_of d.key ∷ [];
    results = fail_all plan_stale d.actions pass.results;
  }

  unfoldable pub write_if_fresh : Pass → Head → History → Run Pass
  write_if_fresh pass head h =
      if is_head_stale stamp head then returned (stale pass) h else write_domain pass h

  unfoldable pub apply_domain : Pass → History → Run Pass
  apply_domain pass h =
      if not s.force && (has_writes || is_readable stamp)
      then and_then (check_head server d.key h) (λ head g. write_if_fresh pass head g)
      else write_domain pass h

abbrev pub empty_pass : Pass
empty_pass = record {
  results = [];
  published_domains = [];
  published_sessions = [];
  staged_sessions = [];
  stale_domains = [];
}

-- `ordered_results`
unfoldable pub in_order : List PlannedAction → Results → Results
in_order [] results = []
in_order (a ∷ actions) results =
    let rest = in_order actions results in
    elim (get_result a.action_id results) [ none ↦ rest | some r ↦ r ∷ rest ]

abbrev reported : List PlannedAction → Pass → Pass
reported actions pass = record pass { results = in_order actions pass.results }

module _ (server : Server) (s : Setting) (stamps : Stamps) where
  unfoldable pub apply_domains : List Domain → Pass → History → Run Pass
  apply_domains [] pass h = returned pass h
  apply_domains (d ∷ ds) pass h =
      and_then (apply_domain server s (find_stamp (label_of d.key) stamps) d pass h)
        (λ next g. apply_domains ds next g)

  unfoldable pub apply_groups : List PlannedAction → Option (List Domain) → History → Run Pass
  apply_groups actions none h = raised invalid_command h
  apply_groups actions (some ds) h =
      and_then (apply_domains ds empty_pass h) (λ pass g. returned (reported actions pass) g)

  unfoldable pub apply_pass : List PlannedAction → History → Run Pass
  apply_pass actions h = apply_groups actions (group_by_domain actions []) h
