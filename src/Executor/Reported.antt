-- ===== src/Executor/Reported.antt =====
-- What the results of a domain's actions say in the course of its session.
pub mod Failing
pub mod Told
pub mod Every
use arodonata.Common.{
  String, Bool, true, false, not, ◌&&◌, ◌||◌, any, Option, none, some, List, [], ◌∷◌, ◌≡◌, inl, inr,
  refl, sym, ap, ◌∙◌, str_eq, str_eq_iff, if◌then◌else◌, Bool-cases, Option-cases, arith,
}
use arodonata.Inverse.Actions.{Outcome, error, skipped_dependency}
use arodonata.Executor.Plan.{PlannedAction, ActionResult, is_write, is_settled, resolve_command}
use arodonata.Executor.Wire.{
  Key, Reply, Answer, replied, failed, refused, cancelled, write, History, Server, Ends,
  Ends-weaken, and_then-Ends, send,
}
use arodonata.Executor.Session.{
  Results, get_result, Progress, result_of, put_failure, put_planned, put_success, after_write,
  write_action, run_action, run_actions, is_broken,
}
use arodonata.Executor.Publish.{set_outcome, fail_results}

-- An action of the list has the id.
abbrev pub is_named : List PlannedAction → String → Bool
is_named actions id = any (λ (a : PlannedAction). str_eq a.action_id id) actions

-- The result says that a write was done.
abbrev pub claims : ActionResult → Bool
claims r = r.success && is_write r.planned_outcome

abbrev pub holds : (ActionResult → Bool) → Option ActionResult → Bool
holds test none = false
holds test (some r) = test r

-- Every id of the set has a result, and the test holds of it.
abbrev pub Hold : (String → Bool) → (String → ActionResult → Bool) → Results → Type 0
Hold N test results = (id : String) → N id ≡ true → holds (test id) (get_result id results) ≡ true

pub holds-weaken :
    (t u : ActionResult → Bool) (o : Option ActionResult)
    → ((r : ActionResult) → t r ≡ true → u r ≡ true)
    → holds t o ≡ true
    → holds u o ≡ true
holds-weaken t u none f h = h
holds-weaken t u (some r) f h = f r h

pub Hold-put :
    (N : String → Bool) (t u : String → ActionResult → Bool) (key : String) (r : ActionResult)
    (results : Results)
    → r.action_id ≡ key
    → ((id : String) → u id r ≡ true)
    → ((id : String) (q : ActionResult) → t id q ≡ true → u id q ≡ true)
    → Hold N t results
    → Hold (λ id. str_eq key id || N id) u (r ∷ results)
unfolding get_result
Hold-put N t u key r results same new old h id named = elim (Bool-cases (str_eq r.action_id id)) [
  | inl here ↦ rw here (new id)
  | inr there ↦
      let away : str_eq key id ≡ false = ap (λ s. str_eq s id) (sym same) ∙ there in
      let others : N id ≡ true = ground (arith, named, away) in
      rw there (holds-weaken (t id) (u id) (get_result id results) (old id) (h id others))
]

-- A write that a result claims is one of the session's, and its outcome is a write's.
abbrev pub is_sound : Bool → String → ActionResult → Bool
is_sound written id r = not (claims r) || (written && is_write r.outcome)

abbrev pub Sound : (String → Bool) → Progress → Type 0
Sound N p = Hold N (is_sound p.any_write_succeeded) p.results

abbrev pub Done : History → Type 0
Done h = Unit {0}

put_failure-Sound :
    (N : String → Bool) (a : PlannedAction) (o : Outcome) (command : Option String) (p : Progress)
    → Sound N p
    → Sound (λ id. str_eq a.action_id id || N id) (put_failure a o command p)
unfolding put_failure result_of
put_failure-Sound N a o command p v =
    Hold-put N (is_sound p.any_write_succeeded) (is_sound p.any_write_succeeded) a.action_id _
      p.results refl (λ id. refl) (λ id q w. w) v

put_planned-Sound :
    (N : String → Bool) (a : PlannedAction) (p : Progress)
    → is_write a.outcome ≡ false
    → Sound N p
    → Sound (λ id. str_eq a.action_id id || N id) (put_planned a p)
unfolding put_planned result_of
put_planned-Sound N a p unwritten v = elim (Bool-cases (is_settled a.outcome)) [
  | inl settled ↦ rw settled (
      Hold-put N (is_sound p.any_write_succeeded) (is_sound p.any_write_succeeded) a.action_id _
        p.results refl (λ id. rw unwritten refl) (λ id q w. w) v)
  | inr failing ↦ rw failing (put_failure-Sound N a a.outcome a.command p v)
]

-- What is sound without a write is sound with one.
sound-written :
    (written : Bool) (id : String) (q : ActionResult)
    → is_sound written id q ≡ true
    → is_sound true id q ≡ true
sound-written written id q w = ground (arith, w)

put_success-Sound :
    (N : String → Bool) (a : PlannedAction) (command : String) (r : Reply) (p : Progress)
    → is_write a.outcome ≡ true
    → Sound N p
    → Sound (λ id. str_eq a.action_id id || N id) (put_success a command r p)
unfolding put_success
put_success-Sound N a command r p writes v =
    Hold-put N (is_sound p.any_write_succeeded) (is_sound true) a.action_id _ p.results refl
      (λ id. rw writes refl) (sound-written p.any_write_succeeded) v

after_write-Sound :
    (N : String → Bool) (a : PlannedAction) (command : String) (p : Progress) (answer : Answer)
    (h : History)
    → is_write a.outcome ≡ true
    → Sound N p
    → Ends
        (λ q g. Sound (λ id. str_eq a.action_id id || N id) q)
        Done
        (after_write a command p answer h)
unfolding after_write put_success
after_write-Sound N a command p (replied r) h writes v = elim (Bool-cases r.success) [
  | inl done ↦ rw done (put_success-Sound N a command r p writes v)
  | inr failing ↦ rw failing (put_failure-Sound N a error (some command) p v)
]
after_write-Sound N a command p failed h writes v = put_failure-Sound N a error (some command) p v
after_write-Sound N a command p refused h writes v = tt
after_write-Sound N a command p cancelled h writes v = tt

module _ (server : Server) (k : Key) (sid : String) where
  write_action-Sound :
      (N : String → Bool) (a : PlannedAction) (command : Option String) (p : Progress) (h : History)
      → is_write a.outcome ≡ true
      → Sound N p
      → Ends
          (λ q g. Sound (λ id. str_eq a.action_id id || N id) q)
          Done
          (write_action server k sid a command p h)
  unfolding write_action
  write_action-Sound N a none p h writes v = tt
  write_action-Sound N a (some command) p h writes v =
      after_write-Sound N a command p (server h k (write sid command a.payload)) _ writes v

  run_action-Sound :
      (N : String → Bool) (a : PlannedAction) (p : Progress) (h : History)
      → Sound N p
      → Ends
          (λ q g. Sound (λ id. str_eq a.action_id id || N id) q)
          Done
          (run_action server k sid a p h)
  unfolding run_action
  run_action-Sound N a p h v = elim (Bool-cases (is_write a.outcome)) [
    | inr unwritten ↦ rw unwritten (put_planned-Sound N a p unwritten v)
    | inl writes ↦ elim (Bool-cases (is_broken a p)) [
      | inl broken ↦ rw (writes, broken) (put_failure-Sound N a skipped_dependency a.command p v)
      | inr whole ↦ rw (writes, whole) (write_action-Sound N a (resolve_command a) p h writes v)
    ]
  ]

  pub run_actions-Sound :
      (N : String → Bool) (actions : List PlannedAction) (p : Progress) (h : History)
      → Sound N p
      → Ends
          (λ q g. Sound (λ id. is_named actions id || N id) q)
          Done
          (run_actions server k sid actions p h)
  unfolding run_actions
  run_actions-Sound N [] p h v = v
  run_actions-Sound N (a ∷ actions) p h v =
      and_then-Ends (λ q g. Sound (λ id. str_eq a.action_id id || N id) q)
        (λ q g. Sound (λ id. is_named (a ∷ actions) id || N id) q) Done _ _
        (run_action-Sound N a p h v)
        (λ q g w.
          Ends-weaken
            (λ q g. Sound (λ id. is_named actions id || (str_eq a.action_id id || N id)) q)
            (λ q g. Sound (λ id. is_named (a ∷ actions) id || N id) q) Done Done _
            (run_actions-Sound (λ id. str_eq a.action_id id || N id) actions q g w)
            (λ q g u id named. u id (ground (arith, named))) (λ g u. u))
