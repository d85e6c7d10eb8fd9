-- ===== src/Executor/Closed.antt =====
-- Every write session is used in its own domain alone, ended and logged out, whatever the server answers.
pub mod Concluded
pub mod Every
use arodonata.Common.{
  String, Bool, true, false, not, ◌&&◌, Option, none, some, List, [], ◌∷◌, ◌≡◌, ◌⊎◌, inl, inr, refl,
  if◌then◌else◌, str_eq, str_eq_self, arith, Bool-cases, Option-cases,
}
use arodonata.Executor.Plan.{PlannedAction, is_write, resolve_command, Stamp, is_head_stale}
use arodonata.Executor.Wire.{
  Key, same_domain, Call, show_head, open_session, show_session, write, publish, discard, logout,
  Answer, replied, failed, refused, cancelled, Sent, History, Server, Run, returned, raised, Ends,
  Ends-weaken, and_then-Ends, send, check_head, after_head, discard_quietly, after_quiet,
}
use arodonata.Executor.Session.{
  Setting, keeps, Pass, Progress, run_action, run_actions, write_action, after_write, is_broken,
}
use arodonata.Executor.Publish.{
  Ended, after_publish, publish_session, discard_and, verify_and_publish, conclude, wrap_up,
  give_up, close, run_session,
}
use arodonata.Executor.Passes.{
  Stamps, Domain, start_session, after_open, write_domain, apply_domain, apply_domains, apply_pass,
}

-- No session, one that is open, one whose changes are published or dropped, or a breach.
pub data Phase : Type 0 where
  idle breach : Phase
  working ended : Key → String → Phase

abbrev is_own : Key → String → Key → String → Bool
is_own k sid j other = same_domain k j && str_eq sid other

abbrev pub is_success : Answer → Bool
is_success (replied r) = r.success
is_success _ = false

abbrev from_idle : Key → Answer → Call → Phase
from_idle k answer show_head = idle
from_idle k (replied r) open_session = working k r.sid
from_idle k _ open_session = idle
from_idle k answer _ = breach

abbrev from_working : Key → String → Key → Answer → Call → Phase
from_working k sid j answer show_head = if same_domain k j then working k sid else breach
from_working k sid j answer (write other command payload) =
    if is_own k sid j other then working k sid else breach
from_working k sid j answer (publish other) =
    if is_own k sid j other
    then (if is_success answer then ended k sid else working k sid)
    else breach
from_working k sid j answer (discard other) = if is_own k sid j other then ended k sid else breach
from_working k sid j answer _ = breach

abbrev from_ended : Key → String → Key → Call → Phase
from_ended k sid j (discard other) = if is_own k sid j other then ended k sid else breach
from_ended k sid j (logout other) = if is_own k sid j other then idle else breach
from_ended k sid j _ = breach

abbrev after : Phase → Sent → Phase
after idle e = from_idle e.domain e.answer e.call
after (working k sid) e = from_working k sid e.domain e.answer e.call
after (ended k sid) e = from_ended k sid e.domain e.call
after breach e = breach

-- The phase that the requests lead to.
unfoldable pub watch : History → Phase
watch [] = idle
watch (e ∷ h) = after (watch h) e

pub own_domain : (k : Key) → same_domain k k ≡ true
own_domain k = rw (str_eq_self k.mgmt_name, str_eq_self k.domain_name) refl

module _ (server : Server) (k : Key) (sid : String) where
  abbrev Working : History → Type 0
  Working h = watch h ≡ working k sid

  abbrev Over : History → Type 0
  Over h = watch h ≡ ended k sid

  write-Working :
      (command : String) (a : PlannedAction) (h : History)
      → Working h
      → Working (send server k (write sid command a.payload) h)
  unfolding watch send
  write-Working command a h w = rw (w, own_domain k, str_eq_self sid) refl

  head-Working : (h : History) → Working h → Working (send server k show_head h)
  unfolding watch send
  head-Working h w = rw (w, own_domain k) refl

  discard-Over : (h : History) → Working h ⊎ Over h → Over (send server k (discard sid) h)
  unfolding watch send
  discard-Over h (inl w) = rw (w, own_domain k, str_eq_self sid) refl
  discard-Over h (inr w) = rw (w, own_domain k, str_eq_self sid) refl

  logout-idle : (h : History) → Over h → watch (send server k (logout sid) h) ≡ idle
  unfolding watch send
  logout-idle h w = rw (w, own_domain k, str_eq_self sid) refl

  publish-ends :
      (h : History)
      → Working h
      → watch (send server k (publish sid) h)
        ≡ (if is_success (server h k (publish sid)) then ended k sid else working k sid)
  unfolding watch send
  publish-ends h w = rw (w, own_domain k, str_eq_self sid) refl

  after_write-Ends :
      (a : PlannedAction) (command : String) (p : Progress) (answer : Answer) (h : History)
      → Working h
      → Ends (λ q g. Working g) Working (after_write a command p answer h)
  unfolding after_write
  after_write-Ends a command p (replied r) h w = w
  after_write-Ends a command p failed h w = w
  after_write-Ends a command p refused h w = w
  after_write-Ends a command p cancelled h w = w

  write_action-Ends :
      (a : PlannedAction) (command : Option String) (p : Progress) (h : History)
      → Working h
      → Ends (λ q g. Working g) Working (write_action server k sid a command p h)
  unfolding write_action
  write_action-Ends a none p h w = w
  write_action-Ends a (some command) p h w =
      after_write-Ends a command p (server h k (write sid command a.payload)) _
        (write-Working command a h w)

  run_action-Ends :
      (a : PlannedAction) (p : Progress) (h : History)
      → Working h
      → Ends (λ q g. Working g) Working (run_action server k sid a p h)
  unfolding run_action
  run_action-Ends a p h w = elim (Bool-cases (is_write a.outcome)) [
    | inr none_there ↦ rw none_there w
    | inl writes ↦ elim (Bool-cases (is_broken a p)) [
      | inl broken ↦ rw (writes, broken) w
      | inr whole ↦ rw (writes, whole) (write_action-Ends a (resolve_command a) p h w)
    ]
  ]

  run_actions-Ends :
      (actions : List PlannedAction) (p : Progress) (h : History)
      → Working h
      → Ends (λ q g. Working g) Working (run_actions server k sid actions p h)
  unfolding run_actions
  run_actions-Ends [] p h w = w
  run_actions-Ends (a ∷ actions) p h w =
      and_then-Ends (λ q g. Working g) (λ q g. Working g) Working (run_action server k sid a p h) _
        (run_action-Ends a p h w) (λ q g v. run_actions-Ends actions q g v)
