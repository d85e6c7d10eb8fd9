-- ===== src/Executor/Closed/Every.antt =====
-- Whatever the server answers, a pass leaves no write session behind.
use arodonata.Common.{
  String, Bool, true, false, not, ◌&&◌, ◌||◌, any, Option, none, some, List, [], ◌∷◌, ◌≡◌, inl, inr,
  refl, if◌then◌else◌, Bool-cases,
}
use arodonata.Executor.Plan.{PlannedAction, is_write, Stamp, Head, is_head_stale}
use arodonata.Executor.Wire.{
  Key, show_head, open_session, Answer, replied, failed, refused, cancelled, History, Server, Run,
  returned, raised, and_then, Ends, Ends-weaken, and_then-Ends, send, check_head, history_of,
  Ends-history,
}
use arodonata.Executor.Session.{Setting, keeps, Pass}
use arodonata.Executor.Publish.{Ended, wrap_up, give_up, close, run_session}
use arodonata.Executor.Passes.{
  Stamps, find_stamp, label_of, is_readable, Domain, start_session, after_open, write_domain,
  write_if_fresh, apply_domain, apply_domains, apply_groups, group_by_domain, empty_pass,
  apply_pass,
}
use arodonata.Executor.Closed.{
  idle, working, ended, watch, Working, discard-Over, logout-idle, run_actions-Ends,
}
use arodonata.Executor.Closed.Concluded.{Leaving, Concluded, conclude-Ends, after_head-Ends}

abbrev Idle : History → Type 0
Idle h = watch h ≡ idle

abbrev IsIdle : {A : Type 0} → Run A → Type 0
IsIdle r = Ends (λ a g. Idle g) Idle r

module _ (server : Server) (s : Setting) (leaves : keeps s ≡ false) where
  wrap_up-Idle :
      (k : Key) (sid : String) (closed : Bool) (h : History)
      → watch h ≡ (if closed then ended k sid else working k sid)
      → Idle (wrap_up server k sid s closed h)
  unfolding wrap_up
  wrap_up-Idle k sid true h w = rw leaves (logout-idle server k sid h w)
  wrap_up-Idle k sid false h w =
      rw leaves (logout-idle server k sid _ (discard-Over server k sid h (inl w)))

  close-IsIdle :
      (k : Key) (sid : String) (r : Run Ended)
      → Ends (Concluded server k sid) (Leaving server k sid) r
      → IsIdle (close server k sid s r)
  unfolding close give_up
  close-IsIdle k sid (returned e h) w = wrap_up-Idle k sid e.is_closed h w
  close-IsIdle k sid (raised fault h) w =
      wrap_up-Idle k sid true _ (rw leaves (discard-Over server k sid h w))

  run_session-IsIdle :
      (k : Key) (sid : String) (stamp : Option Stamp) (label : String)
      (actions : List PlannedAction) (pass : Pass) (h : History)
      → Working server k sid h
      → IsIdle (run_session server k sid s stamp label actions pass h)
  unfolding run_session
  run_session-IsIdle k sid stamp label actions pass h w = close-IsIdle k sid _ (
      and_then-Ends (λ q g. Working server k sid g) (Concluded server k sid) (Leaving server k sid)
        _ _
        (Ends-weaken (λ q g. Working server k sid g) (λ q g. Working server k sid g)
          (Working server k sid) (Leaving server k sid) _
          (run_actions-Ends server k sid actions _ h w) (λ q g v. v) (λ g v. inl v))
        (λ p g v. conclude-Ends server k sid label actions s stamp _ p.any_write_succeeded g v))

  module _ (stamp : Option Stamp) (d : Domain) where
    start_session-IsIdle :
        (sid : String) (pass : Pass) (h : History)
        → Working server d.key sid h
        → IsIdle (start_session server s stamp d sid pass h)
    unfolding start_session
    start_session-IsIdle sid pass h w =
        rw leaves (run_session-IsIdle d.key sid stamp (label_of d.key) d.actions pass h w)

    open-phase :
        (pass : Pass) (answer : Answer) (h : History)
        → Idle h
        → IsIdle (
            after_open server s stamp d pass answer
              (record { domain = d.key; call = open_session; answer = answer } ∷ h))
    unfolding after_open watch
    open-phase pass (replied r) h w = start_session-IsIdle r.sid pass _ (rw w refl)
    open-phase pass failed h w = rw w refl
    open-phase pass refused h w = rw w refl
    open-phase pass cancelled h w = rw w refl

    write_domain-IsIdle :
        (pass : Pass) (h : History) → Idle h → IsIdle (write_domain server s stamp d pass h)
    unfolding write_domain send
    write_domain-IsIdle pass h w =
        elim (Bool-cases (any (λ (a : PlannedAction). is_write a.outcome) d.actions)) [
          | inl writes ↦ rw writes (open-phase pass (server h d.key open_session) h w)
          | inr nothing ↦ rw nothing w
        ]

    write_if_fresh-IsIdle :
        (pass : Pass) (head : Head) (h : History)
        → Idle h
        → IsIdle (write_if_fresh server s stamp d pass head h)
    unfolding write_if_fresh
    write_if_fresh-IsIdle pass head h w = elim (Bool-cases (is_head_stale stamp head)) [
      | inl stale ↦ rw stale w
      | inr fresh ↦ rw fresh (write_domain-IsIdle pass h w)
    ]

    head-Idle : (h : History) → Idle h → Idle (send server d.key show_head h)
    unfolding send watch
    head-Idle h w = rw w refl

    check-IsIdle :
        (pass : Pass) (h : History)
        → Idle h
        → IsIdle (
            and_then
              (check_head server d.key h)
              (λ head g. write_if_fresh server s stamp d pass head g))
    unfolding check_head
    check-IsIdle pass h w =
        and_then-Ends (λ head g. Idle g) (λ next g. Idle g) Idle _ _
          (after_head-Ends Idle (server h d.key show_head) _ (head-Idle h w))
          (λ head g v. write_if_fresh-IsIdle pass head g v)

    apply_domain-IsIdle :
        (pass : Pass) (h : History) → Idle h → IsIdle (apply_domain server s stamp d pass h)
    unfolding apply_domain
    apply_domain-IsIdle pass h w =
        elim (Bool-cases (
          not s.force
          && (any (λ (a : PlannedAction). is_write a.outcome) d.actions || is_readable stamp))) [
            | inl checks ↦ rw checks (check-IsIdle pass h w)
            | inr skips ↦ rw skips (write_domain-IsIdle pass h w)
          ]

  apply_domains-IsIdle :
      (stamps : Stamps) (ds : List Domain) (pass : Pass) (h : History)
      → Idle h
      → IsIdle (apply_domains server s stamps ds pass h)
  unfolding apply_domains
  apply_domains-IsIdle stamps [] pass h w = w
  apply_domains-IsIdle stamps (d ∷ ds) pass h w =
      and_then-Ends (λ next g. Idle g) (λ next g. Idle g) Idle _ _
        (apply_domain-IsIdle (find_stamp (label_of d.key) stamps) d pass h w)
        (λ next g v. apply_domains-IsIdle stamps ds next g v)

  apply_groups-IsIdle :
      (stamps : Stamps) (actions : List PlannedAction) (groups : Option (List Domain)) (h : History)
      → Idle h
      → IsIdle (apply_groups server s stamps actions groups h)
  unfolding apply_groups
  apply_groups-IsIdle stamps actions none h w = w
  apply_groups-IsIdle stamps actions (some ds) h w =
      and_then-Ends (λ next g. Idle g) (λ next g. Idle g) Idle _ _
        (apply_domains-IsIdle stamps ds empty_pass h w) (λ next g v. v)

-- Unless sessions are staged, a pass leaves no write session behind, whatever the server answers and
-- however the pass ends, by an error or a cancellation at any request too: each session whose sid the
-- pass receives is used for requests of its own domain alone, no command follows a publication that
-- succeeds or a discard, one of the two ends it, and its logout is sent before the next is opened.
pub apply_pass-idle :
    (server : Server) (s : Setting) (stamps : Stamps) (actions : List PlannedAction)
    → keeps s ≡ false
    → watch (history_of (apply_pass server s stamps actions [])) ≡ idle
unfolding apply_pass watch
apply_pass-idle server s stamps actions leaves =
    Ends-history Idle _
      (apply_groups-IsIdle server s leaves stamps actions (group_by_domain actions []) [] refl)
