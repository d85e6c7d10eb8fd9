-- ===== src/Executor/Guarded/Every.antt =====
-- In a pass without `force`, the plan's stamps guard every session and every publication.
use arodonata.Common.{
  String, Bool, true, false, not, ◌&&◌, ◌||◌, any, Option, none, some, List, [], ◌∷◌, ◌≡◌, inl, inr,
  refl, ap, ◌∙◌, Bool-cases, Option-cases, arith,
}
use arodonata.Executor.Plan.{PlannedAction, is_write, Stamp, Head, is_head_stale}
use arodonata.Executor.Wire.{
  Key, open_session, show_head, show_session, discard, logout, Answer, replied, failed, refused,
  cancelled, History, Server, Run, returned, raised, and_then, and_then-Ends, send, check_head,
  history_of, Ends-history,
}
use arodonata.Executor.Session.{Setting, keeps, Pass}
use arodonata.Executor.Publish.{Ended, wrap_up, give_up, close, run_session}
use arodonata.Executor.Passes.{
  Stamps, find_stamp, label_of, is_readable, Domain, after_show, start_session, after_open,
  write_domain, write_if_fresh, apply_domain, apply_domains, apply_groups, group_by_domain,
  empty_pass, apply_pass,
}
use arodonata.Executor.Guarded.{
  is_fresh_read, is_guarded, Guarded, send-Guarded, fresh-Guarded, Read, after_head-Read,
  run_actions-Guarded,
}
use arodonata.Executor.Guarded.Concluded.{IsGuarded, conclude-IsGuarded}

module _ (server : Server) (stamps : Stamps) (s : Setting) (unforced : s.force ≡ false) where
  wrap_up-Guarded :
      (k : Key) (sid : String) (closed : Bool) (h : History)
      → Guarded server stamps h
      → Guarded server stamps (wrap_up server k sid s closed h)
  unfolding wrap_up
  wrap_up-Guarded k sid closed h w = elim (Bool-cases (keeps s)) [
    | inl kept ↦ rw kept w
    | inr leaves ↦ elim (Bool-cases closed) [
      | inl done ↦ rw (leaves, done) (send-Guarded server stamps k (logout sid) h refl w)
      | inr still ↦
          rw (leaves, still)
            (send-Guarded server stamps k (logout sid) _ refl
              (send-Guarded server stamps k (discard sid) h refl w))
    ]
  ]

  give_up-Guarded :
      (k : Key) (sid : String) (h : History)
      → Guarded server stamps h
      → Guarded server stamps (give_up server k sid s h)
  unfolding give_up
  give_up-Guarded k sid h w = elim (Bool-cases (keeps s)) [
    | inl kept ↦ rw kept w
    | inr leaves ↦ rw leaves (send-Guarded server stamps k (discard sid) h refl w)
  ]

  close-IsGuarded :
      (k : Key) (sid : String) (r : Run Ended)
      → IsGuarded server stamps r
      → IsGuarded server stamps (close server k sid s r)
  unfolding close
  close-IsGuarded k sid (returned e h) w = wrap_up-Guarded k sid e.is_closed h w
  close-IsGuarded k sid (raised fault h) w =
      wrap_up-Guarded k sid true _ (give_up-Guarded k sid h w)

  module _ (d : Domain) (stamp : Stamp)
      (known : find_stamp (label_of d.key) stamps ≡ some stamp) where
    run_session-IsGuarded :
        (sid : String) (pass : Pass) (h : History)
        → Guarded server stamps h
        → IsGuarded server stamps
            (run_session server d.key sid s (some stamp) (label_of d.key) d.actions pass h)
    unfolding run_session
    run_session-IsGuarded sid pass h w = close-IsGuarded d.key sid _ (
        and_then-Ends (λ q g. Guarded server stamps g) (λ e g. Guarded server stamps g)
          (Guarded server stamps) _ _ (run_actions-Guarded server stamps d.key sid d.actions _ h w)
          (λ p g v.
            conclude-IsGuarded server stamps d.key sid (label_of d.key) d.actions stamp known s _
              p.any_write_succeeded g unforced v))

    after_show-IsGuarded :
        (sid : String) (pass : Pass) (answer : Answer) (h : History)
        → Guarded server stamps h
        → IsGuarded server stamps (after_show server s (some stamp) d sid pass answer h)
    unfolding after_show
    after_show-IsGuarded sid pass (replied r) h w = run_session-IsGuarded sid _ h w
    after_show-IsGuarded sid pass failed h w = run_session-IsGuarded sid _ h w
    after_show-IsGuarded sid pass refused h w = run_session-IsGuarded sid _ h w
    after_show-IsGuarded sid pass cancelled h w = w

    start_session-IsGuarded :
        (sid : String) (pass : Pass) (h : History)
        → Guarded server stamps h
        → IsGuarded server stamps (start_session server s (some stamp) d sid pass h)
    unfolding start_session
    start_session-IsGuarded sid pass h w = elim (Bool-cases (keeps s)) [
      | inl kept ↦ rw kept (
          after_show-IsGuarded sid pass (server h d.key (show_session sid)) _
            (send-Guarded server stamps d.key (show_session sid) h refl w))
      | inr leaves ↦ rw leaves (run_session-IsGuarded sid pass h w)
    ]

    after_open-IsGuarded :
        (pass : Pass) (answer : Answer) (h : History)
        → Guarded server stamps h
        → IsGuarded server stamps (after_open server s (some stamp) d pass answer h)
    unfolding after_open
    after_open-IsGuarded pass (replied r) h w = start_session-IsGuarded r.sid pass h w
    after_open-IsGuarded pass failed h w = w
    after_open-IsGuarded pass refused h w = w
    after_open-IsGuarded pass cancelled h w = w

    write_domain-IsGuarded :
        (pass : Pass) (h : History)
        → is_fresh_read stamps d.key h ≡ true
        → Guarded server stamps h
        → IsGuarded server stamps (write_domain server s (some stamp) d pass h)
    unfolding write_domain
    write_domain-IsGuarded pass h fresh w =
        elim (Bool-cases (any (λ (a : PlannedAction). is_write a.outcome) d.actions)) [
          | inl writes ↦ rw writes (
              after_open-IsGuarded pass (server h d.key open_session) _
                (fresh-Guarded server stamps d.key open_session h fresh w))
          | inr nothing ↦ rw nothing w
        ]

    write_if_fresh-IsGuarded :
        (pass : Pass) (head : Head) (h : History)
        → Read server stamps d.key head h
        → IsGuarded server stamps (write_if_fresh server s (some stamp) d pass head h)
    unfolding write_if_fresh
    write_if_fresh-IsGuarded pass head h w = elim (Bool-cases (is_head_stale (some stamp) head)) [
      | inl stale ↦ rw stale w.0
      | inr fresh ↦
          rw fresh
            (write_domain-IsGuarded pass h (w.1 (ap (λ o. is_head_stale o head) known ∙ fresh)) w.0)
    ]

  -- Without the stamp, the domain is stale.
  unknown-IsGuarded :
      (d : Domain) (pass : Pass) (head : Head) (h : History)
      → Read server stamps d.key head h
      → IsGuarded server stamps (write_if_fresh server s none d pass head h)
  unfolding write_if_fresh is_head_stale
  unknown-IsGuarded d pass head h w = w.0

  check-IsGuarded :
      (d : Domain) (pass : Pass) (h : History)
      → Guarded server stamps h
      → IsGuarded server stamps (
          and_then
            (check_head server d.key h)
            (λ head g. write_if_fresh server s (find_stamp (label_of d.key) stamps) d pass head g))
  unfolding check_head send
  check-IsGuarded d pass h w =
      and_then-Ends (Read server stamps d.key) (λ next g. Guarded server stamps g)
        (Guarded server stamps) _ _
        (after_head-Read server stamps d.key (server h d.key show_head) h w)
        (λ head g v. elim (Option-cases (find_stamp (label_of d.key) stamps)) [
          | inl unknown ↦ rw unknown (unknown-IsGuarded d pass head g v)
          | inr (stamp, known) ↦ rw known (write_if_fresh-IsGuarded d stamp known pass head g v)
        ])

  apply_domain-IsGuarded :
      (d : Domain) (pass : Pass) (h : History)
      → Guarded server stamps h
      → IsGuarded server stamps
          (apply_domain server s (find_stamp (label_of d.key) stamps) d pass h)
  unfolding apply_domain write_domain
  apply_domain-IsGuarded d pass h w =
      elim (Bool-cases (
        not s.force
        && (any (λ (a : PlannedAction). is_write a.outcome) d.actions
            || is_readable (find_stamp (label_of d.key) stamps)))) [
              | inl checks ↦ rw checks (check-IsGuarded d pass h w)
              | inr skips ↦
                  let nothing : any (λ (a : PlannedAction). is_write a.outcome) d.actions ≡ false =
                    ground (arith, skips, unforced) in
                  rw (skips, nothing) w
            ]

  apply_domains-IsGuarded :
      (ds : List Domain) (pass : Pass) (h : History)
      → Guarded server stamps h
      → IsGuarded server stamps (apply_domains server s stamps ds pass h)
  unfolding apply_domains
  apply_domains-IsGuarded [] pass h w = w
  apply_domains-IsGuarded (d ∷ ds) pass h w =
      and_then-Ends (λ next g. Guarded server stamps g) (λ next g. Guarded server stamps g)
        (Guarded server stamps) _ _ (apply_domain-IsGuarded d pass h w)
        (λ next g v. apply_domains-IsGuarded ds next g v)

  apply_groups-IsGuarded :
      (actions : List PlannedAction) (groups : Option (List Domain)) (h : History)
      → Guarded server stamps h
      → IsGuarded server stamps (apply_groups server s stamps actions groups h)
  unfolding apply_groups
  apply_groups-IsGuarded actions none h w = w
  apply_groups-IsGuarded actions (some ds) h w =
      and_then-Ends (λ next g. Guarded server stamps g) (λ next g. Guarded server stamps g)
        (Guarded server stamps) _ _ (apply_domains-IsGuarded ds empty_pass h w) (λ next g v. v)

-- Without `force`, a pass opens a session for a domain, and publishes one, only directly after it has
-- read the domain's published head and found that it is the one that the plan's stamp of the domain
-- records, readable in both; a domain without a stamp is neither written nor published. That holds
-- whatever the server answers and however the pass ends.
pub apply_pass-guarded :
    (server : Server) (s : Setting) (stamps : Stamps) (actions : List PlannedAction)
    → s.force ≡ false
    → is_guarded stamps (history_of (apply_pass server s stamps actions [])) ≡ true
unfolding apply_pass is_guarded
apply_pass-guarded server s stamps actions unforced =
    Ends-history (Guarded server stamps) _
      (apply_groups-IsGuarded server stamps s unforced actions (group_by_domain actions []) [] refl)
