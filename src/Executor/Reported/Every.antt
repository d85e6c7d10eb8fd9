-- ===== src/Executor/Reported/Every.antt =====
-- Every action of a domain has a result, and it claims a write only if the domain was published.
use arodonata.Common.{
  String, Bool, true, false, not, ◌&&◌, ◌||◌, any, Option, List, [], ◌∷◌, ◌++◌, ◌≡◌, inl, inr, refl,
  sym, subst, str_eq, str_eq_self, All, Bool-cases, arith,
}
use arodonata.Inverse.Actions.{
  Outcome, create, update, delete, reuse, unchanged, error, skipped, skipped_dependency, plan_stale,
}
use arodonata.Executor.Plan.{PlannedAction, is_write, is_settled, Stamp, Head, is_head_stale}
use arodonata.Executor.Wire.{
  Key, open_session, show_head, Answer, replied, failed, refused, cancelled, History, Server, Run,
  returned, raised, and_then, Ends, Ends-weaken, and_then-Ends, check_head,
}
use arodonata.Executor.Session.{Results, get_result, Setting, keeps, Pass, result_of}
use arodonata.Executor.Publish.{Ended, close, run_session}
use arodonata.Executor.Passes.{
  Domain, label_of, is_readable, fail_all, plan_all, start_session, after_open, write_domain,
  write_if_fresh, apply_domain,
}
use arodonata.Executor.Reported.{is_named, claims, holds, Hold-put, Sound, Done, run_actions-Sound}
use arodonata.Executor.Reported.Failing.{Modest}
use arodonata.Executor.Closed.Concluded.{after_head-Ends}
use arodonata.Executor.Reported.Told.{is_told, Told, Modest-Told, conclude-Told}

named-All :
    (P : String → Type 0) (actions : List PlannedAction)
    → ((id : String) → is_named actions id ≡ true → P id)
    → All (λ (a : PlannedAction). P a.action_id) actions
named-All P [] f = tt
named-All P (a ∷ actions) f = (
  f a.action_id (rw (str_eq_self a.action_id) refl),
  named-All P actions (λ id named. f id (ground (arith, named))),
)

-- A result that claims no write, in front of such results.
Modest-put :
    (N : String → Bool) (a : PlannedAction) (o : Outcome) (ok : Bool) (results : Results)
    → (ok && is_write a.outcome) ≡ false
    → Modest N results
    → Modest (λ id. str_eq a.action_id id || N id) (result_of o ok a.command a ∷ results)
unfolding result_of
Modest-put N a o ok results nothing h =
    Hold-put N (λ id r. not (claims r)) (λ id r. not (claims r)) a.action_id _ results refl
      (λ id. rw nothing refl) (λ id q w. w) h

Modest-regrouped :
    (N : String → Bool) (a : PlannedAction) (actions : List PlannedAction) (results : Results)
    → Modest (λ id. is_named actions id || (str_eq a.action_id id || N id)) results
    → Modest (λ id. is_named (a ∷ actions) id || N id) results
Modest-regrouped N a actions results h id named = h id (ground (arith, named))

fail_all-Modest :
    (N : String → Bool) (o : Outcome) (actions : List PlannedAction) (results : Results)
    → Modest N results
    → Modest (λ id. is_named actions id || N id) (fail_all o actions results)
unfolding fail_all
fail_all-Modest N o [] results h = h
fail_all-Modest N o (a ∷ actions) results h = Modest-regrouped N a actions _ (
    fail_all-Modest (λ id. str_eq a.action_id id || N id) o actions _
      (Modest-put N a o false results refl h))

settled-unwritten : (o : Outcome) → (is_settled o && is_write o) ≡ false
settled-unwritten create = refl
settled-unwritten update = refl
settled-unwritten delete = refl
settled-unwritten reuse = refl
settled-unwritten unchanged = refl
settled-unwritten error = refl
settled-unwritten skipped = refl
settled-unwritten skipped_dependency = refl
settled-unwritten plan_stale = refl

plan_all-Modest :
    (N : String → Bool) (actions : List PlannedAction) (results : Results)
    → Modest N results
    → Modest (λ id. is_named actions id || N id) (plan_all actions results)
unfolding plan_all
plan_all-Modest N [] results h = h
plan_all-Modest N (a ∷ actions) results h = Modest-regrouped N a actions _ (
    plan_all-Modest (λ id. str_eq a.action_id id || N id) actions _
      (Modest-put N a a.outcome (is_settled a.outcome) results (settled-unwritten a.outcome) h))

none_named : (results : Results) → Modest (λ id. false) results
none_named results id named = absurd (ground (arith, named))

module _ (server : Server) (s : Setting) (publishes : s.no_publish ≡ false) where
  close-Told :
      (k : Key) (sid : String) (label : String) (actions : List PlannedAction) (r : Run Ended)
      → Ends (λ e g. Told label (is_named actions) e.pass) Done r
      → Ends (λ out g. Told label (is_named actions) out) Done (close server k sid s r)
  unfolding close
  close-Told k sid label actions (returned e h) w = w
  close-Told k sid label actions (raised fault h) w = tt

  run_session-Told :
      (k : Key) (sid : String) (stamp : Option Stamp) (label : String)
      (actions : List PlannedAction) (pass : Pass) (h : History)
      → Ends
          (λ out g. Told label (is_named actions) out)
          Done
          (run_session server k sid s stamp label actions pass h)
  unfolding run_session
  run_session-Told k sid stamp label actions pass h = close-Told k sid label actions _ (
      and_then-Ends (λ q g. Sound (λ id. is_named actions id || false) q)
        (λ e g. Told label (is_named actions) e.pass) Done _ _
        (run_actions-Sound server k sid (λ id. false) actions _ h
          (λ id named. absurd (ground (arith, named))))
        (λ p g sound.
          conclude-Told server k sid label actions s stamp p.any_write_succeeded _ g publishes
            (λ id named. sound id (ground (arith, named)))))

  module _ (stamp : Option Stamp) (d : Domain) where
    abbrev EveryTold : Run Pass → Type 0
    EveryTold r = Ends (λ out g. Told (label_of d.key) (is_named d.actions) out) Done r

    all_failed :
        (out : Pass) (o : Outcome) (results : Results)
        → out.results ≡ fail_all o d.actions results
        → Told (label_of d.key) (is_named d.actions) out
    all_failed out o results same = Modest-Told (label_of d.key) (is_named d.actions) out (
        subst (Modest (is_named d.actions)) (sym same) (λ id named.
          fail_all-Modest (λ i. false) o d.actions results (none_named results) id
            (ground (arith, named))))

    start_session-Told :
        (sid : String) (pass : Pass) (h : History)
        → EveryTold (start_session server s stamp d sid pass h)
    unfolding start_session
    start_session-Told sid pass h =
        let leaves : keeps s ≡ false = rw publishes refl in
        rw leaves (run_session-Told d.key sid stamp (label_of d.key) d.actions pass h)

    after_open-Told :
        (pass : Pass) (answer : Answer) (h : History)
        → EveryTold (after_open server s stamp d pass answer h)
    unfolding after_open
    after_open-Told pass (replied r) h = start_session-Told r.sid pass h
    after_open-Told pass failed h =
        all_failed (record pass { results = fail_all error d.actions pass.results }) error
          pass.results refl
    after_open-Told pass refused h = tt
    after_open-Told pass cancelled h = tt

    write_domain-Told :
        (pass : Pass) (h : History) → EveryTold (write_domain server s stamp d pass h)
    unfolding write_domain
    write_domain-Told pass h =
        elim (Bool-cases (any (λ (a : PlannedAction). is_write a.outcome) d.actions)) [
          | inl writes ↦ rw writes (after_open-Told pass (server h d.key open_session) _)
          | inr nothing ↦ rw nothing (
              Modest-Told (label_of d.key) (is_named d.actions)
                (record pass { results = plan_all d.actions pass.results })
                (λ id named.
                  plan_all-Modest (λ i. false) d.actions pass.results (none_named pass.results) id
                    (ground (arith, named))))
        ]

    write_if_fresh-Told :
        (pass : Pass) (head : Head) (h : History)
        → EveryTold (write_if_fresh server s stamp d pass head h)
    unfolding write_if_fresh
    write_if_fresh-Told pass head h = elim (Bool-cases (is_head_stale stamp head)) [
      | inl stale ↦ rw stale (
          all_failed
            (record pass {
              stale_domains = pass.stale_domains ++ label_of d.key ∷ [];
              results = fail_all plan_stale d.actions pass.results;
            })
            plan_stale pass.results refl)
      | inr fresh ↦ rw fresh (write_domain-Told pass h)
    ]

    check-Told :
        (pass : Pass) (h : History)
        → EveryTold (
            and_then
              (check_head server d.key h)
              (λ head g. write_if_fresh server s stamp d pass head g))
    unfolding check_head
    check-Told pass h =
        and_then-Ends (λ head g. Done g) (λ out g. Told (label_of d.key) (is_named d.actions) out)
          Done _ _ (after_head-Ends Done (server h d.key show_head) _ tt)
          (λ head g v. write_if_fresh-Told pass head g)

    apply_domain-Told :
        (pass : Pass) (h : History) → EveryTold (apply_domain server s stamp d pass h)
    unfolding apply_domain
    apply_domain-Told pass h =
        elim (Bool-cases (
          not s.force
          && (any (λ (a : PlannedAction). is_write a.outcome) d.actions || is_readable stamp))) [
            | inl checks ↦ rw checks (check-Told pass h)
            | inr skips ↦ rw skips (write_domain-Told pass h)
          ]

-- What a report says of an action: it has a result, and this claims a write that succeeded only if
-- the label is one of the published domains.
abbrev pub IsReported : String → PlannedAction → Pass → Type 0
IsReported label a out =
    holds (is_told label out.published_domains) (get_result a.action_id out.results) ≡ true

-- Unless nothing is to be published, when a domain's part of a pass returns, each of the domain's
-- actions has a result, and if this result says that a planned write succeeded, then the domain is
-- among the published ones. That holds whatever results the pass had before, and whatever the server
-- answers.
pub apply_domain-IsReported :
    (server : Server) (s : Setting) (stamp : Option Stamp) (d : Domain) (pass : Pass) (h : History)
    → s.no_publish ≡ false
    → Ends
        (λ out g. All (λ a. IsReported (label_of d.key) a out) d.actions)
        (λ g. Unit {0})
        (apply_domain server s stamp d pass h)
apply_domain-IsReported server s stamp d pass h publishes =
    Ends-weaken (λ out g. Told (label_of d.key) (is_named d.actions) out)
      (λ out g. All (λ a. IsReported (label_of d.key) a out) d.actions) Done Done _
      (apply_domain-Told server s publishes stamp d pass h)
      (λ out g told.
        named-All
          (λ id.
            holds (is_told (label_of d.key) out.published_domains) (get_result id out.results)
            ≡ true)
          d.actions told)
      (λ g v. v)
