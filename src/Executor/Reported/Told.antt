-- ===== src/Executor/Reported/Told.antt =====
-- A report claims the writes of a domain only if the domain was published.
use arodonata.Common.{
  String, Bool, true, false, not, ◌||◌, any, Option, none, some, List, [], ◌∷◌, ◌++◌, ◌≡◌, inl, inr,
  refl, subst, str_eq_self, Bool-cases, arith,
}
use arodonata.Inverse.Actions.{error, plan_stale}
use arodonata.Executor.Plan.{PlannedAction, ActionResult, Stamp, Head, is_head_stale}
use arodonata.Executor.Wire.{
  Key, show_head, publish, discard, Answer, replied, failed, refused, cancelled, History, Server,
  Run, Ends, and_then-Ends, check_head, discard_quietly,
}
use arodonata.Executor.Session.{Results, get_result, Setting, keeps, Pass, mem}
use arodonata.Executor.Publish.{
  every_result, is_written, Ended, put_published, put_stale, put_unpublished, discard_and,
  after_publish, publish_session, publish_if_fresh, verify_and_publish, conclude,
}
use arodonata.Executor.Reported.{is_named, claims, holds-weaken, Hold, is_sound, Done}
use arodonata.Executor.Reported.Failing.{is_pending, Modest, fail_results-Modest}
use arodonata.Executor.Closed.Concluded.{after_head-Ends, after_quiet-Ends}

-- A result that claims a write is one of a published domain.
abbrev pub is_told : String → List String → ActionResult → Bool
is_told label published r = not (claims r) || mem label published

abbrev pub Told : String → (String → Bool) → Pass → Type 0
Told label N out = Hold N (λ id. is_told label out.published_domains) out.results

mem-append : (label : String) (labels : List String) → mem label (labels ++ label ∷ []) ≡ true
unfolding mem
mem-append label [] = rw (str_eq_self label) refl
mem-append label (l ∷ labels) = ground (arith, mem-append label labels)

pub Modest-Told :
    (label : String) (N : String → Bool) (out : Pass) → Modest N out.results → Told label N out
Modest-Told label N out h id named =
    holds-weaken (λ r. not (claims r)) (is_told label out.published_domains)
      (get_result id out.results) (λ r w. ground (arith, w)) (h id named)

published-Told :
    (label : String) (N : String → Bool) (written : Bool) (uid : Option String) (pass : Pass)
    → Hold N (is_sound written) pass.results
    → Told label N (put_published label uid pass)
unfolding put_published
published-Told label N written uid pass h id named =
    let listed : mem label (pass.published_domains ++ label ∷ []) ≡ true =
      mem-append label pass.published_domains in
    holds-weaken (is_sound written id) (is_told label (pass.published_domains ++ label ∷ []))
      (get_result id pass.results) (λ r w. ground (arith, listed)) (h id named)

put_stale-Modest :
    (label : String) (actions : List PlannedAction) (written : Bool) (pass : Pass)
    → Hold (is_named actions) (is_sound written) pass.results
    → Modest (is_named actions) (put_stale label actions pass).results
unfolding put_stale
put_stale-Modest label actions written pass h =
    fail_results-Modest plan_stale every_result actions pass.results (λ id named.
      holds-weaken (is_sound written id) (is_pending every_result (λ i. false) id)
        (get_result id pass.results) (λ r w. ground arith) (h id named))

put_unpublished-Modest :
    (actions : List PlannedAction) (written : Bool) (pass : Pass)
    → Hold (is_named actions) (is_sound written) pass.results
    → Modest (is_named actions) (put_unpublished actions pass).results
unfolding put_unpublished
put_unpublished-Modest actions written pass h =
    fail_results-Modest error is_written actions pass.results (λ id named.
      holds-weaken (is_sound written id) (is_pending is_written (λ i. false) id)
        (get_result id pass.results) (λ r w. ground (arith, w)) (h id named))

unwritten-Modest :
    (N : String → Bool) (results : Results) → Hold N (is_sound false) results → Modest N results
unwritten-Modest N results h id named =
    holds-weaken (is_sound false id) (λ r. not (claims r)) (get_result id results)
      (λ r w. ground (arith, w)) (h id named)

module _ (server : Server) (k : Key) (sid : String) (label : String)
    (actions : List PlannedAction) where
  abbrev pub EndsTold : Run Ended → Type 0
  EndsTold r = Ends (λ e g. Told label (is_named actions) e.pass) Done r

  discard_and-Told :
      (pass : Pass) (h : History)
      → Modest (is_named actions) pass.results
      → EndsTold (discard_and server k sid pass h)
  unfolding discard_and discard_quietly
  discard_and-Told pass h w =
      and_then-Ends (λ done g. Done g) (λ e g. Told label (is_named actions) e.pass) Done _ _
        (after_quiet-Ends Done (server h k (discard sid)) _ tt)
        (λ done g v. Modest-Told label (is_named actions) pass w)

  module _ (written : Bool) (pass : Pass)
      (sound : Hold (is_named actions) (is_sound written) pass.results) where
    after_publish-Told :
        (answer : Answer) (h : History)
        → EndsTold (after_publish server k sid label actions pass answer h)
    unfolding after_publish
    after_publish-Told (replied r) h = elim (Bool-cases r.success) [
      | inl done ↦ rw done (published-Told label (is_named actions) written r.uid pass sound)
      | inr failing ↦ rw failing (
          discard_and-Told (put_unpublished actions pass) h
            (put_unpublished-Modest actions written pass sound))
    ]
    after_publish-Told failed h =
        discard_and-Told (put_unpublished actions pass) h
          (put_unpublished-Modest actions written pass sound)
    after_publish-Told refused h = tt
    after_publish-Told cancelled h = tt

    publish_session-Told :
        (h : History) → EndsTold (publish_session server k sid label actions pass h)
    unfolding publish_session
    publish_session-Told h = after_publish-Told (server h k (publish sid)) _

    publish_if_fresh-Told :
        (stamp : Stamp) (head : Head) (h : History)
        → EndsTold (publish_if_fresh server k sid label actions stamp pass head h)
    unfolding publish_if_fresh
    publish_if_fresh-Told stamp head h = elim (Bool-cases (is_head_stale (some stamp) head)) [
      | inl stale ↦ rw stale (
          discard_and-Told (put_stale label actions pass) h
            (put_stale-Modest label actions written pass sound))
      | inr fresh ↦ rw fresh (publish_session-Told h)
    ]

    verify_and_publish-Told :
        (force : Bool) (stamp : Option Stamp) (h : History)
        → EndsTold (verify_and_publish server k sid label actions force stamp pass h)
    unfolding verify_and_publish check_head
    verify_and_publish-Told force none h = publish_session-Told h
    verify_and_publish-Told true (some stamp) h = publish_session-Told h
    verify_and_publish-Told false (some stamp) h =
        and_then-Ends (λ head g. Done g) (λ e g. Told label (is_named actions) e.pass) Done _ _
          (after_head-Ends Done (server h k show_head) _ tt)
          (λ head g v. publish_if_fresh-Told stamp head g)

  pub conclude-Told :
      (s : Setting) (stamp : Option Stamp) (written : Bool) (pass : Pass) (h : History)
      → s.no_publish ≡ false
      → Hold (is_named actions) (is_sound written) pass.results
      → EndsTold (conclude server k sid label actions s stamp pass written h)
  unfolding conclude
  conclude-Told s stamp written pass h publishes sound =
      let leaves : keeps s ≡ false = rw publishes refl in
      elim (Bool-cases written) [
        | inl any ↦
            rw (leaves, publishes, any) (verify_and_publish-Told written pass sound s.force stamp h)
        | inr nothing ↦
            let unwritten : Hold (is_named actions) (is_sound false) pass.results =
              subst (λ b. Hold (is_named actions) (is_sound b) pass.results) nothing sound in
            rw (leaves, publishes, nothing)
              (Modest-Told label (is_named actions) pass
                (unwritten-Modest (is_named actions) pass.results unwritten))
      ]
