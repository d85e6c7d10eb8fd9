-- ===== src/Executor/Closed/Concluded.antt =====
-- The end of a write session: it is closed, or still to be closed by what follows.
use arodonata.Common.{
  String, Bool, true, false, Option, none, some, List, ◌≡◌, ◌⊎◌, inl, inr, if◌then◌else◌, subst,
  Bool-cases,
}
use arodonata.Executor.Plan.{PlannedAction, Stamp, Head, is_head_stale}
use arodonata.Executor.Wire.{
  Key, show_head, publish, discard, Answer, replied, failed, refused, cancelled, History, Server,
  Ends, Ends-weaken, and_then-Ends, check_head, after_head, discard_quietly, after_quiet,
}
use arodonata.Executor.Session.{Setting, keeps, Pass}
use arodonata.Executor.Publish.{
  Ended, after_publish, publish_session, discard_and, verify_and_publish, publish_if_fresh,
  conclude, put_stale, put_unpublished,
}
use arodonata.Executor.Closed.{
  working, ended, watch, is_success, Working, Over, head-Working, discard-Over, publish-ends,
}

pub after_head-Ends :
    (P : History → Type 0) (answer : Answer) (h : History)
    → P h
    → Ends (λ head g. P g) P (after_head answer h)
unfolding after_head
after_head-Ends P (replied r) h w = w
after_head-Ends P failed h w = w
after_head-Ends P refused h w = w
after_head-Ends P cancelled h w = w

pub after_quiet-Ends :
    (P : History → Type 0) (answer : Answer) (h : History)
    → P h
    → Ends (λ done g. P g) P (after_quiet answer h)
unfolding after_quiet
after_quiet-Ends P (replied r) h w = w
after_quiet-Ends P failed h w = w
after_quiet-Ends P refused h w = w
after_quiet-Ends P cancelled h w = w

module _ (server : Server) (k : Key) (sid : String) where
  abbrev pub Leaving : History → Type 0
  Leaving h = Working server k sid h ⊎ Over server k sid h

  abbrev pub Concluded : Ended → History → Type 0
  Concluded e h = watch h ≡ (if e.is_closed then ended k sid else working k sid)

  discard_and-Ends :
      (pass : Pass) (h : History)
      → Leaving h
      → Ends Concluded Leaving (discard_and server k sid pass h)
  unfolding discard_and discard_quietly
  discard_and-Ends pass h w =
      and_then-Ends (λ done g. Over server k sid g) Concluded Leaving _ _
        (Ends-weaken (λ done g. Over server k sid g) (λ done g. Over server k sid g)
          (Over server k sid) Leaving _
          (after_quiet-Ends (Over server k sid) (server h k (discard sid)) _
            (discard-Over server k sid h w))
          (λ done g v. v) (λ g v. inr v))
        (λ done g v. v)

  module _ (label : String) (actions : List PlannedAction) where
    after_publish-Ends :
        (pass : Pass) (answer : Answer) (h : History)
        → watch h ≡ (if is_success answer then ended k sid else working k sid)
        → Ends Concluded Leaving (after_publish server k sid label actions pass answer h)
    unfolding after_publish
    after_publish-Ends pass (replied r) h w = elim (Bool-cases r.success) [
      | inl published ↦
          rw published
            (subst (λ b. watch h ≡ (if b then ended k sid else working k sid)) published w)
      | inr not_published ↦
          let open_still : Working server k sid h =
            subst (λ b. watch h ≡ (if b then ended k sid else working k sid)) not_published w in
          rw not_published (discard_and-Ends (put_unpublished actions pass) h (inl open_still))
    ]
    after_publish-Ends pass failed h w = discard_and-Ends (put_unpublished actions pass) h (inl w)
    after_publish-Ends pass refused h w = inl w
    after_publish-Ends pass cancelled h w = inl w

    publish_session-Ends :
        (pass : Pass) (h : History)
        → Working server k sid h
        → Ends Concluded Leaving (publish_session server k sid label actions pass h)
    unfolding publish_session
    publish_session-Ends pass h w =
        after_publish-Ends pass (server h k (publish sid)) _ (publish-ends server k sid h w)

    publish_if_fresh-Ends :
        (stamp : Stamp) (pass : Pass) (head : Head) (h : History)
        → Working server k sid h
        → Ends Concluded Leaving (publish_if_fresh server k sid label actions stamp pass head h)
    unfolding publish_if_fresh
    publish_if_fresh-Ends stamp pass head h w =
        elim (Bool-cases (is_head_stale (some stamp) head)) [
          | inl stale ↦ rw stale (discard_and-Ends (put_stale label actions pass) h (inl w))
          | inr fresh ↦ rw fresh (publish_session-Ends pass h w)
        ]

    verify_and_publish-Ends :
        (force : Bool) (stamp : Option Stamp) (pass : Pass) (h : History)
        → Working server k sid h
        → Ends Concluded Leaving (verify_and_publish server k sid label actions force stamp pass h)
    unfolding verify_and_publish check_head
    verify_and_publish-Ends force none pass h w = publish_session-Ends pass h w
    verify_and_publish-Ends true (some stamp) pass h w = publish_session-Ends pass h w
    verify_and_publish-Ends false (some stamp) pass h w =
        and_then-Ends (λ head g. Working server k sid g) Concluded Leaving _ _
          (Ends-weaken (λ head g. Working server k sid g) (λ head g. Working server k sid g)
            (Working server k sid) Leaving _
            (after_head-Ends (Working server k sid) (server h k show_head) _
              (head-Working server k sid h w))
            (λ head g v. v) (λ g v. inl v))
          (λ head g v. publish_if_fresh-Ends stamp pass head g v)

    pub conclude-Ends :
        (s : Setting) (stamp : Option Stamp) (pass : Pass) (written : Bool) (h : History)
        → Working server k sid h
        → Ends Concluded Leaving (conclude server k sid label actions s stamp pass written h)
    unfolding conclude
    conclude-Ends s stamp pass written h w = elim (Bool-cases (keeps s)) [
      | inl kept ↦ rw kept w
      | inr left ↦ elim (Bool-cases s.no_publish) [
        | inl dry ↦ rw (left, dry) (discard_and-Ends pass h (inl w))
        | inr published ↦ elim (Bool-cases written) [
          | inl any ↦ rw (left, published, any) (verify_and_publish-Ends s.force stamp pass h w)
          | inr nothing ↦ rw (left, published, nothing) w
        ]
      ]
    ]
