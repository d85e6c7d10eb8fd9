-- ===== src/Executor/Guarded/Concluded.antt =====
-- The end of a session of a domain whose stamp the plan has.
use arodonata.Common.{
  String, Bool, true, false, any, some, List, ◌≡◌, ◌∙◌, inl, inr, refl, ap, Bool-cases,
}
use arodonata.Executor.Plan.{PlannedAction, Stamp, Head, is_head_stale}
use arodonata.Executor.Wire.{
  Key, show_head, publish, discard, Answer, replied, failed, refused, cancelled, History, Server,
  Run, Ends, and_then-Ends, send, check_head, discard_quietly,
}
use arodonata.Executor.Session.{Setting, keeps, Pass}
use arodonata.Executor.Publish.{
  discard_and, after_publish, publish_session, publish_if_fresh, verify_and_publish, conclude,
  put_stale, put_unpublished,
}
use arodonata.Executor.Passes.{Stamps, find_stamp, label_of}
use arodonata.Executor.Closed.Concluded.{after_quiet-Ends}
use arodonata.Executor.Guarded.{
  is_fresh_read, Guarded, send-Guarded, fresh-Guarded, Read, after_head-Read,
}

module _ (server : Server) (stamps : Stamps) where
  abbrev pub IsGuarded : {A : Type 0} → Run A → Type 0
  IsGuarded r = Ends (λ a g. Guarded server stamps g) (Guarded server stamps) r

  module _ (k : Key) (sid : String) where
    discard_and-IsGuarded :
        (pass : Pass) (h : History)
        → Guarded server stamps h
        → IsGuarded (discard_and server k sid pass h)
    unfolding discard_and discard_quietly
    discard_and-IsGuarded pass h w =
        and_then-Ends (λ done g. Guarded server stamps g) (λ e g. Guarded server stamps g)
          (Guarded server stamps) _ _
          (after_quiet-Ends (Guarded server stamps) (server h k (discard sid)) _
            (send-Guarded server stamps k (discard sid) h refl w))
          (λ done g v. v)

    module _ (label : String) (actions : List PlannedAction) where
      after_publish-IsGuarded :
          (pass : Pass) (answer : Answer) (h : History)
          → Guarded server stamps h
          → IsGuarded (after_publish server k sid label actions pass answer h)
      unfolding after_publish
      after_publish-IsGuarded pass (replied r) h w = elim (Bool-cases r.success) [
        | inl published ↦ rw published w
        | inr not_published ↦
            rw not_published (discard_and-IsGuarded (put_unpublished actions pass) h w)
      ]
      after_publish-IsGuarded pass failed h w =
          discard_and-IsGuarded (put_unpublished actions pass) h w
      after_publish-IsGuarded pass refused h w = w
      after_publish-IsGuarded pass cancelled h w = w

      publish_session-IsGuarded :
          (pass : Pass) (h : History)
          → is_fresh_read stamps k h ≡ true
          → Guarded server stamps h
          → IsGuarded (publish_session server k sid label actions pass h)
      unfolding publish_session
      publish_session-IsGuarded pass h fresh w =
          after_publish-IsGuarded pass (server h k (publish sid)) _
            (fresh-Guarded server stamps k (publish sid) h fresh w)

      module _ (stamp : Stamp) (known : find_stamp (label_of k) stamps ≡ some stamp) where
        publish_if_fresh-IsGuarded :
            (pass : Pass) (head : Head) (h : History)
            → Read server stamps k head h
            → IsGuarded (publish_if_fresh server k sid label actions stamp pass head h)
        unfolding publish_if_fresh
        publish_if_fresh-IsGuarded pass head h w =
            elim (Bool-cases (is_head_stale (some stamp) head)) [
              | inl stale ↦ rw stale (discard_and-IsGuarded (put_stale label actions pass) h w.0)
              | inr fresh ↦ rw fresh (
                  publish_session-IsGuarded pass h
                    (w.1 (ap (λ o. is_head_stale o head) known ∙ fresh)) w.0)
            ]

        verify_and_publish-IsGuarded :
            (pass : Pass) (h : History)
            → Guarded server stamps h
            → IsGuarded (verify_and_publish server k sid label actions false (some stamp) pass h)
        unfolding verify_and_publish check_head send
        verify_and_publish-IsGuarded pass h w =
            and_then-Ends (Read server stamps k) (λ e g. Guarded server stamps g)
              (Guarded server stamps) _ _
              (after_head-Read server stamps k (server h k show_head) h w)
              (λ head g v. publish_if_fresh-IsGuarded pass head g v)

        pub conclude-IsGuarded :
            (s : Setting) (pass : Pass) (written : Bool) (h : History)
            → s.force ≡ false
            → Guarded server stamps h
            → IsGuarded (conclude server k sid label actions s (some stamp) pass written h)
        unfolding conclude
        conclude-IsGuarded s pass written h unforced w = elim (Bool-cases (keeps s)) [
          | inl kept ↦ rw kept w
          | inr left ↦ elim (Bool-cases s.no_publish) [
            | inl dry ↦ rw (left, dry) (discard_and-IsGuarded pass h w)
            | inr published ↦ elim (Bool-cases written) [
              | inl any ↦
                  rw (left, published, any, unforced) (verify_and_publish-IsGuarded pass h w)
              | inr nothing ↦ rw (left, published, nothing) w
            ]
          ]
        ]
