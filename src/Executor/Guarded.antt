-- ===== src/Executor/Guarded.antt =====
-- Without `force` a domain is written and published only while it is as the plan knew it.
pub mod Concluded
pub mod Every
use arodonata.Common.{
  String, Bool, true, false, not, ◌&&◌, ◌||◌, Option, none, some, List, [], ◌∷◌, ◌≡◌, inl, inr,
  refl, if◌then◌else◌, arith, Bool-cases,
}
use arodonata.Executor.Plan.{PlannedAction, is_write, resolve_command, Stamp, Head, is_head_stale}
use arodonata.Executor.Wire.{
  Key, same_domain, Call, show_head, open_session, show_session, write, publish, discard, logout,
  Answer, replied, failed, refused, cancelled, unread, Sent, History, Server, Run, Ends,
  Ends-weaken, and_then-Ends, send, after_head,
}
use arodonata.Executor.Session.{
  Pass, Progress, run_action, run_actions, write_action, after_write, is_broken,
}
use arodonata.Executor.Passes.{Stamps, find_stamp, label_of}
use arodonata.Executor.Closed.{own_domain}

-- The calls that begin and publish the writes of a domain.
abbrev pub is_guarded_call : Call → Bool
is_guarded_call open_session = true
is_guarded_call (publish sid) = true
is_guarded_call _ = false

abbrev is_show_head : Call → Bool
is_show_head show_head = true
is_show_head _ = false

abbrev head_of : Answer → Head
head_of (replied r) =
    if r.success
    then record { readable = true; uid = r.uid; published_at = r.published_at }
    else unread
head_of _ = unread

-- The latest request read the head of the domain, and it is that of the domain's stamp.
unfoldable pub is_fresh_read : Stamps → Key → History → Bool
is_fresh_read stamps k [] = false
is_fresh_read stamps k (e ∷ h) =
    same_domain e.domain k
    && (is_show_head e.call
        && not (is_head_stale (find_stamp (label_of k) stamps) (head_of e.answer)))

-- Such a reading comes directly before each guarded call.
unfoldable pub is_guarded : Stamps → History → Bool
unfolding is_fresh_read
is_guarded stamps [] = true
is_guarded stamps (e ∷ h) =
    (not (is_guarded_call e.call) || is_fresh_read stamps e.domain h) && is_guarded stamps h

module _ (server : Server) (stamps : Stamps) where
  abbrev pub Guarded : History → Type 0
  Guarded h = is_guarded stamps h ≡ true

  pub send-Guarded :
      (k : Key) (c : Call) (h : History)
      → is_guarded_call c ≡ false
      → Guarded h
      → Guarded (send server k c h)
  unfolding is_guarded send
  send-Guarded k c h other g = rw (other, g) refl

  pub fresh-Guarded :
      (k : Key) (c : Call) (h : History)
      → is_fresh_read stamps k h ≡ true
      → Guarded h
      → Guarded (send server k c h)
  unfolding is_guarded send
  fresh-Guarded k c h fresh g = ground (arith, fresh, g)

  -- A head that is not stale was read just now.
  abbrev pub Read : Key → Head → History → Type 0
  Read k head h =
      Guarded h
      × (is_head_stale (find_stamp (label_of k) stamps) head ≡ false
          → is_fresh_read stamps k h ≡ true)

  pub after_head-Read :
      (k : Key) (answer : Answer) (h : History)
      → Guarded h
      → Ends
          (Read k)
          Guarded
          (after_head answer (record { domain = k; call = show_head; answer = answer } ∷ h))
  unfolding after_head is_guarded is_fresh_read
  after_head-Read k (replied r) h g = (g, λ fresh. rw (own_domain k, fresh) refl)
  after_head-Read k failed h g = (g, λ fresh. rw (own_domain k, fresh) refl)
  after_head-Read k refused h g = g
  after_head-Read k cancelled h g = g

  module _ (k : Key) (sid : String) where
    after_write-Guarded :
        (a : PlannedAction) (command : String) (p : Progress) (answer : Answer) (h : History)
        → Guarded h
        → Ends (λ q g. Guarded g) Guarded (after_write a command p answer h)
    unfolding after_write
    after_write-Guarded a command p (replied r) h w = w
    after_write-Guarded a command p failed h w = w
    after_write-Guarded a command p refused h w = w
    after_write-Guarded a command p cancelled h w = w

    write_action-Guarded :
        (a : PlannedAction) (command : Option String) (p : Progress) (h : History)
        → Guarded h
        → Ends (λ q g. Guarded g) Guarded (write_action server k sid a command p h)
    unfolding write_action
    write_action-Guarded a none p h w = w
    write_action-Guarded a (some command) p h w =
        after_write-Guarded a command p (server h k (write sid command a.payload)) _
          (send-Guarded k (write sid command a.payload) h refl w)

    run_action-Guarded :
        (a : PlannedAction) (p : Progress) (h : History)
        → Guarded h
        → Ends (λ q g. Guarded g) Guarded (run_action server k sid a p h)
    unfolding run_action
    run_action-Guarded a p h w = elim (Bool-cases (is_write a.outcome)) [
      | inr none_there ↦ rw none_there w
      | inl writes ↦ elim (Bool-cases (is_broken a p)) [
        | inl broken ↦ rw (writes, broken) w
        | inr whole ↦ rw (writes, whole) (write_action-Guarded a (resolve_command a) p h w)
      ]
    ]

    pub run_actions-Guarded :
        (actions : List PlannedAction) (p : Progress) (h : History)
        → Guarded h
        → Ends (λ q g. Guarded g) Guarded (run_actions server k sid actions p h)
    unfolding run_actions
    run_actions-Guarded [] p h w = w
    run_actions-Guarded (a ∷ actions) p h w =
        and_then-Ends (λ q g. Guarded g) (λ q g. Guarded g) Guarded _ _ (run_action-Guarded a p h w)
          (λ q g v. run_actions-Guarded actions q g v)
