-- ===== src/Executor/Wire.antt =====
-- cpcrud/executor.py: what a pass asks of the server through `ApiPort`, which is a parameter, and the reading of a
-- domain's published head.
use arodonata.Common.{
  ℕ, String, Bool, true, false, ◌&&◌, Option, none, List, ◌∷◌, if◌then◌else◌, str_eq,
}
use arodonata.Common.Json.{Fields}
use arodonata.Executor.Plan.{Head}

-- `(mgmt_name, domain_name)`
pub record Key : Type 0 where
  pub mgmt_name : String
  pub domain_name : String

abbrev pub same_domain : Key → Key → Bool
same_domain j k = str_eq j.mgmt_name k.mgmt_name && str_eq j.domain_name k.domain_name

-- `show-last-published-session`, `create_dedicated_session`, `show-session`, the command of an
-- action, `publish`, `discard` and `logout_sid`, the last five in the session of a sid.
pub data Call : Type 0 where
  show_head open_session : Call
  show_session publish discard logout : String → Call
  write : String → String → Fields → Call

-- The fields of an answer that are read; `uid` is as the reader takes it, which strips that of a head.
pub record Reply : Type 0 where
  pub success : Bool
  pub sid : String
  pub uid : Option String
  pub published_at : Option ℕ

-- An answer, an `Exception`, a `ServerIdentityError`, or a cancellation, which is no `Exception`.
pub data Answer : Type 0 where
  replied : Reply → Answer
  failed refused cancelled : Answer

pub record Sent : Type 0 where
  pub domain : Key
  pub call : Call
  pub answer : Answer

-- The requests so far, the latest first.
abbrev pub History : Type 0
History = List Sent

abbrev pub Server : Type 0
Server = History → Key → Call → Answer

pub data Fault : Type 0 where
  identity_error interrupted invalid_command : Fault

pub data Run {ℓ} (A : Type ℓ) : Type ℓ where
  returned : A → History → Run A
  raised : Fault → History → Run A

unfoldable pub and_then {ℓ κ} : {A : Type ℓ} {B : Type κ} → Run A → (A → History → Run B) → Run B
and_then (returned a h) next = next a h
and_then (raised fault h) next = raised fault h

-- What holds after a run, by how it ends.
abbrev pub Ends {ℓ} : {A : Type ℓ} → (A → History → Type 0) → (History → Type 0) → Run A → Type 0
Ends Q R (returned a h) = Q a h
Ends Q R (raised fault h) = R h

pub and_then-Ends {ℓ κ} :
    {A : Type ℓ} {B : Type κ} (Q : A → History → Type 0) (S : B → History → Type 0)
    (R : History → Type 0) (r : Run A) (next : A → History → Run B)
    → Ends Q R r
    → ((a : A) (h : History) → Q a h → Ends S R (next a h))
    → Ends S R (and_then r next)
unfolding and_then
and_then-Ends Q S R (returned a h) next e f = f a h e
and_then-Ends Q S R (raised fault h) next e f = e

pub Ends-weaken {ℓ} :
    {A : Type ℓ} (Q S : A → History → Type 0) (R T : History → Type 0) (r : Run A)
    → Ends Q R r
    → ((a : A) (h : History) → Q a h → S a h)
    → ((h : History) → R h → T h)
    → Ends S T r
Ends-weaken Q S R T (returned a h) e f g = f a h e
Ends-weaken Q S R T (raised fault h) e f g = g h e

abbrev pub history_of {ℓ} : {A : Type ℓ} → Run A → History
history_of (returned a h) = h
history_of (raised fault h) = h

pub Ends-history {ℓ} :
    {A : Type ℓ} (P : History → Type 0) (r : Run A) → Ends (λ a g. P g) P r → P (history_of r)
Ends-history P (returned a h) e = e
Ends-history P (raised fault h) e = e

abbrev pub unread : Head
unread = record { readable = false; uid = none; published_at = none }

-- `_check_current_domain_head`, by the answer.
unfoldable pub after_head : Answer → History → Run Head
after_head (replied r) h =
    returned
      (if r.success
        then record { readable = true; uid = r.uid; published_at = r.published_at }
        else unread)
      h
after_head failed h = returned unread h
after_head refused h = raised identity_error h
after_head cancelled h = raised interrupted h

-- A request under `suppress(Exception)`, by the answer.
unfoldable pub after_quiet : Answer → History → Run Bool
after_quiet cancelled h = raised interrupted h
after_quiet _ h = returned true h

module _ (server : Server) where
  unfoldable pub send : Key → Call → History → History
  send k c h = record { domain = k; call = c; answer = server h k c } ∷ h

  unfoldable pub check_head : Key → History → Run Head
  check_head k h = after_head (server h k show_head) (send k show_head h)

  unfoldable pub discard_quietly : Key → String → History → Run Bool
  discard_quietly k sid h = after_quiet (server h k (discard sid)) (send k (discard sid) h)
