-- ===== src/Tasks/Ids.antt =====
-- The task ids that are read from an answer.
use mathlib.Core.List.{append-nil}
use arodonata.Common.{
  ◌≡◌, inl, inr, refl, String, false, List, [], ◌∷◌, ◌++◌, arith, All, Bool-cases, str_eq,
  str_eq_iff, ◌||◌,
}
use arodonata.Common.Text.{strip, is_empty}
use arodonata.Common.Json.{Value, get, elements}
use arodonata.Tasks.{extract_task_ids, contains, more_ids, new_id, id_value}

abbrev pub IsDistinct : List String → Type 0
IsDistinct [] = Unit {0}
IsDistinct (s ∷ ts) = (contains s ts ≡ false) × IsDistinct ts

abbrev pub AreIds : List String → Type 0
AreIds ts = All (λ t. is_empty t ≡ false) ts × IsDistinct ts

contains-snoc :
    (x c : String) (ts : List String)
    → contains x ts ≡ false
    → str_eq x c ≡ false
    → contains x (ts ++ c ∷ []) ≡ false
unfolding contains
contains-snoc x c [] h k = ground (arith, str_eq_iff c x, str_eq_iff x c)
contains-snoc x c (t ∷ ts) h k = ground (arith, contains-snoc x c ts)

snoc-AreIds :
    (c : String) (ts : List String)
    → is_empty c ≡ false
    → contains c ts ≡ false
    → AreIds ts
    → AreIds (ts ++ c ∷ [])
unfolding contains
snoc-AreIds c [] e h (blank, distinct) = ((e, tt), (refl, tt))
snoc-AreIds c (t ∷ ts) e h (blank, distinct) =
    let later = snoc-AreIds c ts e (ground arith) (blank.1, distinct.1) in
    ((blank.0, later.0), (contains-snoc t c ts distinct.0 (ground arith), later.1))

append_nil : (seen : List String) → AreIds seen → AreIds (seen ++ [])
append_nil seen h = rw (append-nil seen) h

append-new_id-AreIds :
    (seen : List String) (v : Value) → AreIds seen → AreIds (seen ++ new_id seen v)
unfolding new_id
append-new_id-AreIds seen (Value.str s) h =
    elim (Bool-cases (is_empty (strip s) || contains (strip s) seen)) [
      | inl skip ↦ rw (skip) (append_nil seen h)
      | inr fresh ↦ rw (fresh) (snoc-AreIds (strip s) seen (ground arith) (ground arith) h)
    ]
append-new_id-AreIds seen _ h = append_nil seen h

more_ids-AreIds : (vs : List Value) (seen : List String) → AreIds seen → AreIds (more_ids seen vs)
unfolding more_ids
more_ids-AreIds [] seen h = h
more_ids-AreIds (v ∷ vs) seen h =
    more_ids-AreIds vs (seen ++ new_id seen (id_value v)) (append-new_id-AreIds seen (id_value v) h)

-- No task id that is read from an answer is blank, and none is read twice.
pub extract_task_ids-AreIds : (answer : Value) → AreIds (extract_task_ids answer)
unfolding extract_task_ids
extract_task_ids-AreIds answer =
    more_ids-AreIds (elements (get "tasks" answer)) _
      (append-new_id-AreIds [] (get "task-id" answer) (tt, tt))
