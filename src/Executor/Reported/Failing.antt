-- ===== src/Executor/Reported/Failing.antt =====
-- Failing the results of a domain's actions leaves none that claims a write.
use arodonata.Common.{
  String, Bool, true, false, not, ◌&&◌, ◌||◌, none, some, List, [], ◌∷◌, ◌≡◌, inl, inr, refl, sym,
  ap, ◌∙◌, str_eq, str_eq_iff, Bool-cases, Option-cases, arith,
}
use arodonata.Inverse.Actions.{Outcome}
use arodonata.Executor.Plan.{PlannedAction, ActionResult}
use arodonata.Executor.Session.{Results, get_result}
use arodonata.Executor.Publish.{set_outcome, fail_results}
use arodonata.Executor.Reported.{is_named, claims, holds-weaken, Hold}

get_result-id :
    (id : String) (results : Results) (r : ActionResult)
    → get_result id results ≡ some r
    → str_eq r.action_id id ≡ true
unfolding get_result
get_result-id id [] r found = absurd (ground (arith, found))
get_result-id id (q ∷ results) r found = elim (Bool-cases (str_eq q.action_id id)) [
  | inl here ↦
      let same : q ≡ r = ground (arith, found, here) in
      ap (λ (p : ActionResult). str_eq p.action_id id) (sym same) ∙ here
  | inr there ↦ get_result-id id results r (ground (arith, found, there))
]

-- No result of the set claims a write that is still to be failed.
abbrev pub is_pending : (ActionResult → Bool) → (String → Bool) → String → ActionResult → Bool
is_pending test D id r = not (claims r) || (test r && not (D id))

-- An action whose result the test spares is done.
spared :
    (test : ActionResult → Bool) (N D : String → Bool) (key : String) (results : Results)
    → ((r : ActionResult) → get_result key results ≡ some r → test r ≡ false)
    → Hold N (is_pending test D) results
    → Hold N (is_pending test (λ id. str_eq key id || D id)) results
spared test N D key results spares h id named = elim (Bool-cases (str_eq key id)) [
  | inr other ↦
      holds-weaken (is_pending test D id) (is_pending test (λ i. str_eq key i || D i) id)
        (get_result id results) (λ q w. ground (arith, w, other)) (h id named)
  | inl this ↦
      let same : key ≡ id = (str_eq_iff key id).0 this in
      elim (Option-cases (get_result key results)) [
        | inl absent ↦
            let gone : get_result id results ≡ none =
              ap (λ s. get_result s results) (sym same) ∙ absent in
            absurd (ground (arith, h id named, gone))
        | inr (r, found) ↦
            let here : get_result id results ≡ some r =
              ap (λ s. get_result s results) (sym same) ∙ found in
            let spare : test r ≡ false = spares r found in
            rw here (ground (arith, h id named, here, spare))
      ]
]

-- A result that is failed claims nothing.
failed_first :
    (o : Outcome) (test : ActionResult → Bool) (N D : String → Bool) (key : String)
    (r : ActionResult) (results : Results)
    → r.action_id ≡ key
    → Hold N (is_pending test D) results
    → Hold N (is_pending test (λ id. str_eq key id || D id)) (set_outcome o r ∷ results)
unfolding get_result set_outcome
failed_first o test N D key r results same h id named = elim (Bool-cases (str_eq r.action_id id)) [
  | inl here ↦ rw here refl
  | inr there ↦
      let away : str_eq key id ≡ false = ap (λ s. str_eq s id) (sym same) ∙ there in
      rw there (
        holds-weaken (is_pending test D id) (is_pending test (λ i. str_eq key i || D i) id)
          (get_result id results) (λ q w. ground (arith, w, away)) (h id named))
]

regrouped :
    (test : ActionResult → Bool) (N D : String → Bool) (a : PlannedAction)
    (actions : List PlannedAction) (results : Results)
    → Hold N
        (is_pending test (λ id. is_named actions id || (str_eq a.action_id id || D id)))
        results
    → Hold N (is_pending test (λ id. is_named (a ∷ actions) id || D id)) results
regrouped test N D a actions results h id named =
    holds-weaken (is_pending test (λ i. is_named actions i || (str_eq a.action_id i || D i)) id)
      (is_pending test (λ i. is_named (a ∷ actions) i || D i) id) (get_result id results)
      (λ q w. ground (arith, w)) (h id named)

fail_results-Hold :
    (o : Outcome) (test : ActionResult → Bool) (N D : String → Bool) (actions : List PlannedAction)
    (results : Results)
    → Hold N (is_pending test D) results
    → Hold N
        (is_pending test (λ id. is_named actions id || D id))
        (fail_results o test actions results)
unfolding fail_results
fail_results-Hold o test N D [] results h = h
fail_results-Hold o test N D (a ∷ actions) results h =
    elim (Option-cases (get_result a.action_id results)) [
      | inl absent ↦
          rw (absent, fail_results)
            (regrouped test N D a actions _ (
              fail_results-Hold o test N (λ id. str_eq a.action_id id || D id) actions results
                (spared test N D a.action_id results
                  (λ r found. absurd (ground (arith, found, absent))) h)))
      | inr (r, found) ↦
          let same : r.action_id ≡ a.action_id =
            (str_eq_iff r.action_id a.action_id).0 (get_result-id a.action_id results r found) in
          elim (Bool-cases (test r)) [
            | inl fails ↦
                rw (found, fails, fail_results)
                  (regrouped test N D a actions _ (
                    fail_results-Hold o test N (λ id. str_eq a.action_id id || D id) actions
                      (set_outcome o r ∷ results)
                      (failed_first o test N D a.action_id r results same h)))
            | inr spare ↦
                rw (found, spare, fail_results)
                  (regrouped test N D a actions _ (
                    fail_results-Hold o test N (λ id. str_eq a.action_id id || D id) actions results
                      (spared test N D a.action_id results
                        (λ q there. ground (arith, there, found, spare)) h)))
          ]
    ]

-- Failing all actions of a set leaves none that claims a write.
abbrev pub Modest : (String → Bool) → Results → Type 0
Modest N results = Hold N (λ id r. not (claims r)) results

pub fail_results-Modest :
    (o : Outcome) (test : ActionResult → Bool) (actions : List PlannedAction) (results : Results)
    → Hold (is_named actions) (is_pending test (λ id. false)) results
    → Modest (is_named actions) (fail_results o test actions results)
fail_results-Modest o test actions results h id named =
    holds-weaken (is_pending test (λ i. is_named actions i || false) id) (λ r. not (claims r))
      (get_result id (fail_results o test actions results)) (λ q w. ground (arith, w, named))
      (fail_results-Hold o test (is_named actions) (λ i. false) actions results h id named)
