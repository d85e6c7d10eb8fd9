-- ===== src/Differ/Examples.antt =====
-- A group of two members, and the request to add one and to remove one.
use arodonata.Common.{
  String, true, false, none, some, [], ◌∷◌, ◌≡◌, inl, inr, Bool-cases, str_eq, refl, subst, sym,
  str_eq_iff,
}
use arodonata.Common.Json.{Value, Fields, field, end, cons, nil}
use arodonata.Tasks.{contains}
use arodonata.Differ.{edit, edited, group_members_diff, common_metadata_diff}
use arodonata.Differ.Members.{is_member_after, is_member_changed, edited-members}

abbrev no_text : Value → String
no_text v = ""

abbrev wanted : Fields
wanted =
    field "members"
      (Value.obj (
        field "add" (Value.arr (cons (Value.str " c ") (cons (Value.str "a") nil)))
          (field "remove" (Value.arr (cons (Value.str "b") nil)) end)))
      end

-- Only the member that is missing is added.
edits :
    group_members_diff no_text end ("a" ∷ "b" ∷ []) end wanted ≡ some (edit ("c" ∷ []) ("b" ∷ []))
unfolding group_members_diff
edits = refl

apart : (u : String) → contains u ("c" ∷ "a" ∷ []) ≡ true → contains u ("b" ∷ []) ≡ false
unfolding contains
apart u h = elim (Bool-cases (str_eq "b" u)) [
  | inr other ↦ rw other refl
  | inl same ↦
      let there : contains "b" ("c" ∷ "a" ∷ []) ≡ true =
        subst (λ x. contains x ("c" ∷ "a" ∷ []) ≡ true) (sym ((str_eq_iff "b" u).0 same)) h in
      cc
]

edited-members_example :
    is_member_changed
      ("a" ∷ "b" ∷ [])
      (edited no_text end ("a" ∷ "b" ∷ []) ("c" ∷ "a" ∷ []) ("b" ∷ []))
      "c"
    ≡ is_member_after ("a" ∷ "b" ∷ []) ("c" ∷ "a" ∷ []) ("b" ∷ []) "c"
edited-members_example =
    edited-members no_text end ("a" ∷ "b" ∷ []) ("c" ∷ "a" ∷ []) ("b" ∷ []) apart "c"

abbrev tagged : Fields
tagged =
    field "color" (Value.str " Red ")
      (field "tags" (Value.arr (cons (Value.str "y") (cons (Value.str " x") nil))) end)

first_diff :
    common_metadata_diff no_text "" (some "blue") [] tagged
    ≡ record { comments = none; color = some "Red"; tags = some ("x" ∷ "y" ∷ []) }
unfolding common_metadata_diff
first_diff = refl
