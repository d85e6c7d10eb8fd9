-- ===== src/Matching/Placed.antt =====
-- Where `resolve_rule_position` places a rule.
use arodonata.Common.{
  String, true, false, Option, none, some, List, [], ◌∷◌, ◌++◌, if◌then◌else◌, str_eq, ◌≡◌, ◌⊎◌,
}
use arodonata.Common.Text.{lower, strip}
use arodonata.Common.Json.{Value, Fields, field, end, find, has_field, text_by}
use arodonata.Numbering.Entries.{SectionEntry}
use arodonata.Matching.{Rule, is_cleanup_rule, section_rules}

module _ (show : Value → String) (objects : Fields) where
  -- The last of some rules, if there is one.
  abbrev Ending : List Rule → Option Rule → Type 0
  Ending rules none = rules ≡ []
  Ending rules (some r) = (before : List Rule) × (rules ≡ before ++ r ∷ [])

  -- A rule that is to stand at the end of some rules stands above the last of them if that counts as a
  -- cleanup rule, and only then.
  abbrev pub IsPlaced : List Rule → Value → Value → Type 0
  IsPlaced scope other place =
      ((before : List Rule) × (r : Rule) × (scope ≡ before ++ r ∷ [])
        × (is_cleanup_rule show objects r ≡ true)
        × (place ≡ Value.obj (field "above" (Value.str r.uid) end)))
      ⊎ (((scope ≡ [])
            ⊎ ((before : List Rule) × (r : Rule) × (scope ≡ before ++ r ∷ [])
                × (is_cleanup_rule show objects r ≡ false)))
          × (place ≡ other))

  module _ (rules : List Rule) (sections : List SectionEntry) where
    -- The rules at whose end a position asks for a place, and the place there.
    unfoldable pub bottom_of : Value → Option (List Rule × Value)
    unfolding lower strip has_field find
    bottom_of Value.null = some (rules, Value.str "bottom")
    bottom_of (Value.str s) =
        if str_eq (lower (strip s)) "bottom" then some (rules, Value.str "bottom") else none
    bottom_of (Value.obj fs) =
        let target = strip (text_by show (find "bottom" fs)) in
        if has_field "bottom" fs
        then some (
          section_rules show objects target sections rules,
          Value.obj (field "bottom" (Value.str target) end),
        )
        else none
    bottom_of _ = none
