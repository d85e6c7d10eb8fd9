-- ===== src/Numbering/Models.antt =====
-- rulebase/models.py: `NumberedRule` and `NumberedSection`. The children of the rules of a layer make
-- a forest; a section names its rules by their uids, where the source holds the rules themselves.
use arodonata.Common.{ℕ, String, Option, List, [], ◌∷◌, ◌++◌}
use arodonata.Numbering.Entries.{RuleEntry}

-- `2.1.3` is 2, 1, 3.
abbrev pub RuleNumber : Type 0
RuleNumber = List ℕ

-- `range_label` is "No Rules" where `range` is missing, the first number where the two are equal, and
-- else both with a dash between.
pub record NumberedSection : Type 0 where
  pub uid : String
  pub layer_uid : String
  pub position : ℕ
  pub range : Option (RuleNumber × RuleNumber)
  pub rule_uids : List String

pub record Numbered : Type 0 where
  pub entry : RuleEntry
  pub number : RuleNumber
  pub parent_rule_uid : Option String
  pub nested_sections : List NumberedSection

pub data Forest : Type 0 where
  empty : Forest
  -- A rule, its children, and the rules after it.
  rule : Numbered → Forest → Forest → Forest

-- `_collect_flat_children`, and the loop over the rules of a layer: a rule, all below it, the next.
unfoldable pub flatten : Forest → List Numbered
flatten empty = []
flatten (rule r children rest) = r ∷ (flatten children ++ flatten rest)

-- The rules of the layer itself.
unfoldable pub tops : Forest → List Numbered
tops empty = []
tops (rule r children rest) = r ∷ tops rest
