-- ===== src/Numbering/Sections.antt =====
-- rulebase/numbering.py, `_build_sections_for_layer`, and `NumberedSection.from_section_entry`.
use arodonata.Common.{
  ℕ, String, Bool, false, ◌&&◌, Option, none, some, List, [], ◌∷◌, map, leb, if◌then◌else◌, str_eq,
}
use arodonata.Numbering.Entries.{SectionEntry, truthy, or_else, sort_by}
use arodonata.Numbering.Models.{RuleNumber, NumberedSection, Numbered}

-- `{r.uid: r for r in top_rules}.get(uid)`: of two rules with one uid the later counts.
pub find_uid : String → List Numbered → Option Numbered
unfolding or_else
find_uid uid [] = none
find_uid uid (r ∷ rs) = or_else (find_uid uid rs) (if str_eq r.entry.uid uid then some r else none)

pub by_uids : List Numbered → List String → List Numbered
unfolding find_uid
by_uids rs [] = []
by_uids rs (u ∷ us) = elim (find_uid u rs) [ none ↦ by_uids rs us | some r ↦ r ∷ by_uids rs us ]

is_in_section : String → Numbered → Bool
unfolding truthy
is_in_section uid r = elim (truthy r.entry.section_uid) [ none ↦ false | some s ↦ str_eq s uid ]

is_in_range : Option ℕ → Option ℕ → Numbered → Bool
is_in_range none to r = false
is_in_range (some from) none r = false
is_in_range (some from) (some to) r = leb from r.entry.position && leb r.entry.position to

unfoldable pub keep : (Numbered → Bool) → List Numbered → List Numbered
keep p [] = []
keep p (r ∷ rs) = let rest = keep p rs in if p r then r ∷ rest else rest

-- `if not sec_rules: ...`.
or_if_empty : List Numbered → List Numbered → List Numbered
or_if_empty [] other = other
or_if_empty (r ∷ rs) other = r ∷ rs

-- By the uids that the section lists; if that gives none, by the section that a rule names; and if
-- that gives none either, by the section's range of positions.
pub section_rules : List Numbered → SectionEntry → List Numbered
unfolding by_uids is_in_section is_in_range keep or_if_empty
section_rules rs sec = or_if_empty (by_uids rs sec.rule_uids) (
    or_if_empty (keep (is_in_section sec.uid) rs) (keep (is_in_range sec.from_rule sec.to_rule) rs))

last_number : RuleNumber → List Numbered → RuleNumber
last_number n [] = n
last_number n (r ∷ rs) = last_number r.number rs

pub range_of : List Numbered → Option (RuleNumber × RuleNumber)
unfolding last_number
range_of [] = none
range_of (r ∷ rs) = some (r.number, last_number r.number rs)

pub from_section_entry : SectionEntry → List Numbered → NumberedSection
unfolding range_of
from_section_entry sec rs = record {
  uid = sec.uid;
  layer_uid = sec.layer_uid;
  position = sec.position;
  range = range_of rs;
  rule_uids = map (λ r. r.entry.uid) rs;
}

unfoldable pub build_sections : List SectionEntry → List Numbered → List NumberedSection
unfolding from_section_entry section_rules sort_by
build_sections secs rs =
    map (λ sec. from_section_entry sec (section_rules rs sec)) (sort_by (λ s. s.position) secs)
