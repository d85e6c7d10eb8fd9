-- ===== src/Numbering.antt =====
-- rulebase/numbering.py, `number_layer_rulebase`: the numbers of the rules of a layer, and of the
-- inline and placeholder layers below it. The number `2.1.3` is the list of 2, 1 and 3, and the
-- prefix `2.1.` the list of 2 and 1. The names that are copied into the result, and the data of a
-- rule that numbering does not read, are left out.
pub mod Entries
pub mod Sections
pub mod Models
pub mod Order
pub mod Ascending
pub mod Nested
pub mod Returns
pub mod Packages
pub mod Policies
pub mod Examples
use arodonata.Common.{
  ℕ, zero, suc, String, Bool, true, false, ◌&&◌, ◌||◌, not, Option, none, some, List, [], ◌∷◌, ◌++◌,
  if◌then◌else◌, str_eq,
}
use Entries.{
  Snapshot, LayerEntry, RuleEntry, RulebaseType, access, nat, https, threat, truthy, or_else,
  find_layer, sort_by, rules_of, sections_of,
}
use Models.{RuleNumber, NumberedSection, Numbered, Forest, empty, rule, flatten, tops}
use Sections.{build_sections}

-- The arguments of a call, `_visited_layers` included.
pub record Request : Type 0 where
  pub target : String
  pub rulebase_type : Option RulebaseType
  pub prefix : RuleNumber
  pub parent_rule_uid : Option String
  pub fallback_domain_layer_uid : Option String
  pub expand_placeholders : Bool
  pub expand_inline_layers : Bool
  pub visited : List String

-- `NumberedLayerRulebase`; `flat_rules` has the rules of `rules` and all below them.
pub record Numbering : Type 0 where
  pub layer_uid : String
  pub layer_name : String
  pub rulebase_type : RulebaseType
  pub prefix : RuleNumber
  pub is_global : Bool
  pub sections : List NumberedSection
  pub rules : Forest
  pub flat_rules : List Numbered

infixl 5 ◌>>=◌
abbrev pub ◌>>=◌ : {A B : Type 0} → Option A → (A → Option B) → Option B
none >>= f = none
some a >>= f = f a

unfoldable pub mem_str : String → List String → Bool
mem_str s [] = false
mem_str s (t ∷ ts) = str_eq t s || mem_str s ts

abbrev type_or_access : Option RulebaseType → RulebaseType
type_or_access none = access
type_or_access (some t) = t

-- The result where no layer is found.
missing : Request → Numbering
missing q = record {
  layer_uid = q.target;
  layer_name = q.target;
  rulebase_type = type_or_access q.rulebase_type;
  prefix = q.prefix;
  is_global = false;
  sections = [];
  rules = empty;
  flat_rules = [];
}

unless_visited : List String → Request → Option Request
unfolding mem_str
unless_visited visited q = if mem_str q.target visited then none else some q

-- `entry.placeholder_domain_layer_uid or (fallback if it is a placeholder else None)`.
domain_layer : Request → RuleEntry → Option String
unfolding truthy or_else
domain_layer q e = truthy (
    or_else (truthy e.placeholder_domain_layer_uid)
      (if e.is_placeholder then q.fallback_domain_layer_uid else none))

-- The layer that is expanded below a rule with an inline layer.
inline_request : RulebaseType → Request → List String → RuleNumber → RuleEntry → Option Request
unfolding truthy unless_visited
inline_request t q visited number e =
    if q.expand_inline_layers
    then elim (truthy e.inline_layer_uid) [
      | none ↦ none
      | some uid ↦ unless_visited visited (record {
        target = uid;
        rulebase_type = some t;
        prefix = number;
        parent_rule_uid = some e.uid;
        fallback_domain_layer_uid = none;
        expand_placeholders = q.expand_placeholders;
        expand_inline_layers = true;
        visited = visited;
      })
    ]
    else none

placeholder_request : Request → List String → RuleNumber → RuleEntry → String → Option Request
unfolding unless_visited
placeholder_request q visited number e uid = unless_visited visited (record {
  target = uid;
  rulebase_type = some access;
  prefix = number;
  parent_rule_uid = some e.uid;
  fallback_domain_layer_uid = none;
  expand_placeholders = true;
  expand_inline_layers = q.expand_inline_layers;
  visited = visited;
})

-- What is expanded below an access rule: its domain layer if it is a placeholder that has one, and
-- else its inline layer.
access_request : Request → List String → RuleNumber → RuleEntry → Option Request
unfolding inline_request placeholder_request domain_layer
access_request q visited number e =
    if q.expand_placeholders && e.is_placeholder
    then elim (domain_layer q e) [
      | none ↦ inline_request access q visited number e
      | some uid ↦ placeholder_request q visited number e uid
    ]
    else inline_request access q visited number e

-- By the type of the layer.
pub expansion : RulebaseType → Request → List String → RuleNumber → RuleEntry → Option Request
unfolding access_request inline_request
expansion access q visited number e = access_request q visited number e
expansion https q visited number e = inline_request https q visited number e
expansion _ q visited number e = none

expand : (Request → Option Numbering) → Option Request → Option (Forest × List NumberedSection)
expand sub none = some (empty, [])
expand sub (some q) = do n ← sub q; some (n.rules, n.sections)

-- The loop over the sorted rules of a layer, from the index `idx` on.
number_entries :
    (Request → Option Numbering)
    → (RuleNumber → RuleEntry → Option Request)
    → Request
    → ℕ
    → List RuleEntry
    → Option Forest
number_entries sub below q idx [] = some empty
number_entries sub below q idx (e ∷ es) =
    let number = q.prefix ++ idx ∷ [] in
    let rest = number_entries sub below q (suc idx) es in
    do
      (children, nested) ← expand sub (below number e)
      siblings ← rest
      some (
          rule
            (record {
              entry = e;
              number = number;
              parent_rule_uid = q.parent_rule_uid;
              nested_sections = nested;
            })
            children siblings)

entries_by_type : Snapshot → RulebaseType → List RuleEntry
entries_by_type s access = s.access_rules
entries_by_type s https = s.https_rules
entries_by_type s threat = s.threat_rules
entries_by_type s nat = []

sorted_entries : Snapshot → LayerEntry → List RuleEntry
unfolding entries_by_type sort_by rules_of
sorted_entries s layer =
    sort_by (λ r. r.position) (rules_of layer (entries_by_type s layer.rulebase_type))

number_found : (Request → Option Numbering) → Snapshot → Request → LayerEntry → Option Numbering
number_found sub s q layer = do
  let visited = layer.uid ∷ q.visited
  rules ← number_entries sub (expansion layer.rulebase_type q visited) q 1 (sorted_entries s layer)
  some (record {
    layer_uid = layer.uid;
    layer_name = layer.name;
    rulebase_type = layer.rulebase_type;
    prefix = q.prefix;
    is_global = layer.is_global;
    sections = build_sections (sections_of layer s.sections) (tops rules);
    rules = rules;
    flat_rules = flatten rules;
  })

-- `number_layer_rulebase`; `none` means that the recursion went deeper than the fuel.
pub number_layer : ℕ → Snapshot → Request → Option Numbering
number_layer zero s q = none
number_layer (suc fuel) s q = elim (find_layer s q.target q.rulebase_type) [
  | none ↦ some (missing q)
  | some layer ↦ number_found (number_layer fuel s) s q layer
]
