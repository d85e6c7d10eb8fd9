-- ===== src/Numbering/Entries.antt =====
-- core/models/rulebase.py: the entries of a `DomainRulebaseSnapshot`, with the fields that numbering
-- reads, and the lookups and sorts of rulebase/numbering.py on them.
use arodonata.Common.{
  ℕ, String, Bool, true, false, ◌&&◌, ◌||◌, Option, none, some, List, [], ◌∷◌, leb, if◌then◌else◌,
  str_eq,
}
use arodonata.Common.Text.{strip}

pub data RulebaseType : Type 0 where
  access nat https threat : RulebaseType

unfoldable pub same_type : RulebaseType → RulebaseType → Bool
same_type access access = true
same_type nat nat = true
same_type https https = true
same_type threat threat = true
same_type _ _ = false

pub record LayerEntry : Type 0 where
  pub uid : String
  pub name : String
  pub rulebase_type : RulebaseType
  pub is_global : Bool

pub record PackageLayer : Type 0 where
  pub package_uid : String
  pub package_name : String
  pub rulebase_type : RulebaseType
  pub position : ℕ
  pub layer_uid : String
  pub layer_name : String

pub record SectionEntry : Type 0 where
  pub uid : String
  pub name : String
  pub position : ℕ
  pub layer_uid : String
  pub layer_name : String
  pub rulebase_type : RulebaseType
  pub rule_uids : List String
  pub from_rule : Option ℕ
  pub to_rule : Option ℕ

-- An access, HTTPS, threat or NAT rule. HTTPS rules have no placeholders, threat and NAT rules no
-- inline layers either; a NAT rule's layer is its package.
pub record RuleEntry : Type 0 where
  pub uid : String
  pub name : String
  pub layer_uid : String
  pub layer_name : String
  pub position : ℕ
  -- `rule_type == "place-holder"`
  pub is_placeholder : Bool
  pub inline_layer_uid : Option String
  pub placeholder_domain_layer_uid : Option String
  pub section_uid : Option String

pub record Snapshot : Type 0 where
  pub layers : List LayerEntry
  pub package_layers : List PackageLayer
  pub sections : List SectionEntry
  pub access_rules : List RuleEntry
  pub https_rules : List RuleEntry
  pub threat_rules : List RuleEntry
  pub nat_rules : List RuleEntry

-- `x or None` on an optional text.
unfoldable pub truthy : Option String → Option String
truthy none = none
truthy (some s) = if str_eq s "" then none else some s

unfoldable pub or_else {ℓ} : {A : Type ℓ} → Option A → Option A → Option A
or_else none b = b
or_else (some a) b = some a

-- `rulebase_type is None or ... == rulebase_type`.
unfoldable pub wants : Option RulebaseType → RulebaseType → Bool
unfolding same_type
wants none t = true
wants (some u) t = same_type t u

named : String → String → String → Bool
named target uid name = str_eq uid target || str_eq name target

unfoldable pub find_in_layers : String → Option RulebaseType → List LayerEntry → Option LayerEntry
unfolding wants named
find_in_layers target t [] = none
find_in_layers target t (l ∷ ls) =
    if wants t l.rulebase_type && named target l.uid l.name
    then some l
    else find_in_layers target t ls

synthetic : String → String → RulebaseType → LayerEntry
synthetic uid name t = record { uid = uid; name = name; rulebase_type = t; is_global = false }

unfoldable pub find_in_packages :
    String → Option RulebaseType → List PackageLayer → Option LayerEntry
unfolding wants named synthetic
find_in_packages target t [] = none
find_in_packages target t (p ∷ ps) =
    if wants t p.rulebase_type && named target p.layer_uid p.layer_name
    then some (synthetic p.layer_uid p.layer_name p.rulebase_type)
    else find_in_packages target t ps

unfoldable pub find_in_rules : String → RulebaseType → List RuleEntry → Option LayerEntry
unfolding named synthetic
find_in_rules target t [] = none
find_in_rules target t (r ∷ rs) =
    if named target r.layer_uid r.layer_name
    then some (synthetic r.layer_uid r.layer_name t)
    else find_in_rules target t rs

unfoldable pub when {ℓ} : {A : Type ℓ} → Bool → Option A → Option A
when true a = a
when false a = none

find_stripped : Snapshot → String → Option RulebaseType → Option LayerEntry
unfolding wants when or_else
find_stripped s target t = or_else (find_in_layers target t s.layers) (
    or_else (find_in_packages target t s.package_layers) (
      or_else (when (wants t access) (find_in_rules target access s.access_rules)) (
        or_else (when (wants t https) (find_in_rules target https s.https_rules))
          (when (wants t threat) (find_in_rules target threat s.threat_rules)))))

-- `_find_layer_entry`.
unfoldable pub find_layer : Snapshot → String → Option RulebaseType → Option LayerEntry
unfolding strip find_stripped
find_layer s layer_name_or_uid t = find_stripped s (strip layer_name_or_uid) t

-- `sorted(..., key=...)`, which is stable: an element stands before those of its key that came later.
module _ {ℓ} {A : Type ℓ} (position : A → ℕ) where
  unfoldable pub insert_by : A → List A → List A
  insert_by x [] = x ∷ []
  insert_by x (y ∷ ys) =
      let rest = insert_by x ys in if leb (position x) (position y) then x ∷ y ∷ ys else y ∷ rest

  unfoldable pub sort_by : List A → List A
  unfolding insert_by
  sort_by [] = []
  sort_by (x ∷ xs) = insert_by x (sort_by xs)

-- The rules of one layer: `[r for r in rules if r.layer_uid == eff_uid or r.layer_name == eff_name]`.
unfoldable pub rules_of : LayerEntry → List RuleEntry → List RuleEntry
rules_of layer [] = []
rules_of layer (r ∷ rs) =
    let rest = rules_of layer rs in
    if str_eq r.layer_uid layer.uid || str_eq r.layer_name layer.name then r ∷ rest else rest

unfoldable pub sections_of : LayerEntry → List SectionEntry → List SectionEntry
unfolding same_type
sections_of layer [] = []
sections_of layer (s ∷ ss) =
    let rest = sections_of layer ss in
    if (str_eq s.layer_uid layer.uid || str_eq s.layer_name layer.name)
      && same_type s.rulebase_type layer.rulebase_type
    then s ∷ rest
    else rest
