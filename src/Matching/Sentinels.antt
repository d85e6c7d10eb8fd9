-- ===== src/Matching/Sentinels.antt =====
-- cpcrud/rule_identity.py: the names that stand for any object, and for the original one.
use arodonata.Common.{String, Bool, ◌||◌, List, [], ◌∷◌, if◌then◌else◌, str_eq}
use arodonata.Common.Text.{strip, lower}
use arodonata.Common.Json.{Value, Fields, find, has_field, get, is_truthy, text_by, to_list}
use arodonata.Matching.Canonical.{canonical}

abbrev pub nat_original_object_uid : String
nat_original_object_uid = "85c0f50f-6d8a-4528-88ab-5fb11d8fe16c"

abbrev pub nat_any_object_uid : String
nat_any_object_uid = "97aeb369-9aea-11d5-bd16-0090272ccb30"

pub is_original_alias : String → Bool
is_original_alias s = str_eq s "" || str_eq s "original" || str_eq s nat_original_object_uid

pub is_any_alias : String → Bool
is_any_alias s = str_eq s "" || str_eq s "any" || str_eq s nat_any_object_uid

-- `str(v or default)`.
unfoldable pub text_or : (Value → String) → String → Value → String
unfolding is_truthy
text_or show default v = if is_truthy v then text_by show v else default

pub or_default : String → String → String
or_default s default = if str_eq s "" then default else s

module _ (show : Value → String) (objects : Fields) where
  text_field : String → Fields → String
  unfolding text_or find strip
  text_field key fs = strip (text_or show "" (find key fs))

  -- The name of the object with a uid, where the map has one.
  resolved_name : String → String
  unfolding has_field find get text_or strip
  resolved_name uid =
      if has_field uid objects then strip (text_or show "" (get "name" (find uid objects))) else ""

  -- The names of a dictionary that is not a sentinel itself, by the test on the resolved name.
  original_by_uid : String → String
  unfolding resolved_name lower or_default
  original_by_uid uid =
      if str_eq uid ""
      then "Original"
      else if str_eq (lower (resolved_name uid)) "original"
      then "Original"
      else or_default (resolved_name uid) uid

  original_of_object : String → String → String
  unfolding original_by_uid lower
  original_of_object uid name =
      if str_eq (lower uid) nat_original_object_uid || str_eq (lower name) "original"
      then "Original"
      else if str_eq name ""
      then original_by_uid uid
      else name

  original_of_text : String → String
  unfolding is_original_alias resolved_name lower or_default
  original_of_text clean =
      if is_original_alias (lower clean)
      then "Original"
      else if str_eq (lower (resolved_name clean)) "original"
      then "Original"
      else or_default (resolved_name clean) clean

  unfoldable pub normalize_nat_original_sentinel : Value → String
  unfolding original_of_object original_of_text text_field strip
  normalize_nat_original_sentinel Value.null = "Original"
  normalize_nat_original_sentinel (Value.obj fs) =
      original_of_object (text_field "uid" fs) (text_field "name" fs)
  normalize_nat_original_sentinel (Value.str s) = original_of_text (strip s)
  normalize_nat_original_sentinel v = show v

  any_by_uid : String → String
  unfolding resolved_name lower or_default
  any_by_uid uid =
      if str_eq uid ""
      then "Any"
      else if str_eq (lower (resolved_name uid)) "any"
      then "Any"
      else or_default (resolved_name uid) uid

  any_of_object : String → String → String
  unfolding any_by_uid lower
  any_of_object uid name =
      if str_eq (lower uid) nat_any_object_uid || str_eq (lower name) "any"
      then "Any"
      else if str_eq (lower uid) nat_original_object_uid || str_eq (lower name) "original"
      then "Original"
      else if str_eq name ""
      then any_by_uid uid
      else name

  any_of_text : String → String
  unfolding is_any_alias is_original_alias resolved_name lower or_default
  any_of_text clean =
      if is_any_alias (lower clean)
      then "Any"
      else if is_original_alias (lower clean)
      then "Original"
      else if str_eq (lower (resolved_name clean)) "any"
      then "Any"
      else if str_eq (lower (resolved_name clean)) "original"
      then "Original"
      else or_default (resolved_name clean) clean

  unfoldable pub normalize_any_sentinel : Value → String
  unfolding any_of_object any_of_text text_field strip
  normalize_any_sentinel Value.null = "Any"
  normalize_any_sentinel (Value.obj fs) = any_of_object (text_field "uid" fs) (text_field "name" fs)
  normalize_any_sentinel (Value.str s) = any_of_text (strip s)
  normalize_any_sentinel v = show v

  module _ (resolutions : Fields) where
    -- `if name_resolutions and ref in name_resolutions: ref = name_resolutions[ref]`.
    pub resolve_ref : String → String
    unfolding has_field find
    resolve_ref ref = if has_field ref resolutions then text_by show (find ref resolutions) else ref

    unfoldable pub normalize_refs : List Value → List String
    unfolding normalize_any_sentinel resolve_ref
    normalize_refs [] = []
    normalize_refs (v ∷ vs) = resolve_ref (normalize_any_sentinel v) ∷ normalize_refs vs

    unfoldable pub normalize_traffic_list : Value → List String
    unfolding normalize_refs canonical to_list
    normalize_traffic_list Value.null = "Any" ∷ []
    normalize_traffic_list (Value.arr vs) = canonical (normalize_refs (to_list vs))
    normalize_traffic_list v = canonical (normalize_refs (v ∷ []))

    unfoldable pub normalize_nat_traffic_ref : Bool → Value → String
    unfolding normalize_nat_original_sentinel normalize_any_sentinel resolve_ref
    normalize_nat_traffic_ref is_translated v =
        resolve_ref
          (if is_translated then normalize_nat_original_sentinel v else normalize_any_sentinel v)
