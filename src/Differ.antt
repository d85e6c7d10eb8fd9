-- ===== src/Differ.antt =====
-- cpcrud/differ.py: the changes of a group's members, and of comments, color and tags. A change has
-- the old value and the new one, which is also that of the update payload. `show` is Python's `str` of a
-- value that is not a text. The lists under "add" and "remove" are lists, as the schema of templates says.
pub mod Members
pub mod Tags
pub mod Settled
pub mod Examples
use arodonata.Common.{
  ℕ, String, Bool, true, false, not, ◌&&◌, ◌||◌, Option, none, some, List, [], ◌∷◌, ◌++◌,
  if◌then◌else◌, str_eq,
}
use arodonata.Common.Text.{strip, lower}
use arodonata.Common.Json.{
  Value, Fields, Items, cons, nil, find, has_field, get, to_list, elements, is_truthy, text_by,
}
use arodonata.Tasks.{contains}
use arodonata.Matching.Texts.{before}

-- `resolve_member_reference`.
pub resolve_member_reference : (Value → String) → Fields → String → String
unfolding strip has_field find
resolve_member_reference show resolutions ref =
    if has_field (strip ref) resolutions
    then text_by show (find (strip ref) resolutions)
    else strip ref

pub text_item : Value → List String
text_item (Value.str s) = if str_eq s "" then [] else s ∷ []
text_item _ = []

-- The name of one raw member, or else its uid.
pub member_name : Value → List String
unfolding find is_truthy text_item
member_name (Value.obj fs) =
    text_item (if is_truthy (find "name" fs) then find "name" fs else find "uid" fs)
member_name v = text_item v

pub member_names : List Value → List String
unfolding member_name
member_names [] = []
member_names (v ∷ vs) = member_name v ++ member_names vs

pub or_existing : List String → List String → List String
or_existing [] existing = existing
or_existing (x ∷ xs) existing = x ∷ xs

-- `_resolve_existing_member_names`.
pub resolve_existing_member_names : List String → Fields → List String
unfolding member_names or_existing elements find
resolve_existing_member_names existing raw =
    or_existing (member_names (elements (find "members" raw))) existing

pub is_subset : List String → List String → Bool
unfolding contains
is_subset [] ys = true
is_subset (x ∷ xs) ys = contains x ys && is_subset xs ys

-- `set(xs) == set(ys)`.
pub same_set : List String → List String → Bool
unfolding is_subset
same_set xs ys = is_subset xs ys && is_subset ys xs

-- `[m for m in xs if m not in ys]` and `[m for m in xs if m in ys]`.
pub missing_from : List String → List String → List String
unfolding contains
missing_from ys [] = []
missing_from ys (x ∷ xs) = let rest = missing_from ys xs in if contains x ys then rest else x ∷ rest

pub present_in : List String → List String → List String
unfolding contains
present_in ys [] = []
present_in ys (x ∷ xs) = let rest = present_in ys xs in if contains x ys then x ∷ rest else rest

-- The new members of a group: all of them, or those to add and to remove.
pub data MemberChange : Type 0 where
  replace : List String → MemberChange
  edit : List String → List String → MemberChange

pub is_empty_list : List String → Bool
is_empty_list [] = true
is_empty_list (x ∷ xs) = false

module _ (show : Value → String) (resolutions : Fields) where
  pub resolved : List Value → List String
  unfolding resolve_member_reference
  resolved [] = []
  resolved (v ∷ vs) = resolve_member_reference show resolutions (text_by show v) ∷ resolved vs

  -- A list of members.
  pub replaced : List String → List String → List String → Option MemberChange
  unfolding same_set
  replaced names uids wanted =
      if same_set wanted names || same_set wanted uids then none else some (replace wanted)

  -- Members to add and to remove.
  pub edited : List String → List String → List String → Option MemberChange
  unfolding missing_from present_in is_empty_list
  edited current to_add to_remove =
      let adds = missing_from current to_add in
      let removes = present_in current to_remove in
      if is_empty_list adds && is_empty_list removes then none else some (edit adds removes)

  -- `_compute_group_members_diff`.
  pub members_change : List String → Fields → Value → Option MemberChange
  unfolding replaced edited resolved resolve_existing_member_names to_list elements get
  members_change existing raw (Value.arr vs) =
      replaced (resolve_existing_member_names existing raw) existing (resolved (to_list vs))
  members_change existing raw (Value.obj fs) =
      edited (resolve_existing_member_names existing raw ++ existing)
        (resolved (elements (find "add" fs))) (resolved (elements (find "remove" fs)))
  members_change existing raw _ = none

  pub group_members_diff : List String → Fields → Fields → Option MemberChange
  unfolding members_change find
  group_members_diff existing raw desired = members_change existing raw (find "members" desired)

-- `[...sorted(...)]` of texts with their repetitions.
pub insert_tag : String → List String → List String
unfolding before
insert_tag x [] = x ∷ []
insert_tag x (y ∷ ys) = let rest = insert_tag x ys in if before y x then y ∷ rest else x ∷ y ∷ ys

pub sort_tags : List String → List String
unfolding insert_tag
sort_tags [] = []
sort_tags (x ∷ xs) = insert_tag x (sort_tags xs)

pub nonblank : String → List String
unfolding strip
nonblank s = if str_eq (strip s) "" then [] else strip s ∷ []

pub clean_tags : List String → List String
unfolding nonblank
clean_tags [] = []
clean_tags (t ∷ ts) = nonblank t ++ clean_tags ts

pub same_list : List String → List String → Bool
same_list [] [] = true
same_list (x ∷ xs) (y ∷ ys) = str_eq x y && same_list xs ys
same_list _ _ = false

-- The entries of the update payload; what is missing does not change.
pub record Metadata : Type 0 where
  pub comments : Option String
  pub color : Option String
  pub tags : Option (List String)

pub or_blank : Option String → String
or_blank none = ""
or_blank (some s) = s

pub is_null : Value → Bool
is_null Value.null = true
is_null _ = false

module _ (show : Value → String) where
  pub text_values : List Value → List String
  text_values [] = []
  text_values (v ∷ vs) = text_by show v ∷ text_values vs

  pub comments_change : String → Value → Option String
  unfolding is_null
  comments_change existing v =
      if is_null v || str_eq (text_by show v) existing then none else some (text_by show v)

  pub color_change : Option String → Value → Option String
  unfolding is_null strip lower or_blank
  color_change existing v =
      if is_null v || str_eq (lower (strip (text_by show v))) (lower (strip (or_blank existing)))
      then none
      else some (strip (text_by show v))

  pub tags_change : List String → Value → Option (List String)
  unfolding sort_tags clean_tags text_values to_list same_list
  tags_change existing (Value.arr vs) =
      let wanted = sort_tags (clean_tags (text_values (to_list vs))) in
      if same_list wanted (sort_tags (clean_tags existing)) then none else some wanted
  tags_change existing _ = none

  -- `_compute_common_metadata_diff`.
  pub common_metadata_diff : String → Option String → List String → Fields → Metadata
  unfolding comments_change color_change tags_change find
  common_metadata_diff comments color tags desired = record {
    comments = comments_change comments (find "comments" desired);
    color = color_change color (find "color" desired);
    tags = tags_change tags (find "tags" desired);
  }
