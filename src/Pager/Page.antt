-- ===== src/Pager/Page.antt =====
-- adapters/checkpoint/pager.py: what is read from one answer, its listing, its counts, and the
-- identities of its items. `show` is Python's `str` of a value that is not a text.
use Prim.Native.Char.{code}
use Prim.Native.String.{◌++◌ as append}
use arodonata.Common.{
  ℕ, String, Bool, true, false, not, ◌&&◌, ◌||◌, Option, none, some, List, [], ◌∷◌, ◌++◌, ◌==◌,
  if◌then◌else◌, str_eq,
}
use arodonata.Common.Json.{Value, Fields, field, end, get, has, elements, is_dict, is_truthy}

unfoldable pub is_list : Value → Bool
is_list (Value.arr vs) = true
is_list _ = false

-- `[item for item in val if isinstance(item, dict)]`.
unfoldable pub dicts : List Value → List Value
dicts [] = []
dicts (v ∷ vs) = let rest = dicts vs in if is_dict v then v ∷ rest else rest

unfoldable pub first_of : Value → Value
unfolding elements
first_of v = elim (elements v) [ [] ↦ Value.null | x ∷ xs ↦ x ]

-- `isinstance(v, list) and v`, whose first element is a dictionary.
starts_with_dict : Value → Bool
unfolding first_of is_list
starts_with_dict v = is_list v && is_dict (first_of v)

has_any : List String → Value → Bool
unfolding has
has_any [] v = false
has_any (k ∷ ks) v = has k v || has_any ks v

-- The listing inside the first detail of a task, where there is one.
detail_of : Value → Value → Value
unfolding get has_any
detail_of page detail =
    if has_any ("objects" ∷ "total" ∷ "from" ∷ "to" ∷ "changes" ∷ []) detail
    then detail
    else if is_dict (get "response" detail)
    then get "response" detail
    else page

unfoldable pub unpack_task_details_page : Value → Value
unfolding get starts_with_dict first_of detail_of
unpack_task_details_page page =
    let details = get "task-details" (first_of (get "tasks" page)) in
    if starts_with_dict (get "tasks" page) && starts_with_dict details
    then detail_of page (first_of details)
    else page

abbrev pub collection_keys : List String
collection_keys =
    "objects" ∷ "access-layers" ∷ "nat-rules" ∷ "https-layers" ∷ "threat-layers" ∷ "packages"
    ∷ "domains" ∷ "sessions" ∷ "gateways-and-servers" ∷ "tasks" ∷ "changes" ∷ "used-directly"
    ∷ "used-indirectly" ∷ []

first_list : List String → Value → Option Value
unfolding get is_list
first_list [] page = none
first_list (k ∷ ks) page = if is_list (get k page) then some (get k page) else first_list ks page

is_report : String → Bool
is_report k = str_eq k "errors" || str_eq k "warnings" || str_eq k "blocking-errors"

any_list : Fields → Option Value
unfolding is_report is_list
any_list end = none
any_list (field k v fs) = if not (is_report k) && is_list v then some v else any_list fs

fallback_list : Value → Option Value
unfolding has any_list
fallback_list (Value.obj fs) = if has "total" (Value.obj fs) then any_list fs else none
fallback_list _ = none

nonempty_key : Option String → List String
nonempty_key none = []
nonempty_key (some k) = if str_eq k "" then [] else k ∷ []

items_of : Option Value → List Value
unfolding dicts elements
items_of none = []
items_of (some v) = dicts (elements v)

unfoldable pub extract_page_items : Option String → Value → List Value
unfolding first_list fallback_list nonempty_key items_of
extract_page_items collection_key page =
    elim (first_list (nonempty_key collection_key ++ collection_keys) page) [
      | none ↦ items_of (fallback_list page)
      | some v ↦ items_of (some v)
    ]

-- A text that is not empty.
unfoldable pub text_of : Value → Option String
text_of (Value.str s) = if str_eq s "" then none else some s
text_of _ = none

unfoldable pub or_empty : (Value → String) → Value → String
unfolding is_truthy
or_empty show (Value.str s) = s
or_empty show v = if is_truthy v then show v else ""

unfoldable pub item_identity : (Value → String) → Value → ℕ → String
unfolding text_of get or_empty
item_identity show item idx = elim (text_of (get "uid" item)) [
  | some uid ↦ uid
  | none ↦ elim (text_of (get "id" item)) [
    | some id ↦ id
    | none ↦ elim (text_of (get "name" item)) [
      | some name ↦ append (or_empty show (get "type" item)) (append ":" name)
      | none ↦ append "__idx_" (show (Value.num idx))
    ]
  ]
]

-- `lstrip("/")`.
unfoldable pub without_slashes : String → String
without_slashes String.[] = String.[]
without_slashes (String.◌∷◌ c s) =
    let rest = without_slashes s in if code c == 47 then rest else String.◌∷◌ c s
