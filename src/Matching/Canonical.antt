-- ===== src/Matching/Canonical.antt =====
-- The end of `normalize_traffic_list`: `("Any",)`, or the distinct references in order.
pub mod Same
use arodonata.Common.{
  ℕ, String, Bool, true, false, not, ◌&&◌, ◌||◌, List, [], ◌∷◌, ◌≡◌, ◌≢◌, ◌⊎◌, inl, inr, refl, sym,
  ap, ◌∙◌, if◌then◌else◌, str_eq, str_eq_iff, str_eq_self, All, arith, Bool-cases,
}
use arodonata.Common.Text.{lower}
use arodonata.Tasks.{contains}
use arodonata.Matching.Texts.{before, before_irrefl, before_trans, before_total}

-- `dict.fromkeys`: the first occurrences.
from_keys : List String → List String → List String
unfolding contains
from_keys seen [] = []
from_keys seen (x ∷ xs) =
    let rest = from_keys (x ∷ seen) xs in
    let skip = from_keys seen xs in if contains x seen then skip else x ∷ rest

insert_text : String → List String → List String
unfolding before
insert_text x [] = x ∷ []
insert_text x (y ∷ ys) = let rest = insert_text x ys in if before y x then y ∷ rest else x ∷ y ∷ ys

sort_texts : List String → List String
unfolding insert_text
sort_texts [] = []
sort_texts (x ∷ xs) = insert_text x (sort_texts xs)

is_any : String → Bool
unfolding lower
is_any s = str_eq (lower s) "any"

all_any : List String → Bool
unfolding is_any
all_any [] = true
all_any (x ∷ xs) = is_any x && all_any xs

unfoldable pub canonical : List String → List String
unfolding all_any from_keys sort_texts
canonical xs = if all_any xs then "Any" ∷ [] else sort_texts (from_keys [] xs)
