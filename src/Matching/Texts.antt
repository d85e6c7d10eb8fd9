-- ===== src/Matching/Texts.antt =====
-- Python's text methods that rule matching uses beside those of Common: `capitalize`, `isdigit`,
-- `int` of digits, `in` on texts, and the order of texts, by their code points. ASCII, as in Common.
use Prim.Native.Char.{Char, code}
use Prim.Native.String.{char_at}
use text.Mathlib.TextEquality.{Char-path}
use arodonata.Common.{
  ℕ, ◌+◌, ◌-◌, ◌*◌, String, Bool, true, false, not, ◌&&◌, ◌||◌, ◌≡◌, refl, ltb, leb, ◌==◌,
  if◌then◌else◌, arith,
}
use arodonata.Common.Text.{lower, is_empty}
use arodonata.Common.Affixes.{starts_with}

upper_char : Char → Char
upper_char c =
    if leb 97 (code c) && leb (code c) 122
    then char_at "ABCDEFGHIJKLMNOPQRSTUVWXYZ" (code c - 97)
    else c

unfoldable pub capitalize : String → String
unfolding upper_char lower
capitalize String.[] = String.[]
capitalize (String.◌∷◌ c s) = String.◌∷◌ (upper_char c) (lower s)

unfoldable pub contains_text : String → String → Bool
unfolding starts_with
contains_text t String.[] = is_empty t
contains_text t (String.◌∷◌ c s) = starts_with t (String.◌∷◌ c s) || contains_text t s

is_digit_char : Char → Bool
is_digit_char c = leb 48 (code c) && leb (code c) 57

all_digits : String → Bool
unfolding is_digit_char
all_digits String.[] = true
all_digits (String.◌∷◌ c s) = is_digit_char c && all_digits s

unfoldable pub is_digit : String → Bool
unfolding all_digits
is_digit s = not (is_empty s) && all_digits s

digits : ℕ → String → ℕ
digits n String.[] = n
digits n (String.◌∷◌ c s) = digits (10 * n + (code c - 48)) s

unfoldable pub int_of : String → ℕ
unfolding digits
int_of s = digits 0 s

-- `s < t`.
unfoldable pub before : String → String → Bool
before s String.[] = false
before String.[] (String.◌∷◌ d t) = true
before (String.◌∷◌ c s) (String.◌∷◌ d t) = ltb (code c) (code d) || (code c == code d && before s t)

pub before_irrefl : (s : String) → before s s ≡ false
unfolding before
before_irrefl String.[] = refl
before_irrefl (String.◌∷◌ c s) = ground (arith, before_irrefl s)

pub before_trans : (s t u : String) → before s t ≡ true → before t u ≡ true → before s u ≡ true
unfolding before
before_trans s String.[] u h k = cc
before_trans s (String.◌∷◌ d t) String.[] h k = cc
before_trans String.[] (String.◌∷◌ d t) (String.◌∷◌ e u) h k = refl
before_trans (String.◌∷◌ c s) (String.◌∷◌ d t) (String.◌∷◌ e u) h k =
    ground (arith, before_trans s t u)

pub before_total : (s t : String) → before s t ≡ false → before t s ≡ false → s ≡ t
unfolding before
before_total String.[] String.[] h k = refl
before_total String.[] (String.◌∷◌ d t) h k = cc
before_total (String.◌∷◌ c s) String.[] h k = cc
before_total (String.◌∷◌ c s) (String.◌∷◌ d t) h k =
    let head : c ≡ d = Char-path c d (ground arith) in
    let tail : s ≡ t = before_total s t (ground arith) (ground arith) in rw (head, tail) refl
