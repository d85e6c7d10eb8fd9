-- ===== src/Common/Text.antt =====
-- Python's `str.strip`, `str.lower` and `str.replace(" ", "_")`, on ASCII text; characters outside
-- ASCII are left as they are.
pub mod Stripped
use Prim.Native.Nat.{◌-◌}
use Prim.Native.Char.{Char, code}
use Prim.Native.String.{String, char_at}
use mathlib.Core.Bool.{Bool, true, false, ◌&&◌, ◌||◌}
use arodonata.Common.Tests.{leb, ◌==◌, if◌then◌else◌}

is_upper : Char → Bool
is_upper c = leb 65 (code c) && leb (code c) 90

-- The whitespace of ASCII: space, and the controls 9 to 13 and 28 to 31.
is_space : Char → Bool
is_space c = code c == 32 || leb 9 (code c) && leb (code c) 13 || leb 28 (code c) && leb (code c) 31

lower_char : Char → Char
lower_char c = if is_upper c then char_at "abcdefghijklmnopqrstuvwxyz" (code c - 65) else c

unfoldable pub lower : String → String
unfolding lower_char is_upper
lower String.[] = String.[]
lower (String.◌∷◌ c s) = String.◌∷◌ (lower_char c) (lower s)

abbrev pub is_empty : String → Bool
is_empty String.[] = true
is_empty (String.◌∷◌ c s) = false

unfoldable pub lstrip : String → String
unfolding is_space
lstrip String.[] = String.[]
lstrip (String.◌∷◌ c s) = let rest = lstrip s in if is_space c then rest else String.◌∷◌ c s

unfoldable pub rstrip : String → String
unfolding is_space
rstrip String.[] = String.[]
rstrip (String.◌∷◌ c s) =
    let rest = rstrip s in if is_space c && is_empty rest then String.[] else String.◌∷◌ c rest

unfoldable pub strip : String → String
unfolding lstrip rstrip
strip s = rstrip (lstrip s)

unfoldable pub underscored : String → String
underscored String.[] = String.[]
underscored (String.◌∷◌ c s) =
    String.◌∷◌ (if code c == 32 then char_at "_" 0 else c) (underscored s)

abbrev pub append : String → String → String
append String.[] t = t
append (String.◌∷◌ c s) t = String.◌∷◌ c (append s t)
