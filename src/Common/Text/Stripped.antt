-- ===== src/Common/Text/Stripped.antt =====
-- A text that was stripped is stripped.

use Prim.Native.Char.{Char, code}
use Prim.Native.String.{String}
use mathlib.Core.Path.{◌≡◌, refl}
use mathlib.Core.Logic.{inl, inr}
use mathlib.Core.Bool.{Bool, true, false, ◌&&◌}
use native.Mathlib.Omega.{arith}
use arodonata.Common.Tests.{leb, if◌then◌else◌, Bool-cases}
use arodonata.Common.Text.{is_space, is_empty, lstrip, rstrip, strip}

-- A text that does not begin with a space.
begins : String → Bool
begins String.[] = true
begins (String.◌∷◌ c s) = if is_space c then false else true

lstrip-begins : (s : String) → begins (lstrip s) ≡ true
unfolding begins lstrip
lstrip-begins String.[] = refl
lstrip-begins (String.◌∷◌ c s) = elim (Bool-cases (is_space c)) [
  | inl space ↦ rw space (lstrip-begins s)
  | inr letter ↦ rw letter (rw letter refl)
]

lstrip-same : (s : String) → begins s ≡ true → lstrip s ≡ s
unfolding begins lstrip
lstrip-same String.[] h = refl
lstrip-same (String.◌∷◌ c s) h = elim (Bool-cases (is_space c)) [
  | inl space ↦ absurd (ground arith)
  | inr letter ↦ rw letter refl
]

rstrip-begins : (s : String) → begins s ≡ true → begins (rstrip s) ≡ true
unfolding begins rstrip
rstrip-begins String.[] h = refl
rstrip-begins (String.◌∷◌ c s) h = elim (Bool-cases (is_space c)) [
  | inl space ↦ absurd (ground arith)
  | inr letter ↦ rw letter (rw letter refl)
]

rstrip_idem : (s : String) → rstrip (rstrip s) ≡ rstrip s
unfolding rstrip
rstrip_idem String.[] = refl
rstrip_idem (String.◌∷◌ c s) = elim (Bool-cases (is_space c && is_empty (rstrip s))) [
  | inl blank ↦ rw blank refl
  | inr full ↦ rw full (rw (rstrip_idem s, full) refl)
]

pub strip_idem : (s : String) → strip (strip s) ≡ strip s
unfolding strip
strip_idem s =
    rw (lstrip-same (rstrip (lstrip s)) (rstrip-begins (lstrip s) (lstrip-begins s)))
      (rstrip_idem (lstrip s))

-- Characters of ASCII that are no spaces and no controls.
abbrev is_graphic : Char → Bool
is_graphic c = leb 33 (code c) && leb (code c) 126

abbrev pub all_graphic : String → Bool
all_graphic String.[] = true
all_graphic (String.◌∷◌ c s) = is_graphic c && all_graphic s

graphic-space : (c : Char) → is_graphic c ≡ true → is_space c ≡ false
unfolding is_space
graphic-space c h = ground arith

lstrip-graphic : (s : String) → all_graphic s ≡ true → lstrip s ≡ s
unfolding lstrip
lstrip-graphic String.[] h = refl
lstrip-graphic (String.◌∷◌ c s) h = rw (graphic-space c (ground arith)) refl

rstrip-graphic : (s : String) → all_graphic s ≡ true → rstrip s ≡ s
unfolding rstrip
rstrip-graphic String.[] h = refl
rstrip-graphic (String.◌∷◌ c s) h =
    rw (graphic-space c (ground arith)) (rw (rstrip-graphic s (ground arith)) refl)

pub strip-graphic : (s : String) → all_graphic s ≡ true → strip s ≡ s
unfolding strip
strip-graphic s h = rw (lstrip-graphic s h) (rstrip-graphic s h)
