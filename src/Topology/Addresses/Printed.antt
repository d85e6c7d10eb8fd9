-- ===== src/Topology/Addresses/Printed.antt =====
-- A range that was printed is parsed to itself.
use Prim.Native.Char.{Char, code}
use Prim.Native.String.{String, char_at}
use arodonata.Common.{
  ℕ, ◌+◌, ◌*◌, ◌/◌, ◌%◌, ◌≤◌, ◌<◌, ◌≡◌, ◌≢◌, refl, sym, ap, ◌∙◌, Bool, true, false, not, ◌&&◌, ◌||◌,
  Option, none, some, leb, ◌==◌, ==_iff, str_eq, str_eq_ne, min, max, arith,
}
use arodonata.Common.Text.{lower, append}
use arodonata.Common.Text.Stripped.{all_graphic, strip-graphic}
use arodonata.Topology.Addresses.{
  split_at, has_char, octet, octet_text, dot, address_text, range_text, parse_ipv4, parse_range,
  parse_clean, parse_bounds, range_bounds, range_prefix_len,
}
use arodonata.Common.Tables.{all_below, all_below_sound}

-- Digits and dots only.
abbrev in_address : String → Bool
in_address String.[] = true
in_address (String.◌∷◌ c s) = (code c == 46 || leb 48 (code c) && leb (code c) 57) && in_address s

reads : ℕ → Option ℕ → Bool
reads k none = false
reads k (some m) = m == k

abbrev is_octet_text : ℕ → Bool
is_octet_text k =
    reads k (octet (octet_text k))
    && (not (has_char 46 (octet_text k)) && in_address (octet_text k))

octets_table : all_below 256 is_octet_text ≡ true
unfolding all_below octet octet_text reads
octets_table = refl

octet_facts :
    (k : ℕ)
    → k < 256
    → (octet (octet_text k) ≡ some k)
      × (has_char 46 (octet_text k) ≡ false)
      × (in_address (octet_text k) ≡ true)
octet_facts k h =
    let all = all_below_sound 256 is_octet_text k octets_table h in
    (read (octet (octet_text k)) (ground arith), ground arith, ground arith)
  where
    read : (o : Option ℕ) → reads k o ≡ true → o ≡ some k
    read none e = unfold reads in cc
    read (some m) e = unfold reads in (ap some ((==_iff m k).0 e))

split_at-append :
    (c : ℕ) (d : Char) (s t : String)
    → code d ≡ c
    → has_char c s ≡ false
    → split_at c (append s (String.◌∷◌ d t)) ≡ some (s, t)
unfolding split_at
split_at-append c d String.[] t same h = rw ((==_iff (code d) c).1 same) refl
split_at-append c d (String.◌∷◌ e s) t same h = ground (arith, split_at-append c d s t same)

split_dot : (s t : String) → has_char 46 s ≡ false → split_at 46 (append s (dot t)) ≡ some (s, t)
split_dot s t h = split_at-append 46 (char_at "." 0) s t refl h

parts :
    (n : ℕ)
    → n < 4294967296
    → (((n / 16777216 * 256 + n / 65536 % 256) * 256 + n / 256 % 256) * 256 + n % 256) ≡ n
parts n h = omega arith

parse_ipv4-address_text : (n : ℕ) → n < 4294967296 → parse_ipv4 (address_text n) ≡ some n
unfolding parse_ipv4 address_text
parse_ipv4-address_text n h =
    let (w, w_free, _) = octet_facts (n / 16777216) (omega arith) in
    let (x, x_free, _) = octet_facts (n / 65536 % 256) (omega arith) in
    let (y, y_free, _) = octet_facts (n / 256 % 256) (omega arith) in
    let (z, z_free, _) = octet_facts (n % 256) (omega arith) in
    rw
      (
        split_dot (octet_text (n / 16777216)) _ w_free,
        split_dot (octet_text (n / 65536 % 256)) _ x_free,
        split_dot (octet_text (n / 256 % 256)) _ y_free,
        w,
        x,
        y,
        z,
      )
      (ap some (parts n h))

in_address-append :
    (s t : String) → in_address s ≡ true → in_address t ≡ true → in_address (append s t) ≡ true
in_address-append String.[] t h k = k
in_address-append (String.◌∷◌ c s) t h k = ground (arith, in_address-append s t)

in_address-address_text : (n : ℕ) → n < 4294967296 → in_address (address_text n) ≡ true
unfolding address_text
in_address-address_text n h =
    let (_, _, w) = octet_facts (n / 16777216) (omega arith) in
    let (_, _, x) = octet_facts (n / 65536 % 256) (omega arith) in
    let (_, _, y) = octet_facts (n / 256 % 256) (omega arith) in
    let (_, _, z) = octet_facts (n % 256) (omega arith) in
    let third = in_address-append (octet_text (n / 256 % 256)) (dot (octet_text (n % 256))) y z in
    let second = in_address-append (octet_text (n / 65536 % 256)) _ x third in
    in_address-append (octet_text (n / 16777216)) _ w second

-- What a text of digits and dots is, and is not.
address_facts :
    (s : String)
    → in_address s ≡ true
    → (all_graphic s ≡ true) × (has_char 45 s ≡ false) × (has_char 47 s ≡ false)
address_facts String.[] h = (refl, refl, refl)
address_facts (String.◌∷◌ c s) h =
    let (graphic, no_dash, no_slash) = address_facts s (ground arith) in
    (ground arith, ground arith, ground arith)

all_graphic-append :
    (s t : String) → all_graphic s ≡ true → all_graphic t ≡ true → all_graphic (append s t) ≡ true
all_graphic-append String.[] t h k = k
all_graphic-append (String.◌∷◌ c s) t h k = ground (arith, all_graphic-append s t)

has_char-append : (c : ℕ) (s t : String) → has_char c (append s t) ≡ (has_char c s || has_char c t)
has_char-append c String.[] t = refl
has_char-append c (String.◌∷◌ d s) t = ground (arith, has_char-append c s t)

-- Lowering changes no dash.
lower-dash : (s : String) → has_char 45 s ≡ true → has_char 45 (lower s) ≡ true
unfolding lower
lower-dash String.[] h = cc
lower-dash (String.◌∷◌ c s) h = ground (arith, lower-dash s)

differs : (c : ℕ) (s t : String) → has_char c s ≢ has_char c t → str_eq s t ≡ false
differs c s t h = str_eq_ne s t (λ same. h (ap (has_char c) same))

-- The text of a range of addresses, from a first to a last that is not below it, is parsed to this range.
pub parse_bounds-range_text :
    (lo hi : ℕ)
    → lo ≤ hi
    → hi < 4294967296
    → parse_bounds (range_text lo hi) ≡ some (lo, hi, range_prefix_len lo hi)
unfolding parse_bounds parse_clean parse_range range_text range_bounds
parse_bounds-range_text lo hi h below =
    let s = address_text lo in
    let t = address_text hi in
    let (s_graphic, s_dash, s_slash) = address_facts s (in_address-address_text lo (omega arith)) in
    let (t_graphic, t_dash, t_slash) = address_facts t (in_address-address_text hi below) in
    let whole = append s (String.◌∷◌ (char_at "-" 0) t) in
    let graphic : all_graphic whole ≡ true =
      all_graphic-append s (String.◌∷◌ (char_at "-" 0) t) s_graphic t_graphic in
    let dash : has_char 45 whole ≡ true =
      has_char-append 45 s (String.◌∷◌ (char_at "-" 0) t) ∙ rw s_dash refl in
    let slash : has_char 47 whole ≡ false =
      has_char-append 47 s (String.◌∷◌ (char_at "-" 0) t) ∙ rw (s_slash, t_slash) refl in
    let same_lo : min lo hi ≡ lo = omega arith in
    let same_hi : max lo hi ≡ hi = omega arith in
    rw
      (
        strip-graphic whole graphic,
        differs 45 whole "" (λ e. let contra = sym dash ∙ e in cc),
        differs 45 whole "*" (λ e. let contra = sym dash ∙ e in cc),
        differs 45 (lower whole) "default"
            (λ e. let contra = sym (lower-dash whole dash) ∙ e in cc),
        differs 45 whole "0.0.0.0/0" (λ e. let contra = sym dash ∙ e in cc),
        dash,
        slash,
        split_at-append 45 (char_at "-" 0) s t refl s_dash,
        strip-graphic s s_graphic,
        strip-graphic t t_graphic,
        parse_ipv4-address_text lo (omega arith),
        parse_ipv4-address_text hi below,
        same_lo,
        same_hi,
      )
      refl
