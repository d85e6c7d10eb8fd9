-- ===== src/Topology/Addresses.antt =====
-- core/services/topology_service.py, `_mask_to_prefix_len`, `_effective_range_prefix_len` and
-- `_parse_cidr_or_range_bounds`, and what they use of Python's `ipaddress`.
pub mod Sized
pub mod Printed
use Prim.Native.Char.{Char, code}
use Prim.Native.String.{String, char_at}
use arodonata.Common.{
  ℕ, zero, suc, ◌+◌, ◌-◌, ◌*◌, ◌/◌, ◌%◌, Bool, true, false, not, ◌&&◌, ◌||◌, Option, none, some,
  List, [], ◌∷◌, if◌then◌else◌, ltb, leb, ◌==◌, min, max, str_eq,
}
use Prim.Native.Nat.{◌^◌}
use arodonata.Common.Text.{strip, lower, append}

infixl 5 ◌>>=◌
abbrev pub ◌>>=◌ : {A B : Type 0} → Option A → (A → Option B) → Option B
none >>= f = none
some a >>= f = f a

-- `str.split` at the first place of a character: what is before it and after it.
unfoldable pub split_at : ℕ → String → Option (String × String)
split_at c String.[] = none
split_at c (String.◌∷◌ d s) =
    let rest = split_at c s in
    if code d == c
    then some (String.[], s)
    else rest >>= λ (before, after). some (String.◌∷◌ d before, after)

abbrev pub has_char : ℕ → String → Bool
has_char c String.[] = false
has_char c (String.◌∷◌ d s) = code d == c || has_char c s

unfoldable pub digit : Char → Option ℕ
digit d = if leb 48 (code d) && leb (code d) 57 then some (code d - 48) else none

-- One part of an address: one to three digits, without a leading zero, at most 255.
unfoldable pub octet : String → Option ℕ
unfolding digit
octet String.[] = none
octet (String.◌∷◌ a String.[]) = digit a
octet (String.◌∷◌ a (String.◌∷◌ b String.[])) = do
  x ← digit a
  y ← digit b
  if x == 0 then none else some (10 * x + y)
octet (String.◌∷◌ a (String.◌∷◌ b (String.◌∷◌ c String.[]))) = do
  x ← digit a
  y ← digit b
  z ← digit c
  if x == 0 || ltb 255 (100 * x + 10 * y + z) then none else some (100 * x + 10 * y + z)
octet (String.◌∷◌ a (String.◌∷◌ b (String.◌∷◌ c (String.◌∷◌ d s)))) = none

-- `IPv4Address` of a text.
unfoldable pub parse_ipv4 : String → Option ℕ
unfolding split_at octet
parse_ipv4 s = do
  (a, after_a) ← split_at 46 s
  (b, after_b) ← split_at 46 after_a
  (c, d) ← split_at 46 after_b
  w ← octet a
  x ← octet b
  y ← octet c
  z ← octet d
  some (((w * 256 + x) * 256 + y) * 256 + z)

-- `str` of an `IPv4Address`: its four parts in decimal digits.
abbrev digit_char : ℕ → Char
digit_char k = char_at "0123456789" k

unfoldable pub octet_text : ℕ → String
octet_text n =
    if ltb n 10
    then String.◌∷◌ (digit_char n) String.[]
    else if ltb n 100
    then String.◌∷◌ (digit_char (n / 10)) (String.◌∷◌ (digit_char (n % 10)) String.[])
    else String.◌∷◌ (digit_char (n / 100))
        (String.◌∷◌ (digit_char (n / 10 % 10)) (String.◌∷◌ (digit_char (n % 10)) String.[]))

abbrev pub dot : String → String
dot s = String.◌∷◌ (char_at "." 0) s

unfoldable pub address_text : ℕ → String
unfolding octet_text
address_text n = append (octet_text (n / 16777216)) (
    dot (
      append (octet_text (n / 65536 % 256))
        (dot (append (octet_text (n / 256 % 256)) (dot (octet_text (n % 256)))))))

-- The text that `_resolve_endpoint_intervals` makes of a range.
unfoldable pub range_text : ℕ → ℕ → String
unfolding address_text
range_text lo hi = append (address_text lo) (String.◌∷◌ (char_at "-" 0) (address_text hi))

-- `str.isdigit` and `int`, for ASCII.
unfoldable pub number_from : ℕ → String → Option ℕ
unfolding digit
number_from n String.[] = some n
number_from n (String.◌∷◌ c s) = digit c >>= λ d. number_from (n * 10 + d) s

unfoldable pub number : String → Option ℕ
unfolding number_from
number String.[] = none
number (String.◌∷◌ c s) = number_from 0 (String.◌∷◌ c s)

-- The size of a network with this prefix length.
abbrev pub size_of : ℕ → ℕ
size_of p = 2 ^ (32 - p)

-- The prefix length, from `p` down, whose netmask is the address.
unfoldable pub prefix_from : ℕ → ℕ → Option ℕ
prefix_from zero n = if n == 0 then some 0 else none
prefix_from (suc p) n =
    let rest = prefix_from p n in if n + size_of (suc p) == 4294967296 then some (suc p) else rest

-- A netmask, or else a host mask.
unfoldable pub prefix_of_mask : ℕ → Option ℕ
unfolding prefix_from
prefix_of_mask n = elim (prefix_from 32 n) [
  | some p ↦ some p
  | none ↦ prefix_from 32 (4294967295 - n)
]

abbrev pub at_most_32 : ℕ → Option ℕ
at_most_32 p = if leb p 32 then some p else none

-- The part after the slash of a network.
unfoldable pub parse_prefix : String → Option ℕ
unfolding number parse_ipv4 prefix_of_mask
parse_prefix s = elim (number s) [ some p ↦ at_most_32 p | none ↦ parse_ipv4 s >>= prefix_of_mask ]

-- `_mask_to_prefix_len` of a text.
unfoldable pub mask_to_prefix_len : String → Option ℕ
unfolding strip parse_prefix
mask_to_prefix_len s = if str_eq (strip s) "" then none else parse_prefix (strip s)

-- The number of binary digits of a number below `2 ^ w`.
unfoldable pub bit_length : ℕ → ℕ → ℕ
bit_length zero n = 0
bit_length (suc w) n = let rest = bit_length w n in if leb (2 ^ w) n then suc w else rest

-- `_effective_range_prefix_len`
unfoldable pub range_prefix_len : ℕ → ℕ → ℕ
unfolding bit_length
range_prefix_len lo hi = 32 - bit_length 32 (hi - lo)

-- The first and the last address of a network and its prefix length.
abbrev pub Bounds : Type 0
Bounds = ℕ × ℕ × ℕ

unfoldable pub network_bounds : ℕ → ℕ → Bounds
network_bounds n p = let lo = n - n % size_of p in (lo, lo + (size_of p - 1), p)

unfoldable pub range_bounds : ℕ → ℕ → Bounds
unfolding range_prefix_len
range_bounds a b = (min a b, max a b, range_prefix_len (min a b) (max a b))

unfoldable pub parse_range : String → Option Bounds
unfolding split_at strip parse_ipv4 range_bounds
parse_range s = do
  (first, last) ← split_at 45 s
  a ← parse_ipv4 (strip first)
  b ← parse_ipv4 (strip last)
  some (range_bounds a b)

unfoldable pub parse_network : String → Option Bounds
unfolding split_at parse_ipv4 parse_prefix network_bounds
parse_network s = do
  (address, mask) ← split_at 47 s
  n ← parse_ipv4 address
  p ← parse_prefix mask
  some (network_bounds n p)

unfoldable pub parse_clean : String → Option Bounds
unfolding lower parse_range parse_network parse_ipv4 network_bounds
parse_clean s =
    if str_eq s "" || str_eq s "*"
    then none
    else if str_eq (lower s) "default" || str_eq s "0.0.0.0/0"
    then some (0, 4294967295, 0)
    else if has_char 45 s && not (has_char 47 s)
    then parse_range s
    else if has_char 47 s
    then parse_network s
    else parse_ipv4 s >>= λ n. some (network_bounds n 32)

-- `_parse_cidr_or_range_bounds`
unfoldable pub parse_bounds : String → Option Bounds
unfolding strip parse_clean
parse_bounds s = parse_clean (strip s)
