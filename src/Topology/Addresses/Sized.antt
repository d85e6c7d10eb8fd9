-- ===== src/Topology/Addresses/Sized.antt =====
-- The bounds that a text is parsed to, and their prefix length.
use Prim.Native.Nat.{◌^◌}
use native.Mathlib.Nat.{mul-le-mul, mod-lt}
use arodonata.Common.{
  ℕ, zero, suc, ◌+◌, ◌-◌, ◌*◌, ◌/◌, ◌%◌, ◌≤◌, ◌<◌, ◌≡◌, inl, inr, refl, String, Bool, true, not,
  ◌&&◌, ◌||◌, Option, none, some, leb, ◌==◌, leb→le, min, max, str_eq, arith, Bool-cases,
  Option-cases,
}
use arodonata.Common.Text.{strip, lower}
use arodonata.Common.Tables.{all_below, all_below_sound}
use arodonata.Topology.Addresses.{
  ◌>>=◌, split_at, octet, parse_ipv4, size_of, prefix_from, prefix_of_mask, parse_prefix, number,
  bit_length, range_prefix_len, Bounds, network_bounds, range_bounds, parse_range, parse_network,
  parse_clean, parse_bounds, has_char,
}

abbrev has_size : ℕ → Bool
has_size p =
    size_of p * 2 ^ p == 4294967296
    && (leb 1 (size_of p) && (leb 32 p || size_of p == 2 * size_of (suc p)))

sizes_table : all_below 33 has_size ≡ true
unfolding all_below
sizes_table = refl

-- The networks of a prefix length divide the addresses, and each longer length halves them.
sizes :
    (p : ℕ)
    → p ≤ 32
    → (size_of p * 2 ^ p ≡ 4294967296)
      × (1 ≤ size_of p)
      × (p < 32 → size_of p ≡ 2 * size_of (suc p))
sizes p h =
    let all = all_below_sound 33 has_size p sizes_table (omega arith) in
    (ground arith, ground arith, λ lt. ground arith)

-- The bounds are addresses in order, and the prefix length is the greatest whose networks are as large
-- as the interval.
abbrev pub IsSized : Bounds → Type 0
IsSized (lo, hi, p) =
    (lo ≤ hi)
    × (hi < 4294967296)
    × (p ≤ 32)
    × (hi - lo < size_of p)
    × (p < 32 → size_of (suc p) ≤ hi - lo)

octet-le : (s : String) (n : ℕ) → octet s ≡ some n → n ≤ 255
unfolding octet
octet-le String.[] n h = cc
octet-le (String.◌∷◌ a String.[]) n h = ground arith
octet-le (String.◌∷◌ a (String.◌∷◌ b String.[])) n h = ground arith
octet-le (String.◌∷◌ a (String.◌∷◌ b (String.◌∷◌ c String.[]))) n h = ground arith
octet-le (String.◌∷◌ a (String.◌∷◌ b (String.◌∷◌ c (String.◌∷◌ d s)))) n h = cc

>>=-eq-some :
    {A B : Type 0} (o : Option A) (f : A → Option B) {b : B}
    → (o >>= f) ≡ some b
    → (a : A) × (o ≡ some a) × (f a ≡ some b)
>>=-eq-some none f h = cc
>>=-eq-some (some a) f h = (a, refl, h)

parse_ipv4-lt : (s : String) (n : ℕ) → parse_ipv4 s ≡ some n → n < 4294967296
unfolding parse_ipv4
parse_ipv4-lt s n h =
    let ((a, after_a), _, h1) = >>=-eq-some (split_at 46 s) _ h in
    let ((b, after_b), _, h2) = >>=-eq-some (split_at 46 after_a) _ h1 in
    let ((c, d), _, h3) = >>=-eq-some (split_at 46 after_b) _ h2 in
    let (w, ow, h4) = >>=-eq-some (octet a) _ h3 in
    let (x, ox, h5) = >>=-eq-some (octet b) _ h4 in
    let (y, oy, h6) = >>=-eq-some (octet c) _ h5 in
    let (z, oz, h7) = >>=-eq-some (octet d) _ h6 in
    ground (arith, octet-le a w, octet-le b x, octet-le c y, octet-le d z)

prefix_from-le : (k n p : ℕ) → prefix_from k n ≡ some p → p ≤ k
unfolding prefix_from
prefix_from-le zero n p h = ground arith
prefix_from-le (suc k) n p h = ground (arith, prefix_from-le k n p)

prefix_of_mask-le : (n p : ℕ) → prefix_of_mask n ≡ some p → p ≤ 32
unfolding prefix_of_mask
prefix_of_mask-le n p h = elim (Option-cases (prefix_from 32 n)) [
  | inr (r, found) ↦ ground (arith, prefix_from-le 32 n r)
  | inl no_mask ↦ ground (arith, prefix_from-le 32 (4294967295 - n) p)
]

parse_prefix-le : (s : String) (p : ℕ) → parse_prefix s ≡ some p → p ≤ 32
unfolding parse_prefix
parse_prefix-le s p h = elim (Option-cases (number s)) [
  | inr (r, found) ↦ ground arith
  | inl no_number ↦
      let by_mask : (parse_ipv4 s >>= prefix_of_mask) ≡ some p = ground arith in
      let (n, _, mask) = >>=-eq-some (parse_ipv4 s) prefix_of_mask by_mask in
      prefix_of_mask-le n p mask
]

times_le : (p k l : ℕ) → k ≤ l → size_of p * k ≤ size_of p * l
times_le p k l h = mul-le-mul (omega arith) h

network_bounds-IsSized : (n p : ℕ) → n < 4294967296 → p ≤ 32 → IsSized (network_bounds n p)
unfolding network_bounds
network_bounds-IsSized n p below h =
    let (whole, positive, half) = sizes p h in
    let rest : n % size_of p < size_of p = mod-lt n positive in
    let parts : size_of p * (n / size_of p) + n % size_of p ≡ n = omega arith in
    let fits : suc (n / size_of p) ≤ 2 ^ p = elim (Bool-cases (leb (suc (n / size_of p)) (2 ^ p))) [
      | inl yes_it ↦ leb→le _ _ yes_it
      | inr too_far ↦ absurd (omega (arith, times_le p (2 ^ p) (n / size_of p) (ground arith)))
    ] in
    let last : size_of p * suc (n / size_of p) ≤ 4294967296 =
      omega (arith, times_le p (suc (n / size_of p)) (2 ^ p) fits) in
    (omega arith, grind arith, h, omega arith, λ lt. let halved = half lt in omega arith)

abbrev IsBitLength : ℕ → ℕ → Type 0
IsBitLength n k = (n < 2 ^ k) × (0 < k → 2 ^ (k - 1) ≤ n)

bit_length-le : (w n : ℕ) → bit_length w n ≤ w
unfolding bit_length
bit_length-le zero n = omega arith
bit_length-le (suc w) n = ground (arith, bit_length-le w n)

bit_length-IsBitLength : (w n : ℕ) → n < 2 ^ w → IsBitLength n (bit_length w n)
unfolding bit_length
bit_length-IsBitLength zero n h = (h, λ lt. absurd (omega arith))
bit_length-IsBitLength (suc w) n h = elim (Bool-cases (leb (2 ^ w) n)) [
  | inl long ↦
      rw long (h, λ lt. let same : suc w - 1 ≡ w = omega arith in rw same (leb→le (2 ^ w) n long))
  | inr short ↦ rw short (bit_length-IsBitLength w n (ground arith))
]

range_bounds-IsSized : (a b : ℕ) → a < 4294967296 → b < 4294967296 → IsSized (range_bounds a b)
unfolding range_bounds range_prefix_len
range_bounds-IsSized a b ha hb =
    let span = max a b - min a b in
    let k = bit_length 32 span in
    let (less, least) = bit_length-IsBitLength 32 span (omega arith) in
    let le = bit_length-le 32 span in
    let same : 32 - (32 - k) ≡ k = omega arith in
    (
      omega arith,
      omega arith,
      omega arith,
      rw same less,
      λ lt. let same' : 32 - suc (32 - k) ≡ k - 1 = omega arith in rw same' (least (omega arith)),
    )

parse_range-IsSized : (s : String) (b : Bounds) → parse_range s ≡ some b → IsSized b
unfolding parse_range
parse_range-IsSized s b h =
    let ((first, last), _, h1) = >>=-eq-some (split_at 45 s) _ h in
    let (x, ox, h2) = >>=-eq-some (parse_ipv4 (strip first)) _ h1 in
    let (y, oy, h3) = >>=-eq-some (parse_ipv4 (strip last)) _ h2 in
    let same : range_bounds x y ≡ b = cc in
    rw (← same) (
      range_bounds-IsSized x y (parse_ipv4-lt (strip first) x ox) (parse_ipv4-lt (strip last) y oy))

parse_network-IsSized : (s : String) (b : Bounds) → parse_network s ≡ some b → IsSized b
unfolding parse_network
parse_network-IsSized s b h =
    let ((address, mask), _, h1) = >>=-eq-some (split_at 47 s) _ h in
    let (n, on, h2) = >>=-eq-some (parse_ipv4 address) _ h1 in
    let (p, op, h3) = >>=-eq-some (parse_prefix mask) _ h2 in
    let same : network_bounds n p ≡ b = cc in
    rw (← same)
      (network_bounds-IsSized n p (parse_ipv4-lt address n on) (parse_prefix-le mask p op))

parse_clean-IsSized : (s : String) (b : Bounds) → parse_clean s ≡ some b → IsSized b
unfolding parse_clean
parse_clean-IsSized s b h = elim (Bool-cases (str_eq s "" || str_eq s "*")) [
  | inl blank ↦ absurd (ground arith)
  | inr given ↦ elim (Bool-cases (str_eq (lower s) "default" || str_eq s "0.0.0.0/0")) [
    | inl all ↦
        let same : (0, 4294967295, 0) ≡ b = ground arith in
        rw (← same) (omega arith, omega arith, omega arith, omega arith, λ lt. omega arith)
    | inr some_part ↦ elim (Bool-cases (has_char 45 s && not (has_char 47 s))) [
      | inl range ↦ parse_range-IsSized s b (ground arith)
      | inr no_range ↦ elim (Bool-cases (has_char 47 s)) [
        | inl network ↦ parse_network-IsSized s b (ground arith)
        | inr single ↦
            let by_address : (parse_ipv4 s >>= λ n. some (network_bounds n 32)) ≡ some b =
              ground arith in
            let (n, on, h') = >>=-eq-some (parse_ipv4 s) _ by_address in
            let same : network_bounds n 32 ≡ b = cc in
            rw (← same) (network_bounds-IsSized n 32 (parse_ipv4-lt s n on) (omega arith))
      ]
    ]
  ]
]

-- A text that is parsed to bounds gives an interval of addresses that does not end before it starts, and
-- the greatest prefix length whose networks are as large as the interval, whether the text is a
-- network, an address, a range in either order or the default.
pub parse_bounds-IsSized :
    (s : String) (lo hi p : ℕ) → parse_bounds s ≡ some (lo, hi, p) → IsSized (lo, hi, p)
unfolding parse_bounds
parse_bounds-IsSized s lo hi p h = parse_clean-IsSized (strip s) (lo, hi, p) h
