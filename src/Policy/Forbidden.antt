-- ===== src/Policy/Forbidden.antt =====
-- packages/policy-engine/src/mandate.ts: `isForbiddenHost`.
pub mod Mapped
use ship_yard.Prelude.{
  ℕ, ◌+◌, ◌-◌, ◌*◌, ◌/◌, ◌%◌, Bool, true, false, ◌||◌, ◌&&◌, not, Option, none, some, List, [], ◌∷◌,
  ◌++◌, map, ◌==◌, leb, Text, codes, text_eq, all_units, is_empty, length, if◌then◌else◌,
}
use ship_yard.Money.{is_digit, read_digits, to_string}
use ship_yard.Policy.Hosts.{canonical}

-- `text.startsWith(prefix)`, with what stands behind the prefix.
unfoldable pub behind : Text → Text → Option Text
behind [] s = some s
behind (p ∷ ps) [] = none
behind (p ∷ ps) (c ∷ s) = if p == c then behind ps s else none

abbrev pub is_some : {A : Type 0} → Option A → Bool
is_some none = false
is_some (some _) = true

-- `text.endsWith(suffix)`
unfoldable pub ends_with : Text → Text → Bool
ends_with suffix [] = text_eq suffix []
ends_with suffix (c ∷ s) = text_eq suffix (c ∷ s) || ends_with suffix s

abbrev pub onto_first : ℕ → List Text → List Text
onto_first c [] = (c ∷ []) ∷ []
onto_first c (s ∷ ss) = (c ∷ s) ∷ ss

-- `text.split(unit)`
unfoldable pub split_on : ℕ → Text → List Text
split_on u [] = [] ∷ []
split_on u (c ∷ s) = let rest = split_on u s in if c == u then [] ∷ rest else onto_first c rest

-- `Number(text)` of an octet; `none` is NaN, and the empty text is zero.
unfoldable pub number_of : Text → Option ℕ
number_of s = read_digits 0 s

-- `octets[i] ?? 0`, where a number is missing; a NaN stays one.
abbrev pub octet_or_zero : List (Option ℕ) → Option ℕ
octet_or_zero [] = some 0
octet_or_zero (n ∷ _) = n

abbrev pub behind_first : List (Option ℕ) → List (Option ℕ)
behind_first [] = []
behind_first (_ ∷ ns) = ns

-- `n === value`, `n >= low && n <= high`; false on NaN.
abbrev pub number_is : Option ℕ → ℕ → Bool
number_is none value = false
number_is (some n) value = n == value

abbrev pub number_within : Option ℕ → ℕ → ℕ → Bool
number_within none low high = false
number_within (some n) low high = leb low n && leb n high

abbrev pub number_from : Option ℕ → ℕ → Bool
number_from none low = false
number_from (some n) low = leb low n

-- The comparisons of `isForbiddenIpv4` on its first two octets.
unfoldable pub is_forbidden_pair : Option ℕ → Option ℕ → Bool
is_forbidden_pair first second =
    number_is first 0
    || number_is first 10
    || number_is first 127
    || (number_is first 169 && number_is second 254)
    || (number_is first 172 && number_within second 16 31)
    || (number_is first 192 && number_is second 168)
    || number_from first 224

-- `isForbiddenIpv4`
unfoldable pub is_forbidden_ipv4 : Text → Bool
is_forbidden_ipv4 ip =
    let octets = map number_of (split_on b'.' ip) in
    is_forbidden_pair (octet_or_zero octets) (octet_or_zero (behind_first octets))

-- /^\d{1,3}$/
abbrev pub is_short_number : Text → Bool
is_short_number s = leb 1 (length s) && leb (length s) 3 && all_units is_digit s

abbrev pub is_quad : List Text → Bool
is_quad (a ∷ b ∷ c ∷ d ∷ []) =
    is_short_number a && is_short_number b && is_short_number c && is_short_number d
is_quad _ = false

-- `dottedQuad`: the text behind `::` or `::ffff:`, if it is four short numbers.
abbrev pub quad_of : Option Text → Option Text
quad_of none = none
quad_of (some s) = if is_quad (split_on b'.' s) then some s else none

abbrev pub or_else : {A : Type 0} → Option A → Option A → Option A
or_else none other = other
or_else (some a) other = some a

abbrev pub hex_digit : ℕ → Option ℕ
hex_digit c =
    if is_digit c
    then some (c - b'0')
    else (if leb b'a' c && leb c b'f'
        then some (c - b'a' + 10)
        else (if leb b'A' c && leb c b'F' then some (c - b'A' + 10) else none))

-- `Number.parseInt(text, 16)`, behind `n`; `none` where a unit is no hexadecimal digit.
unfoldable pub read_hex : ℕ → Text → Option ℕ
read_hex n [] = some n
read_hex n (c ∷ s) = elim (hex_digit c) [ none ↦ none | some d ↦ read_hex (n * 16 + d) s ]

-- /^[0-9a-f]{1,4}$/i, with the number it is.
abbrev pub hex_group : Text → Option ℕ
hex_group s = if leb 1 (length s) && leb (length s) 4 then read_hex 0 s else none

-- `${(high >> 8) & 0xff}.${high & 0xff}.${(low >> 8) & 0xff}.${low & 0xff}`
unfoldable pub dotted : ℕ → ℕ → Text
dotted high low =
    to_string (high / 256 % 256)
    ++ b'.'
      ∷ (to_string (high % 256)
          ++ b'.' ∷ (to_string (low / 256 % 256) ++ b'.' ∷ to_string (low % 256)))

abbrev pub dotted_pair : Option ℕ → Option ℕ → Option Text
dotted_pair (some high) (some low) = some (dotted high low)
dotted_pair (some high) none = none
dotted_pair none low = none

abbrev pub groups_of : List Text → Option Text
groups_of (h ∷ l ∷ []) = dotted_pair (hex_group h) (hex_group l)
groups_of _ = none

abbrev pub hex_pair_of : Option Text → Option Text
hex_pair_of none = none
hex_pair_of (some s) = groups_of (split_on b':' s)

-- `extractIpv4MappedAddress`, on a host in lower case.
unfoldable pub extract_ipv4_mapped_address : Text → Option Text
extract_ipv4_mapped_address host =
    or_else (or_else (quad_of (behind (codes "::ffff:") host)) (quad_of (behind (codes "::") host)))
      (hex_pair_of (behind (codes "::ffff:") host))

abbrev pub is_forbidden_mapped : Option Text → Bool
is_forbidden_mapped none = false
is_forbidden_mapped (some ip) = is_forbidden_ipv4 ip

-- The branch of an IPv6 literal.
unfoldable pub is_forbidden_ipv6 : Text → Bool
is_forbidden_ipv6 host =
    text_eq host (codes "::1")
    || text_eq host (codes "::")
    || is_some (behind (codes "fc") host)
    || is_some (behind (codes "fd") host)
    || is_some (behind (codes "fe80:") host)
    || is_forbidden_mapped (extract_ipv4_mapped_address host)

-- The names that are refused before any address is read.
unfoldable pub is_forbidden_name : Text → Bool
is_forbidden_name host =
    text_eq host (codes "localhost")
    || ends_with (codes ".localhost") host
    || text_eq host (codes "metadata.google.internal")
    || text_eq host (codes "169.254.169.254")

-- `isForbiddenHost`; `is_ip` is `isIP` of node:net: 4, 6, or 0 for no address.
unfoldable pub is_forbidden_host : (Text → ℕ) → Text → Bool
is_forbidden_host is_ip host =
    let name = canonical host in
    is_forbidden_name name
    || (if is_ip name == 4
        then is_forbidden_ipv4 name
        else (if is_ip name == 6 then is_forbidden_ipv6 name else false))
