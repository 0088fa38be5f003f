-- ===== src/Dns/Ip.antt =====
-- `net.ParseIP` of Go's standard library, and `To4` of what it returns: an address is eight groups of
-- sixteen bits. A zone is not accepted.
use crenel.Prelude.{
  ℕ, suc, zero, ◌+◌, ◌*◌, ◌-◌, Bool, true, false, not, ◌&&◌, ◌||◌, ◌≡◌, refl, List, [], ◌∷◌, ◌++◌,
  map, reverse, Option, none, some, Text, codes, all, contains, length, is_nil, has_prefix, leb,
  ◌==◌, nat_eq, text_eq, if◌then◌else◌,
}
use crenel.Model.{span, drop_text}

abbrev get_or : ℕ → Option ℕ → ℕ
get_or d (some v) = v
get_or d none = d

abbrev is_some : Option ℕ → Bool
is_some (some v) = true
is_some none = false

abbrev is_digit : ℕ → Bool
is_digit c = leb b'0' c && leb c b'9'

-- the value of a hexadecimal digit
abbrev hex_value : ℕ → Option ℕ
hex_value c =
    if is_digit c
    then some (c - b'0')
    else if leb b'a' c && leb c b'f'
    then some (c - b'a' + 10)
    else if leb b'A' c && leb c b'F'
    then some (c - b'A' + 10)
    else none

decimal : ℕ → Text → ℕ
decimal value [] = value
decimal value (c ∷ s) = decimal (value * 10 + (c - b'0')) s

-- one field of an IPv4 address: decimal, at most 255, with no leading zero
unfoldable octet : Text → Option ℕ
unfolding decimal
octet [] = none
octet (c ∷ s) =
    if not (all is_digit (c ∷ s)) || c == b'0' && not (s == []) || not (leb (length s) 2)
    then none
    else let value = decimal 0 (c ∷ s) in if leb value 255 then some value else none

-- the fields between the dots
unfoldable fields : Text → List Text
fields [] = [] ∷ []
fields (c ∷ s) = elim (fields s) [
  | [] ↦ (c ∷ []) ∷ []
  | f ∷ rest ↦ if c == b'.' then [] ∷ (f ∷ rest) else (c ∷ f) ∷ rest
]

-- the groups of four fields, where each is an octet
abbrev join_octets : Option ℕ → Option ℕ → Option ℕ
join_octets (some p) (some q) = some (p * 256 + q)
join_octets none q = none
join_octets (some p) none = none

abbrev two_groups : Option ℕ → Option ℕ → Option (List ℕ)
two_groups (some g) (some h) = some (g ∷ h ∷ [])
two_groups none h = none
two_groups (some g) none = none

abbrev four_octets : List (Option ℕ) → Option (List ℕ)
four_octets (a ∷ b ∷ c ∷ d ∷ []) = two_groups (join_octets a b) (join_octets c d)
four_octets [] = none
four_octets (a ∷ []) = none
four_octets (a ∷ b ∷ []) = none
four_octets (a ∷ b ∷ c ∷ []) = none
four_octets (a ∷ b ∷ c ∷ d ∷ e ∷ rest) = none

-- the last two groups
unfoldable parse_v4 : Text → Option (List ℕ)
unfolding octet fields
parse_v4 s = four_octets (map octet (fields s))

abbrev is_hex : ℕ → Bool
is_hex c = elim (hex_value c) [ some v ↦ true | none ↦ false ]

hexadecimal : ℕ → Text → ℕ
hexadecimal value [] = value
hexadecimal value (c ∷ s) = hexadecimal (value * 16 + get_or 0 (hex_value c)) s

-- How the loop over the groups goes on: it ends, or it has another group to read from the text. The
-- groups read so far stand last first, with the place of the ellipsis.
pub data Groups : Type 0 where
  ended : List ℕ → Option ℕ → Groups
  more : List ℕ → Option ℕ → Text → Groups

-- behind a group and a colon
after_colon : List ℕ → Option ℕ → Text → Option Groups
after_colon groups ellipsis [] = none
after_colon groups ellipsis (c ∷ s) =
    if not (c == b':')
    then some (more groups ellipsis (c ∷ s))
    else if is_some ellipsis
    then none
    else some (
        if is_nil s
        then ended groups (some (length groups))
        else more groups (some (length groups)) s)

-- a dotted tail: the last two groups, or two of those behind the ellipsis
v4_tail : ℕ → List ℕ → Option ℕ → Text → Option Groups
v4_tail left groups ellipsis s =
    if not (is_some ellipsis) && not (left == 2) || not (leb 2 left)
    then none
    else elim (parse_v4 s) [
      | none ↦ none
      | some tail ↦ some (ended (reverse tail ++ groups) ellipsis)
    ]

read_group : ℕ → List ℕ → Option ℕ → Text → Option Groups
unfolding hexadecimal after_colon v4_tail
read_group left groups ellipsis s =
    let (digits, rest) = span is_hex s in
    if is_nil digits || not (leb (length digits) 4) then none else elim rest [
      | [] ↦ some (ended (hexadecimal 0 digits ∷ groups) ellipsis)
      | c ∷ rest' ↦
          if c == b'.'
          then v4_tail left groups ellipsis s
          else if c == b':'
          then after_colon (hexadecimal 0 digits ∷ groups) ellipsis rest'
          else none
    ]

zeros : ℕ → List ℕ
zeros zero = []
zeros (suc n) = 0 ∷ zeros n

-- the groups up to `place`, zeros in place of the ellipsis, and the others
widen : ℕ → ℕ → List ℕ → List ℕ
unfolding zeros
widen missing zero gs = zeros missing ++ gs
widen missing (suc place) [] = zeros missing
widen missing (suc place) (g ∷ gs) = g ∷ widen missing place gs

close_groups : List ℕ → Option ℕ → Option (List ℕ)
unfolding widen
close_groups groups ellipsis = elim ellipsis [
  | none ↦ if length groups == 8 then some (reverse groups) else none
  | some place ↦
      if leb 8 (length groups)
      then none
      else some (widen (8 - length groups) place (reverse groups))
]

read_groups : ℕ → List ℕ → Option ℕ → Text → Option (List ℕ)
unfolding read_group close_groups
read_groups zero groups ellipsis s = none
read_groups (suc left) groups ellipsis s = elim (read_group (suc left) groups ellipsis s) [
  | none ↦ none
  | some (ended gs place) ↦ close_groups gs place
  | some (more gs place rest) ↦ read_groups left gs place rest
]

unfoldable parse_v6 : Text → Option (List ℕ)
unfolding read_groups close_groups
parse_v6 s =
    if has_prefix s (codes "::")
    then elim (drop_text (codes "::") s) [
      | [] ↦ close_groups [] (some 0)
      | c ∷ rest ↦ read_groups 8 [] (some 0) (c ∷ rest)
    ]
    else read_groups 8 [] none s

abbrev mapped_v4 : List ℕ → List ℕ
mapped_v4 tail = 0 ∷ 0 ∷ 0 ∷ 0 ∷ 0 ∷ 65535 ∷ tail

unfoldable pub parse_ip : Text → Option (List ℕ)
unfolding parse_v4 parse_v6
parse_ip s =
    if contains s b'%'
    then none
    else if contains s b':'
    then (if contains (span (λ c. not (c == b':')) s).0 b'.' then none else parse_v6 s)
    else elim (parse_v4 s) [ none ↦ none | some tail ↦ some (mapped_v4 tail) ]

-- `ip.To4() != nil`
abbrev is_v4 : List ℕ → Bool
is_v4 (a ∷ b ∷ c ∷ d ∷ e ∷ f ∷ rest) = all (λ x. x == 0) (a ∷ b ∷ c ∷ d ∷ e ∷ []) && f == 65535
is_v4 [] = false
is_v4 (a ∷ []) = false
is_v4 (a ∷ b ∷ []) = false
is_v4 (a ∷ b ∷ c ∷ []) = false
is_v4 (a ∷ b ∷ c ∷ d ∷ []) = false
is_v4 (a ∷ b ∷ c ∷ d ∷ e ∷ []) = false

-- An address that `To4` has, one that it has not, and no address
pub data Family : Type 0 where
  ipv4 ipv6 no_address : Family

unfoldable pub family_of : Text → Family
unfolding parse_ip
family_of s = elim (parse_ip s) [ none ↦ no_address | some ip ↦ if is_v4 ip then ipv4 else ipv6 ]

family_of_examples :
    (family_of (codes "10.0.0.255") ≡ ipv4)
    × (family_of (codes "10.0.0.256") ≡ no_address)
    × (family_of (codes "10.0.00.1") ≡ no_address)
    × (family_of (codes "::1") ≡ ipv6)
    × (family_of (codes "2001:db8::8a2e:370:7334") ≡ ipv6)
    × (family_of (codes "::ffff:10.0.0.1") ≡ ipv4)
    × (family_of (codes "1:2:3:4:5:6:7") ≡ no_address)
    × (family_of (codes "1::2::3") ≡ no_address)
    × (family_of (codes "home.example") ≡ no_address)
unfolding family_of parse_ip parse_v4 parse_v6 octet fields read_groups read_group close_groups
    hexadecimal after_colon v4_tail widen zeros decimal span has_prefix drop_text
family_of_examples = (refl, refl, refl, refl, refl, refl, refl, refl, refl)
