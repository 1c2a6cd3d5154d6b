-- ===== src/Domain/Names.antt =====
-- internal/domain/resource.go: slugs, domain names, and the parsing of addresses and prefixes.
pub mod Laws
use routevane.Common.{
  ℕ, suc, ◌+◌, ◌-◌, ◌*◌, ◌/◌, ◌%◌, ◌^◌, Bool, true, false, ◌&&◌, ◌||◌, not, List, [], ◌∷◌, ◌++◌,
  map, Option, none, some, ltb, leb, ◌==◌, if◌then◌else◌, length, all, any, ◌≡◌, refl,
}
use routevane.Common.Text.{Text, codes, text_eq, Text-discrete}
use routevane.Netip.{
  Addr, v4, v6, Prefix, addr_is_valid, is4_in6, unmap, bits, bit_len, is_valid, masked, prefix_from,
}
use routevane.Netip.Parse
use routevane.Domain.Result.{Error, Result, ok, err, invalid_domain, invalid_addr, invalid_prefix}

abbrev pub is_lower : ℕ → Bool
is_lower c = leb b'a' c && leb c b'z'

abbrev pub is_upper : ℕ → Bool
is_upper c = leb b'A' c && leb c b'Z'

abbrev pub is_digit : ℕ → Bool
is_digit c = leb b'0' c && leb c b'9'

abbrev pub last_or : Text → ℕ → ℕ
last_or [] d = d
last_or (c ∷ s) d = last_or s c

abbrev pub slug_byte : ℕ → Bool
slug_byte c = is_lower c || is_digit c || c == b'-'

-- True for a nil error.
unfoldable pub validate_slug : Text → Bool
validate_slug [] = false
validate_slug (c ∷ s) =
    leb (length (c ∷ s)) 63 && is_lower c && not (last_or s c == b'-') && all slug_byte s

-- `strings.TrimSuffix(raw, ".")`
unfoldable pub trim_dot : Text → Text
trim_dot [] = []
trim_dot (c ∷ []) = if c == b'.' then [] else c ∷ []
trim_dot (c ∷ d ∷ s) = c ∷ trim_dot (d ∷ s)

abbrev pub is_space : ℕ → Bool
is_space c = c == 32 || leb 9 c && leb c 13

abbrev pub name_byte : ℕ → Bool
name_byte c = not (ltb 127 c || is_space c)

-- The label that the text starts with, and the labels after it.
abbrev pub cons_first : ℕ → List Text → List Text
cons_first c [] = (c ∷ []) ∷ []
cons_first c (l ∷ ls) = (c ∷ l) ∷ ls

-- `strings.Split(raw, ".")`: never empty.
unfoldable pub split_dots : Text → List Text
split_dots [] = [] ∷ []
split_dots (c ∷ s) = let rest = split_dots s in if c == b'.' then [] ∷ rest else cons_first c rest

abbrev pub label_byte : ℕ → Bool
label_byte c = is_lower c || is_upper c || is_digit c || c == b'-'

unfoldable pub label_is_valid : Text → Bool
label_is_valid [] = false
label_is_valid (c ∷ s) =
    leb (length (c ∷ s)) 63
    && not (c == b'-')
    && not (last_or s c == b'-')
    && all label_byte (c ∷ s)

abbrev pub lower : ℕ → ℕ
lower c = if is_upper c then c + 32 else c

-- `strings.ToLower` of ASCII text.
unfoldable pub to_lower : Text → Text
to_lower [] = []
to_lower (c ∷ s) = lower c ∷ to_lower s

abbrev pub is_empty : Text → Bool
is_empty [] = true
is_empty (c ∷ s) = false

unfoldable pub domain_is_valid : Text → Bool
unfolding split_dots label_is_valid
domain_is_valid s =
    not (is_empty s) && leb (length s) 253 && all name_byte s && all label_is_valid (split_dots s)

unfoldable pub normalize_domain : Text → Result Text
unfolding trim_dot domain_is_valid to_lower
normalize_domain raw =
    if is_empty raw
    then err invalid_domain
    else if domain_is_valid (trim_dot raw)
    then ok (to_lower (trim_dot raw))
    else err invalid_domain

unfoldable pub normalize_domain_value : Text → Text
unfolding trim_dot to_lower
normalize_domain_value s = to_lower (trim_dot s)

-- `strings.TrimSpace(raw) != raw` for ASCII spaces; the parser refuses any other, with the same error.
abbrev pub outer_space : Text → Bool
outer_space [] = false
outer_space (c ∷ s) = is_space c || is_space (last_or s c)

abbrev pub malformed : Text → Bool
malformed s = is_empty s || outer_space s || any (λ c. c == b'%') s

abbrev pub checked_addr : Option Addr → Result Addr
checked_addr none = err invalid_addr
checked_addr (some a) = if addr_is_valid a then ok (unmap a) else err invalid_addr

unfoldable pub parse_addr : Text → Result Addr
unfolding Parse.parse_addr
parse_addr raw = if malformed raw then err invalid_addr else checked_addr (Parse.parse_addr raw)

-- A length of a mapped prefix counts from the 96 bits before the IPv4 address.
abbrev pub sized_prefix : Addr → ℕ → Result Prefix
sized_prefix a b =
    if addr_is_valid a && leb b (bit_len a)
    then ok (masked (prefix_from (unmap a) b))
    else err invalid_prefix

abbrev pub checked_prefix : Option Prefix → Result Prefix
checked_prefix none = err invalid_prefix
checked_prefix (some p) =
    if not (is_valid p)
    then err invalid_prefix
    else if is4_in6 p.addr
    then if ltb (bits p) 96 then err invalid_prefix else sized_prefix (unmap p.addr) (bits p - 96)
    else sized_prefix p.addr (bits p)

unfoldable pub parse_prefix : Text → Result Prefix
unfolding Parse.parse_prefix
parse_prefix raw =
    if malformed raw then err invalid_prefix else checked_prefix (Parse.parse_prefix raw)

domain_test : normalize_domain (codes "Example.COM.") ≡ ok (codes "example.com")
unfolding normalize_domain
domain_test = refl

two_dots_test : normalize_domain (codes "example.com..") ≡ err invalid_domain
unfolding normalize_domain
two_dots_test = refl

slug_test : validate_slug (codes "web-1") ≡ true
unfolding validate_slug
slug_test = refl
