-- ===== src/Netip/Parse.antt =====
-- `netip.ParseAddr` and `netip.ParsePrefix`.
use routevane.Common.{
  ℕ, zero, suc, ◌+◌, ◌-◌, ◌*◌, ◌/◌, ◌%◌, Bool, true, false, ◌&&◌, ◌||◌, not, List, [], ◌∷◌, ◌++◌,
  Option, none, some, ltb, leb, ◌==◌, if◌then◌else◌, length, replicate, ◌≡◌, refl,
}
use routevane.Common.Text.{Text, codes}
use routevane.Netip.{Addr, v4, v6, Prefix, prefix_from, is6, has_zone, bit_len}

abbrev is_digit : ℕ → Bool
is_digit c = leb b'0' c && leb c b'9'

-- `parseIPv4Fields`: `digs` digits of the current octet are read, `fields` octets are done,
-- `n` is their value.
unfoldable pub quad_from : Text → ℕ → ℕ → ℕ → ℕ → Option ℕ
quad_from [] val digs fields n =
    if digs == 0 || not (fields == 3) then none else some (n * 256 + val)
quad_from (c ∷ s) val digs fields n =
    let val' = val * 10 + (c - b'0') in
    let digit = quad_from s val' (digs + 1) fields n in
    let dot = quad_from s 0 0 (fields + 1) (n * 256 + val) in
    if is_digit c
    then if digs == 1 && val == 0 || ltb 255 val' then none else digit
    else if c == b'.'
    then if digs == 0 || fields == 3 then none else dot
    else none

abbrev hex_value : ℕ → Option ℕ
hex_value c =
    if is_digit c
    then some (c - b'0')
    else if leb b'a' c && leb c b'f'
    then some (c - b'a' + 10)
    else if leb b'A' c && leb c b'F'
    then some (c - b'A' + 10)
    else none

-- The hexadecimal number that a text starts with, at most four digits: its value, its length, the rest.
unfoldable pub hex_prefix : Text → ℕ → ℕ → Option (ℕ × ℕ × Text)
hex_prefix [] acc off = some (acc, off, [])
hex_prefix (c ∷ s) acc off = elim (hex_value c) [
  | none ↦ some (acc, off, c ∷ s)
  | some d ↦ if ltb 3 off then none else hex_prefix s (acc * 16 + d) (off + 1)
]

-- The groups before the ellipsis, the ellipsis, and those after it.
pub record Read : Type 0 where
  pub before : List ℕ
  pub ellipsis : Bool
  pub after : List ℕ

abbrev read_count : Read → ℕ
read_count r = length r.before + length r.after

abbrev add_group : Read → ℕ → Read
add_group r g =
    if r.ellipsis
    then record r { after = r.after ++ g ∷ [] }
    else record r { before = r.before ++ g ∷ [] }

abbrev from_groups : List ℕ → ℕ → ℕ
from_groups [] acc = acc
from_groups (g ∷ gs) acc = from_groups gs (acc * 65536 + g)

-- The end of `parseIPv6`: an ellipsis stands for at least one group.
abbrev finish : Read → Option Addr
finish r =
    let n = read_count r in
    if r.ellipsis
    then if ltb n 8
      then some (v6 (from_groups (r.before ++ replicate (8 - n) 0 ++ r.after) 0) [])
      else none
    else if n == 8
    then some (v6 (from_groups r.before 0) [])
    else none

-- The trailing IPv4 address of two groups.
abbrev finish_quad : Read → Text → Option Addr
unfolding quad_from
finish_quad r s =
    if not r.ellipsis && not (read_count r == 6) || ltb 6 (read_count r)
    then none
    else elim (quad_from s 0 0 0 0) [
      | none ↦ none
      | some n ↦ finish (add_group (add_group r (n / 65536)) (n % 65536))
    ]

-- The loop of `parseIPv6` on the rounds left; eight groups are the most.
unfoldable pub groups_from : ℕ → Text → Read → Option Addr
unfolding hex_prefix quad_from
groups_from zero s r = none
groups_from (suc fuel) s r = elim (hex_prefix s 0 0) [
  | none ↦ none
  | some (acc, off, rest) ↦ if off == 0 then none else elim rest [
    | [] ↦ finish (add_group r acc)
    | d ∷ more ↦
        let r' = add_group r acc in
        let next = groups_from fuel more r' in
        if d == b'.'
        then finish_quad r s
        else if not (d == b':') || leb 8 (read_count r')
        then none
        else elim more [
          | [] ↦ none
          | e ∷ tail ↦
              let r'' = record r' { ellipsis = true } in
              let after = groups_from fuel tail r'' in
              if e == b':'
              then if r'.ellipsis then none else elim tail [ [] ↦ finish r'' | _ ↦ after ]
              else next
        ]
  ]
]

abbrev start : Read
start = record { before = []; ellipsis = false; after = [] }

-- Text with a zone is refused by the callers, and has no form here.
abbrev parse_v6 : Text → Option Addr
unfolding groups_from
parse_v6 s = elim s [
  | [] ↦ none
  | c ∷ t ↦ elim t [
    | [] ↦ none
    | d ∷ u ↦
        let after = groups_from 9 u (record start { ellipsis = true }) in
        if c == b':' && d == b':'
        then elim u [ [] ↦ some (v6 0 []) | _ ↦ after ]
        else groups_from 9 (c ∷ d ∷ u) start
  ]
]

-- The first of `.`, `:` and `%` in the text says which form it has.
abbrev dispatch : Text → Text → Option Addr
unfolding quad_from groups_from
dispatch [] whole = none
dispatch (c ∷ s) whole =
    let rest = dispatch s whole in
    if c == b'.'
    then elim (quad_from whole 0 0 0 0) [ none ↦ none | some n ↦ some (v4 n) ]
    else if c == b':'
    then parse_v6 whole
    else if c == b'%'
    then none
    else rest

unfoldable pub parse_addr : Text → Option Addr
unfolding quad_from groups_from
parse_addr s = dispatch s s

-- The parts before and after the last `/`.
abbrev cut_last_slash : Text → Option (Text × Text)
cut_last_slash [] = none
cut_last_slash (c ∷ s) = elim (cut_last_slash s) [
  | some (a, b) ↦ some (c ∷ a, b)
  | none ↦ if c == b'/' then some ([], s) else none
]

abbrev number_from : Text → ℕ → Option ℕ
number_from [] acc = some acc
number_from (c ∷ s) acc =
    let rest = number_from s (acc * 10 + (c - b'0')) in if is_digit c then rest else none

-- A length has no sign and no leading zero.
abbrev prefix_length : Text → Option ℕ
prefix_length [] = none
prefix_length (c ∷ []) = number_from (c ∷ []) 0
prefix_length (c ∷ d ∷ s) = if leb b'1' c && leb c b'9' then number_from (c ∷ d ∷ s) 0 else none

abbrev with_length : Addr → Option ℕ → Option Prefix
with_length a none = none
with_length a (some b) = if leb b (bit_len a) then some (prefix_from a b) else none

unfoldable pub parse_prefix : Text → Option Prefix
unfolding parse_addr
parse_prefix s = elim (cut_last_slash s) [
  | none ↦ none
  | some (a, b) ↦ elim (parse_addr a) [
    | none ↦ none
    | some addr ↦ if is6 addr && has_zone addr then none else with_length addr (prefix_length b)
  ]
]

quad_test : parse_addr (codes "10.0.1.2") ≡ some (v4 0x0a000102)
unfolding parse_addr
quad_test = refl

leading_zero_test : parse_addr (codes "10.01.1.2") ≡ none
unfolding parse_addr
leading_zero_test = refl

run_test : parse_addr (codes "2001:db8::1:0:0:1") ≡ some (v6 0x20010db8000000000001000000000001 [])
unfolding parse_addr
run_test = refl

mapped_test : parse_addr (codes "::ffff:1.2.3.4") ≡ some (v6 0xffff01020304 [])
unfolding parse_addr
mapped_test = refl

full_test : parse_addr (codes "1:2:3:4:5:6:7:8") ≡ some (v6 0x00010002000300040005000600070008 [])
unfolding parse_addr
full_test = refl

no_room_test : parse_addr (codes "1:2:3:4:5:6:7::8") ≡ none
unfolding parse_addr
no_room_test = refl

prefix_test : parse_prefix (codes "10.0.0.0/8") ≡ some (prefix_from (v4 0x0a000000) 8)
unfolding parse_prefix
prefix_test = refl
