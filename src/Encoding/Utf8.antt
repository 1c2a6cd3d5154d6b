-- ===== src/Encoding/Utf8.antt =====
-- The part of Go's unicode/utf8 and strings that the labels of routes use, on the bytes of a text.
use routevane.Common.{
  ℕ, zero, suc, ◌+◌, ◌-◌, Bool, true, false, ◌&&◌, ◌||◌, List, [], ◌∷◌, ◌++◌, leb, ltb, ◌==◌,
  if◌then◌else◌, any, ◌≡◌, refl,
}
use routevane.Common.Text.{Text, codes}

abbrev pub is_in : ℕ → ℕ → ℕ → Bool
is_in low high c = leb low c && leb c high

abbrev pub is_continuation : ℕ → Bool
is_continuation c = is_in 0x80 0xBF c

-- The bytes after the first one of a rune, where the text starts with a whole one.
abbrev pub two_bytes : Text → Bool
two_bytes (d ∷ s) = is_continuation d
two_bytes _ = false

abbrev pub three_bytes : ℕ → ℕ → Text → Bool
three_bytes low high (d ∷ e ∷ s) = is_in low high d && is_continuation e
three_bytes low high _ = false

abbrev pub four_bytes : ℕ → ℕ → Text → Bool
four_bytes low high (d ∷ e ∷ f ∷ s) = is_in low high d && is_continuation e && is_continuation f
four_bytes low high _ = false

-- The size of the rune of valid UTF-8 that starts with this byte; 0 where there is none.
abbrev pub rune_size : ℕ → Text → ℕ
rune_size c s =
    if ltb c 0x80
    then 1
    else if is_in 0xC2 0xDF c && two_bytes s
    then 2
    else if (c == 0xE0 && three_bytes 0xA0 0xBF s)
        || ((is_in 0xE1 0xEC c || is_in 0xEE 0xEF c) && three_bytes 0x80 0xBF s)
        || (c == 0xED && three_bytes 0x80 0x9F s)
    then 3
    else if (c == 0xF0 && four_bytes 0x90 0xBF s)
        || (is_in 0xF1 0xF3 c && four_bytes 0x80 0xBF s)
        || (c == 0xF4 && four_bytes 0x80 0x8F s)
    then 4
    else 0

-- `utf8.ValidString`, with the bytes of a rune that are still to be passed over.
unfoldable pub valid_from : ℕ → Text → Bool
valid_from n [] = true
valid_from (suc n) (c ∷ s) = valid_from n s
valid_from zero (c ∷ s) =
    let rest = valid_from (rune_size c s - 1) s in if rune_size c s == 0 then false else rest

abbrev pub valid_utf8 : Text → Bool
valid_utf8 s = valid_from 0 s

-- `utf8.RuneCountInString` of a valid text: its bytes that continue no rune.
unfoldable pub rune_count : Text → ℕ
rune_count [] = 0
rune_count (c ∷ s) = (if is_continuation c then 0 else 1) + rune_count s

-- A control character is one byte, and no byte of a longer rune.
abbrev pub has_control : Text → Bool
has_control s = any (λ c. ltb c 0x20 || c == 0x7F) s

-- The size of the white space that the text starts with, by `unicode.IsSpace`; 0 where there is none.
abbrev pub space_size : ℕ → Text → ℕ
space_size c (d ∷ e ∷ s) =
    if is_in 9 13 c || c == 32
    then 1
    else if c == 0xC2 && (d == 0x85 || d == 0xA0)
    then 2
    else if (c == 0xE1 && d == 0x9A && e == 0x80)
        || (c == 0xE2 && d == 0x80 && (is_in 0x80 0x8A e || e == 0xA8 || e == 0xA9 || e == 0xAF))
        || (c == 0xE2 && d == 0x81 && e == 0x9F)
        || (c == 0xE3 && d == 0x80 && e == 0x80)
    then 3
    else 0
space_size c (d ∷ []) =
    if is_in 9 13 c || c == 32 then 1 else if c == 0xC2 && (d == 0x85 || d == 0xA0) then 2 else 0
space_size c [] = if is_in 9 13 c || c == 32 then 1 else 0

abbrev pub end_field : Text → List Text → List Text
end_field [] fields = fields
end_field (c ∷ s) fields = (c ∷ s) ∷ fields

-- The field at the start of the rest, and the fields after it.
unfoldable pub fields_from : ℕ → Text → Text × List Text
fields_from n [] = ([], [])
fields_from (suc n) (c ∷ s) = fields_from n s
fields_from zero (c ∷ s) =
    let rest = fields_from (space_size c s - 1) s in
    if space_size c s == 0 then (c ∷ rest.0, rest.1) else ([], end_field rest.0 rest.1)

-- `strings.Fields`
abbrev pub fields : Text → List Text
fields s = let f = fields_from 0 s in end_field f.0 f.1

-- `strings.Join(..., " ")`
unfoldable pub join_spaces : List Text → Text
join_spaces [] = []
join_spaces (f ∷ []) = f
join_spaces (f ∷ g ∷ fs) = f ++ 32 ∷ join_spaces (g ∷ fs)

fields_test : fields (codes "  a bc\t d") ≡ codes "a" ∷ codes "bc" ∷ codes "d" ∷ []
unfolding fields_from
fields_test = refl

euro_test : valid_utf8 (0xE2 ∷ 0x82 ∷ 0xAC ∷ []) ≡ true
unfolding valid_from
euro_test = refl

overlong_test : valid_utf8 (0xC0 ∷ 0x80 ∷ []) ≡ false
unfolding valid_from
overlong_test = refl
