-- ===== src/Deploy/Routes/Labels.antt =====
-- The labels of a route and their compact description.
use routevane.Common.{
  ℕ, ◌-◌, Bool, true, false, ◌&&◌, ◌||◌, not, List, [], ◌∷◌, ◌++◌, ltb, leb, ◌==◌, if◌then◌else◌,
  length, any, all, ◌≡◌, refl, Option, none, some,
}
use routevane.Common.Text.{Text, codes, text_eq, text_compare, Text-discrete}
use routevane.Common.Sort.{sort_by, compact_by}
use routevane.Domain.Names.{is_empty, last_or}
use routevane.Domain.Plan.{stable_strings}
use routevane.Netip.Print.{decimal}
use routevane.Encoding.Utf8.{
  valid_from, valid_utf8, has_control, fields_from, fields, join_spaces, is_continuation,
}

abbrev pub max_description_bytes : ℕ
max_description_bytes = 96

-- `strings.Split(inner, "/")`
unfoldable pub split_slashes : Text → List Text
split_slashes [] = [] ∷ []
split_slashes (c ∷ s) =
    let rest = split_slashes s in
    if c == b'/' then [] ∷ rest else elim rest [ [] ↦ (c ∷ []) ∷ [] | l ∷ ls ↦ (c ∷ l) ∷ ls ]

abbrev pub reserved : ℕ → Bool
reserved c = c == 92 || c == b'(' || c == b')' || c == b'+'

unfoldable pub valid_segment : Text → Bool
unfolding fields_from join_spaces Text-discrete
valid_segment s = text_eq s (join_spaces (fields s)) && not (any reserved s)

abbrev pub valid_segments : List Text → Bool
valid_segments (a ∷ b ∷ []) =
    not (is_empty a) && not (is_empty b) && valid_segment a && valid_segment b
valid_segments _ = false

-- The text without its last byte.
unfoldable pub without_last : Text → Text
without_last [] = []
without_last (c ∷ []) = []
without_last (c ∷ d ∷ s) = c ∷ without_last (d ∷ s)

abbrev pub inner_of : Text → Text
inner_of [] = []
inner_of (c ∷ s) = without_last s

abbrev pub starts_with : ℕ → Text → Bool
starts_with b [] = false
starts_with b (c ∷ s) = c == b

unfoldable pub valid_managed_label : Text → Bool
unfolding valid_from split_slashes valid_segment without_last
valid_managed_label s =
    valid_utf8 s
    && leb 3 (length s)
    && leb (length s) 1024
    && starts_with b'(' s
    && last_or s 0 == b')'
    && valid_segments (split_slashes (inner_of s))
    && not (has_control s)

unfoldable pub valid_managed_description : Text → Bool
unfolding valid_from
valid_managed_description s =
    valid_utf8 s && leb (length s) max_description_bytes && not (has_control s)

-- `none` is a refusal.
unfoldable pub canonical_managed_labels : List Text → Option (List Text)
unfolding stable_strings valid_managed_label
canonical_managed_labels labels =
    if all valid_managed_label (stable_strings labels) then some (stable_strings labels) else none

unfoldable pub reversed_onto : Text → Text → Text
reversed_onto [] t = t
reversed_onto (c ∷ s) t = reversed_onto s (c ∷ t)

-- The loop over the runes of valid UTF-8 from the last one on, here on the reversed text: in a rune
-- the bytes go on to its first one.
unfoldable pub drop_runes : ℕ → Bool → Text → Text
drop_runes budget in_rune [] = []
drop_runes budget true (c ∷ s) = drop_runes budget (is_continuation c) s
drop_runes budget false (c ∷ s) =
    let rest = drop_runes budget (is_continuation c) s in
    if leb (length (c ∷ s)) budget then c ∷ s else rest

-- `…`
abbrev pub ellipsis : Text
ellipsis = 0xE2 ∷ 0x80 ∷ 0xA6 ∷ []

abbrev pub trim_open : Text → Text
trim_open [] = []
trim_open (c ∷ s) = if c == b'(' then s else c ∷ s

abbrev pub trim_close : Text → Text
trim_close s = if last_or s 0 == b')' then without_last s else s

abbrev pub shortened : ℕ → Text → Text
shortened budget inner = reversed_onto (drop_runes budget false (reversed_onto inner [])) []

-- A maximum below the five bytes of the wrapper leaves `()`.
unfoldable pub truncate_managed_label : Text → ℕ → Text
unfolding without_last drop_runes reversed_onto
truncate_managed_label s maximum =
    if leb (length s) maximum
    then s
    else if ltb maximum 5
    then codes "()"
    else b'(' ∷ (shortened (maximum - 5) (trim_close (trim_open s)) ++ ellipsis ++ codes ")")

abbrev pub more_suffix : List Text → Text
more_suffix [] = []
more_suffix (l ∷ ls) = codes " +" ++ decimal (length (l ∷ ls))

abbrev pub compact_of : Option (List Text) → Text
compact_of none = []
compact_of (some []) = []
compact_of (some (l ∷ ls)) =
    truncate_managed_label l (max_description_bytes - length (more_suffix ls)) ++ more_suffix ls

-- `CompactManagedRouteDescription`
unfoldable pub compact_description : List Text → Text
unfolding canonical_managed_labels truncate_managed_label decimal
compact_description labels = compact_of (canonical_managed_labels labels)

label_test : valid_managed_label (codes "(web/main site)") ≡ true
unfolding valid_managed_label
label_test = refl

double_space_test : valid_managed_label (codes "(web/main  site)") ≡ false
unfolding valid_managed_label
double_space_test = refl

compact_test :
    compact_description (codes "(b/x)" ∷ codes "(a/x)" ∷ codes "(b/x)" ∷ []) ≡ codes "(a/x) +1"
unfolding compact_description compact_by sort_by text_compare
compact_test = refl
