-- ===== src/Encoding/Hex.antt =====
-- Go's encoding/hex, and the validators of identities that stand on it.
pub mod Ids
use routevane.Common.{
  ℕ, suc, ◌+◌, ◌-◌, ◌*◌, ◌/◌, ◌%◌, Bool, true, false, ◌&&◌, List, [], ◌∷◌, Option, none, some, leb,
  ltb, ◌==◌, if◌then◌else◌, length, ◌≡◌, refl,
}
use routevane.Common.Text.{Text, codes, text_eq, Text-discrete}
use routevane.Domain.Names.{to_lower}

-- The value of a digit of either case.
abbrev pub hex_value : ℕ → Option ℕ
hex_value c =
    if leb b'0' c && leb c b'9'
    then some (c - b'0')
    else if leb b'a' c && leb c b'f'
    then some (c - b'a' + 10)
    else if leb b'A' c && leb c b'F'
    then some (c - b'A' + 10)
    else none

abbrev pub hex_digit : ℕ → ℕ
hex_digit n = if ltb n 10 then b'0' + n else b'a' + (n - 10)

abbrev pub join_digits : Option ℕ → Option ℕ → Option Text → Option Text
join_digits (some h) (some l) (some bytes) = some ((h * 16 + l) ∷ bytes)
join_digits _ _ _ = none

-- `hex.DecodeString`; `none` is an error.
unfoldable pub hex_decode : Text → Option Text
hex_decode [] = some []
hex_decode (c ∷ []) = none
hex_decode (c ∷ d ∷ s) = join_digits (hex_value c) (hex_value d) (hex_decode s)

-- `hex.EncodeToString`
unfoldable pub hex_encode : Text → Text
hex_encode [] = []
hex_encode (b ∷ bytes) = hex_digit (b / 16) ∷ hex_digit (b % 16) ∷ hex_encode bytes

abbrev pub is_decoded : Option Text → Bool
is_decoded none = false
is_decoded (some bytes) = true

abbrev pub sized_hex : ℕ → Text → Bool
sized_hex n s = length s == n && text_eq (to_lower s) s && is_decoded (hex_decode s)

-- `isHexID` of internal/application and `validID` of internal/infrastructure/sqlite
unfoldable pub is_hex_id : Text → Bool
unfolding hex_decode to_lower Text-discrete
is_hex_id s = sized_hex 32 s

-- `validHash`
unfoldable pub valid_hash : Text → Bool
unfolding hex_decode to_lower Text-discrete
valid_hash s = sized_hex 64 s

abbrev pub reencodes : Text → Option Text → Bool
reencodes s none = false
reencodes s (some bytes) = text_eq (hex_encode bytes) s

-- `validDeploymentAttemptID`
unfoldable pub valid_attempt_id : Text → Bool
unfolding hex_decode hex_encode Text-discrete
valid_attempt_id s = length s == 32 && reencodes s (hex_decode s)

decode_test : hex_decode (codes "0aFf") ≡ some (10 ∷ 255 ∷ [])
unfolding hex_decode
decode_test = refl

upper_test : valid_attempt_id (codes "0123456789ABCDEF0123456789abcdef") ≡ false
unfolding valid_attempt_id
upper_test = refl

id_test : valid_attempt_id (codes "0123456789abcdef0123456789abcdef") ≡ true
unfolding valid_attempt_id
id_test = refl
