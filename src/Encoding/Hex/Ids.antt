-- ===== src/Encoding/Hex/Ids.antt =====
-- The service's and the store's validators of an identity agree.
use routevane.Common.{
  ℕ, ◌+◌, ◌*◌, ◌/◌, ◌%◌, ◌<◌, ◌≡◌, refl, sym, ap₂, Bool, ◌&&◌, [], ◌∷◌, Option, none, some, arith,
  some-injective,
}
use routevane.Common.Text.{Text, text_eq}
use routevane.Domain.Names.{to_lower, lower}
use routevane.Encoding.Hex.{
  hex_value, hex_digit, hex_decode, hex_encode, join_digits, is_decoded, is_hex_id,
  valid_attempt_id, reencodes,
}

digit-value : (c n : ℕ) → hex_value c ≡ some n → (n < 16) × (hex_digit n ≡ lower c)
digit-value c n h = (ground arith, ground arith)

high_digit : (h l : ℕ) → l < 16 → (h * 16 + l) / 16 ≡ h
high_digit h l b = omega arith

low_digit : (h l : ℕ) → l < 16 → (h * 16 + l) % 16 ≡ l
low_digit h l b = omega arith

join_digits-some :
    (x y : Option ℕ) (z : Option Text) (bytes : Text)
    → join_digits x y z ≡ some bytes
    → (h : ℕ) × (l : ℕ) × (rest : Text) × (x ≡ some h)
      × (y ≡ some l)
      × (z ≡ some rest)
      × (bytes ≡ (h * 16 + l) ∷ rest)
join_digits-some none y z bytes e = cc
join_digits-some (some h) none z bytes e = cc
join_digits-some (some h) (some l) none bytes e = cc
join_digits-some (some h) (some l) (some rest) bytes e =
    (h, l, rest, refl, refl, refl, sym (some-injective e))

-- Decoding a text and encoding the bytes gives the text in lower case.
pub hex_encode-hex_decode :
    (s bytes : Text) → hex_decode s ≡ some bytes → hex_encode bytes ≡ to_lower s
unfolding hex_decode hex_encode to_lower
hex_encode-hex_decode [] bytes e = rw (sym (some-injective e)) refl
hex_encode-hex_decode (c ∷ []) bytes e = cc
hex_encode-hex_decode (c ∷ d ∷ s) bytes e =
    let (h, l, rest, eh, el, er, eb) = join_digits-some _ _ _ bytes e in
    let (bh, dh) = digit-value c h eh in
    let (bl, dl) = digit-value d l el in
    rw (eb, high_digit h l bl, low_digit h l bl)
      (ap₂ ◌∷◌ dh (ap₂ ◌∷◌ dl (hex_encode-hex_decode s rest er)))

and_assoc : (a b c : Bool) → (a && b && c) ≡ (a && (b && c))
and_assoc a b c = ground arith

same_test :
    (s : Text) (o : Option Text)
    → hex_decode s ≡ o
    → reencodes s o ≡ (text_eq (to_lower s) s && is_decoded o)
same_test s none e = ground arith
same_test s (some bytes) e = rw (hex_encode-hex_decode s bytes e) (ground arith)

-- The service takes an attempt's identity just when the store takes it.
pub valid_attempt_id-is_hex_id : (s : Text) → valid_attempt_id s ≡ is_hex_id s
unfolding valid_attempt_id is_hex_id
valid_attempt_id-is_hex_id s = ground (arith, same_test s (hex_decode s) refl)
