-- ===== src/Common/Assoc.antt =====
-- A Go map with text keys, as a list of pairs with distinct keys.
pub mod Distinct
use routevane.Common.Tests.{if◌then◌else◌, holds_sound, holds_complete}
use routevane.Common.Text.{Text, text_eq, Text-discrete}
use mathlib.Core.Path.{◌≡◌, refl}
use mathlib.Core.Bool.{Bool, true, false}
use mathlib.Core.Option.{Option, none, some}
use mathlib.Core.List.{List, [], ◌∷◌}
use native.Mathlib.Omega.{arith}

abbrev pub Map : Type 0 → Type 0
Map V = List (Text × V)

module _ {V : Type 0} where
  -- `m[k]`
  unfoldable pub get : Text → Map V → Option V
  unfolding Text-discrete
  get k [] = none
  get k ((j, v) ∷ m) = let rest = get k m in if text_eq j k then some v else rest

  -- `m[k] = v`
  unfoldable pub put : Text → V → Map V → Map V
  unfolding Text-discrete
  put k v [] = (k, v) ∷ []
  put k v ((j, w) ∷ m) = let rest = put k v m in if text_eq j k then (j, v) ∷ m else (j, w) ∷ rest

  abbrev pub values : Map V → List V
  values [] = []
  values ((k, v) ∷ m) = v ∷ values m

  abbrev pub keys : Map V → List Text
  keys [] = []
  keys ((k, v) ∷ m) = k ∷ keys m

  unfoldable pub is_key : Text → Map V → Bool
  unfolding get
  is_key k m = elim (get k m) [ none ↦ false | some v ↦ true ]

pub text_eq_sound : (s t : Text) → text_eq s t ≡ true → s ≡ t
text_eq_sound s t h = holds_sound (Text-discrete s t) h

pub text_eq_complete : (s t : Text) → s ≡ t → text_eq s t ≡ true
text_eq_complete s t h = holds_complete (Text-discrete s t) h

module _ {V : Type 0} where
  -- A key that was written reads as the value written, and any other as before.
  pub get-put :
      (j k : Text) (v : V) (m : Map V)
      → get j (put k v m) ≡ (if text_eq k j then some v else get j m)
  unfolding get put
  get-put j k v [] = refl
  get-put j k v ((i, w) ∷ m) = ground (
    arith,
    get-put j k v m,
    text_eq_sound i k,
    text_eq_sound i j,
    text_eq_sound k j,
    text_eq_complete i j,
    text_eq_complete k j,
  )
