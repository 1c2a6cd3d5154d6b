-- ===== src/Common/Assoc/Distinct.antt =====
-- A map that writes alone have made holds each key once, so its values are what its keys read.
use mathlib.Core.Path.{◌≡◌, refl, sym}
use mathlib.Core.Logic.{inl, inr, ◌≢◌}
use mathlib.Core.Bool.{false}
use mathlib.Core.Option.{some}
use mathlib.Core.List.{[], ◌∷◌}
use native.Mathlib.Omega.{arith}
use routevane.Common.Tests.{Bool-cases, some-injective}
use routevane.Common.Lists.{In, All, All-In}
use routevane.Common.Text.{Text, text_eq}
use routevane.Common.Assoc.{Map, get, put, keys, values, text_eq_sound, text_eq_complete}

module _ {V : Type 0} where
  abbrev pub IsDistinct : Map V → Type 0
  IsDistinct [] = Unit
  IsDistinct ((k, v) ∷ m) = All (λ j. j ≢ k) (keys m) × IsDistinct m

  keys-put :
      (P : Text → Type 0) (k : Text) (v : V) (m : Map V)
      → P k
      → All P (keys m)
      → All P (keys (put k v m))
  unfolding put
  keys-put P k v [] h a = (h, tt)
  keys-put P k v ((j, w) ∷ m) h a = elim (Bool-cases (text_eq j k)) [
    | inl e ↦ rw e a
    | inr n ↦ rw n (a.0, keys-put P k v m h a.1)
  ]

  pub put-IsDistinct : (k : Text) (v : V) (m : Map V) → IsDistinct m → IsDistinct (put k v m)
  unfolding put
  put-IsDistinct k v [] h = (tt, tt)
  put-IsDistinct k v ((j, w) ∷ m) h = elim (Bool-cases (text_eq j k)) [
    | inl e ↦ rw e h
    | inr n ↦ rw n (
      keys-put (λ i. i ≢ j) k v m (λ e. absurd (false-text n (sym e))) h.0,
      put-IsDistinct k v m h.1,
    )
  ]
    where
      false-text : text_eq j k ≡ false → j ≡ k → ⊥
      false-text n e = cc (n, text_eq_complete j k e)

  pub In-keys : (k : Text) (v : V) (m : Map V) → get k m ≡ some v → In k (keys m)
  unfolding get
  In-keys k v [] h = cc
  In-keys k v ((j, w) ∷ m) h = ground (arith, In-keys k v m, text_eq_sound j k)

  pub get-values :
      (v : V) (m : Map V) → IsDistinct m → In v (values m) → (k : Text) × (get k m ≡ some v)
  unfolding get
  get-values v [] d h = absurd h
  get-values v ((j, w) ∷ m) d (inl e) = (j, rw (text_eq_complete j j refl, e) refl)
  get-values v ((j, w) ∷ m) d (inr i) =
      let (k, e) = get-values v m d.1 i in
      (
        k,
        elim (Bool-cases (text_eq j k)) [
          | inl same ↦ absurd (
              All-In (λ i'. i' ≢ j) k (keys m) d.0 (In-keys k v m e) (sym (text_eq_sound j k same)))
          | inr other ↦ rw other e
        ],
      )

  pub In-values : (k : Text) (v : V) (m : Map V) → get k m ≡ some v → In v (values m)
  unfolding get
  In-values k v [] h = cc
  In-values k v ((j, w) ∷ m) h = elim (Bool-cases (text_eq j k)) [
    | inl same ↦ inl (some-injective (sym (rw same at h)))
    | inr other ↦ inr (In-values k v m (rw other at h))
  ]
