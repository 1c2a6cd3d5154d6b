-- ===== src/Common/Keyed.antt =====
-- A Go map whose keys have a decidable equality, as a list of pairs with distinct keys.
use routevane.Common.Tests.{
  if◌then◌else◌, holds, holds_sound, holds_complete, Bool-cases, some-injective,
}
use routevane.Common.Lists.{In}
use mathlib.Core.Path.{◌≡◌, refl, sym, ◌∙◌, ap, ap₂, subst}
use mathlib.Core.Logic.{◌⊎◌, inl, inr}
use mathlib.Core.Bool.{true}
use mathlib.Core.Option.{Option, none, some}
use mathlib.Core.List.{List, [], ◌∷◌}

module _ {K : Type 0} {V : Type 0} (same : Discrete K) where
  -- `m[k]`
  unfoldable pub lookup : K → List (K × V) → Option V
  lookup k [] = none
  lookup k ((j, v) ∷ m) = let rest = lookup k m in if holds (same j k) then some v else rest

  -- `m[k] = v`
  unfoldable pub store : K → V → List (K × V) → List (K × V)
  store k v [] = (k, v) ∷ []
  store k v ((j, w) ∷ m) =
      let rest = store k v m in if holds (same j k) then (j, v) ∷ m else (j, w) ∷ rest

  pub lookup-store_same : (k : K) (v : V) (m : List (K × V)) → lookup k (store k v m) ≡ some v
  unfolding lookup store
  lookup-store_same k v [] = rw (holds_complete (same k k) refl) refl
  lookup-store_same k v ((j, w) ∷ m) = elim (Bool-cases (holds (same j k))) [
    | inl e ↦ rw (e, e) refl
    | inr n ↦ rw (n, n) (lookup-store_same k v m)
  ]

  pub lookup-store_other :
      (j k : K) (v : V) (m : List (K × V)) → (k ≡ j → ⊥) → lookup j (store k v m) ≡ lookup j m
  unfolding lookup store
  lookup-store_other j k v [] n = elim (Bool-cases (holds (same k j))) [
    | inl e ↦ absurd (n (holds_sound (same k j) e))
    | inr f ↦ rw f refl
  ]
  lookup-store_other j k v ((i, w) ∷ m) n = elim (Bool-cases (holds (same i k))) [
    | inl e ↦ elim (Bool-cases (holds (same i j))) [
      | inl f ↦ absurd (n (sym (holds_sound (same i k) e) ∙ holds_sound (same i j) f))
      | inr f ↦ rw (e, f) refl
    ]
    | inr e ↦ elim (Bool-cases (holds (same i j))) [
      | inl f ↦ rw (e, f) refl
      | inr f ↦ rw (e, f) (lookup-store_other j k v m n)
    ]
  ]

  -- What a key reads is a pair of the list.
  pub lookup-In : (k : K) (v : V) (m : List (K × V)) → lookup k m ≡ some v → In (k, v) m
  unfolding lookup
  lookup-In k v [] h = cc
  lookup-In k v ((j, w) ∷ m) h = elim (Bool-cases (holds (same j k))) [
    | inl e ↦
        inl
          (ap₂ (λ a b. (a, b)) (sym (holds_sound (same j k) e)) (sym (some-injective (rw e at h))))
    | inr n ↦ inr (lookup-In k v m (rw n at h))
  ]

  pub In-store :
      (i k : K) (u v : V) (m : List (K × V))
      → In (i, u) (store k v m)
      → ((i ≡ k) × (u ≡ v)) ⊎ In (i, u) m
  unfolding store
  In-store i k u v [] (inl e) = inl (ap (λ t. t.0) e, ap (λ t. t.1) e)
  In-store i k u v [] (inr h) = absurd h
  In-store i k u v ((j, w) ∷ m) h = elim (Bool-cases (holds (same j k))) [
    | inl e ↦ first e (rw e at h)
    | inr n ↦ later (In-store i k u v m) (rw n at h)
  ]
    where
      first :
          holds (same j k) ≡ true
          → ◌≡◌ {A = K × V} (i, u) (j, v) ⊎ In (i, u) m
          → ((i ≡ k) × (u ≡ v)) ⊎ In (i, u) ((j, w) ∷ m)
      first e (inl p) = inl (ap (λ t. t.0) p ∙ holds_sound (same j k) e, ap (λ t. t.1) p)
      first e (inr q) = inr (inr q)

      later :
          (In (i, u) (store k v m) → ((i ≡ k) × (u ≡ v)) ⊎ In (i, u) m)
          → ◌≡◌ {A = K × V} (i, u) (j, w) ⊎ In (i, u) (store k v m)
          → ((i ≡ k) × (u ≡ v)) ⊎ In (i, u) ((j, w) ∷ m)
      later f (inl p) = inr (inl p)
      later f (inr q) = elim (f q) [ inl both ↦ inl both | inr old ↦ inr (inr old) ]

  -- Each key stands once.
  abbrev pub IsKeyed : List (K × V) → Type 0
  IsKeyed [] = Unit
  IsKeyed ((k, v) ∷ m) = ((u : V) → ¬ In (k, u) m) × IsKeyed m

  pub store-IsKeyed : (k : K) (v : V) (m : List (K × V)) → IsKeyed m → IsKeyed (store k v m)
  unfolding store
  store-IsKeyed k v [] h = (λ u i. i, tt)
  store-IsKeyed k v ((j, w) ∷ m) h = elim (Bool-cases (holds (same j k))) [
    | inl e ↦ rw e h
    | inr n ↦ rw n (
      λ u i. elim (In-store j k u v m i) [
        | inl both ↦ cc (n, holds_complete (same j k) both.0)
        | inr old ↦ h.0 u old
      ],
      store-IsKeyed k v m h.1,
    )
  ]

  pub lookup-IsKeyed :
      (k : K) (v : V) (m : List (K × V)) → IsKeyed m → In (k, v) m → lookup k m ≡ some v
  unfolding lookup
  lookup-IsKeyed k v [] h i = absurd i
  lookup-IsKeyed k v ((j, w) ∷ m) h (inl e) =
      rw (holds_complete (same j k) (sym (ap (λ t. t.0) e))) (ap some (sym (ap (λ t. t.1) e)))
  lookup-IsKeyed k v ((j, w) ∷ m) h (inr i) = elim (Bool-cases (holds (same j k))) [
    | inl e ↦ absurd (h.0 v (subst (λ q. In (q, v) m) (sym (holds_sound (same j k) e)) i))
    | inr n ↦ rw n (lookup-IsKeyed k v m h.1 i)
  ]
