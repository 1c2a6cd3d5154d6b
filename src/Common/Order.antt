-- ===== src/Common/Order.antt =====
-- Three-way comparison, `cmp.Or`, and total orders given by a comparison.
use Prim.Native.Nat.{compare, Ordering}
use mathlib.Core.Path.{◌≡◌, refl, sym, subst}
use mathlib.Core.Logic.{◌⊎◌, inl, inr}
use mathlib.Core.Bool.{Bool, true, false}
use native.Mathlib.Omega.{arith}

-- `cmp.Or`: the first comparison that decides.
abbrev pub then_compare : Ordering → Ordering → Ordering
then_compare Ordering.lt rest = Ordering.lt
then_compare Ordering.eq rest = rest
then_compare Ordering.gt rest = Ordering.gt

abbrev pub is_lt : Ordering → Bool
is_lt Ordering.lt = true
is_lt _ = false

-- Not greater: the order that a sort keeps.
abbrev pub is_le : Ordering → Bool
is_le Ordering.gt = false
is_le _ = true

abbrev pub reverse_order : Ordering → Ordering
reverse_order Ordering.lt = Ordering.gt
reverse_order Ordering.eq = Ordering.eq
reverse_order Ordering.gt = Ordering.lt

-- A comparison that is a total order: equal answers are equal items.
pub record TotalOrder {ℓ} {A : Type ℓ} (cmp : A → A → Ordering) : Type ℓ where
  pub same : (a b : A) → cmp a b ≡ Ordering.eq → a ≡ b
  pub flip : (a b : A) → cmp b a ≡ reverse_order (cmp a b)
  pub trans : (a b c : A) → cmp a b ≡ Ordering.lt → cmp b c ≡ Ordering.lt → cmp a c ≡ Ordering.lt

pub Ordering-cases : (o : Ordering) → (o ≡ Ordering.lt) ⊎ ((o ≡ Ordering.eq) ⊎ (o ≡ Ordering.gt))
Ordering-cases Ordering.lt = inl refl
Ordering-cases Ordering.eq = inr (inl refl)
Ordering-cases Ordering.gt = inr (inr refl)

pub compare-TotalOrder : TotalOrder compare
compare-TotalOrder = record {
  same = λ a b h. ground arith;
  flip = λ a b. ground arith;
  trans = λ a b c h k. ground arith;
}

module _ {ℓ} {A : Type ℓ} {cmp : A → A → Ordering} (o : TotalOrder cmp) where
  pub compare_refl : (a : A) → cmp a a ≡ Ordering.eq
  compare_refl a = ground (arith, o.flip a a)

  -- Not greater is less or equal.
  pub le_cases : (a b : A) → is_le (cmp a b) ≡ true → (cmp a b ≡ Ordering.lt) ⊎ (a ≡ b)
  le_cases a b h = elim (Ordering-cases (cmp a b)) [
    | inl l ↦ inl l
    | inr (inl e) ↦ inr (o.same a b e)
    | inr (inr g) ↦ ground arith
  ]

  pub lt_of_not_le : (a b : A) → is_le (cmp a b) ≡ false → cmp b a ≡ Ordering.lt
  lt_of_not_le a b h = ground (arith, o.flip a b)

  pub le_trans :
      (a b c : A) → is_le (cmp a b) ≡ true → is_le (cmp b c) ≡ true → is_le (cmp a c) ≡ true
  le_trans a b c h k = elim (le_cases a b h) [
    | inl l ↦ elim (le_cases b c k) [
      | inl m ↦ ground (arith, o.trans a b c l m)
      | inr e ↦ subst (λ d. is_le (cmp a d) ≡ true) e h
    ]
    | inr e ↦ subst (λ d. is_le (cmp d c) ≡ true) (sym e) k
  ]

  pub lt_irrefl : (a : A) → cmp a a ≡ Ordering.lt → ⊥
  lt_irrefl a h = ground (arith, compare_refl a)
