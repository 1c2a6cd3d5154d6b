-- ===== src/Common/Sort/Laws.antt =====
-- What a sort keeps, and when the sorted list is unique.
use Prim.Native.Nat.{suc, Ordering}
use mathlib.Core.Path.{◌≡◌, refl, sym, subst, ap₂, ◌∙◌}
use mathlib.Core.Logic.{◌⊎◌, inl, inr, ◌↔◌}
use mathlib.Core.Bool.{Bool, true, false}
use mathlib.Core.List.{List, [], ◌∷◌}
use native.Mathlib.Omega.{arith}
use routevane.Common.Tests.{Bool-cases}
use routevane.Common.Lists.{In, All, All-In, All-of_In, length}
use routevane.Common.Order.{TotalOrder, is_le, le_cases, lt_of_not_le, le_trans, lt_irrefl}
use routevane.Common.Sort.{insert_sorted, sort_by, compact_by}

module _ {A : Type 0} (cmp : A → A → Ordering) where
  pub In-insert : (a b : A) (xs : List A) → In a (insert_sorted cmp b xs) ↔ ((a ≡ b) ⊎ In a xs)
  unfolding insert_sorted
  In-insert a b [] = (λ h. h, λ h. h)
  In-insert a b (x ∷ xs) = ground (arith, In-insert a b xs)

  -- A sort keeps the items.
  pub In-sort : (a : A) (xs : List A) → In a (sort_by cmp xs) ↔ In a xs
  unfolding sort_by
  In-sort a [] = (λ h. h, λ h. h)
  In-sort a (x ∷ xs) = ground (arith, In-sort a xs, In-insert a x (sort_by cmp xs))

  length-insert : (b : A) (xs : List A) → length (insert_sorted cmp b xs) ≡ suc (length xs)
  unfolding insert_sorted
  length-insert b [] = refl
  length-insert b (x ∷ xs) = ground (arith, length-insert b xs)

  pub length-sort : (xs : List A) → length (sort_by cmp xs) ≡ length xs
  unfolding sort_by
  length-sort [] = refl
  length-sort (x ∷ xs) = ground (arith, length-sort xs, length-insert x (sort_by cmp xs))

-- Each item stands before all that follow it.
module _ {A : Type 0} (cmp : A → A → Ordering) where
  abbrev pub IsSorted : List A → Type 0
  IsSorted [] = Unit
  IsSorted (x ∷ xs) = All (λ y. is_le (cmp x y) ≡ true) xs × IsSorted xs

  abbrev pub IsAscending : List A → Type 0
  IsAscending [] = Unit
  IsAscending (x ∷ xs) = All (λ y. cmp x y ≡ Ordering.lt) xs × IsAscending xs

module _ {A : Type 0} (cmp : A → A → Ordering) (o : TotalOrder cmp) where
  insert-IsSorted : (b : A) (xs : List A) → IsSorted cmp xs → IsSorted cmp (insert_sorted cmp b xs)
  unfolding insert_sorted
  insert-IsSorted b [] h = (tt, tt)
  insert-IsSorted b (x ∷ xs) h = elim (Bool-cases (is_le (cmp b x))) [
    | inl le ↦ rw le ((le, All-of_In _ xs (λ a i. le_trans o b x a le (All-In _ a xs h.0 i))), h)
    | inr gt ↦ rw gt (
      All-of_In _ (insert_sorted cmp b xs) (λ a i. later gt a ((In-insert cmp a b xs).0 i)),
      insert-IsSorted b xs h.1,
    )
  ]
    where
      later : is_le (cmp b x) ≡ false → (a : A) → (a ≡ b) ⊎ In a xs → is_le (cmp x a) ≡ true
      later gt a (inl e) = subst (λ c. is_le (cmp x c) ≡ true) (sym e) (rw (lt_of_not_le o b x gt))
      later gt a (inr i) = All-In _ a xs h.0 i

  pub sort-IsSorted : (xs : List A) → IsSorted cmp (sort_by cmp xs)
  unfolding sort_by
  sort-IsSorted [] = tt
  sort-IsSorted (x ∷ xs) = insert-IsSorted x (sort_by cmp xs) (sort-IsSorted xs)

  not-In_before : (x : A) (xs : List A) → All (λ y. cmp x y ≡ Ordering.lt) xs → In x xs → ⊥
  not-In_before x xs h i = lt_irrefl o x (All-In _ x xs h i)

  -- Two ascending lists of the same items are one list.
  pub ascending_unique :
      (xs ys : List A)
      → IsAscending cmp xs
      → IsAscending cmp ys
      → ((a : A) → In a xs → In a ys)
      → ((a : A) → In a ys → In a xs)
      → xs ≡ ys
  ascending_unique [] [] hx hy f g = refl
  ascending_unique [] (y ∷ ys) hx hy f g = absurd (g y (inl refl))
  ascending_unique (x ∷ xs) [] hx hy f g = absurd (f x (inl refl))
  ascending_unique (x ∷ xs) (y ∷ ys) hx hy f g = ap₂ ◌∷◌ heads (
      ascending_unique xs ys hx.1 hy.1
        (λ a i.
          rest_of y ys hy.0 a (subst (λ z. cmp z a ≡ Ordering.lt) heads (All-In _ a xs hx.0 i))
            (f a (inr i)))
        (λ a i.
          rest_of x xs hx.0 a
            (subst (λ z. cmp z a ≡ Ordering.lt) (sym heads) (All-In _ a ys hy.0 i)) (g a (inr i))))
    where
      both : cmp x y ≡ Ordering.lt → cmp y x ≡ Ordering.lt → ⊥
      both h k = lt_irrefl o x (o.trans x y x h k)

      pick : In x (y ∷ ys) → In y (x ∷ xs) → x ≡ y
      pick (inl e) k = e
      pick (inr i) (inl e) = sym e
      pick (inr i) (inr j) = absurd (both (All-In _ y xs hx.0 j) (All-In _ x ys hy.0 i))

      heads : x ≡ y
      heads = pick (f x (inl refl)) (g y (inl refl))

      rest_of :
          (z : A) (zs : List A)
          → All (λ w. cmp z w ≡ Ordering.lt) zs
          → (a : A) → cmp z a ≡ Ordering.lt
          → (a ≡ z) ⊎ In a zs
          → In a zs
      rest_of z zs h a lt (inl e) =
          absurd (lt_irrefl o a (subst (λ w. cmp w a ≡ Ordering.lt) (sym e) lt))
      rest_of z zs h a lt (inr i) = i

module _ {A : Type 0} (cmp : A → A → Ordering) (o : TotalOrder cmp) (same : A → A → Bool)
    (sound : (a b : A) → same a b ≡ true → a ≡ b)
    (complete : (a b : A) → a ≡ b → same a b ≡ true) where
  pub In-compact : (a : A) (xs : List A) → In a (compact_by same xs) ↔ In a xs
  unfolding compact_by
  In-compact a [] = (λ h. h, λ h. h)
  In-compact a (x ∷ []) = (λ h. h, λ h. h)
  In-compact a (x ∷ y ∷ ys) = elim (Bool-cases (same x y)) [
    | inl e ↦ rw e (
      λ h. inr ((In-compact a (y ∷ ys)).0 h),
      λ h. (In-compact a (y ∷ ys)).1 (drop_first (sound x y e) h),
    )
    | inr n ↦ rw n (
      λ h. keep_first (compact_by same (y ∷ ys)) (y ∷ ys) (In-compact a (y ∷ ys)).0 h,
      λ h. keep_first (y ∷ ys) (compact_by same (y ∷ ys)) (In-compact a (y ∷ ys)).1 h,
    )
  ]
    where
      drop_first : x ≡ y → (a ≡ x) ⊎ In a (y ∷ ys) → In a (y ∷ ys)
      drop_first e (inl f) = inl (f ∙ e)
      drop_first e (inr i) = i

      keep_first :
          (xs' ys' : List A) → (In a xs' → In a ys') → (a ≡ x) ⊎ In a xs' → (a ≡ x) ⊎ In a ys'
      keep_first xs' ys' g (inl e) = inl e
      keep_first xs' ys' g (inr i) = inr (g i)

  -- Without equal neighbours, a sorted list ascends.
  pub compact-IsAscending : (xs : List A) → IsSorted cmp xs → IsAscending cmp (compact_by same xs)
  unfolding compact_by
  compact-IsAscending [] h = tt
  compact-IsAscending (x ∷ []) h = (tt, tt)
  compact-IsAscending (x ∷ y ∷ ys) h = elim (Bool-cases (same x y)) [
    | inl e ↦ rw e (compact-IsAscending (y ∷ ys) h.1)
    | inr n ↦ rw n (
      All-of_In _ (compact_by same (y ∷ ys))
          (λ a i. before (strict n) a ((In-compact a (y ∷ ys)).0 i)),
      compact-IsAscending (y ∷ ys) h.1,
    )
  ]
    where
      strict : same x y ≡ false → cmp x y ≡ Ordering.lt
      strict n = elim (le_cases o x y h.0.0) [
        | inl l ↦ l
        | inr e ↦ absurd (ground (arith, complete x y e))
      ]

      before : cmp x y ≡ Ordering.lt → (a : A) → In a (y ∷ ys) → cmp x a ≡ Ordering.lt
      before l a (inl e) = subst (λ c. cmp x c ≡ Ordering.lt) (sym e) l
      before l a (inr i) = elim (le_cases o y a (All-In _ a ys h.1.0 i)) [
        | inl m ↦ o.trans x y a l m
        | inr e ↦ subst (λ c. cmp x c ≡ Ordering.lt) e l
      ]
