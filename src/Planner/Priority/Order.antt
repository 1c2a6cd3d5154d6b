-- ===== src/Planner/Priority/Order.antt =====
-- The order of the lists by priority: it is total, and the winner of a group is its least owner.
use routevane.Common.{
  Ordering, compare, ◌≡◌, refl, sym, ap, ◌∙◌, subst, true, false, List, [], ◌∷◌, arith, inl, inr,
  ◌⊎◌, In, Bool-cases, if◌then◌else◌,
}
use routevane.Common.Text.{Text, text_compare}
use routevane.Common.Text.Order.{text_compare-TotalOrder}
use routevane.Common.Order.{TotalOrder, then_compare, is_lt, compare_refl, Ordering-cases}
use routevane.Planner.Priority.{position, better, winner_from}

abbrev list_compare : List Text → Text → Text → Ordering
list_compare priority a b =
    then_compare (compare (position priority a) (position priority b)) (text_compare a b)

list_compare-TotalOrder : (priority : List Text) → TotalOrder (list_compare priority)
list_compare-TotalOrder priority =
    let t = text_compare-TotalOrder in
    record {
      same = λ a b h. t.same a b (ground arith);
      flip = λ a b. ground (arith, t.flip a b);
      trans = λ a b c h k. ground (arith, t.trans a b c, t.same a b, t.same b c);
    }

pub better_trans :
    (priority : List Text) (a b c : Text)
    → better priority a b ≡ true
    → better priority b c ≡ true
    → better priority a c ≡ true
unfolding better
better_trans priority a b c h k = ground (arith, (list_compare-TotalOrder priority).trans a b c)

pub better_irrefl : (priority : List Text) (a : Text) → better priority a a ≡ false
unfolding better
better_irrefl priority a = ground (arith, compare_refl (list_compare-TotalOrder priority) a)

-- Of two lists that differ, one is better.
pub better_total :
    (priority : List Text) (a b : Text)
    → better priority a b ≡ false
    → (better priority b a ≡ true) ⊎ (a ≡ b)
unfolding better
better_total priority a b h =
    let o = list_compare-TotalOrder priority in
    elim (Ordering-cases (list_compare priority a b)) [
      | inl l ↦ absurd (cc (h, ap is_lt l))
      | inr (inl e) ↦ inr (o.same a b e)
      | inr (inr g) ↦ inl (ground (arith, o.flip a b))
    ]

abbrev leader : List Text → Text → Text → Text
leader priority o w = if better priority o w then o else w

pub In-winner :
    (priority : List Text) (w : Text) (os : List Text) → In (winner_from priority w os) (w ∷ os)
unfolding winner_from
In-winner priority w [] = inl refl
In-winner priority w (o ∷ os) = elim (In-winner priority (leader priority o w) os) [
  | inr i ↦ inr (inr i)
  | inl e ↦ elim (Bool-cases (better priority o w)) [
    | inl b ↦ inr (inl (e ∙ rw b refl))
    | inr b ↦ inl (e ∙ rw b refl)
  ]
]

leader_first :
    (priority : List Text) (o w p : Text)
    → better priority p w ≡ false
    → better priority p (leader priority o w) ≡ false
leader_first priority o w p h = elim (Bool-cases (better priority o w)) [
  | inr b ↦ rw b h
  | inl b ↦ rw b (ground (arith, better_trans priority p o w))
]

leader_last : (priority : List Text) (o w : Text) → better priority o (leader priority o w) ≡ false
leader_last priority o w = elim (Bool-cases (better priority o w)) [
  | inr b ↦ rw b b
  | inl b ↦ rw b (better_irrefl priority o)
]

winner_bound :
    (priority : List Text) (w : Text) (os : List Text) (p : Text)
    → better priority p w ≡ false
    → better priority p (winner_from priority w os) ≡ false
unfolding winner_from
winner_bound priority w [] p h = h
winner_bound priority w (o ∷ os) p h =
    winner_bound priority (leader priority o w) os p (leader_first priority o w p h)

-- No owner is better than the winner.
pub winner_least :
    (priority : List Text) (w : Text) (os : List Text) (p : Text)
    → In p (w ∷ os)
    → better priority p (winner_from priority w os) ≡ false
unfolding winner_from
winner_least priority w os p (inl e) =
    winner_bound priority w os p
      (subst (λ q. better priority q w ≡ false) (sym e) (better_irrefl priority w))
winner_least priority w [] p (inr i) = absurd i
winner_least priority w (o ∷ os) p (inr (inr i)) =
    winner_least priority (leader priority o w) os p (inr i)
winner_least priority w (o ∷ os) p (inr (inl e)) =
    winner_bound priority (leader priority o w) os p (
      subst (λ q. better priority q (leader priority o w) ≡ false) (sym e)
        (leader_last priority o w))
