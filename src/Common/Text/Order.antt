-- ===== src/Common/Text/Order.antt =====
-- The comparison of texts is a total order.
use Prim.Native.Nat.{Ordering}
use mathlib.Core.Path.{◌≡◌, refl}
use mathlib.Core.List.{[], ◌∷◌}
use native.Mathlib.Omega.{arith}
use routevane.Common.Order.{TotalOrder, reverse_order}
use routevane.Common.Text.{Text, text_compare}

same : (s t : Text) → text_compare s t ≡ Ordering.eq → s ≡ t
unfolding text_compare
same [] [] h = refl
same [] (d ∷ t) h = ground arith
same (c ∷ s) [] h = ground arith
same (c ∷ s) (d ∷ t) h = ground (arith, same s t)

flip : (s t : Text) → text_compare t s ≡ reverse_order (text_compare s t)
unfolding text_compare
flip [] [] = refl
flip [] (d ∷ t) = refl
flip (c ∷ s) [] = refl
flip (c ∷ s) (d ∷ t) = ground (arith, flip s t)

trans :
    (s t u : Text)
    → text_compare s t ≡ Ordering.lt
    → text_compare t u ≡ Ordering.lt
    → text_compare s u ≡ Ordering.lt
unfolding text_compare
trans [] [] u h k = ground arith
trans [] (d ∷ t) [] h k = ground arith
trans [] (d ∷ t) (e ∷ u) h k = refl
trans (c ∷ s) [] u h k = ground arith
trans (c ∷ s) (d ∷ t) [] h k = ground arith
trans (c ∷ s) (d ∷ t) (e ∷ u) h k = ground (arith, trans s t u)

pub text_compare-TotalOrder : TotalOrder text_compare
text_compare-TotalOrder = record { same = same; flip = flip; trans = trans }
