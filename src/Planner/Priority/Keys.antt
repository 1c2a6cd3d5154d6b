-- ===== src/Planner/Priority/Keys.antt =====
-- A drop key tells the destination and the list apart: a list id holds no NUL.
use routevane.Common.{ℕ, ◌≡◌, refl, Bool, true, false, not, [], ◌∷◌, ◌++◌, arith, all, ◌==◌}
use routevane.Common.Text.{Text}
use routevane.Domain.Names.{validate_slug, slug_byte}
use routevane.Domain.Rule.{RouteRule, rule_is_valid}
use routevane.Planner.Overlaps.{rule_key}
use routevane.Planner.Priority.{drop_key}

abbrev pub no_nul : Text → Bool
no_nul t = all (λ c. not (c == 0)) t

slug_no_nul : (t : Text) → all slug_byte t ≡ true → no_nul t ≡ true
slug_no_nul [] h = refl
slug_no_nul (c ∷ t) h = ground (arith, slug_no_nul t)

validate_slug-no_nul : (t : Text) → validate_slug t ≡ true → no_nul t ≡ true
unfolding validate_slug
validate_slug-no_nul [] h = refl
validate_slug-no_nul (c ∷ t) h = ground (arith, slug_no_nul t)

nul_inside : (s a : Text) → no_nul (s ++ 0 ∷ a) ≡ false
nul_inside [] a = refl
nul_inside (c ∷ s) a = ground (arith, nul_inside s a)

tail_same : (c d : ℕ) (s t : Text) → c ∷ s ≡ d ∷ t → (c ≡ d) × (s ≡ t)
tail_same c d s t h = (cc, cc)

-- A text is split in one way at its last NUL.
last_nul :
    (s t a b : Text)
    → no_nul a ≡ true
    → no_nul b ≡ true
    → s ++ 0 ∷ a ≡ t ++ 0 ∷ b
    → (s ≡ t) × (a ≡ b)
last_nul [] [] a b ha hb h = (refl, (tail_same 0 0 a b h).1)
last_nul [] (d ∷ t) a b ha hb h =
    let e = (tail_same 0 d a (t ++ 0 ∷ b) h).1 in absurd (cc (ha, nul_inside t b, e))
last_nul (c ∷ s) [] a b ha hb h =
    let e = (tail_same c 0 (s ++ 0 ∷ a) b h).1 in absurd (cc (hb, nul_inside s a, e))
last_nul (c ∷ s) (d ∷ t) a b ha hb h =
    let (same, rest) = tail_same c d (s ++ 0 ∷ a) (t ++ 0 ∷ b) h in
    let (e, f) = last_nul s t a b ha hb rest in (cc (same, e), f)

pub slug_of_valid : (r : RouteRule) → rule_is_valid r ≡ true → no_nul r.list_id ≡ true
unfolding rule_is_valid
slug_of_valid r v = validate_slug-no_nul r.list_id (ground arith)

-- A drop key names one destination and one list.
pub same_drop :
    (g r : RouteRule) (o : Text)
    → no_nul o ≡ true
    → rule_is_valid r ≡ true
    → drop_key g o ≡ drop_key r r.list_id
    → (rule_key g ≡ rule_key r) × (o ≡ r.list_id)
unfolding drop_key
same_drop g r o n v h = last_nul (rule_key g) (rule_key r) o r.list_id n (slug_of_valid r v) h
