-- ===== src/Planner/Dedupe/Merge.antt =====
-- What dedupeRules reads at a key: the merge, in order, of the rules that have it.
use routevane.Common.{
  ◌≡◌, refl, ap, ◌∙◌, Bool, List, [], ◌∷◌, ◌++◌, Option, some, inl, inr, keep, Bool-cases,
}
use routevane.Common.Text.{Text, text_eq}
use routevane.Common.Assoc.{Map, get, get-put, text_eq_sound, text_eq_complete}
use routevane.Common.Assoc.Distinct.{IsDistinct, put-IsDistinct}
use routevane.Domain.Kind.{RuleKind, domain_exact, kind_text}
use routevane.Domain.Rule.{RouteRule, rule_value, rule_value_for, candidate_key}
use routevane.Planner.Dedupe.{merge_rule, first_rule, merged_with, add_rule, add_rules}

abbrev pub has_key : Text → RouteRule → Bool
has_key k r = text_eq (candidate_key r) k

abbrev pub merge_all : Option RouteRule → List RouteRule → Option RouteRule
merge_all o [] = o
merge_all o (r ∷ rs) = merge_all (some (merged_with o r)) rs

pub get-add_rules :
    (k : Text) (m : Map RouteRule) (rs : List RouteRule)
    → get k (add_rules m rs) ≡ merge_all (get k m) (keep (has_key k) rs)
unfolding add_rules add_rule
get-add_rules k m [] = refl
get-add_rules k m (r ∷ rs) = get-add_rules k (add_rule m r) rs ∙ elim (Bool-cases (has_key k r)) [
  | inl e ↦
      rw
        (
          text_eq_sound (candidate_key r) k e,
          get-put k k (merged_with (get k m) r) m,
          text_eq_complete k k refl,
        )
        refl
  | inr n ↦ rw (get-put k (candidate_key r) (merged_with (get (candidate_key r) m) r) m, n) refl
]

pub add_rules-IsDistinct :
    (rs : List RouteRule) (m : Map RouteRule) → IsDistinct m → IsDistinct (add_rules m rs)
unfolding add_rules add_rule
add_rules-IsDistinct [] m d = d
add_rules-IsDistinct (r ∷ rs) m d =
    add_rules-IsDistinct rs _ (put-IsDistinct (candidate_key r) _ m d)

value_for-merge :
    (prior r : RouteRule) (k : RuleKind)
    → rule_value_for k (merge_rule prior r) ≡ rule_value_for k prior
unfolding merge_rule
value_for-merge prior r domain_exact = refl
value_for-merge prior r _ = refl

value_for-first :
    (r : RouteRule) (k : RuleKind) → rule_value_for k (first_rule r) ≡ rule_value_for k r
value_for-first r domain_exact = refl
value_for-first r _ = refl

-- A merge keeps the key.
pub key-merge : (prior r : RouteRule) → candidate_key (merge_rule prior r) ≡ candidate_key prior
unfolding candidate_key rule_value merge_rule
key-merge prior r =
    ap (λ v. kind_text prior.kind ++ 0 ∷ (v ++ 0 ∷ (prior.list_id ++ 0 ∷ prior.component_id)))
      (value_for-merge prior r prior.kind)

pub key-first : (r : RouteRule) → candidate_key (first_rule r) ≡ candidate_key r
unfolding candidate_key rule_value
key-first r =
    ap (λ v. kind_text r.kind ++ 0 ∷ (v ++ 0 ∷ (r.list_id ++ 0 ∷ r.component_id)))
      (value_for-first r r.kind)
