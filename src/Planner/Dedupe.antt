-- ===== src/Planner/Dedupe.antt =====
-- internal/planner/build_plan.go and canonical.go: the order of rules, and the merge of rules that
-- name one destination.
pub mod Classes
pub mod Merge
pub mod Fold
pub mod Destinations
use routevane.Common.{
  ℕ, Ordering, compare, Bool, List, [], ◌∷◌, ◌++◌, Option, none, some, ltb, if◌then◌else◌,
}
use routevane.Common.Text.{text_compare}
use routevane.Common.Order.{then_compare, is_lt}
use routevane.Common.Sort.{sort_by}
use routevane.Common.Assoc.{Map, get, put, values}
use routevane.Domain.Kind.{
  SourceClass, manual, official, observed, community, metadata, other_class, kind_text, class_text,
}
use routevane.Domain.Rule.{RouteRule, rule_value, candidate_key}
use routevane.Domain.Plan.{stable_strings}

unfoldable pub compare_rules : RouteRule → RouteRule → Ordering
compare_rules a b = then_compare (text_compare (kind_text a.kind) (kind_text b.kind)) (
    then_compare (text_compare (rule_value a) (rule_value b)) (
      then_compare (text_compare a.list_id b.list_id) (
        then_compare (text_compare a.component_id b.component_id)
          (text_compare (class_text a.source_class) (class_text b.source_class)))))

unfoldable pub sort_rules : List RouteRule → List RouteRule
sort_rules rules = sort_by compare_rules rules

unfoldable pub source_class_precedence : SourceClass → ℕ
source_class_precedence manual = 0
source_class_precedence official = 1
source_class_precedence community = 2
source_class_precedence observed = 3
source_class_precedence metadata = 4
source_class_precedence (other_class t) = 5

unfoldable pub stronger_class : SourceClass → SourceClass → Bool
stronger_class candidate current = is_lt (
    then_compare (compare (source_class_precedence candidate) (source_class_precedence current))
      (text_compare (class_text candidate) (class_text current)))

-- The rule's expiry replaces an absent or an earlier one.
unfoldable pub later_expiry : Option ℕ → Option ℕ → Option ℕ
later_expiry none rule = rule
later_expiry (some p) none = some p
later_expiry (some p) (some r) = if ltb p r then some r else some p

unfoldable pub merge_rule : RouteRule → RouteRule → RouteRule
merge_rule prior rule = record prior {
  source_class =
      if stronger_class rule.source_class prior.source_class
      then rule.source_class
      else prior.source_class;
  reason_codes = stable_strings (prior.reason_codes ++ rule.reason_codes);
  provenance_refs = stable_strings (prior.provenance_refs ++ rule.provenance_refs);
  expires_at = later_expiry prior.expires_at rule.expires_at;
}

abbrev first_rule : RouteRule → RouteRule
first_rule rule = record rule {
  reason_codes = stable_strings rule.reason_codes;
  provenance_refs = stable_strings rule.provenance_refs;
}

abbrev merged_with : Option RouteRule → RouteRule → RouteRule
merged_with none rule = first_rule rule
merged_with (some prior) rule = merge_rule prior rule

unfoldable pub add_rule : Map RouteRule → RouteRule → Map RouteRule
add_rule m rule = put (candidate_key rule) (merged_with (get (candidate_key rule) m) rule) m

unfoldable pub add_rules : Map RouteRule → List RouteRule → Map RouteRule
add_rules m [] = m
add_rules m (r ∷ rs) = add_rules (add_rule m r) rs

unfoldable pub dedupe_rules : List RouteRule → List RouteRule
dedupe_rules rules = sort_rules (values (add_rules [] rules))
