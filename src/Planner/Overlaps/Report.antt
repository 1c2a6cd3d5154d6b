-- ===== src/Planner/Overlaps/Report.antt =====
-- `AnalyzeRuleOverlaps` of internal/planner/overlaps.go: the report, from the groups and their parents.
pub mod Mutual
use routevane.Common.{
  ℕ, ◌-◌, ◌+◌, Ordering, compare, Bool, true, false, ◌&&◌, ◌||◌, not, List, [], ◌∷◌, ◌++◌, map,
  Option, none, some, ltb, leb, ◌==◌, if◌then◌else◌, length, keep,
}
use mathlib.Core.List.{reverse}
use routevane.Common.Text.{Text, text_eq, text_compare}
use routevane.Common.Sort.{sort_by, compact_by}
use routevane.Common.Assoc.{Map, get, put, keys}
use routevane.Netip.{Addr, bit_len, is4, bits, masked, prefix_from}
use routevane.Netip.Print.{prefix_string}
use routevane.Domain.Kind.{
  RuleKind, domain_exact, domain_suffix, prefix4, prefix6, is_domain, is_prefix, kind_text,
}
use routevane.Domain.Rule.{RouteRule, rule_value, rule_is_valid}
use routevane.Domain.Plan.{stable_strings}
use routevane.Planner.Overlaps.{
  OverlapValue, OverlapKind, duplicate, covered, RuleOverlap, OverlapSummary, RuleOverlaps,
  OverlapGroup, overlap_key, rule_key, grouped, group_valid, Widths, widths_of, distinct_widths,
  order_widths, overlap_parents,
}

-- The groups in key order, each with its sorted lists.
abbrev or_nothing : Option OverlapGroup → List OverlapGroup
or_nothing none = []
or_nothing (some g) = g ∷ []

abbrev with_stable_lists : OverlapGroup → OverlapGroup
with_stable_lists g = record g { lists = stable_strings g.lists }

unfoldable pub groups_in_order : List Text → Map OverlapGroup → List OverlapGroup
groups_in_order [] m = []
groups_in_order (k ∷ ks) m = map with_stable_lists (or_nothing (get k m)) ++ groups_in_order ks m

abbrev entry_of : OverlapGroup → List Text → OverlapValue
entry_of g lists = record { rule_kind = g.rule.kind; value = rule_value g.rule; lists = lists }

-- Each pair of lists that overlap, both ways round.
abbrev Edges : Type 0
Edges = List (Text × Text)

abbrev is_blank : Text → Bool
is_blank [] = true
is_blank (c ∷ s) = false

abbrev add_edge : Text → Text → Edges → Edges
add_edge a b edges =
    if is_blank a || is_blank b || text_eq a b then edges else (a, b) ∷ (b, a) ∷ edges

abbrev add_edges : Text → List Text → Edges → Edges
add_edges a [] edges = edges
add_edges a (b ∷ bs) edges = add_edge a b (add_edges a bs edges)

unfoldable pub duplicate_edges : List Text → Edges → Edges
duplicate_edges [] edges = edges
duplicate_edges (a ∷ as') edges = add_edges a as' (duplicate_edges as' edges)

abbrev is_shared : List Text → Bool
is_shared [] = false
is_shared (a ∷ []) = false
is_shared (a ∷ b ∷ as') = true

unfoldable pub duplicates : List OverlapGroup → List RuleOverlap
duplicates [] = []
duplicates (g ∷ gs) =
    let rest = duplicates gs in
    if is_shared g.lists
    then record { kind = duplicate; entry = entry_of g g.lists; covering = none } ∷ rest
    else rest

-- The other lists of a parent.
abbrev other_owners : Text → List Text → List Text
other_owners list_id lists = keep (λ o. not (text_eq o list_id)) lists

unfoldable pub covered_by : OverlapGroup → OverlapGroup → List Text → List RuleOverlap
covered_by g parent [] = []
covered_by g parent (l ∷ ls) =
    let rest = covered_by g parent ls in
    let owners = other_owners l parent.lists in
    elim owners [
      | [] ↦ rest
      | o ∷ os ↦
          record {
            kind = covered;
            entry = entry_of g (l ∷ []);
            covering = some (entry_of parent (o ∷ os));
          }
          ∷ rest
    ]

unfoldable pub covered_edges : OverlapGroup → List Text → Edges → Edges
covered_edges parent [] edges = edges
covered_edges parent (l ∷ ls) edges =
    add_edges l (other_owners l parent.lists) (covered_edges parent ls edges)

-- The parents of a group that are in the plan.
unfoldable pub present_parents : List Text → Map OverlapGroup → List OverlapGroup
present_parents ks m = groups_in_order ks m

unfoldable pub covered_items : OverlapGroup → List OverlapGroup → List RuleOverlap
covered_items g [] = []
covered_items g (p ∷ ps) = covered_by g p g.lists ++ covered_items g ps

unfoldable pub all_covered : List OverlapGroup → Widths → Map OverlapGroup → List RuleOverlap
all_covered [] w m = []
all_covered (g ∷ gs) w m =
    covered_items g (present_parents (overlap_parents g.rule w) m) ++ all_covered gs w m

abbrev parent_edges : OverlapGroup → List OverlapGroup → Edges → Edges
parent_edges g [] edges = edges
parent_edges g (p ∷ ps) edges = covered_edges p g.lists (parent_edges g ps edges)

unfoldable pub all_edges : List OverlapGroup → Widths → Map OverlapGroup → Edges
all_edges [] w m = []
all_edges (g ∷ gs) w m =
    duplicate_edges g.lists
      (parent_edges g (present_parents (overlap_parents g.rule w) m) (all_edges gs w m))

abbrev neighbours : Text → Edges → List Text
neighbours a [] = []
neighbours a ((x, y) ∷ es) = if text_eq x a then y ∷ neighbours a es else neighbours a es

unfoldable pub summarize : List Text → Edges → List OverlapSummary
summarize [] edges = []
summarize (l ∷ ls) edges =
    record { list_id = l; overlaps = stable_strings (neighbours l edges) } ∷ summarize ls edges

abbrev take_items : ℕ → List RuleOverlap → List RuleOverlap
take_items n items = routevane.Common.take n items

abbrev owners_of : List OverlapGroup → List Text
owners_of [] = []
owners_of (g ∷ gs) = g.lists ++ owners_of gs

abbrev group_rules : List OverlapGroup → List RouteRule
group_rules [] = []
group_rules (g ∷ gs) = g.rule ∷ group_rules gs

-- At most `limit` details, the duplicates first.
unfoldable pub analyze_rule_overlaps : List RouteRule → ℕ → RuleOverlaps
analyze_rule_overlaps rules limit =
    let m = group_valid rules [] in
    let gs = groups_in_order (sort_by text_compare (keys m)) m in
    let w = order_widths (widths_of (group_rules gs)) in
    let items = duplicates gs ++ all_covered gs w m in
    record {
      items = take_items limit items;
      truncated = ltb limit (length items);
      summary = summarize (stable_strings (owners_of gs)) (all_edges gs w m);
    }
