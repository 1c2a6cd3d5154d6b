-- ===== src/Planner/Priority.antt =====
-- internal/planner/priority.go: equal and covered destinations go to the list that stands first.
pub mod Order
pub mod Keys
pub mod Groups
pub mod Drops
pub mod Union
pub mod Settled
pub mod Members
pub mod OneOwner
use routevane.Common.{
  ℕ, suc, compare, Bool, ◌&&◌, not, List, [], ◌∷◌, ◌++◌, Option, none, some, ltb, if◌then◌else◌,
  length, keep, any,
}
use routevane.Common.Text.{Text, text_eq, text_compare}
use routevane.Common.Order.{then_compare, is_lt}
use routevane.Common.Assoc.{Map, get, values}
use routevane.Domain.Rule.{RouteRule, rule_is_valid}
use routevane.Domain.Plan.{Excluded, rejected, RoutingPlan, stable_strings}
use routevane.Planner.Reasons.{lower_priority_overlap}
use routevane.Planner.Overlaps.{
  OverlapGroup, Widths, rule_key, group_valid, widths_of, order_widths, overlap_parents,
}

-- The first place of a list in the priority; one that is not named comes after all.
unfoldable pub position : List Text → Text → ℕ
position [] id = 0
position (p ∷ ps) id = if text_eq p id then 0 else suc (position ps id)

unfoldable pub better : List Text → Text → Text → Bool
better priority a b =
    is_lt (then_compare (compare (position priority a) (position priority b)) (text_compare a b))

unfoldable pub drop_key : RouteRule → Text → Text
drop_key r list_id = rule_key r ++ 0 ∷ list_id

unfoldable pub winner_from : List Text → Text → List Text → Text
winner_from priority winner [] = winner
winner_from priority winner (o ∷ os) =
    winner_from priority (if better priority o winner then o else winner) os

-- The owners of a group, but for the winner. One owner is the winner.
unfoldable pub losers : List Text → List Text → List Text
losers priority [] = []
losers priority (o ∷ os) = keep (λ p. not (text_eq p (winner_from priority o os))) (o ∷ os)

-- Some owner of the parent stands before this one.
unfoldable pub outranked : List Text → Text → List Text → Bool
outranked priority owner covering =
    any (λ c. not (text_eq owner c) && better priority c owner) covering

abbrev parent_lists : Option OverlapGroup → List Text
parent_lists none = []
parent_lists (some g) = stable_strings g.lists

unfoldable pub covered_owners : List Text → List Text → List Text → Map OverlapGroup → List Text
covered_owners priority owners [] m = []
covered_owners priority owners (k ∷ ks) m =
    keep (λ o. outranked priority o (parent_lists (get k m))) owners
    ++ covered_owners priority owners ks m

abbrev keys_for : RouteRule → List Text → List Text
keys_for r [] = []
keys_for r (o ∷ os) = drop_key r o ∷ keys_for r os

unfoldable pub group_drops : List Text → Widths → Map OverlapGroup → OverlapGroup → List Text
group_drops priority w m g =
    let owners = stable_strings g.lists in
    keys_for g.rule
      (losers priority owners ++ covered_owners priority owners (overlap_parents g.rule w) m)

unfoldable pub all_drops : List Text → Widths → Map OverlapGroup → List OverlapGroup → List Text
all_drops priority w m [] = []
all_drops priority w m (g ∷ gs) = group_drops priority w m g ++ all_drops priority w m gs

abbrev valid_rules : List RouteRule → List RouteRule
valid_rules rules = keep rule_is_valid rules

-- The `drop` set of the code.
unfoldable pub drops : List Text → List RouteRule → List Text
drops priority rules =
    let m = group_valid rules [] in
    all_drops priority (order_widths (widths_of (valid_rules rules))) m (values m)

abbrev is_dropped : List Text → RouteRule → Bool
is_dropped dropped r = any (λ k. text_eq k (drop_key r r.list_id)) dropped

abbrev lower_priority : RouteRule → Excluded
lower_priority r = record {
  candidate = r;
  outcome = rejected;
  reason_codes = lower_priority_overlap ∷ [];
  provenance_refs = r.provenance_refs;
}

abbrev exclusions : List RouteRule → List Excluded
exclusions [] = []
exclusions (r ∷ rs) = lower_priority r ∷ exclusions rs

abbrev split_plan : RoutingPlan → List Text → RoutingPlan
split_plan plan dropped = record plan {
  rules = keep (λ r. not (is_dropped dropped r)) plan.rules;
  excluded = plan.excluded ++ exclusions (keep (is_dropped dropped) plan.rules);
}

unfoldable pub apply_list_priority : RoutingPlan → List Text → RoutingPlan
apply_list_priority plan priority =
    if ltb (length plan.rules) 2 then plan else split_plan plan (drops priority plan.rules)
