-- ===== src/Examples/Overlaps.antt =====
-- The theorem on the report of overlaps at a concrete input.
use routevane.Common.{◌≢◌, refl, List, [], ◌∷◌, inl, In}
use routevane.Common.Text.{codes, text_compare, Text-discrete}
use routevane.Common.Sort.{sort_by, compact_by}
use routevane.Common.Assoc.{get, put}
use routevane.Netip.Print.{addr_string, prefix_string}
use routevane.Domain.Names.{validate_slug}
use routevane.Domain.Rule.{RouteRule, rule_is_valid, rule_value}
use routevane.Domain.Plan.{stable_strings}
use routevane.Planner.Overlaps.{
  OverlapSummary, group_valid, rule_key, overlap_key, overlap_parents, network_parents, network_key,
  distinct_widths, widths_of,
}
use routevane.Planner.Overlaps.Report.{
  analyze_rule_overlaps, summarize, all_edges, duplicate_edges, covered_edges, groups_in_order,
  present_parents,
}
use routevane.Planner.Overlaps.Report.Mutual.{overlaps_mutual, NamesBack}
use routevane.Examples.{public_addr, addr_rule}

abbrev two_lists : List RouteRule
two_lists = addr_rule public_addr (codes "a") ∷ addr_rule public_addr (codes "b") ∷ []

abbrev of_a : OverlapSummary
of_a = record { list_id = codes "a"; overlaps = codes "b" ∷ [] }

a_is_reported : In of_a (analyze_rule_overlaps two_lists 10).summary
unfolding analyze_rule_overlaps summarize all_edges duplicate_edges covered_edges groups_in_order
    present_parents group_valid rule_key overlap_key overlap_parents network_parents network_key
    distinct_widths widths_of rule_is_valid validate_slug rule_value addr_string prefix_string
    stable_strings sort_by compact_by text_compare Text-discrete get put
a_is_reported = inl refl

overlaps_mutual_example :
    NamesBack (analyze_rule_overlaps two_lists 10).summary of_a (codes "b")
    × (of_a.list_id ≢ codes "b")
overlaps_mutual_example = overlaps_mutual two_lists 10 of_a (codes "b") a_is_reported (inl refl)
