-- ===== src/Examples/Priority.antt =====
-- The theorems on list priority at concrete inputs.
use routevane.Netip.Print.{addr_string, prefix_string}
use routevane.Domain.Kind.{manual, domain_suffix}
use routevane.Netip.{Prefix, contains}
use routevane.Common.{◌≡◌, refl, true, List, [], ◌∷◌, inl, inr, In, length, All, ◌+◌, arith}
use routevane.Common.Text.{Text, codes, text_compare, Text-discrete}
use routevane.Domain.Names.{validate_slug}
use routevane.Domain.Rule.{RouteRule, rule_is_valid, rule_value, owned_rule}
use routevane.Domain.Plan.{RoutingPlan, routing_plan_interface_version, stable_strings}
use routevane.Common.Sort.{sort_by, compact_by}
use routevane.Common.Assoc.{get, put}
use routevane.Planner.Overlaps.{
  Widths, group_valid, rule_key, overlap_key, overlap_parents, network_parents, network_key,
  network_kind, distinct_widths, widths_of, domain_parents, ancestors,
}
use routevane.Planner.Overlaps.Parents.{parents_cover_addresses}
use routevane.Planner.Priority.{
  apply_list_priority, drops, all_drops, group_drops, losers, winner_from, better, position,
  covered_owners, drop_key, outranked,
}
use routevane.Planner.Priority.OneOwner.{priority_one_owner}
use routevane.Planner.Priority.Union.{RoutedBy, priority_keeps_destinations}
use routevane.Planner.Priority.Settled.{IsSettled, priority_settles_rules}
use routevane.Examples.{public_addr, public_prefix, addr_rule, prefix_rule}

-- An address of one list, the same of another, and a network over both.
abbrev shared_rules : List RouteRule
shared_rules =
    addr_rule public_addr (codes "a")
    ∷ addr_rule public_addr (codes "b")
    ∷ prefix_rule public_prefix (codes "b")
    ∷ []

abbrev shared_plan : RoutingPlan
shared_plan = record {
  interface_version = routing_plan_interface_version;
  target_id = codes "raw";
  format_key = codes "raw";
  lists = codes "a" ∷ codes "b" ∷ [];
  rules = shared_rules;
  excluded = [];
  warnings = [];
  coverage = [];
  relations = [];
  sightings = [];
  policy_version = [];
  catalog_revision = codes "r1";
  observation_cutoff = 50;
  semantic_hash = [];
}

abbrev priority : List Text
priority = codes "b" ∷ codes "a" ∷ []

first_is_valid : rule_is_valid (addr_rule public_addr (codes "a")) ≡ true
unfolding rule_is_valid validate_slug
first_is_valid = refl

priority_keeps_destinations_example :
    (q : RouteRule) × In q (apply_list_priority shared_plan priority).rules
    × RoutedBy priority (addr_rule public_addr (codes "a")) q
priority_keeps_destinations_example =
    priority_keeps_destinations shared_plan priority (addr_rule public_addr (codes "a")) (inl refl)
      first_is_valid

priority_settles_rules_example :
    All
      (IsSettled
        (apply_list_priority shared_plan priority).rules
        (apply_list_priority shared_plan priority).excluded)
      shared_rules
    × (length (apply_list_priority shared_plan priority).rules
          + length (apply_list_priority shared_plan priority).excluded
        ≡ 3 + 0)
priority_settles_rules_example = priority_settles_rules shared_plan priority

-- Two rules of one list for an address, and one of another list.
abbrev doubled_rules : List RouteRule
doubled_rules =
    addr_rule public_addr (codes "a")
    ∷ addr_rule public_addr (codes "b")
    ∷ record (addr_rule public_addr (codes "b")) { component_id = codes "media" }
    ∷ []

abbrev doubled_plan : RoutingPlan
doubled_plan = record shared_plan { rules = doubled_rules }

abbrev media_rule : RouteRule
media_rule = record (addr_rule public_addr (codes "b")) { component_id = codes "media" }

kept_first :
    In (addr_rule public_addr (codes "b")) (apply_list_priority doubled_plan priority).rules
unfolding apply_list_priority drops all_drops group_drops losers winner_from better position
    covered_owners drop_key group_valid rule_is_valid validate_slug rule_key overlap_key rule_value
    addr_string get put overlap_parents network_parents network_key distinct_widths widths_of
    outranked stable_strings sort_by compact_by text_compare Text-discrete
kept_first = inl refl

kept_second : In media_rule (apply_list_priority doubled_plan priority).rules
unfolding apply_list_priority drops all_drops group_drops losers winner_from better position
    covered_owners drop_key group_valid rule_is_valid validate_slug rule_key overlap_key rule_value
    addr_string get put overlap_parents network_parents network_key distinct_widths widths_of
    outranked stable_strings sort_by compact_by text_compare Text-discrete
kept_second = inr (inl refl)

second_is_valid : rule_is_valid (addr_rule public_addr (codes "b")) ≡ true
unfolding rule_is_valid validate_slug
second_is_valid = refl

media_is_valid : rule_is_valid media_rule ≡ true
unfolding rule_is_valid validate_slug
media_is_valid = refl

same_destination : rule_key (addr_rule public_addr (codes "b")) ≡ rule_key media_rule
unfolding rule_key rule_value
same_destination = refl

priority_one_owner_example : codes "b" ≡ codes "b"
priority_one_owner_example =
    priority_one_owner doubled_plan priority (addr_rule public_addr (codes "b")) media_rule refl
      kept_first kept_second second_is_valid media_is_valid same_destination

abbrev mail_rule : RouteRule
mail_rule = record (owned_rule (codes "a") (codes "web") manual [] []) {
  kind = domain_suffix;
  domain = codes "mail.a.io";
}

abbrev one_width : Widths
one_width = record { of4 = 16 ∷ []; of6 = [] }

mail_parent : In (overlap_key domain_suffix (codes "a.io")) (overlap_parents mail_rule one_width)
unfolding overlap_parents domain_parents ancestors
mail_parent = inl refl

address_parent :
    In (network_key public_addr 16) (overlap_parents (addr_rule public_addr (codes "a")) one_width)
unfolding overlap_parents network_parents
address_parent = inl refl

parents_cover_addresses_example :
    (p : Prefix) × (network_key public_addr 16
      ≡ overlap_key (network_kind p.addr) (prefix_string p))
    × (contains p public_addr ≡ true)
parents_cover_addresses_example =
    parents_cover_addresses (addr_rule public_addr (codes "a")) one_width
      (network_key public_addr 16) public_addr refl refl refl (omega arith) (inl (refl, refl))
      address_parent
