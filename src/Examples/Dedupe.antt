-- ===== src/Examples/Dedupe.antt =====
-- The theorems on the merge of rules at concrete inputs.
use routevane.Common.{◌≡◌, ◌↔◌, refl, List, [], ◌∷◌, inl, In, All}
use routevane.Common.Text.{Text, codes}
use routevane.Common.Sort.{sort_by}
use routevane.Common.Assoc.{get, put}
use routevane.Netip.Print.{addr_string}
use routevane.Domain.Kind.{manual}
use routevane.Domain.Rule.{RouteRule, no_rule, candidate_key, rule_value}
use routevane.Planner.Dedupe.{dedupe_rules, add_rules, add_rule, sort_rules}
use routevane.Planner.Dedupe.Destinations.{
  Same, NotStronger, dedupe_strongest, dedupe_one_rule, dedupe_keeps_destinations,
}
use routevane.Examples.{public_addr, addr_rule}

-- An observed rule, and a manual one for the same address.
abbrev repeated_rules : List RouteRule
repeated_rules =
    addr_rule public_addr (codes "a")
    ∷ record (addr_rule public_addr (codes "a")) { source_class = manual }
    ∷ []

abbrev first_of : List RouteRule → RouteRule
first_of [] = no_rule
first_of (r ∷ rs) = r

abbrev merged : RouteRule
merged = first_of (dedupe_rules repeated_rules)

merged_is_there : In merged (dedupe_rules repeated_rules)
unfolding dedupe_rules add_rules add_rule sort_rules sort_by get put candidate_key rule_value
    addr_string
merged_is_there = inl refl

dedupe_strongest_example :
    ((r : RouteRule) × In r repeated_rules × Same merged r × (r.source_class ≡ merged.source_class))
    × All (NotStronger merged) repeated_rules
    × ((t : Text)
        → In t merged.reason_codes
          ↔ ((r : RouteRule) × In r repeated_rules × Same merged r × In t r.reason_codes))
dedupe_strongest_example = dedupe_strongest repeated_rules merged merged_is_there

dedupe_one_rule_example : merged ≡ merged
dedupe_one_rule_example =
    dedupe_one_rule repeated_rules merged merged merged_is_there merged_is_there refl

dedupe_keeps_destinations_example :
    (q : RouteRule) × In q (dedupe_rules repeated_rules)
    × Same q (addr_rule public_addr (codes "a"))
dedupe_keeps_destinations_example =
    dedupe_keeps_destinations repeated_rules (addr_rule public_addr (codes "a")) (inl refl)
