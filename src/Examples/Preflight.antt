-- ===== src/Examples/Preflight.antt =====
-- The preflight at a concrete plan.
use routevane.Common.{◌≡◌, refl, true, [], ◌∷◌, none, some}
use routevane.Common.Text.{codes}
use routevane.Common.Sort.{sort_by, compact_by}
use routevane.Domain.Kind.{ipv4}
use routevane.Domain.Plan.{RoutingPlan, routing_plan_interface_version}
use routevane.Planner.Reasons.{policy_version}
use routevane.Application.Preflight.{Renderer, projected, preflight_plan}
use routevane.Application.Preflight.Accepted.{preflight_plan-Accepted, Accepted}
use routevane.Examples.{target, addr_rule, public_addr}

abbrev renderer : Renderer
renderer = record {
  id = codes "raw";
  version = codes "raw";
  supported_rule_kinds = ipv4 ∷ [];
  projected_rule_count = λ p. projected 1;
}

abbrev plan : RoutingPlan
plan = record {
  interface_version = routing_plan_interface_version;
  target_id = codes "raw";
  format_key = codes "raw";
  lists = codes "a" ∷ [];
  rules = addr_rule public_addr (codes "a") ∷ [];
  excluded = [];
  warnings = [];
  coverage =
      record { list_id = codes "a"; component_id = codes "web"; complete = true; rule_count = 1 }
      ∷ [];
  relations = [];
  sightings = [];
  policy_version = policy_version;
  catalog_revision = codes "r";
  observation_cutoff = 7;
  semantic_hash = codes "h";
}

passes : preflight_plan (λ s. s) (λ p. codes "h") plan target (some renderer) 7 true ≡ none
unfolding preflight_plan compact_by sort_by
passes = refl

preflight_plan-Accepted_example : Accepted (λ s. s) (λ p. codes "h") plan target renderer 7 true
preflight_plan-Accepted_example =
    preflight_plan-Accepted (λ s. s) (λ p. codes "h") plan target renderer 7 true passes
