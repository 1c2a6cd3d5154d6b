-- ===== src/Examples/Planner.antt =====
-- The theorems on the planner at concrete inputs.
use routevane.Common.{
  ◌+◌, ◌≤◌, ◌≡◌, ◌≢◌, refl, true, false, List, [], ◌∷◌, none, some, inl, ◌⊎◌, In, All, length, Bool,
}
use routevane.Common.Text.{Text, codes, text_compare, Text-discrete}
use routevane.Common.Assoc.{is_key, get, put}
use routevane.Common.Sort.{sort_by}
use routevane.Netip.{v4, overlaps, Addr-discrete, Prefix-discrete, bits}
use routevane.Netip.Print.{addr_string}
use routevane.Netpolicy.{routable_destination, routable_prefix}
use routevane.Domain.Kind.{is_domain, manual, domain_suffix}
use routevane.Domain.Names.{
  validate_slug, normalize_domain, trim_dot, to_lower, domain_is_valid, split_dots,
}
use routevane.Domain.Resource.{resource_is_valid, domain_is_normal, resource_value}
use routevane.Domain.Rule.{RouteRule, new_domain_rule, new_addr_rule, rule_value, owned_rule}
use routevane.Domain.Catalog.{Seed, normalize_seed}
use routevane.Domain.Observation.{Sighting, is_fresh, fingerprint}
use routevane.Domain.Plan.{RoutingPlan, routing_plan_interface_version}
use routevane.Planner.Admission.{
  routable_value, admissible_value, supports_rule, admission_order, width_bound, open_windows,
}
use routevane.Planner.Admission.Routable.{admissible_network}
use routevane.Planner.Candidates.{sighting_rule, component_or_web, seed_rule, provenance}
use routevane.Planner.Canonical.{
  canonical_sightings, sighting_key, add_sightings, canonicalize_plan,
}
use routevane.Planner.Build.Judge.{
  Options, accept, judge_seed, judge_seed_rule, judge_value, judge_candidate, judge_sighting,
  is_redundant, redundant_under_domains, note_coverage,
}
use routevane.Planner.Build.Admitted.{IsTaken, judge_sighting_accept}
use routevane.Planner.Build.Account.{
  own_sightings, Limited, sightings_accounted, limit_rules-Limited,
}
use routevane.Planner.Build.Loops.{names_replace_addresses}
use routevane.Planner.Build.{
  build_plan, component_map, draft_plan, finish_plan, reduce_rules, record_verdict, empty_intake,
  admit_seeds, admit_sightings, intake_of, limit_rules, ListInput,
}
use routevane.Planner.Build.Summary.{
  build_coverage, build_warnings, count_rules, missing_warnings, coverage_of, coverage_rows,
}
use routevane.Planner.Dedupe.{dedupe_rules, add_rules, add_rule, sort_rules, compare_rules}
use routevane.Planner.Collapse.{collapse_observed, collapse_groups, group_rules}
use routevane.Planner.PlanSet.{
  SetResult, planned, refused, check_plan, build_plan_set, check_identities, combine_lists,
  required_coverage_error, combine,
}
use routevane.Planner.PlanSet.Checks.{Checked, WithinLimit, check_plan-Checked}
use routevane.Planner.PlanSet.Covered.{Requires, HasRuleFor, build_plan_set-Covered}
use routevane.Examples.{
  externals, name_seen, addr_seen, public_addr, public_prefix, target, web_input, web_policy,
  addr_rule, prefix_rule,
}

abbrev network_rule : RouteRule
network_rule = prefix_rule public_prefix (codes "l")

network_is_admissible : admissible_value network_rule ≡ none
unfolding admissible_value routable_value routable_destination routable_prefix overlaps
    Addr-discrete Prefix-discrete
network_is_admissible = refl

admissible_network_example :
    (routable_destination public_addr ≡ true) × (width_bound public_prefix ≤ bits public_prefix)
admissible_network_example =
    admissible_network network_rule public_addr refl refl refl network_is_admissible refl

sightings_accounted_example :
    length (admit_sightings externals web_policy (name_seen ∷ addr_seen ∷ []) empty_intake).accepted
      + length
          (admit_sightings externals web_policy (name_seen ∷ addr_seen ∷ []) empty_intake).excluded
    ≡ 0 + 0 + own_sightings web_policy (name_seen ∷ addr_seen ∷ [])
sightings_accounted_example =
    sightings_accounted externals web_policy (name_seen ∷ addr_seen ∷ []) empty_intake

abbrev three_rules : List RouteRule
three_rules =
    addr_rule (v4 3) (codes "l") ∷ addr_rule (v4 1) (codes "l") ∷ addr_rule (v4 2) (codes "l") ∷ []

limit_rules-Limited_example : Limited 2 three_rules (limit_rules 2 three_rules)
limit_rules-Limited_example = limit_rules-Limited 2 three_rules

abbrev small_plan : RoutingPlan
small_plan = record {
  interface_version = routing_plan_interface_version;
  target_id = codes "raw";
  format_key = codes "raw";
  lists = codes "l" ∷ [];
  rules = three_rules;
  excluded = [];
  warnings = [];
  coverage =
      record { list_id = codes "l"; component_id = codes "web"; complete = false; rule_count = 0 }
      ∷ [];
  relations = [];
  sightings = [];
  policy_version = [];
  catalog_revision = codes "r1";
  observation_cutoff = 50;
  semantic_hash = [];
}

check_plan-Checked_example : Checked target small_plan (check_plan target small_plan)
check_plan-Checked_example = check_plan-Checked target small_plan

abbrev name_rule : RouteRule
name_rule =
    record (owned_rule (codes "l") (codes "web") name_seen.source_class
      (codes "fresh_dns_observation" ∷ []) (codes "dns" ∷ [])) {
        kind = domain_suffix;
        domain = codes "a.io";
        expires_at = some 100;
      }

name_is_accepted : judge_sighting externals web_policy [] name_seen ≡ accept name_rule
unfolding judge_sighting judge_candidate judge_value is_redundant is_fresh resource_is_valid
    domain_is_normal normalize_domain trim_dot to_lower domain_is_valid split_dots Text-discrete
    new_domain_rule rule_value admissible_value routable_value supports_rule sighting_rule
    component_or_web provenance is_key get
name_is_accepted = refl

judge_sighting_accept_example : IsTaken web_policy [] name_seen name_rule
judge_sighting_accept_example =
    judge_sighting_accept externals web_policy [] name_seen name_rule name_is_accepted

abbrev both_input : ListInput
both_input = web_input (addr_seen ∷ name_seen ∷ [])

name_is_taken : In name_rule (intake_of externals web_policy both_input).accepted
unfolding judge_sighting judge_candidate judge_value is_redundant is_fresh resource_is_valid
    domain_is_normal normalize_domain trim_dot to_lower domain_is_valid split_dots Text-discrete
    new_domain_rule rule_value admissible_value routable_value supports_rule sighting_rule
    component_or_web provenance intake_of admit_seeds admit_sightings record_verdict note_coverage
    canonical_sightings add_sightings sighting_key admission_order sort_by text_compare
    resource_value addr_string fingerprint routable_destination new_addr_rule is_key get put
name_is_taken = inl refl

names_replace_addresses_example :
    In name_rule (admit_seeds externals web_policy [] empty_intake).accepted
    ⊎ ((s : Sighting) × (names : List Text) × In s
          (canonical_sightings externals.sha256_hex both_input.sightings)
        × IsTaken web_policy names s name_rule
        × ((redundant_under_domains s name_rule ≡ false)
            ⊎ All
                (λ n. (is_domain n.kind ≡ false) ⊎ (n.component_id ≢ name_rule.component_id))
                (intake_of externals web_policy both_input).accepted))
names_replace_addresses_example =
    names_replace_addresses externals web_policy both_input name_rule refl name_is_taken

abbrev name_seed : Seed
name_seed = record {
  kind = domain_suffix;
  value = codes "A.io.";
  component_id = codes "web";
  source_id = [];
  source_class = manual;
}

abbrev seeded_rule : RouteRule
seeded_rule =
    record (owned_rule (codes "l") (codes "web") manual (codes "manual_rule" ∷ [])
      (codes "seed:a.io" ∷ [])) { kind = domain_suffix; domain = codes "a.io" }

seed_is_accepted : judge_seed web_policy name_seed ≡ accept seeded_rule
unfolding judge_seed judge_seed_rule normalize_seed seed_rule provenance normalize_domain trim_dot
    to_lower domain_is_valid split_dots new_domain_rule admissible_value routable_value
    supports_rule is_key get Text-discrete
seed_is_accepted = refl

abbrev options : Options
options = record { keep_addresses_beside_names = false }

-- The plan of an answer, or the small plan for a refusal.
abbrev plan_of : SetResult → RoutingPlan
plan_of (planned q) = q
plan_of (refused e) = small_plan

abbrev set_result : SetResult
set_result = build_plan_set externals (λ d. []) (web_input (name_seen ∷ []) ∷ []) target 50 options

abbrev is_planned : SetResult → Bool
is_planned (planned q) = true
is_planned (refused e) = false

planned_plan : (r : SetResult) → is_planned r ≡ true → r ≡ planned (plan_of r)
planned_plan (planned q) h = refl
planned_plan (refused e) h = cc

set_passes : is_planned set_result ≡ true
unfolding judge_sighting judge_candidate judge_value is_redundant is_fresh resource_is_valid
    domain_is_normal normalize_domain trim_dot to_lower domain_is_valid split_dots Text-discrete
    new_domain_rule rule_value admissible_value routable_value supports_rule sighting_rule
    component_or_web provenance intake_of admit_seeds admit_sightings record_verdict note_coverage
    canonical_sightings add_sightings sighting_key admission_order sort_by text_compare
    resource_value addr_string fingerprint routable_destination new_addr_rule is_key get put
    build_plan_set check_identities validate_slug combine_lists build_plan component_map draft_plan
    finish_plan check_plan required_coverage_error combine canonicalize_plan limit_rules
    reduce_rules build_coverage build_warnings count_rules missing_warnings coverage_of
    coverage_rows dedupe_rules add_rules add_rule collapse_observed open_windows sort_rules
    compare_rules collapse_groups group_rules
set_passes = refl

set_is_planned : set_result ≡ planned (plan_of set_result)
set_is_planned = planned_plan set_result set_passes

web_is_required : Requires (web_input (name_seen ∷ [])).definition.components (codes "web")
web_is_required = record {
  before = [];
  component = record { id = codes "web"; required = true };
  after = [];
  parts = refl;
  named = refl;
  not_empty = λ e. cc;
  required = refl;
  last = λ d i. absurd i;
}

build_plan_set-Covered_example :
    HasRuleFor (plan_of set_result).rules (codes "l") (codes "web")
    × WithinLimit target (plan_of set_result)
build_plan_set-Covered_example =
    build_plan_set-Covered externals (λ d. []) target 50 options (web_input (name_seen ∷ []) ∷ [])
      (plan_of set_result) (web_input (name_seen ∷ [])) (codes "web") set_is_planned (inl refl)
      web_is_required
