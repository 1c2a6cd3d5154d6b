-- ===== src/Application/Preflight.antt =====
-- internal/application/preflight.go, with the coverage error of internal/application/build_attempt.go.
-- An instant is a number of nanoseconds, and 0 is the zero time.
pub mod Accepted
use routevane.Common.{
  ℕ, Bool, true, false, ◌&&◌, ◌||◌, not, List, [], ◌∷◌, ◌++◌, Option, none, some, Ordering, ltb,
  leb, ◌==◌, if◌then◌else◌, any, all, take, keep, map, holds,
}
use routevane.Common.Order.{is_lt}
use routevane.Common.Text.{Text, codes, text_eq, text_compare, Text-discrete}
use routevane.Domain.Names.{validate_slug, is_empty}
use routevane.Domain.Kind.{
  RuleKind, RuleKind-discrete, domain_exact, domain_suffix, ipv4, ipv6, prefix4, prefix6,
  other_kind, kind_text, class_text,
}
use routevane.Domain.Rule.{RouteRule, rule_value, candidate_key, rule_is_valid, is_route}
use routevane.Domain.Target.{TargetConstraints, TargetDefinition}
use routevane.Domain.Plan.{Coverage, RoutingPlan, routing_plan_interface_version, stable_strings}
use routevane.Planner.Reasons.{policy_version}
use routevane.Planner.Canonical.{HashPayload, semantic_hash}

-- `Renderer.ProjectedRuleCount`: an error, a count below 0, or a count.
pub data Projection : Type 0 where
  projection_failed projection_negative : Projection
  projected : ℕ → Projection

-- The methods of a renderer that the check calls.
pub record Renderer : Type 0 where
  pub id : Text
  pub version : Text
  pub supported_rule_kinds : List RuleKind
  pub projected_rule_count : RoutingPlan → Projection

-- The titles of the lists of a coverage error are left out.
pub data PreflightError : Type 0 where
  identity list_set renderer_kinds target_incompatible_rule renderer_incompatible_rule :
      PreflightError
  stale_rule rule_metadata rule_order duplicate_rule : PreflightError
  invalid_coverage duplicate_coverage invalid_projection wrong_hash : PreflightError
  partial_coverage : List Text → PreflightError
  rule_limit : (projected maximum : ℕ) → PreflightError

abbrev pub kind_eq : RuleKind → RuleKind → Bool
kind_eq a b = holds (RuleKind-discrete a b)

-- `targetSupportsRule`
abbrev pub target_supports_rule : TargetConstraints → RuleKind → Bool
target_supports_rule c domain_exact = c.supports_domain_exact
target_supports_rule c domain_suffix = c.supports_domain_suffix
target_supports_rule c ipv4 = c.supports_ipv4
target_supports_rule c ipv6 = c.supports_ipv6
target_supports_rule c prefix4 = c.supports_prefixes && c.supports_ipv4
target_supports_rule c prefix6 = c.supports_prefixes && c.supports_ipv6
target_supports_rule c (other_kind t) = false

abbrev pub known_rule_kind : RuleKind → Bool
known_rule_kind (other_kind t) = false
known_rule_kind k = true

-- `ruleSortKey`
unfoldable pub rule_sort_key : RouteRule → Text
unfolding rule_value
rule_sort_key r =
    kind_text r.kind
    ++ 0
      ∷ (rule_value r ++ 0 ∷ (r.list_id ++ 0 ∷ (r.component_id ++ 0 ∷ class_text r.source_class)))

abbrev pub equal_strings : List Text → List Text → Bool
equal_strings [] [] = true
equal_strings (s ∷ ss) (t ∷ ts) = text_eq s t && equal_strings ss ts
equal_strings _ _ = false

-- `canonicalStrings`
unfoldable pub canonical_strings : List Text → Bool
unfolding stable_strings Text-discrete
canonical_strings values = equal_strings values (stable_strings values)

abbrev pub text_before : Text → Text → Bool
text_before s t = is_lt (text_compare s t)

abbrev pub after_prior : Option Text → Text → Bool
after_prior none s = true
after_prior (some prior) s = text_before prior s

unfoldable pub lists_ascend : Option Text → List Text → Bool
unfolding validate_slug text_compare
lists_ascend prior [] = true
lists_ascend prior (l ∷ ls) = validate_slug l && after_prior prior l && lists_ascend (some l) ls

unfoldable pub kinds_valid : List RuleKind → List RuleKind → Bool
unfolding RuleKind-discrete
kinds_valid seen [] = true
kinds_valid seen (k ∷ ks) =
    known_rule_kind k && not (any (kind_eq k) seen) && kinds_valid (k ∷ seen) ks

abbrev pub is_nonempty : {A : Type 0} → List A → Bool
is_nonempty [] = false
is_nonempty (x ∷ xs) = true

abbrev pub is_expired : ℕ → Option ℕ → Bool
is_expired cutoff none = false
is_expired cutoff (some t) = leb t cutoff

abbrev pub first_error : Option PreflightError → Option PreflightError → Option PreflightError
first_error none rest = rest
first_error (some e) rest = some e

abbrev pub error_if : Bool → PreflightError → Option PreflightError
error_if bad e = if bad then some e else none

module _ (plan : RoutingPlan) (target : TargetDefinition) (renderer : Renderer) (cutoff : ℕ) where
  unfoldable pub identity_holds : Bool
  unfolding validate_slug Text-discrete
  identity_holds =
      ltb 0 cutoff
      && text_eq plan.interface_version routing_plan_interface_version
      && text_eq plan.policy_version policy_version
      && text_eq plan.target_id target.id
      && text_eq plan.format_key target.format_key
      && ltb 0 plan.observation_cutoff
      && plan.observation_cutoff == cutoff
      && validate_slug target.id
      && validate_slug target.format_key
      && validate_slug target.renderer_id
      && text_eq renderer.id target.renderer_id
      && text_eq renderer.version target.format_key

  -- The checks of one rule that do not look at the others.
  unfoldable pub check_rule : RouteRule → Option PreflightError
  unfolding rule_is_valid canonical_strings RuleKind-discrete Text-discrete
  check_rule r =
      if not (
        rule_is_valid r
        && is_route r.action
        && any (text_eq r.list_id) plan.lists
        && target_supports_rule target.constraints r.kind)
      then some target_incompatible_rule
      else if not (any (kind_eq r.kind) renderer.supported_rule_kinds)
      then some renderer_incompatible_rule
      else if is_expired cutoff r.expires_at
      then some stale_rule
      else if not (
          canonical_strings r.labels
          && canonical_strings r.reason_codes
          && canonical_strings r.provenance_refs)
      then some rule_metadata
      else none

  abbrev pub check_position : Option Text → List Text → RouteRule → Option PreflightError
  check_position prior seen r =
      if not (after_prior prior (rule_sort_key r))
      then some rule_order
      else error_if (any (text_eq (candidate_key r)) seen) duplicate_rule

  -- The key of the rule before, and the candidates seen.
  unfoldable pub check_rules : Option Text → List Text → List RouteRule → Option PreflightError
  unfolding check_rule rule_sort_key candidate_key text_compare Text-discrete
  check_rules prior seen [] = none
  check_rules prior seen (r ∷ rs) = first_error (check_rule r) (
      first_error (check_position prior seen r)
        (check_rules (some (rule_sort_key r)) (candidate_key r ∷ seen) rs))

abbrev pub is_open : Coverage → Bool
is_open c = not c.complete

abbrev pub max_uncovered_lists : ℕ
max_uncovered_lists = 256

-- `uncoveredFromCoverage`
unfoldable pub uncovered_from_coverage : List Coverage → PreflightError
unfolding stable_strings
uncovered_from_coverage coverage =
    partial_coverage
      (take max_uncovered_lists (stable_strings (map (λ c. c.list_id) (keep is_open coverage))))

abbrev pub coverage_key : Coverage → Text
coverage_key c = c.list_id ++ 0 ∷ c.component_id

unfoldable pub check_coverage : List Coverage → List Text → List Coverage → Option PreflightError
unfolding validate_slug Text-discrete uncovered_from_coverage
check_coverage all_of seen [] = none
check_coverage all_of seen (c ∷ cs) =
    let rest = check_coverage all_of (coverage_key c ∷ seen) cs in
    if not (validate_slug c.list_id && validate_slug c.component_id)
    then some invalid_coverage
    else if any (text_eq (coverage_key c)) seen
    then some duplicate_coverage
    else if is_open c
    then some (uncovered_from_coverage all_of)
    else rest

-- A limit of 0 is no limit.
unfoldable pub check_projection : Bool → ℕ → Projection → Option PreflightError
check_projection enforce maximum projection_failed = some invalid_projection
check_projection enforce maximum projection_negative = some invalid_projection
check_projection enforce maximum (projected n) =
    error_if (enforce && ltb 0 maximum && ltb maximum n) (rule_limit n maximum)

module _ (sha256_hex : Text → Text) (digest : HashPayload → Text) where
  unfoldable pub check_hash : RoutingPlan → TargetDefinition → Option PreflightError
  unfolding semantic_hash Text-discrete
  check_hash plan target =
      error_if
        (is_empty plan.semantic_hash
          || not (text_eq plan.semantic_hash (semantic_hash sha256_hex digest plan target)))
        wrong_hash

  -- `preflightPlan`; none for a nil error.
  unfoldable pub preflight_plan :
      RoutingPlan → TargetDefinition → Option Renderer → ℕ → Bool → Option PreflightError
  unfolding identity_holds lists_ascend kinds_valid check_rules check_coverage check_projection
      check_hash
  preflight_plan plan target none cutoff enforce = some identity
  preflight_plan plan target (some r) cutoff enforce =
      first_error (error_if (not (identity_holds plan target r cutoff)) identity) (
        first_error
          (error_if (not (is_nonempty plan.lists && lists_ascend none plan.lists)) list_set)
          (first_error
            (error_if
              (not (kinds_valid [] r.supported_rule_kinds && is_nonempty r.supported_rule_kinds))
              renderer_kinds)
            (first_error (check_rules plan target r cutoff none [] plan.rules) (
              first_error (check_coverage plan.coverage [] plan.coverage) (
                first_error
                  (check_projection enforce target.constraints.max_rules
                    (r.projected_rule_count plan))
                  (check_hash plan target))))))

  -- `PreflightPlan`
  unfoldable pub preflight :
      RoutingPlan → TargetDefinition → Option Renderer → ℕ → Option PreflightError
  unfolding preflight_plan
  preflight plan target renderer cutoff = preflight_plan plan target renderer cutoff true
