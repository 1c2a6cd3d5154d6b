-- ===== src/Planner/Build/Judge.antt =====
-- The bodies of the two admission loops of `buildPlan`: a `continue` with an exclusion, a plain
-- `continue`, and the acceptance at the end of the body.
use routevane.Common.{
  ℕ, Bool, false, ◌&&◌, ◌||◌, not, List, [], ◌∷◌, ◌++◌, Option, none, some, if◌then◌else◌, any,
}
use routevane.Common.Text.{Text, text_eq}
use routevane.Common.Assoc.{Map, get, is_key}
use routevane.Domain.Result.{ok, err}
use routevane.Domain.Kind.{is_ip, is_prefix, is_domain, is_official, is_trusted}
use routevane.Domain.Rule.{RouteRule, no_rule, rule_value}
use routevane.Domain.Observation.{Sighting, is_fresh}
use routevane.Domain.Catalog.{ComponentDefinition, Seed, normalize_seed}
use routevane.Domain.Target.{TargetConstraints}
use routevane.Domain.Plan.{Excluded, Outcome, rejected, quarantined, stable_strings}
use routevane.Planner.Externals.{Externals}
use routevane.Planner.Reasons.{
  invalid_resource, operator_excluded, stale_observation, source_degraded,
  not_required_for_domain_capable_target, wide_network_expansion, shared_cdn_or_cloud,
  unsupported_by_target,
}
use routevane.Planner.Admission.{
  DegradedSource, admissible_value, supports_rule, admissible_under_grace, declared_network,
}
use routevane.Planner.Candidates.{provenance, seed_rule, sighting_rule, invalid_candidate}

pub record Options : Type 0 where
  pub keep_addresses_beside_names : Bool

-- What the loops read and do not change.
pub record Policy : Type 0 where
  pub list_id : Text
  pub components : Map ComponentDefinition
  pub excluded_values : List Text
  pub constraints : TargetConstraints
  pub cutoff : ℕ
  pub grace : Map DegradedSource
  pub options : Options

pub data Verdict : Type 0 where
  accept : RouteRule → Verdict
  exclude : Excluded → Verdict
  skip : Verdict

abbrev pub exclusion : RouteRule → Outcome → List Text → List Text → Excluded
exclusion candidate outcome reasons refs = record {
  candidate = candidate;
  outcome = outcome;
  reason_codes = reasons;
  provenance_refs = refs;
}

abbrev pub reject : RouteRule → Text → List Text → Verdict
reject candidate reason refs = exclude (exclusion candidate rejected (reason ∷ []) refs)

abbrev pub has_text : Text → List Text → Bool
has_text t ts = any (λ u. text_eq u t) ts

-- `noteDomainCoverage`
unfoldable pub note_coverage : RouteRule → List Text → List Text
note_coverage r sufficient = if is_domain r.kind then r.component_id ∷ sufficient else sufficient

unfoldable pub judge_seed_rule : Policy → Text → RouteRule → Verdict
judge_seed_rule p source_id rule = elim (admissible_value rule) [
  | some reason ↦ reject rule reason (provenance source_id)
  | none ↦
      if supports_rule rule.kind p.constraints
      then accept rule
      else reject rule unsupported_by_target (provenance source_id)
]

unfoldable pub judge_seed : Policy → Seed → Verdict
judge_seed p raw = elim (normalize_seed raw) [
  | err _ ↦ reject no_rule invalid_resource (raw.source_id ∷ [])
  | ok seed ↦
      if not (is_key seed.component_id p.components)
      then skip
      else elim (seed_rule seed p.list_id) [
        | err _ ↦ reject no_rule invalid_resource (seed.source_id ∷ [])
        | ok rule ↦ judge_seed_rule p seed.source_id rule
      ]
]

abbrev pub redundant_under_domains : Sighting → RouteRule → Bool
redundant_under_domains s c = is_ip c.kind || is_prefix c.kind && not (is_official s.source_class)

-- The sighting's class is the one it was stored with.
unfoldable pub is_redundant : Policy → List Text → Sighting → RouteRule → Bool
is_redundant p sufficient s c =
    not p.options.keep_addresses_beside_names
    && has_text c.component_id sufficient
    && redundant_under_domains s c
    && supports_rule c.kind p.constraints

abbrev pub network_reasons : Sighting → List Text
network_reasons s =
    wide_network_expansion
    ∷ (if is_trusted s.shared_network_evidence then shared_cdn_or_cloud ∷ [] else [])

-- The checks from the value on.
unfoldable pub judge_value : Policy → List Text → Sighting → RouteRule → Verdict
judge_value p sufficient s c = elim (admissible_value c) [
  | some reason ↦ reject c reason (provenance s.source_id)
  | none ↦
      if is_redundant p sufficient s c
      then reject c not_required_for_domain_capable_target (provenance s.source_id)
      else if is_prefix c.kind && not (declared_network s)
      then exclude (exclusion c quarantined (network_reasons s) (provenance s.source_id))
      else if not (supports_rule c.kind p.constraints)
      then reject c unsupported_by_target (provenance s.source_id)
      else accept c
]

abbrev pub window_end : Option DegradedSource → ℕ
window_end none = 0
window_end (some d) = d.grace_until

-- The rule expires with the grace window.
unfoldable pub degraded_rule : Map DegradedSource → Sighting → RouteRule → RouteRule
degraded_rule grace s c = record c {
  reason_codes = stable_strings (c.reason_codes ++ source_degraded ∷ []);
  expires_at = some (window_end (get s.source_id grace));
}

unfoldable pub judge_candidate : Policy → List Text → Sighting → RouteRule → Verdict
judge_candidate p sufficient s c =
    if has_text (rule_value c) p.excluded_values
    then reject c operator_excluded (provenance s.source_id)
    else if is_fresh s p.cutoff
    then judge_value p sufficient s c
    else if not (admissible_under_grace s p.grace)
    then reject c stale_observation (provenance s.source_id)
    else judge_value p sufficient s (degraded_rule p.grace s c)

abbrev pub is_foreign : Policy → Sighting → Bool
is_foreign p s = elim s.list_id [ [] ↦ false | _ ↦ not (text_eq s.list_id p.list_id) ]

module _ (x : Externals) where
  unfoldable pub judge_sighting : Policy → List Text → Sighting → Verdict
  judge_sighting p sufficient s =
      if is_foreign p s then skip else elim (sighting_rule x s p.list_id p.components) [
        | err _ ↦ reject (invalid_candidate s p.list_id) invalid_resource (provenance s.source_id)
        | ok c ↦ judge_candidate p sufficient s c
      ]
