-- ===== src/Planner/Build.antt =====
-- `buildPlan` of internal/planner/build_plan.go: the admission of seeds and sightings of one list,
-- the reduction, the rule limit, and the plan.
pub mod Judge
pub mod Admitted
pub mod Noted
pub mod Loops
pub mod Account
pub mod Summary
use routevane.Common.{
  ℕ, Bool, true, false, ◌&&◌, ◌||◌, not, List, [], ◌∷◌, ◌++◌, Option, none, some, ltb, ◌==◌,
  if◌then◌else◌, length, take, drop,
}
use routevane.Common.Text.{Text, codes}
use routevane.Common.Assoc.{Map, put}
use routevane.Domain.Result.{
  Error, Result, ok, err, ◌>>=◌, no_list_id, no_target_id, zero_cutoff, no_components,
}
use routevane.Domain.Rule.{RouteRule}
use routevane.Domain.Observation.{Sighting, Relation}
use routevane.Domain.Catalog.{ComponentDefinition, Seed, ListDefinition}
use routevane.Domain.Target.{TargetConstraints, TargetDefinition}
use routevane.Domain.Plan.{Excluded, quarantined, RoutingPlan, routing_plan_interface_version}
use routevane.Planner.Externals.{Externals}
use routevane.Planner.Reasons.{policy_version, rule_limit_exceeded}
use routevane.Planner.Admission.{DegradedSource, open_windows, admission_order}
use routevane.Planner.Dedupe.{sort_rules, dedupe_rules}
use routevane.Planner.Collapse.{collapse_observed}
use routevane.Planner.Canonical.{
  HashPayload, canonical_sightings, canonical_relations, canonicalize_plan, semantic_hash,
}
use Judge.{
  Verdict, accept, exclude, skip, Options, Policy, judge_seed, judge_sighting, exclusion,
  note_coverage,
}
use Summary.{build_warnings, build_coverage}

-- One list's observations at the cutoff.
pub record ListInput : Type 0 where
  pub definition : ListDefinition
  pub sightings : List Sighting
  pub relations : List Relation
  pub degraded : List DegradedSource

-- What the loops have accepted and excluded, and the components that a name covers.
pub record Intake : Type 0 where
  pub accepted : List RouteRule
  pub excluded : List Excluded
  pub sufficient : List Text

abbrev pub empty_intake : Intake
empty_intake = record { accepted = []; excluded = []; sufficient = [] }

-- A rule covers its component by name as soon as it is accepted.
unfoldable pub record_verdict : Intake → Verdict → Intake
record_verdict i (accept r) = record i {
  accepted = i.accepted ++ r ∷ [];
  sufficient = note_coverage r i.sufficient;
}
record_verdict i (exclude e) = record i { excluded = i.excluded ++ e ∷ [] }
record_verdict i skip = i

-- A component with no id is left out, and of equal ids the last counts.
unfoldable pub component_map :
    List ComponentDefinition → Map ComponentDefinition → Map ComponentDefinition
component_map [] m = m
component_map (c ∷ cs) m = component_map cs (elim c.id [ [] ↦ m | _ ↦ put c.id c m ])

abbrev or_id : Text → Text → Text
or_id [] id = id
or_id (c ∷ s) id = c ∷ s

abbrev pub is_empty : Text → Bool
is_empty [] = true
is_empty (c ∷ s) = false

abbrev pub no_entries {ℓ} : {A : Type ℓ} → List A → Bool
no_entries [] = true
no_entries (x ∷ xs) = false

unfoldable pub limit_exclusions : List RouteRule → List Excluded
limit_exclusions [] = []
limit_exclusions (r ∷ rs) =
    exclusion r quarantined (rule_limit_exceeded ∷ []) r.provenance_refs ∷ limit_exclusions rs

-- The first `n` rules in canonical order, and an exclusion of each other one; 0 is no limit.
unfoldable pub limit_rules : ℕ → List RouteRule → List RouteRule × List Excluded
limit_rules n rules =
    if ltb 0 n && ltb n (length rules)
    then (take n (sort_rules rules), limit_exclusions (drop n (sort_rules rules)))
    else (rules, [])

module _ (x : Externals) where
  unfoldable pub admit_seeds : Policy → List Seed → Intake → Intake
  admit_seeds p [] i = i
  admit_seeds p (s ∷ ss) i = admit_seeds p ss (record_verdict i (judge_seed p s))

  unfoldable pub admit_sightings : Policy → List Sighting → Intake → Intake
  admit_sightings p [] i = i
  admit_sightings p (s ∷ ss) i =
      admit_sightings p ss (record_verdict i (judge_sighting x p i.sufficient s))

  -- The prefixes are collapsed only for a target that takes prefixes.
  unfoldable pub reduce_rules : TargetConstraints → List RouteRule → List RouteRule
  reduce_rules c rules =
      dedupe_rules (
        if c.supports_prefixes
        then collapse_observed x (dedupe_rules rules)
        else dedupe_rules rules)

  abbrev policy_of : ListInput → TargetDefinition → ℕ → Options → Policy
  policy_of input target cutoff options = record {
    list_id = input.definition.id;
    components = component_map input.definition.components [];
    excluded_values = input.definition.excluded_values;
    constraints = target.constraints;
    cutoff = cutoff;
    grace = open_windows input.degraded cutoff [];
    options = options;
  }

  unfoldable pub intake_of : Policy → ListInput → Intake
  intake_of p input =
      admit_sightings p (admission_order (canonical_sightings x.sha256_hex input.sightings))
        (admit_seeds p input.definition.seeds empty_intake)

  -- The plan before its order is made canonical.
  unfoldable pub draft_plan : ListInput → TargetDefinition → ℕ → Bool → Options → RoutingPlan
  draft_plan input target cutoff with_relations options =
      let p = policy_of input target cutoff options in
      let i = intake_of p input in
      let (rules, over_limit) =
        limit_rules target.constraints.max_rules (reduce_rules target.constraints i.accepted) in
      record {
        interface_version = routing_plan_interface_version;
        target_id = target.id;
        format_key = or_id target.format_key target.id;
        lists = input.definition.id ∷ [];
        rules = rules;
        excluded = i.excluded ++ over_limit;
        warnings = build_warnings rules p.components input.definition.id p.grace;
        coverage = build_coverage rules p.components input.definition.id;
        relations = if with_relations then canonical_relations x.sha256_hex input.relations else [];
        sightings = canonical_sightings x.sha256_hex input.sightings;
        policy_version = policy_version;
        catalog_revision = input.definition.catalog_revision;
        observation_cutoff = cutoff;
        semantic_hash = [];
      }

  unfoldable pub finish_plan : (HashPayload → Text) → TargetDefinition → RoutingPlan → RoutingPlan
  finish_plan digest target plan =
      let p = canonicalize_plan x.sha256_hex plan in
      record p { semantic_hash = semantic_hash x.sha256_hex digest p target }

  unfoldable pub build_plan :
      (HashPayload → Text) → ListInput → TargetDefinition → ℕ → Bool → Options → Result RoutingPlan
  build_plan digest input target cutoff with_relations options =
      if is_empty input.definition.id
      then err no_list_id
      else if is_empty target.id
      then err no_target_id
      else if cutoff == 0
      then err zero_cutoff
      else if no_entries (component_map input.definition.components [])
      then err no_components
      else ok (finish_plan digest target (draft_plan input target cutoff with_relations options))
