-- ===== src/Planner/PlanSet.antt =====
-- `BuildPlanSetWith` of internal/planner/build_plan.go: one plan for a set of lists.
pub mod Checks
pub mod Covered
use routevane.Common.{
  ℕ, Ordering, Bool, true, false, ◌&&◌, ◌||◌, not, List, [], ◌∷◌, ◌++◌, Option, none, some, ltb,
  if◌then◌else◌, length, any, keep,
}
use routevane.Common.Text.{Text, codes, text_eq, text_compare, Text-discrete}
use routevane.Common.Sort.{sort_by}
use routevane.Domain.Result.{
  Error, Result, ok, err, ◌>>=◌, empty_list_set, invalid_list_identity, duplicate_list_identity,
  mixed_catalog_revisions,
}
use routevane.Domain.Names.{validate_slug}
use routevane.Domain.Target.{TargetDefinition}
use routevane.Domain.Plan.{
  Excluded, Coverage, RoutingPlan, routing_plan_interface_version, stable_strings,
}
use routevane.Planner.Externals.{Externals}
use routevane.Planner.Reasons.{
  policy_version, unsupported_by_target, wide_network_expansion, rule_limit_exceeded,
}
use routevane.Planner.Canonical.{HashPayload, by_key}
use routevane.Planner.Build.Judge.{Options, has_text}
use routevane.Planner.Build.{ListInput, build_plan, finish_plan}

-- A plan that is refused is returned with the reason.
pub data SetError : Type 0 where
  failed : Error → SetError
  required_coverage : RoutingPlan → List Coverage → List Text → SetError
  rule_limit : RoutingPlan → SetError

pub data SetResult : Type 0 where
  planned : RoutingPlan → SetResult
  refused : SetError → SetResult

abbrev pub is_incomplete : Coverage → Bool
is_incomplete c = not c.complete

abbrev pub lists_of : List Coverage → List Text
lists_of [] = []
lists_of (c ∷ cs) = c.list_id ∷ lists_of cs

-- The uncovered components in plan order, and their lists; `none` for a nil error.
unfoldable pub required_coverage_error : List Coverage → Option (List Coverage × List Text)
required_coverage_error coverage =
    let missing = keep is_incomplete coverage in
    elim missing [ [] ↦ none | c ∷ cs ↦ some (c ∷ cs, stable_strings (lists_of (c ∷ cs))) ]

abbrev pub input_id : ListInput → Text
input_id input = input.definition.id

-- The list before the one at hand, if there is one, has another id and the same revision.
abbrev follows : Option ListInput → ListInput → Option Error
follows none input = none
follows (some prior) input =
    if text_eq (input_id prior) (input_id input)
    then some duplicate_list_identity
    else if not (text_eq prior.definition.catalog_revision input.definition.catalog_revision)
    then some mixed_catalog_revisions
    else none

unfoldable pub check_identities : Option ListInput → List ListInput → Option Error
check_identities prior [] = none
check_identities prior (input ∷ rest) =
    let more = check_identities (some input) rest in
    if not (validate_slug (input_id input))
    then some invalid_list_identity
    else elim (follows prior input) [ some e ↦ some e | none ↦ more ]

abbrev partial_reason : Text → Bool
partial_reason r =
    text_eq r unsupported_by_target
    || text_eq r wide_network_expansion
    || text_eq r rule_limit_exceeded

unfoldable pub has_partial_coverage : List Excluded → Bool
has_partial_coverage excluded = any (λ e. any partial_reason e.reason_codes) excluded

-- The plan of one list, added to those before it.
unfoldable pub combine : RoutingPlan → Text → RoutingPlan → RoutingPlan
combine c id p = record c {
  lists = c.lists ++ p.lists;
  rules = c.rules ++ p.rules;
  excluded = c.excluded ++ p.excluded;
  warnings =
      c.warnings
      ++ p.warnings
      ++ (if has_partial_coverage p.excluded
          then (codes "partial_coverage:unsupported_or_quarantined:" ++ id) ∷ []
          else []);
  coverage = c.coverage ++ p.coverage;
  relations = c.relations ++ p.relations;
  sightings = c.sightings ++ p.sightings;
}

abbrev pub unbounded : TargetDefinition → TargetDefinition
unbounded t = record t { constraints = record (t.constraints) { max_rules = 0 } }

abbrev pub first_revision : List ListInput → Text
first_revision [] = []
first_revision (input ∷ rest) = input.definition.catalog_revision

abbrev pub empty_plan : TargetDefinition → Text → ℕ → RoutingPlan
empty_plan target revision cutoff = record {
  interface_version = routing_plan_interface_version;
  target_id = target.id;
  format_key = target.format_key;
  lists = [];
  rules = [];
  excluded = [];
  warnings = [];
  coverage = [];
  relations = [];
  sightings = [];
  policy_version = policy_version;
  catalog_revision = revision;
  observation_cutoff = cutoff;
  semantic_hash = [];
}

-- The last two checks: the coverage of required components, then the rule limit.
unfoldable pub check_plan : TargetDefinition → RoutingPlan → SetResult
check_plan target plan = elim (required_coverage_error plan.coverage) [
  | some (components, lists) ↦ refused (required_coverage plan components lists)
  | none ↦
      if ltb 0 target.constraints.max_rules && ltb target.constraints.max_rules (length plan.rules)
      then refused (
          rule_limit (record plan {
            warnings = stable_strings (plan.warnings ++ codes "partial_coverage:rule_limit" ∷ []);
          }))
      else planned plan
]

module _ (x : Externals) (digest : HashPayload → Text) where
  unfoldable pub combine_lists :
      TargetDefinition → ℕ → Options → List ListInput → RoutingPlan → Result RoutingPlan
  combine_lists target cutoff options [] c = ok c
  combine_lists target cutoff options (input ∷ rest) c =
      build_plan x digest input (unbounded target) cutoff true options >>= λ p.
      combine_lists target cutoff options rest (combine c (input_id input) p)

  abbrev pub check_combined : TargetDefinition → Result RoutingPlan → SetResult
  check_combined target (err e) = refused (failed e)
  check_combined target (ok c) = check_plan target (finish_plan x digest target c)

  unfoldable pub build_plan_set : List ListInput → TargetDefinition → ℕ → Options → SetResult
  build_plan_set [] target cutoff options = refused (failed empty_list_set)
  build_plan_set (i ∷ is') target cutoff options =
      let ordered = sort_by (by_key input_id) (i ∷ is') in
      elim (check_identities none ordered) [
        | some e ↦ refused (failed e)
        | none ↦ check_combined target (
            combine_lists target cutoff options ordered
              (empty_plan target (first_revision ordered) cutoff))
      ]
