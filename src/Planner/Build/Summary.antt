-- ===== src/Planner/Build/Summary.antt =====
-- `buildWarnings` and `buildCoverage` of internal/planner/build_plan.go.
use routevane.Common.{
  ℕ, Bool, false, ◌&&◌, ◌||◌, not, List, [], ◌∷◌, ◌++◌, Option, none, some, ltb, if◌then◌else◌,
  keep, length,
}
use routevane.Common.Text.{Text, codes, text_eq, text_compare}
use routevane.Common.Sort.{sort_by}
use routevane.Common.Assoc.{Map, get, keys}
use routevane.Domain.Rule.{RouteRule}
use routevane.Domain.Catalog.{ComponentDefinition}
use routevane.Domain.Plan.{Coverage}
use routevane.Planner.Reasons.{source_degraded}
use routevane.Planner.Admission.{DegradedSource}

abbrev pub serves : Text → Text → RouteRule → Bool
serves list_id component_id r = text_eq r.list_id list_id && text_eq r.component_id component_id

unfoldable pub count_rules : List RouteRule → Text → Text → ℕ
count_rules rules list_id component_id = length (keep (serves list_id component_id) rules)

unfoldable pub missing_warnings : List RouteRule → Map ComponentDefinition → Text → List Text
missing_warnings rules [] list_id = []
missing_warnings rules ((id, c) ∷ m) list_id =
    (if c.required && not (ltb 0 (count_rules rules list_id id))
      then (codes "required_component_without_rule:" ++ id) ∷ []
      else [])
    ++ missing_warnings rules m list_id

unfoldable pub grace_warnings : List Text → Text → List Text
grace_warnings [] list_id = []
grace_warnings (id ∷ ids) list_id =
    (source_degraded ++ b':' ∷ (list_id ++ b':' ∷ id)) ∷ grace_warnings ids list_id

unfoldable pub build_warnings :
    List RouteRule → Map ComponentDefinition → Text → Map DegradedSource → List Text
build_warnings rules components list_id grace =
    sort_by text_compare
      (missing_warnings rules components list_id ++ grace_warnings (keys grace) list_id)

abbrev requires : Option ComponentDefinition → Bool
requires none = false
requires (some c) = c.required

unfoldable pub coverage_of : List RouteRule → Map ComponentDefinition → Text → Text → Coverage
coverage_of rules components list_id id =
    let n = count_rules rules list_id id in
    record {
      list_id = list_id;
      component_id = id;
      complete = ltb 0 n || not (requires (get id components));
      rule_count = n;
    }

unfoldable pub coverage_rows :
    List RouteRule → Map ComponentDefinition → Text → List Text → List Coverage
coverage_rows rules components list_id [] = []
coverage_rows rules components list_id (id ∷ ids) =
    coverage_of rules components list_id id ∷ coverage_rows rules components list_id ids

unfoldable pub build_coverage : List RouteRule → Map ComponentDefinition → Text → List Coverage
build_coverage rules components list_id =
    coverage_rows rules components list_id (sort_by text_compare (keys components))
