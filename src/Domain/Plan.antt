-- ===== src/Domain/Plan.antt =====
-- internal/domain/plan.go: exclusions, coverage, the routing plan, and `StableStrings`.
pub mod Stable
use routevane.Common.{ℕ, Bool, true, false, List, [], ◌∷◌, if◌then◌else◌, ◌≡◌, refl}
use routevane.Common.Text.{Text, codes, text_eq, text_compare, Text-discrete}
use routevane.Common.Sort.{sort_by, compact_by}
use routevane.Domain.Rule.{RouteRule}
use routevane.Domain.Observation.{Sighting, Relation}

pub data Outcome : Type 0 where
  rejected quarantined : Outcome

abbrev pub outcome_text : Outcome → Text
outcome_text rejected = codes "rejected"
outcome_text quarantined = codes "quarantined"

pub record Excluded : Type 0 where
  pub candidate : RouteRule
  pub outcome : Outcome
  pub reason_codes : List Text
  pub provenance_refs : List Text

pub record Coverage : Type 0 where
  pub list_id : Text
  pub component_id : Text
  pub complete : Bool
  pub rule_count : ℕ

abbrev pub routing_plan_interface_version : Text
routing_plan_interface_version = codes "m0-spike-v1"

pub record RoutingPlan : Type 0 where
  pub interface_version : Text
  pub target_id : Text
  pub format_key : Text
  pub lists : List Text
  pub rules : List RouteRule
  pub excluded : List Excluded
  pub warnings : List Text
  pub coverage : List Coverage
  pub relations : List Relation
  pub sightings : List Sighting
  pub policy_version : Text
  pub catalog_revision : Text
  pub observation_cutoff : ℕ
  pub semantic_hash : Text

unfoldable pub stable_strings : List Text → List Text
stable_strings values = compact_by text_eq (sort_by text_compare values)

stable_test : stable_strings (codes "b" ∷ codes "a" ∷ codes "b" ∷ []) ≡ codes "a" ∷ codes "b" ∷ []
unfolding stable_strings compact_by sort_by text_compare Text-discrete
stable_test = refl
