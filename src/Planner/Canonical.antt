-- ===== src/Planner/Canonical.antt =====
-- internal/planner/canonical.go: the canonical order of a plan, and its semantic hash.
-- The JSON encoding and its SHA-256 are the parameter `digest`, a function of the payload.
use routevane.Common.{
  ℕ, Ordering, ◌||◌, ◌&&◌, not, List, [], ◌∷◌, ◌++◌, map, Option, none, some, ltb, ◌==◌,
  if◌then◌else◌,
}
use routevane.Common.Text.{Text, text_compare}
use routevane.Common.Order.{then_compare}
use routevane.Common.Sort.{sort_by}
use routevane.Common.Assoc.{Map, get, put, values}
use routevane.Domain.Kind.{
  Validity, valid, other_validity, trusted, is_trusted, resource_kind_text, kind_text, class_text,
  action_text,
}
use routevane.Domain.Resource.{resource_value}
use routevane.Domain.Rule.{RouteRule, rule_value, candidate_key}
use routevane.Domain.Observation.{Sighting, Relation, fingerprint, relation_fingerprint, join_nul}
use routevane.Domain.Target.{TargetConstraints, TargetDefinition}
use routevane.Domain.Plan.{Excluded, Coverage, RoutingPlan, stable_strings, outcome_text}
use routevane.Planner.Dedupe.{sort_rules}

unfoldable pub sighting_key : Sighting → Text
sighting_key s = join_nul (
    s.list_id
    ∷ s.component_id
    ∷ resource_kind_text s.resource.kind
    ∷ resource_value s.resource
    ∷ s.source_id
    ∷ s.source_revision
    ∷ [])

abbrev earlier_seen : ℕ → ℕ → ℕ
earlier_seen prior seen = if prior == 0 || not (seen == 0) && ltb seen prior then seen else prior

abbrev later : ℕ → ℕ → ℕ
later prior t = if ltb prior t then t else prior

abbrev merged_validity : Validity → Validity → Validity
merged_validity (other_validity []) v = v
merged_validity prior valid = valid
merged_validity prior v = prior

unfoldable pub merge_sighting : Sighting → Sighting → Sighting
merge_sighting prior s = record prior {
  first_seen = earlier_seen prior.first_seen s.first_seen;
  last_seen = later prior.last_seen s.last_seen;
  valid_until = later prior.valid_until s.valid_until;
  observation_count = later prior.observation_count s.observation_count;
  validity = merged_validity prior.validity s.validity;
  shared_network_evidence =
      if is_trusted s.shared_network_evidence then trusted else prior.shared_network_evidence;
}

abbrev sighting_after : Option Sighting → Sighting → Sighting
sighting_after none s = s
sighting_after (some prior) s = merge_sighting prior s

unfoldable pub add_sightings : Map Sighting → List Sighting → Map Sighting
add_sightings m [] = m
add_sightings m (s ∷ ss) =
    add_sightings (put (sighting_key s) (sighting_after (get (sighting_key s) m) s) m) ss

abbrev pub by_key {ℓ} : {A : Type ℓ} → (A → Text) → A → A → Ordering
by_key key a b = text_compare (key a) (key b)

unfoldable pub merge_relation : Relation → Relation → Relation
merge_relation prior r = record prior {
  first_seen = earlier_seen prior.first_seen r.first_seen;
  last_seen = later prior.last_seen r.last_seen;
  valid_until = later prior.valid_until r.valid_until;
}

abbrev relation_after : Option Relation → Relation → Relation
relation_after none r = r
relation_after (some prior) r = merge_relation prior r

abbrev pub stable_rule : RouteRule → RouteRule
stable_rule r = record r {
  labels = stable_strings r.labels;
  reason_codes = stable_strings r.reason_codes;
  provenance_refs = stable_strings r.provenance_refs;
}

abbrev stable_exclusion : Excluded → Excluded
stable_exclusion e = record e {
  reason_codes = stable_strings e.reason_codes;
  provenance_refs = stable_strings e.provenance_refs;
}

-- `strings.Join(codes, ",")`
abbrev join_comma : List Text → Text
join_comma [] = []
join_comma (p ∷ []) = p
join_comma (p ∷ q ∷ ps) = p ++ b',' ∷ join_comma (q ∷ ps)

unfoldable pub exclusion_key : Excluded → Text
exclusion_key e =
    candidate_key e.candidate ++ 0 ∷ (outcome_text e.outcome ++ 0 ∷ join_comma e.reason_codes)

unfoldable pub compare_coverage : Coverage → Coverage → Ordering
compare_coverage a b =
    then_compare (text_compare a.list_id b.list_id) (text_compare a.component_id b.component_id)

pub record HashRule : Type 0 where
  pub kind : Text
  pub value : Text
  pub action : Text
  pub list_id : Text
  pub component_id : Text
  pub source_class : Text
  pub labels : List Text
  pub reasons : List Text
  pub provenance : List Text

pub record HashPayload : Type 0 where
  pub interface_version : Text
  pub target_id : Text
  pub format_key : Text
  pub target : TargetConstraints
  pub policy_version : Text
  pub catalog_revision : Text
  pub rules : List HashRule
  pub sighting_fingerprints : List Text
  pub relation_fingerprints : List Text

abbrev hash_rule : RouteRule → HashRule
hash_rule r = record {
  kind = kind_text r.kind;
  value = rule_value r;
  action = action_text r.action;
  list_id = r.list_id;
  component_id = r.component_id;
  source_class = class_text r.source_class;
  labels = stable_strings r.labels;
  reasons = stable_strings r.reason_codes;
  provenance = stable_strings r.provenance_refs;
}

-- The two limits that the payload does not hold are set to 0.
abbrev hash_target : TargetConstraints → TargetConstraints
hash_target c = record c { max_entries_per_list = 0; max_lists = 0 }

module _ (sha256_hex : Text → Text) where
  abbrev with_stable_id : Sighting → Sighting
  with_stable_id s = record s { id = fingerprint sha256_hex s }

  unfoldable pub canonical_sightings : List Sighting → List Sighting
  canonical_sightings input =
      sort_by (by_key sighting_key) (map with_stable_id (values (add_sightings [] input)))

  unfoldable pub add_relations : Map Relation → List Relation → Map Relation
  add_relations m [] = m
  add_relations m (r ∷ rs) =
      let key = relation_fingerprint sha256_hex r in
      add_relations (put key (relation_after (get key m) r) m) rs

  unfoldable pub canonical_relations : List Relation → List Relation
  canonical_relations input =
      sort_by (by_key (relation_fingerprint sha256_hex)) (values (add_relations [] input))

  unfoldable pub canonicalize_plan : RoutingPlan → RoutingPlan
  canonicalize_plan p = record p {
    lists = stable_strings p.lists;
    rules = sort_rules (map stable_rule p.rules);
    excluded = sort_by (by_key exclusion_key) (map stable_exclusion p.excluded);
    warnings = stable_strings p.warnings;
    coverage = sort_by compare_coverage p.coverage;
    sightings = canonical_sightings p.sightings;
    relations = canonical_relations p.relations;
  }

  unfoldable pub hash_payload : RoutingPlan → TargetDefinition → HashPayload
  hash_payload plan target =
      let p = canonicalize_plan plan in
      record {
        interface_version = p.interface_version;
        target_id = p.target_id;
        format_key = p.format_key;
        target = hash_target target.constraints;
        policy_version = p.policy_version;
        catalog_revision = p.catalog_revision;
        rules = map hash_rule p.rules;
        sighting_fingerprints =
            sort_by text_compare (map (λ s. fingerprint sha256_hex s) p.sightings);
        relation_fingerprints =
            sort_by text_compare (map (λ r. relation_fingerprint sha256_hex r) p.relations);
      }

  unfoldable pub semantic_hash : (HashPayload → Text) → RoutingPlan → TargetDefinition → Text
  semantic_hash digest plan target = digest (hash_payload plan target)
