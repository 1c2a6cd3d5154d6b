-- ===== src/Planner/Candidates.antt =====
-- internal/planner/build_plan.go: the rule that a seed or a sighting stands for.
pub mod Facts
use routevane.Common.{
  ℕ, Bool, true, false, ◌&&◌, not, List, [], ◌∷◌, ◌++◌, Option, none, some, ◌==◌, if◌then◌else◌,
}
use routevane.Common.Text.{Text, codes}
use routevane.Common.Assoc.{Map, get, is_key}
use routevane.Netip.{no_addr, no_prefix, is4}
use routevane.Domain.Result.{
  Error, Result, ok, err, ◌>>=◌, invalid_addr, unsupported_seed_kind, unknown_component,
  not_routable_kind,
}
use routevane.Domain.Names.{parse_addr, parse_prefix}
use routevane.Domain.Kind.{
  ResourceKind, domain_resource, ip_resource, prefix_resource, other_resource, RuleKind,
  domain_exact, domain_suffix, ipv4, ipv6, prefix4, prefix6, other_kind, SourceClass, official,
  community, observed, is_official, is_unset_class, route,
}
use routevane.Domain.Resource.{Resource, resource_is_valid}
use routevane.Domain.Rule.{RouteRule, no_rule, new_domain_rule, new_addr_rule, new_prefix_rule}
use routevane.Domain.Observation.{Sighting, fingerprint}
use routevane.Domain.Catalog.{ComponentDefinition, Seed}
use routevane.Planner.Externals.{Externals}
use routevane.Planner.Reasons.{
  manual_rule, official_rule, fresh_dns_observation, fresh_community_observation,
}

unfoldable pub provenance : Text → List Text
provenance [] = []
provenance (c ∷ s) = (c ∷ s) ∷ []

abbrev or_else : Text → Text → Text
or_else [] other = other
or_else (c ∷ s) other = c ∷ s

abbrev seed_reasons : Seed → List Text
seed_reasons s = (if is_official s.source_class then official_rule else manual_rule) ∷ []

abbrev seed_refs : Seed → List Text
seed_refs s = provenance (or_else s.source_id (codes "seed:" ++ s.value))

abbrev name_seed_rule : Seed → Text → Result RouteRule
name_seed_rule s list_id =
    new_domain_rule s.kind s.value list_id s.component_id s.source_class (seed_reasons s)
      (seed_refs s)

abbrev addr_seed_rule : Seed → Text → Result RouteRule
addr_seed_rule s list_id = do
  a ← parse_addr s.value
  new_addr_rule a list_id s.component_id s.source_class (seed_reasons s) (seed_refs s)

abbrev prefix_seed_rule : Seed → Text → Result RouteRule
prefix_seed_rule s list_id = do
  p ← parse_prefix s.value
  new_prefix_rule p list_id s.component_id s.source_class (seed_reasons s) (seed_refs s)

abbrev seed_rule_for : RuleKind → Seed → Text → Result RouteRule
seed_rule_for domain_exact s list_id = name_seed_rule s list_id
seed_rule_for domain_suffix s list_id = name_seed_rule s list_id
seed_rule_for ipv4 s list_id = addr_seed_rule s list_id
seed_rule_for ipv6 s list_id = addr_seed_rule s list_id
seed_rule_for prefix4 s list_id = prefix_seed_rule s list_id
seed_rule_for prefix6 s list_id = prefix_seed_rule s list_id
seed_rule_for (other_kind t) s list_id = err unsupported_seed_kind

unfoldable pub seed_rule : Seed → Text → Result RouteRule
seed_rule s list_id = seed_rule_for s.kind s list_id

abbrev pub observation_reason : SourceClass → Text
observation_reason community = fresh_community_observation
observation_reason official = official_rule
observation_reason _ = fresh_dns_observation

abbrev pub class_or_observed : SourceClass → SourceClass
class_or_observed c = if is_unset_class c then observed else c

abbrev pub is_candidate_kind : ResourceKind → Bool
is_candidate_kind (other_resource t) = false
is_candidate_kind _ = true

abbrev pub rule_of_resource :
    ResourceKind → Resource → Text → Text → SourceClass → List Text → List Text → Result RouteRule
rule_of_resource prefix_resource r list_id component_id class reasons refs =
    new_prefix_rule r.prefix list_id component_id class reasons refs
rule_of_resource domain_resource r list_id component_id class reasons refs =
    new_domain_rule domain_suffix r.domain list_id component_id class reasons refs
rule_of_resource _ r list_id component_id class reasons refs =
    new_addr_rule r.addr list_id component_id class reasons refs

-- The zero time is no expiry.
abbrev pub expiry_of : ℕ → Option ℕ
expiry_of t = if t == 0 then none else some t

unfoldable pub component_or_web : Text → Text
component_or_web id = or_else id (codes "web")

module _ (x : Externals) where
  -- The class is set to `observed` before the fingerprint is taken.
  abbrev pub sighting_refs : Sighting → List Text
  sighting_refs s = provenance (
      or_else s.source_id
        (fingerprint x.sha256_hex (record s { source_class = class_or_observed s.source_class })))

  unfoldable pub sighting_rule : Sighting → Text → Map ComponentDefinition → Result RouteRule
  sighting_rule s list_id components =
      if not (is_key (component_or_web s.component_id) components)
      then err unknown_component
      else if not (is_candidate_kind s.resource.kind)
      then err not_routable_kind
      else if not (resource_is_valid s.resource)
      then err invalid_addr
      else do
        rule ←
            rule_of_resource s.resource.kind s.resource list_id (component_or_web s.component_id)
              (class_or_observed s.source_class) (observation_reason s.source_class ∷ [])
              (sighting_refs s)
        ok (record rule { expires_at = expiry_of s.valid_until })

abbrev is_ip_resource : ResourceKind → Bool
is_ip_resource ip_resource = true
is_ip_resource _ = false

unfoldable pub invalid_candidate : Sighting → Text → RouteRule
invalid_candidate s list_id = record no_rule {
  kind = if is_ip_resource s.resource.kind && is4 s.resource.addr then ipv4 else ipv6;
  action = route;
  list_id = list_id;
  component_id = s.component_id;
  source_class = s.source_class;
}
