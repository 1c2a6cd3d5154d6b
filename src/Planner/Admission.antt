-- ===== src/Planner/Admission.antt =====
-- internal/planner/build_plan.go: which values may become routes, and under which observations.
-- A reason is `some` where the code answers `false` with it, and `none` where it answers `true`.
pub mod Routable
use routevane.Common.{
  ℕ, Bool, true, false, ◌&&◌, ◌||◌, not, List, [], ◌∷◌, ◌++◌, Option, none, some, ltb, leb, ◌==◌,
  if◌then◌else◌, keep,
}
use routevane.Common.Text.{Text, codes}
use routevane.Common.Assoc.{Map, get, put}
use routevane.Netip.{Prefix, is4, unmap, bits}
use routevane.Netpolicy.{routable_destination, routable_prefix}
use routevane.Domain.Kind.{
  ResourceKind, domain_resource, ip_resource, prefix_resource, other_resource, RuleKind,
  domain_exact, domain_suffix, ipv4, ipv6, prefix4, prefix6, other_kind, is_ip, is_prefix,
  is_community, SourceClass, official, community, Validity, stale, is_trusted,
}
use routevane.Domain.Resource.{Resource, resource_is_valid}
use routevane.Domain.Rule.{RouteRule}
use routevane.Domain.Observation.{Sighting}
use routevane.Domain.Target.{TargetConstraints}
use routevane.Planner.Reasons.{
  special_use_destination, prefix_too_wide, min_routable_prefix_bits_v4,
  min_routable_prefix_bits_v6, min_community_prefix_bits_v4, min_community_prefix_bits_v6,
}

abbrev pub is_name : Sighting → Bool
is_name s = elim s.resource.kind [ domain_resource ↦ true | _ ↦ false ]

-- A stable sort by two ranks: the names, then the rest, each in the order given.
unfoldable pub admission_order : List Sighting → List Sighting
admission_order sightings = keep is_name sightings ++ keep (λ s. not (is_name s)) sightings

abbrev pub width_bound : Prefix → ℕ
width_bound p =
    if is4 (unmap p.addr) then min_routable_prefix_bits_v4 else min_routable_prefix_bits_v6

abbrev pub community_bound : Prefix → ℕ
community_bound p =
    if is4 (unmap p.addr) then min_community_prefix_bits_v4 else min_community_prefix_bits_v6

unfoldable pub routable_value : RouteRule → Option Text
routable_value r =
    if is_ip r.kind
    then if routable_destination r.addr then none else some special_use_destination
    else if is_prefix r.kind
    then if not (routable_destination r.prefix.addr)
      then some special_use_destination
      else if ltb (bits r.prefix) (width_bound r.prefix)
      then some prefix_too_wide
      else if not (routable_prefix r.prefix)
      then some special_use_destination
      else none
    else none

unfoldable pub admissible_value : RouteRule → Option Text
admissible_value r = elim (routable_value r) [
  | some reason ↦ some reason
  | none ↦
      if is_prefix r.kind
        && is_community r.source_class
        && ltb (bits r.prefix) (community_bound r.prefix)
      then some prefix_too_wide
      else none
]

unfoldable pub supports_rule : RuleKind → TargetConstraints → Bool
supports_rule domain_exact c = c.supports_domain_exact
supports_rule domain_suffix c = c.supports_domain_suffix
supports_rule ipv4 c = c.supports_ipv4
supports_rule ipv6 c = c.supports_ipv6
supports_rule prefix4 c = c.supports_prefixes && c.supports_ipv4
supports_rule prefix6 c = c.supports_prefixes && c.supports_ipv6
supports_rule (other_kind t) c = false

-- One source inside its grace window.
pub record DegradedSource : Type 0 where
  pub source_id : Text
  pub grace_until : ℕ
  pub last_success_at : ℕ

abbrev is_empty : Text → Bool
is_empty [] = true
is_empty (c ∷ s) = false

-- The windows that are open at the cutoff and name their last success.
unfoldable pub open_windows : List DegradedSource → ℕ → Map DegradedSource → Map DegradedSource
open_windows [] cutoff m = m
open_windows (d ∷ ds) cutoff m = open_windows ds cutoff (
    if is_empty d.source_id || not (ltb cutoff d.grace_until) || d.last_success_at == 0
    then m
    else put d.source_id d m)

abbrev pub is_stale : Validity → Bool
is_stale stale = true
is_stale _ = false

abbrev pub reported : Option DegradedSource → ℕ → Bool
reported none seen = false
reported (some d) seen = not (ltb seen d.last_success_at)

unfoldable pub admissible_under_grace : Sighting → Map DegradedSource → Bool
admissible_under_grace s grace =
    is_stale s.validity
    && resource_is_valid s.resource
    && reported (get s.source_id grace) s.last_seen

abbrev pub is_declared : SourceClass → Bool
is_declared official = true
is_declared community = true
is_declared _ = false

unfoldable pub declared_network : Sighting → Bool
declared_network s = is_declared s.source_class && not (is_trusted s.shared_network_evidence)
