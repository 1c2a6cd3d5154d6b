-- ===== src/Planner/Candidates/Facts.antt =====
-- What the rule of a sighting takes from it.
use routevane.Common.{
  ℕ, ◌≡◌, refl, subst, Bool, true, not, List, [], ◌∷◌, Option, arith, if◌then◌else◌,
}
use routevane.Common.Text.{Text}
use routevane.Common.Assoc.{Map, is_key}
use routevane.Domain.Result.{
  Result, ok, err, bind-eq-ok, ok-injective, unknown_component, not_routable_kind, invalid_addr,
}
use routevane.Domain.Kind.{
  ResourceKind, domain_resource, ip_resource, prefix_resource, other_resource, RuleKind,
  domain_suffix, is_ip, is_prefix, SourceClass,
}
use routevane.Domain.Resource.{Resource, resource_is_valid}
use routevane.Domain.Rule.{RouteRule, new_domain_rule, new_addr_rule, new_prefix_rule}
use routevane.Domain.Observation.{Sighting}
use routevane.Domain.Catalog.{ComponentDefinition}
use routevane.Planner.Externals.{Externals}
use routevane.Planner.Candidates.{
  sighting_rule, rule_of_resource, component_or_web, observation_reason, class_or_observed,
  expiry_of, is_candidate_kind, sighting_refs,
}

-- The kind of rule that a kind of resource gives.
abbrev pub KindFits : ResourceKind → RuleKind → Type 0
KindFits domain_resource k = k ≡ domain_suffix
KindFits ip_resource k = is_ip k ≡ true
KindFits prefix_resource k = is_prefix k ≡ true
KindFits (other_resource t) k = ⊥

abbrev pub Owned : Text → Text → SourceClass → RouteRule → Type 0
Owned list_id component_id class r =
    (r.list_id ≡ list_id) × (r.component_id ≡ component_id) × (r.source_class ≡ class)

of_domain :
    (v list_id component_id : Text) (class : SourceClass) (reasons refs : List Text) (c : RouteRule)
    → new_domain_rule domain_suffix v list_id component_id class reasons refs ≡ ok c
    → Owned list_id component_id class c × (c.kind ≡ domain_suffix)
unfolding new_domain_rule
of_domain v list_id component_id class reasons refs c h = ground arith

of_addr :
    (r : Resource) (list_id component_id : Text) (class : SourceClass) (reasons refs : List Text)
    (c : RouteRule)
    → new_addr_rule r.addr list_id component_id class reasons refs ≡ ok c
    → Owned list_id component_id class c × (is_ip c.kind ≡ true)
unfolding new_addr_rule
of_addr r list_id component_id class reasons refs c h = ground arith

of_prefix :
    (r : Resource) (list_id component_id : Text) (class : SourceClass) (reasons refs : List Text)
    (c : RouteRule)
    → new_prefix_rule r.prefix list_id component_id class reasons refs ≡ ok c
    → Owned list_id component_id class c × (is_prefix c.kind ≡ true)
unfolding new_prefix_rule
of_prefix r list_id component_id class reasons refs c h = ground arith

of_resource :
    (k : ResourceKind) (r : Resource) (list_id component_id : Text) (class : SourceClass)
    (reasons refs : List Text) (c : RouteRule)
    → is_candidate_kind k ≡ true
    → rule_of_resource k r list_id component_id class reasons refs ≡ ok c
    → Owned list_id component_id class c × KindFits k c.kind
of_resource domain_resource r list_id component_id class reasons refs c k h =
    of_domain r.domain list_id component_id class reasons refs c h
of_resource ip_resource r list_id component_id class reasons refs c k h =
    of_addr r list_id component_id class reasons refs c h
of_resource prefix_resource r list_id component_id class reasons refs c k h =
    of_prefix r list_id component_id class reasons refs c h
of_resource (other_resource t) r list_id component_id class reasons refs c k h = cc

guarded :
    (a b v : Bool) (m : Result RouteRule) (c : RouteRule)
    → (if not a
        then err unknown_component
        else if not b
        then err not_routable_kind
        else if not v
        then err invalid_addr
        else m)
      ≡ ok c
    → (a ≡ true) × (b ≡ true) × (v ≡ true) × (m ≡ ok c)
guarded a b v m c h = ground arith

with_expiry-Owned :
    (list_id component_id : Text) (class : SourceClass) (k : ResourceKind) (e : Option ℕ)
    (r c : RouteRule)
    → Owned list_id component_id class r × KindFits k r.kind
    → record r { expires_at = e } ≡ c
    → Owned list_id component_id class c × KindFits k c.kind × (c.expires_at ≡ e)
with_expiry-Owned list_id component_id class k e r c (o, f) same =
    subst (λ d. Owned list_id component_id class d × KindFits k d.kind × (d.expires_at ≡ e)) same
      (o, f, refl)

module _ (x : Externals) where
  -- The candidate of a sighting belongs to the list and to a component that the list has; its
  -- resource is valid, and gives the rule's kind.
  pub sighting_rule_facts :
      (s : Sighting) (list_id : Text) (components : Map ComponentDefinition) (c : RouteRule)
      → sighting_rule x s list_id components ≡ ok c
      → Owned list_id (component_or_web s.component_id) (class_or_observed s.source_class) c
        × KindFits s.resource.kind c.kind
        × (is_key (component_or_web s.component_id) components ≡ true)
        × (resource_is_valid s.resource ≡ true)
        × (c.expires_at ≡ expiry_of s.valid_until)
  unfolding sighting_rule
  sighting_rule_facts s list_id components c h =
      let id = component_or_web s.component_id in
      let class = class_or_observed s.source_class in
      let made =
        rule_of_resource s.resource.kind s.resource list_id id class
          (observation_reason s.source_class ∷ []) (sighting_refs x s) in
      let (known, kind, valid, m) = guarded (is_key id components) _ _ _ c h in
      let (r, e, same) = bind-eq-ok made _ m in
      let (o, f, t) =
        with_expiry-Owned list_id id class s.resource.kind (expiry_of s.valid_until) r c
          (of_resource s.resource.kind s.resource list_id id class _ _ r kind e)
          (ok-injective same) in
      (o, f, known, valid, t)
