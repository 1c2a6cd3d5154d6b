-- ===== src/Domain/Rule.antt =====
-- internal/domain/plan.go: route rules, their constructors and their canonical form.
use routevane.Common.{
  ℕ, Bool, true, false, ◌&&◌, not, List, [], ◌∷◌, ◌++◌, Option, none, if◌then◌else◌, holds,
}
use routevane.Common.Text.{Text}
use routevane.Netip.{
  Addr, no_addr, Prefix, no_prefix, Prefix-discrete, addr_is_valid, is4, is6, is4_in6, unmap,
  is_valid, masked,
}
use routevane.Netip.Print.{addr_string, prefix_string}
use routevane.Domain.Result.{Result, ok, err, ◌>>=◌, invalid_addr, invalid_domain_rule_kind}
use routevane.Domain.Names.{normalize_domain, normalize_domain_value, validate_slug}
use routevane.Domain.Resource.{unmapped_prefix, domain_is_normal}
use routevane.Domain.Kind.{
  RuleKind, domain_exact, domain_suffix, ipv4, ipv6, prefix4, prefix6, other_kind, SourceClass,
  Action, route, is_domain, kind_text, other_action, other_class,
}

pub record RouteRule : Type 0 where
  pub kind : RuleKind
  pub domain : Text
  pub addr : Addr
  pub prefix : Prefix
  pub action : Action
  pub list_id : Text
  pub component_id : Text
  pub expires_at : Option ℕ
  pub source_class : SourceClass
  pub labels : List Text
  pub reason_codes : List Text
  pub provenance_refs : List Text

-- The zero rule of an exclusion that has no candidate.
abbrev pub no_rule : RouteRule
no_rule = record {
  kind = other_kind [];
  domain = [];
  addr = no_addr;
  prefix = no_prefix;
  action = other_action [];
  list_id = [];
  component_id = [];
  expires_at = none;
  source_class = other_class [];
  labels = [];
  reason_codes = [];
  provenance_refs = [];
}

-- Whose rule it is, and why.
abbrev pub owned_rule : Text → Text → SourceClass → List Text → List Text → RouteRule
owned_rule list_id component_id source reasons provenance = record no_rule {
  action = route;
  list_id = list_id;
  component_id = component_id;
  source_class = source;
  reason_codes = reasons;
  provenance_refs = provenance;
}

unfoldable pub new_domain_rule :
    RuleKind → Text → Text → Text → SourceClass → List Text → List Text → Result RouteRule
new_domain_rule kind value list_id component_id source reasons provenance =
    if not (is_domain kind) then err invalid_domain_rule_kind else do
      d ← normalize_domain value
      ok (record (owned_rule list_id component_id source reasons provenance) {
        kind = kind;
        domain = d;
      })

unfoldable pub new_addr_rule :
    Addr → Text → Text → SourceClass → List Text → List Text → Result RouteRule
new_addr_rule a list_id component_id source reasons provenance =
    if not (addr_is_valid a)
    then err invalid_addr
    else ok (record (owned_rule list_id component_id source reasons provenance) {
      kind = if is4 (unmap a) then ipv4 else ipv6;
      addr = unmap a;
    })

unfoldable pub new_prefix_rule :
    Prefix → Text → Text → SourceClass → List Text → List Text → Result RouteRule
new_prefix_rule p list_id component_id source reasons provenance = do
  q ← unmapped_prefix p
  ok (record (owned_rule list_id component_id source reasons provenance) {
    kind = if is4 q.addr then prefix4 else prefix6;
    prefix = q;
  })

abbrev pub rule_value_for : RuleKind → RouteRule → Text
rule_value_for domain_exact r = normalize_domain_value r.domain
rule_value_for domain_suffix r = normalize_domain_value r.domain
rule_value_for ipv4 r = addr_string (unmap r.addr)
rule_value_for ipv6 r = addr_string (unmap r.addr)
rule_value_for prefix4 r = prefix_string (masked r.prefix)
rule_value_for prefix6 r = prefix_string (masked r.prefix)
rule_value_for (other_kind t) r = []

unfoldable pub rule_value : RouteRule → Text
rule_value r = rule_value_for r.kind r

unfoldable pub candidate_key : RouteRule → Text
candidate_key r = kind_text r.kind ++ 0 ∷ (rule_value r ++ 0 ∷ (r.list_id ++ 0 ∷ r.component_id))

abbrev pub prefix_is_normal : Prefix → Bool
prefix_is_normal p = is_valid p && not (is4_in6 p.addr) && holds (Prefix-discrete p (masked p))

abbrev pub rule_valid_for : RuleKind → RouteRule → Bool
rule_valid_for domain_exact r = domain_is_normal r.domain
rule_valid_for domain_suffix r = domain_is_normal r.domain
rule_valid_for ipv4 r = addr_is_valid r.addr && not (is4_in6 r.addr) && is4 r.addr
rule_valid_for ipv6 r = addr_is_valid r.addr && not (is4_in6 r.addr) && is6 r.addr
rule_valid_for prefix4 r = prefix_is_normal r.prefix && is4 r.prefix.addr
rule_valid_for prefix6 r = prefix_is_normal r.prefix && is6 r.prefix.addr
rule_valid_for (other_kind t) r = false

abbrev pub is_route : Action → Bool
is_route route = true
is_route (other_action t) = false

unfoldable pub rule_is_valid : RouteRule → Bool
rule_is_valid r =
    is_route r.action
    && validate_slug r.list_id
    && validate_slug r.component_id
    && rule_valid_for r.kind r
