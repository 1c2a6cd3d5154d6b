-- ===== src/Examples.antt =====
-- Concrete inputs, and each theorem of the development applied to one of them.
mod Domain
mod Netpolicy
mod Planner
mod Application
mod Dedupe
mod Priority
mod Overlaps
mod Deploy
mod Routes
mod Preflight
mod Delivery
mod Cleanup
use routevane.Common.{ℕ, true, false, List, [], ◌∷◌, none, some}
use routevane.Common.Text.{Text, codes}
use routevane.Netip.{Addr, v4, no_addr, Prefix, no_prefix, prefix_from}
use routevane.Domain.Kind.{
  domain_resource, ip_resource, prefix_resource, RuleKind, ipv4, prefix4, SourceClass, observed,
  community, valid, no_evidence,
}
use routevane.Domain.Resource.{Resource}
use routevane.Domain.Rule.{RouteRule, no_rule, owned_rule}
use routevane.Domain.Observation.{Sighting}
use routevane.Domain.Target.{TargetDefinition}
use routevane.Planner.Externals.{Externals}
use routevane.Planner.Build.Judge.{Policy, Options}
use routevane.Planner.Build.{ListInput}

-- SHA-256 as the identity, and a set of prefixes as the list itself.
abbrev pub externals : Externals
externals = record { sha256_hex = λ t. t; ip_set_prefixes = λ ps. ps }

abbrev pub public_addr : Addr
public_addr = v4 0x08080808

abbrev pub public_prefix : Prefix
public_prefix = prefix_from (v4 0x08080000) 16

abbrev pub name_resource : Resource
name_resource = record {
  kind = domain_resource;
  domain = codes "a.io";
  addr = no_addr;
  prefix = no_prefix;
}

abbrev pub addr_resource : Resource
addr_resource = record { kind = ip_resource; domain = []; addr = public_addr; prefix = no_prefix }

abbrev pub prefix_resource_value : Resource
prefix_resource_value = record {
  kind = prefix_resource;
  domain = [];
  addr = no_addr;
  prefix = public_prefix;
}

-- Seen at 10 and valid until 100.
abbrev pub seen : Resource → Text → SourceClass → Sighting
seen resource source_id class = record {
  id = codes "s";
  list_id = codes "l";
  component_id = codes "web";
  resource = resource;
  source_id = source_id;
  source_class = class;
  source_revision = [];
  first_seen = 10;
  last_seen = 10;
  valid_until = 100;
  ttl_seconds = 0;
  ttl_known = false;
  observation_count = 1;
  metadata = [];
  validity = valid;
  shared_network_evidence = no_evidence;
}

abbrev pub name_seen : Sighting
name_seen = seen name_resource (codes "dns") observed

abbrev pub addr_seen : Sighting
addr_seen = seen addr_resource (codes "dns") observed

abbrev pub feed_seen : Sighting
feed_seen = seen prefix_resource_value (codes "feed") community

abbrev pub target : TargetDefinition
target = record {
  id = codes "raw";
  format_key = codes "raw";
  renderer_id = codes "raw";
  constraints = record {
    supports_domain_exact = true;
    supports_domain_suffix = true;
    supports_dynamic_dns_set = false;
    supports_ipv4 = true;
    supports_ipv6 = true;
    supports_prefixes = true;
    max_rules = 3;
    max_artifact_size = 0;
    max_entries_per_list = 0;
    max_lists = 0;
  };
}

abbrev pub web_input : List Sighting → ListInput
web_input sightings = record {
  definition = record {
    id = codes "l";
    components = record { id = codes "web"; required = true } ∷ [];
    seeds = [];
    catalog_revision = codes "r1";
    excluded_values = [];
  };
  sightings = sightings;
  relations = [];
  degraded = [];
}

abbrev pub web_policy : Policy
web_policy = record {
  list_id = codes "l";
  components = (codes "web", record { id = codes "web"; required = true }) ∷ [];
  excluded_values = [];
  constraints = target.constraints;
  cutoff = 50;
  grace = [];
  options = record { keep_addresses_beside_names = false };
}

abbrev pub addr_rule : Addr → Text → RouteRule
addr_rule a list_id = record (owned_rule list_id (codes "web") observed [] []) {
  kind = ipv4;
  addr = a;
}

abbrev pub prefix_rule : Prefix → Text → RouteRule
prefix_rule p list_id = record (owned_rule list_id (codes "web") observed [] []) {
  kind = prefix4;
  prefix = p;
}
