-- ===== src/Domain/Resource.antt =====
-- internal/domain/resource.go: the tagged union of a domain, an address and a prefix.
use routevane.Common.{◌-◌, Bool, false, ◌&&◌, not, [], ltb, if◌then◌else◌}
use routevane.Common.Text.{Text, text_eq}
use routevane.Netip.{
  Addr, no_addr, Prefix, no_prefix, addr_is_valid, is4, is4_in6, unmap, bits, is_valid, masked,
  prefix_from,
}
use routevane.Netip.Print.{addr_string, prefix_string}
use routevane.Domain.Result.{Result, ok, err, ◌>>=◌, invalid_domain, invalid_addr, invalid_prefix}
use routevane.Domain.Names.{normalize_domain, normalize_domain_value, parse_addr, parse_prefix}
use routevane.Domain.Kind.{
  ResourceKind, domain_resource, ip_resource, prefix_resource, other_resource, RuleKind,
  domain_suffix, ipv4, ipv6, prefix4, prefix6,
}

pub record Resource : Type 0 where
  pub kind : ResourceKind
  pub domain : Text
  pub addr : Addr
  pub prefix : Prefix

abbrev no_resource : ResourceKind → Resource
no_resource k = record { kind = k; domain = []; addr = no_addr; prefix = no_prefix }

pub new_domain_resource : Text → Result Resource
new_domain_resource raw = do
  d ← normalize_domain raw
  ok (record (no_resource domain_resource) { domain = d })

pub new_addr_resource : Addr → Result Resource
new_addr_resource a =
    if not (addr_is_valid a)
    then err invalid_addr
    else ok (record (no_resource ip_resource) { addr = unmap a })

pub new_addr_resource_from_string : Text → Result Resource
new_addr_resource_from_string raw = do a ← parse_addr raw; new_addr_resource a

-- The prefix in IPv4 form where it is a mapped one, or an error where it is too short for that.
unfoldable pub unmapped_prefix : Prefix → Result Prefix
unmapped_prefix p =
    if not (is_valid p)
    then err invalid_prefix
    else if is4_in6 p.addr
    then if ltb (bits p) 96
      then err invalid_prefix
      else ok (masked (prefix_from (unmap p.addr) (bits p - 96)))
    else ok (masked p)

pub new_prefix_resource : Prefix → Result Resource
new_prefix_resource p = do
  q ← unmapped_prefix p
  ok (record (no_resource prefix_resource) { prefix = q })

pub new_prefix_resource_from_string : Text → Result Resource
new_prefix_resource_from_string raw = do p ← parse_prefix raw; new_prefix_resource p

-- A name that normalization leaves as it is.
abbrev pub normal_domain : Text → Result Text → Bool
normal_domain s (ok d) = text_eq d s
normal_domain s (err e) = false

unfoldable pub domain_is_normal : Text → Bool
domain_is_normal s = normal_domain s (normalize_domain s)

abbrev valid_for : ResourceKind → Resource → Bool
valid_for domain_resource r = domain_is_normal r.domain
valid_for ip_resource r = addr_is_valid r.addr && not (is4_in6 r.addr)
valid_for prefix_resource r = is_valid r.prefix && not (is4_in6 r.prefix.addr)
valid_for (other_resource t) r = false

unfoldable pub resource_is_valid : Resource → Bool
resource_is_valid r = valid_for r.kind r

abbrev value_for : ResourceKind → Resource → Text
value_for domain_resource r = normalize_domain_value r.domain
value_for ip_resource r = addr_string (unmap r.addr)
value_for prefix_resource r = prefix_string (masked r.prefix)
value_for (other_resource t) r = []

unfoldable pub resource_value : Resource → Text
resource_value r = value_for r.kind r

-- An address is tried before a network, and a network before a name.
unfoldable pub normalize_rule_value : Text → Result (Text × RuleKind)
normalize_rule_value raw = elim (parse_addr raw) [
  | ok a ↦ ok (addr_string a, if is4 a then ipv4 else ipv6)
  | err _ ↦ elim (parse_prefix raw) [
    | ok p ↦ ok (prefix_string p, if is4 p.addr then prefix4 else prefix6)
    | err _ ↦ elim (normalize_domain raw) [
      | ok d ↦ ok (d, domain_suffix)
      | err _ ↦ err invalid_domain
    ]
  ]
]
