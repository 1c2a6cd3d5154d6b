-- ===== src/Planner/Reasons.antt =====
-- internal/planner/build_plan.go: the reason codes and the width bounds.
use routevane.Common.{ℕ}
use routevane.Common.Text.{Text, codes}

abbrev pub policy_version : Text
policy_version = codes "auto-v1"

abbrev pub manual_rule : Text
manual_rule = codes "manual_rule"

abbrev pub official_rule : Text
official_rule = codes "official_rule"

abbrev pub fresh_dns_observation : Text
fresh_dns_observation = codes "fresh_dns_observation"

abbrev pub fresh_community_observation : Text
fresh_community_observation = codes "fresh_community_observation"

abbrev pub stale_observation : Text
stale_observation = codes "stale_observation"

abbrev pub invalid_resource : Text
invalid_resource = codes "invalid_resource"

abbrev pub unsupported_by_target : Text
unsupported_by_target = codes "unsupported_by_target"

abbrev pub not_required_for_domain_capable_target : Text
not_required_for_domain_capable_target = codes "not_required_for_domain_capable_target"

abbrev pub wide_network_expansion : Text
wide_network_expansion = codes "wide_network_expansion"

abbrev pub shared_cdn_or_cloud : Text
shared_cdn_or_cloud = codes "shared_cdn_or_cloud"

abbrev pub rule_limit_exceeded : Text
rule_limit_exceeded = codes "rule_limit_exceeded"

abbrev pub lossless_collapsed : Text
lossless_collapsed = codes "lossless_collapsed"

abbrev pub source_degraded : Text
source_degraded = codes "source_degraded"

abbrev pub special_use_destination : Text
special_use_destination = codes "special_use_destination"

abbrev pub prefix_too_wide : Text
prefix_too_wide = codes "prefix_too_wide"

abbrev pub operator_excluded : Text
operator_excluded = codes "operator_excluded"

abbrev pub lower_priority_overlap : Text
lower_priority_overlap = codes "lower_priority_overlap"

abbrev pub min_routable_prefix_bits_v4 : ℕ
min_routable_prefix_bits_v4 = 8

abbrev pub min_routable_prefix_bits_v6 : ℕ
min_routable_prefix_bits_v6 = 16

abbrev pub min_community_prefix_bits_v4 : ℕ
min_community_prefix_bits_v4 = 16

abbrev pub min_community_prefix_bits_v6 : ℕ
min_community_prefix_bits_v6 = 32
