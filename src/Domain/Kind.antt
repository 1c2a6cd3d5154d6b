-- ===== src/Domain/Kind.antt =====
-- The string enumerations of internal/domain: each has its constants and any other text.
use routevane.Common.{Bool, true, false, [], ◌≡◌, refl, ℕ_discrete, if◌then◌else◌}
use routevane.Common.Text.{Text, codes, text_eq, Text-discrete}

pub data ResourceKind : Type 0 where
  domain_resource ip_resource prefix_resource : ResourceKind
  other_resource : Text → ResourceKind

pub data RuleKind : Type 0 where
  domain_exact domain_suffix ipv4 ipv6 prefix4 prefix6 : RuleKind
  other_kind : Text → RuleKind

-- `other_class []` is the empty class.
pub data SourceClass : Type 0 where
  manual official observed community metadata : SourceClass
  other_class : Text → SourceClass

pub data Validity : Type 0 where
  valid stale archived invalid : Validity
  other_validity : Text → Validity

pub data SharedNetworkEvidence : Type 0 where
  no_evidence trusted : SharedNetworkEvidence

pub data Action : Type 0 where
  route : Action
  other_action : Text → Action

unfoldable pub RuleKind-discrete : Discrete RuleKind
unfolding ℕ_discrete
RuleKind-discrete = hlevel ℕ_discrete

abbrev pub resource_kind_text : ResourceKind → Text
resource_kind_text domain_resource = codes "domain"
resource_kind_text ip_resource = codes "ip"
resource_kind_text prefix_resource = codes "prefix"
resource_kind_text (other_resource t) = t

abbrev pub kind_text : RuleKind → Text
kind_text domain_exact = codes "domain_exact"
kind_text domain_suffix = codes "domain_suffix"
kind_text ipv4 = codes "ipv4"
kind_text ipv6 = codes "ipv6"
kind_text prefix4 = codes "prefix4"
kind_text prefix6 = codes "prefix6"
kind_text (other_kind t) = t

abbrev pub is_domain : RuleKind → Bool
is_domain domain_exact = true
is_domain domain_suffix = true
is_domain _ = false

abbrev pub is_ip : RuleKind → Bool
is_ip ipv4 = true
is_ip ipv6 = true
is_ip _ = false

abbrev pub is_prefix : RuleKind → Bool
is_prefix prefix4 = true
is_prefix prefix6 = true
is_prefix _ = false

abbrev pub class_text : SourceClass → Text
class_text manual = codes "manual"
class_text official = codes "official"
class_text observed = codes "observed"
class_text community = codes "community"
class_text metadata = codes "metadata"
class_text (other_class t) = t

-- `SourceClass(text)`
unfoldable pub class_of_text : Text → SourceClass
class_of_text t =
    if text_eq t (codes "manual")
    then manual
    else if text_eq t (codes "official")
    then official
    else if text_eq t (codes "observed")
    then observed
    else if text_eq t (codes "community")
    then community
    else if text_eq t (codes "metadata")
    then metadata
    else other_class t

abbrev pub is_unset_class : SourceClass → Bool
is_unset_class (other_class []) = true
is_unset_class _ = false

abbrev pub is_community : SourceClass → Bool
is_community community = true
is_community _ = false

abbrev pub is_official : SourceClass → Bool
is_official official = true
is_official _ = false

abbrev pub is_trusted : SharedNetworkEvidence → Bool
is_trusted trusted = true
is_trusted no_evidence = false

abbrev pub evidence_text : SharedNetworkEvidence → Text
evidence_text trusted = codes "trusted"
evidence_text no_evidence = []

abbrev pub action_text : Action → Text
action_text route = codes "route"
action_text (other_action t) = t

class_test : class_of_text (codes "community") ≡ community
unfolding class_of_text Text-discrete
class_test = refl
