-- ===== src/Domain/Observation.antt =====
-- internal/domain/observation.go: sightings, relations and their lifecycle.
-- An instant is its distance from Go's zero time, so `IsZero` is `== 0` and `UTC` changes nothing.
-- SHA-256 in hexadecimal is the parameter `sha256_hex`.
pub mod Lifecycle
use routevane.Common.{
  ℕ, ◌+◌, ◌*◌, Bool, true, false, ◌&&◌, ◌||◌, not, List, [], ◌∷◌, ◌++◌, ltb, leb, ◌==◌,
  if◌then◌else◌,
}
use routevane.Common.Text.{Text, codes}
use routevane.Domain.Kind.{
  SourceClass, Validity, valid, stale, archived, invalid, SharedNetworkEvidence, resource_kind_text,
  class_text, evidence_text, other_validity,
}
use routevane.Domain.Resource.{Resource, resource_is_valid, resource_value}

pub record Sighting : Type 0 where
  pub id : Text
  pub list_id : Text
  pub component_id : Text
  pub resource : Resource
  pub source_id : Text
  pub source_class : SourceClass
  pub source_revision : Text
  pub first_seen : ℕ
  pub last_seen : ℕ
  pub valid_until : ℕ
  pub ttl_seconds : ℕ
  pub ttl_known : Bool
  pub observation_count : ℕ
  pub metadata : Text
  pub validity : Validity
  pub shared_network_evidence : SharedNetworkEvidence

abbrev pub is_retired : Validity → Bool
is_retired invalid = true
is_retired archived = true
is_retired _ = false

unfoldable pub is_fresh : Sighting → ℕ → Bool
is_fresh s cutoff =
    resource_is_valid s.resource && not (is_retired s.validity) && ltb cutoff s.valid_until

-- `strings.Join(parts, "\x00")`
abbrev pub join_nul : List Text → Text
join_nul [] = []
join_nul (p ∷ []) = p
join_nul (p ∷ q ∷ ps) = p ++ 0 ∷ join_nul (q ∷ ps)

abbrev pub fingerprint_parts : Sighting → List Text
fingerprint_parts s =
    s.list_id
    ∷ s.component_id
    ∷ resource_kind_text s.resource.kind
    ∷ resource_value s.resource
    ∷ class_text s.source_class
    ∷ s.source_id
    ∷ s.source_revision
    ∷ evidence_text s.shared_network_evidence
    ∷ []

pub data RelationType : Type 0 where
  cname_to loaded_by redirects_to observed_in_session : RelationType
  other_relation : Text → RelationType

abbrev pub relation_text : RelationType → Text
relation_text cname_to = codes "cname_to"
relation_text loaded_by = codes "loaded_by"
relation_text redirects_to = codes "redirects_to"
relation_text observed_in_session = codes "observed_in_session"
relation_text (other_relation t) = t

abbrev pub known_relation_type : RelationType → Bool
known_relation_type (other_relation t) = false
known_relation_type _ = true

pub record Relation : Type 0 where
  pub source_resource : Resource
  pub relation_type : RelationType
  pub target_resource : Resource
  pub list_id : Text
  pub component_id : Text
  pub first_seen : ℕ
  pub last_seen : ℕ
  pub valid_until : ℕ
  pub source_id : Text
  pub source_revision : Text
  pub validity : Validity

unfoldable pub relation_is_fresh : Relation → ℕ → Bool
relation_is_fresh r cutoff =
    resource_is_valid r.source_resource
    && resource_is_valid r.target_resource
    && not (is_retired r.validity)
    && ltb cutoff r.valid_until

abbrev pub relation_parts : Relation → List Text
relation_parts r =
    resource_kind_text r.source_resource.kind
    ∷ resource_value r.source_resource
    ∷ relation_text r.relation_type
    ∷ resource_kind_text r.target_resource.kind
    ∷ resource_value r.target_resource
    ∷ r.list_id
    ∷ r.component_id
    ∷ r.source_id
    ∷ r.source_revision
    ∷ []

module _ (sha256_hex : Text → Text) where
  unfoldable pub fingerprint : Sighting → Text
  fingerprint s = sha256_hex (join_nul (fingerprint_parts s))

  unfoldable pub relation_fingerprint : Relation → Text
  relation_fingerprint r = sha256_hex (join_nul (relation_parts r))

-- 90 days in nanoseconds.
abbrev pub stale_retention : ℕ
stale_retention = 90 * 24 * 3600 * 1000000000

unfoldable pub lifecycle_at : ℕ → ℕ → Bool → Validity
lifecycle_at valid_until cutoff bad =
    if bad || valid_until == 0
    then invalid
    else if ltb cutoff valid_until
    then valid
    else if not (ltb cutoff (valid_until + stale_retention))
    then archived
    else stale
