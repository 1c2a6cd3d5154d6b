-- ===== src/Domain/Target.antt =====
-- internal/domain/target.go: what a format can carry, and the metadata of a renderer.
-- The limits are counts, so a negative one is written as 0, which the code treats alike.
use routevane.Common.{ℕ, Bool, ◌&&◌, ◌||◌, not, all}
use routevane.Common.Text.{Text}
use routevane.Domain.Names.{validate_slug, is_empty, is_lower, is_digit}

pub record TargetConstraints : Type 0 where
  pub supports_domain_exact : Bool
  pub supports_domain_suffix : Bool
  pub supports_dynamic_dns_set : Bool
  pub supports_ipv4 : Bool
  pub supports_ipv6 : Bool
  pub supports_prefixes : Bool
  pub max_rules : ℕ
  pub max_artifact_size : ℕ
  pub max_entries_per_list : ℕ
  pub max_lists : ℕ

unfoldable pub takes_names_and_addresses : TargetConstraints → Bool
takes_names_and_addresses c =
    (c.supports_domain_exact || c.supports_domain_suffix)
    && (c.supports_ipv4 || c.supports_ipv6 || c.supports_prefixes)

pub record RendererDescriptor : Type 0 where
  pub id : Text
  pub version : Text
  pub content_type : Text
  pub file_extension : Text

unfoldable pub descriptor_is_valid : RendererDescriptor → Bool
descriptor_is_valid d =
    validate_slug d.id
    && validate_slug d.version
    && not (is_empty d.content_type)
    && not (is_empty d.file_extension)
    && all (λ c. is_lower c || is_digit c) d.file_extension

-- The fields that the planner and the delivery read.
pub record TargetDefinition : Type 0 where
  pub id : Text
  pub format_key : Text
  pub renderer_id : Text
  pub constraints : TargetConstraints
