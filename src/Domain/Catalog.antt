-- ===== src/Domain/Catalog.antt =====
-- internal/domain/catalog.go: what the catalog says of a list, its seeds, and the component taxonomy.
use routevane.Common.{Bool, true, false, not, List, [], ◌∷◌, any, if◌then◌else◌, ◌≡◌, refl}
use routevane.Common.Text.{Text, codes, text_eq}
use routevane.Netip.{is4}
use routevane.Netip.Print.{addr_string, prefix_string}
use routevane.Domain.Result.{
  Result, ok, err, ◌>>=◌, invalid_addr, invalid_prefix, unsupported_seed_kind,
}
use routevane.Domain.Names.{normalize_domain, parse_addr, parse_prefix}
use routevane.Domain.Kind.{
  RuleKind, domain_exact, domain_suffix, ipv4, ipv6, prefix4, prefix6, other_kind, SourceClass,
  manual, is_unset_class,
}

pub record ComponentDefinition : Type 0 where
  pub id : Text
  pub required : Bool

pub record Seed : Type 0 where
  pub kind : RuleKind
  pub value : Text
  pub component_id : Text
  pub source_id : Text
  pub source_class : SourceClass

-- The family that the kind names against the family of the value.
abbrev same_family : Bool → Bool → Bool
same_family true four = four
same_family false four = not four

abbrev addr_seed : Bool → Text → Result Text
addr_seed four value = do
  a ← parse_addr value
  if same_family four (is4 a) then ok (addr_string a) else err invalid_addr

abbrev prefix_seed : Bool → Text → Result Text
prefix_seed four value = do
  p ← parse_prefix value
  if same_family four (is4 p.addr) then ok (prefix_string p) else err invalid_prefix

abbrev seed_value : RuleKind → Text → Result Text
seed_value domain_exact value = normalize_domain value
seed_value domain_suffix value = normalize_domain value
seed_value ipv4 value = addr_seed true value
seed_value ipv6 value = addr_seed false value
seed_value prefix4 value = prefix_seed true value
seed_value prefix6 value = prefix_seed false value
seed_value (other_kind t) value = err unsupported_seed_kind

unfoldable pub normalize_seed : Seed → Result Seed
normalize_seed s = do
  v ← seed_value s.kind s.value
  ok (record s {
    value = v;
    source_class = if is_unset_class s.source_class then manual else s.source_class;
  })

-- The fields that the planner reads.
pub record ListDefinition : Type 0 where
  pub id : Text
  pub components : List ComponentDefinition
  pub seeds : List Seed
  pub catalog_revision : Text
  pub excluded_values : List Text

abbrev pub known_components : List Text
known_components =
    codes "core"
    ∷ codes "auth"
    ∷ codes "media"
    ∷ codes "voice"
    ∷ codes "downloads"
    ∷ codes "telemetry"
    ∷ codes "advertising"
    ∷ codes "third-party"
    ∷ []

unfoldable pub known_component : Text → Bool
known_component value = any (λ known. text_eq known value) known_components

unfoldable pub required_component : Text → Bool
required_component value =
    any (λ c. text_eq c value)
      (codes "core" ∷ codes "auth" ∷ codes "media" ∷ codes "voice" ∷ codes "downloads" ∷ [])

seed_test :
    normalize_seed (record {
      kind = prefix4;
      value = codes "10.1.2.3/8";
      component_id = codes "web";
      source_id = [];
      source_class = manual;
    })
    ≡ ok (record {
      kind = prefix4;
      value = codes "10.0.0.0/8";
      component_id = codes "web";
      source_id = [];
      source_class = manual;
    })
unfolding normalize_seed parse_prefix prefix_string
seed_test = refl
