-- ===== src/Deploy/Groups.antt =====
-- `ManagedFQDNOwnership.Validate` of internal/application/managed_fqdn.go.
use routevane.Common.{
  ℕ, Bool, true, false, ◌&&◌, ◌||◌, not, List, [], ◌∷◌, Option, none, some, any, all, leb, length,
  ◌==◌,
}
use routevane.Common.Text.{Text, codes, text_eq, Text-discrete}
use routevane.Domain.Names.{is_empty, slug_byte}
use routevane.Encoding.Hex.{is_hex_id}
use routevane.Deploy.Routes.Labels.{valid_managed_description}
use routevane.Deploy.Routes.Reconcile.{no_items}
use routevane.Deploy.Calls.{ManagedFqdnGroup, ManagedFqdnOwnership, UrlParts}

abbrev pub web_endpoint : Option UrlParts → Bool
web_endpoint none = false
web_endpoint (some u) =
    not (is_empty u.host)
    && (text_eq u.scheme (codes "http") || text_eq u.scheme (codes "https"))
    && not u.has_user

-- A carriage return, a line feed or a zero byte.
abbrev pub breaks_line : ℕ → Bool
breaks_line c = c == 13 || c == 10 || c == 0

unfoldable pub valid_group : List Text → ManagedFqdnGroup → Bool
unfolding valid_managed_description Text-discrete
valid_group seen g =
    not (is_empty g.name)
    && leb (length g.name) 64
    && not (any (text_eq g.name) seen)
    && not (is_empty g.interface_name)
    && not (no_items g.entries)
    && leb (length g.entries) 300
    && valid_managed_description g.description
    && all slug_byte g.name
    && not (any breaks_line g.interface_name)

-- The names seen so far are the loop's state.
unfoldable pub valid_groups : List Text → List ManagedFqdnGroup → Bool
unfolding valid_group
valid_groups seen [] = true
valid_groups seen (g ∷ groups) = valid_group seen g && valid_groups (g.name ∷ seen) groups

unfoldable pub valid_fqdn_ownership : (Text → Option UrlParts) → ManagedFqdnOwnership → Bool
unfolding is_hex_id valid_groups Text-discrete
valid_fqdn_ownership parse_url o =
    web_endpoint (parse_url o.endpoint)
    && is_hex_id o.output_id
    && leb (length o.groups) 128
    && valid_groups [] o.groups
