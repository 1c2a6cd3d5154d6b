-- ===== src/Planner/Externals.antt =====
-- What the planner calls and does not implement.
use routevane.Common.{List}
use routevane.Common.Text.{Text}
use routevane.Netip.{Prefix}

-- `sha256_hex` is SHA-256 in hexadecimal, `ip_set_prefixes` the prefixes of the set that
-- netipx's `IPSetBuilder` makes of the prefixes added to it.
pub record Externals : Type 0 where
  pub sha256_hex : Text → Text
  pub ip_set_prefixes : List Prefix → List Prefix
