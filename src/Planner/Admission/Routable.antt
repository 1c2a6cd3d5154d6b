-- ===== src/Planner/Admission/Routable.antt =====
-- What an admissible value is: a routable destination within the width bounds.
use routevane.Common.{◌≤◌, ◌≡◌, true, false, none, arith}
use routevane.Netip.{Addr, is4_in6, bits, contains}
use routevane.Netpolicy.{routable_destination, routable_prefix}
use routevane.Netpolicy.Cover.{routable_prefix_sound}
use routevane.Domain.Kind.{is_prefix, is_community}
use routevane.Domain.Rule.{RouteRule}
use routevane.Planner.Admission.{routable_value, admissible_value, width_bound, community_bound}

-- What the checks of a network say.
pub admissible_prefix :
    (r : RouteRule)
    → is_prefix r.kind ≡ true
    → admissible_value r ≡ none
    → (routable_prefix r.prefix ≡ true)
      × (width_bound r.prefix ≤ bits r.prefix)
      × (is_community r.source_class ≡ true → community_bound r.prefix ≤ bits r.prefix)
unfolding admissible_value routable_value
admissible_prefix r k h = (ground arith, ground arith, λ c. ground arith)

-- Every address of an admissible network is a routable destination, where neither is an
-- IPv4-mapped form, and the network is no wider than the bound of its family.
pub admissible_network :
    (r : RouteRule) (a : Addr)
    → is_prefix r.kind ≡ true
    → is4_in6 r.prefix.addr ≡ false
    → is4_in6 a ≡ false
    → admissible_value r ≡ none
    → contains r.prefix a ≡ true
    → (routable_destination a ≡ true) × (width_bound r.prefix ≤ bits r.prefix)
admissible_network r a k m n h c =
    let (routable, wide, _) = admissible_prefix r k h in
    (routable_prefix_sound r.prefix a m n routable c, wide)
