-- ===== src/Netpolicy.antt =====
-- internal/netpolicy/netpolicy.go: which destinations may be contacted, and which may be routed to.
pub mod Cover
pub mod Device
use routevane.Common.{
  ℕ, ◌+◌, ◌-◌, ◌*◌, ◌/◌, ◌^◌, Bool, true, false, ◌&&◌, ◌||◌, not, List, [], ◌∷◌, ◌++◌, any, ltb,
  ◌==◌, if◌then◌else◌, length, drop, ◌≡◌, refl,
}
use routevane.Common.Text.{Text, codes, text_eq, Text-discrete}
use routevane.Netip.{
  Addr, v4, v6, Prefix, addr_is_valid, is4_in6, unmap, without_zone, bits, is_valid, prefix_from,
  contains, overlaps, Addr-discrete, Prefix-discrete,
}

abbrev pub net4 : ℕ → ℕ → ℕ → ℕ → ℕ → Prefix
net4 a b c d n = prefix_from (v4 (a * 256 ^ 3 + b * 256 ^ 2 + c * 256 + d)) n

-- The first three 16-bit groups of an IPv6 network, and its length.
abbrev pub net6 : ℕ → ℕ → ℕ → ℕ → Prefix
net6 a b c n = prefix_from (v6 (a * 65536 ^ 7 + b * 65536 ^ 6 + c * 65536 ^ 5) []) n

abbrev pub excluded_destinations : List Prefix
excluded_destinations =
    net4 0 0 0 0 8
    ∷ net4 10 0 0 0 8
    ∷ net4 100 64 0 0 10
    ∷ net4 127 0 0 0 8
    ∷ net4 169 254 0 0 16
    ∷ net4 172 16 0 0 12
    ∷ net4 192 0 0 0 24
    ∷ net4 192 168 0 0 16
    ∷ net4 224 0 0 0 4
    ∷ net4 240 0 0 0 4
    ∷ net6 0 0 0 128
    ∷ prefix_from (v6 1 []) 128
    ∷ net6 0x64 0xff9b 0 32
    ∷ net6 0x100 0 0 64
    ∷ prefix_from (v6 (0x100 * 65536 ^ 7 + 65536 ^ 4) []) 64
    ∷ net6 0x2001 0 0 32
    ∷ net6 0x2001 0x10 0 28
    ∷ net6 0x2002 0 0 16
    ∷ net6 0x5f00 0 0 16
    ∷ net6 0xfc00 0 0 7
    ∷ net6 0xfe80 0 0 10
    ∷ net6 0xfec0 0 0 10
    ∷ net6 0xff00 0 0 8
    ∷ []

abbrev pub benchmarking : List Prefix
benchmarking = net4 198 18 0 0 15 ∷ net6 0x2001 2 0 48 ∷ []

abbrev pub plain : Addr → Addr
plain a = unmap (without_zone a)

unfoldable pub routable_destination : Addr → Bool
routable_destination a =
    addr_is_valid (plain a) && not (any (λ e. contains e (plain a)) excluded_destinations)

unfoldable pub public_unicast : Addr → Bool
public_unicast a = routable_destination a && not (any (λ e. contains e (plain a)) benchmarking)

abbrev pub clear_of_excluded : Prefix → Bool
clear_of_excluded p = not (any (λ e. overlaps p e) excluded_destinations)

unfoldable pub routable_prefix : Prefix → Bool
routable_prefix p =
    if not (is_valid p)
    then false
    else if is4_in6 p.addr
    then if ltb (bits p) 96
      then false
      else clear_of_excluded (prefix_from (unmap p.addr) (bits p - 96))
    else clear_of_excluded p

unfoldable pub all_public_from : List Addr → Bool
all_public_from [] = true
all_public_from (a ∷ as') =
    let rest = all_public_from as' in if public_unicast a then rest else false

unfoldable pub all_public_unicast : List Addr → Bool
all_public_unicast [] = false
all_public_unicast (a ∷ as') = all_public_from (a ∷ as')

-- The text ends in the suffix and is longer.
abbrev longer_with_suffix : Text → Text → Bool
longer_with_suffix host suffix =
    ltb (length suffix) (length host) && text_eq (drop (length host - length suffix) host) suffix

unfoldable pub local_hostname : Text → Bool
local_hostname host =
    any (λ n. text_eq host n)
      ([]
        ∷ codes "localhost"
        ∷ codes "localhost.localdomain"
        ∷ codes "ip6-localhost"
        ∷ codes "ip6-loopback"
        ∷ [])
    || any (λ s. longer_with_suffix host s)
        (codes ".localhost"
          ∷ codes ".local"
          ∷ codes ".localdomain"
          ∷ codes ".internal"
          ∷ codes ".home.arpa"
          ∷ [])

loopback_test : routable_destination (v6 0xffff7f000001 []) ≡ false
unfolding routable_destination
loopback_test = refl

public_test : routable_destination (v4 0x08080808) ≡ true
unfolding routable_destination
public_test = refl

wide_test : routable_prefix (net4 8 0 0 0 4) ≡ false
unfolding routable_prefix overlaps Addr-discrete Prefix-discrete
wide_test = refl

narrow_test : routable_prefix (net6 0x2a00 0x1450 0 32) ≡ true
unfolding routable_prefix overlaps Addr-discrete Prefix-discrete
narrow_test = refl

local_test : local_hostname (codes "nas.local") ≡ true
unfolding local_hostname Text-discrete
local_test = refl
