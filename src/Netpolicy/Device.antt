-- ===== src/Netpolicy/Device.antt =====
-- internal/netpolicy/device.go: which addresses are those of the operator's own devices.
-- The tests of an address are those of net/netip; a release build has no test ranges.
pub mod Local
pub mod Url
use routevane.Common.{
  ℕ, ◌*◌, ◌+◌, ◌/◌, ◌%◌, ◌^◌, Bool, true, false, ◌&&◌, ◌||◌, not, List, [], ◌∷◌, leb, ◌==◌,
  if◌then◌else◌, ◌≡◌, refl,
}
use routevane.Netip.{Addr, no_addr, v4, v6, unmap, addr_is_valid}

-- The octet of an IPv4 address that 2 ^ 8k is the unit of.
abbrev pub octet : ℕ → ℕ → ℕ
octet n k = n / 2 ^ (8 * k) % 256

-- The first 16 bits of an IPv6 address.
abbrev pub first_group : ℕ → ℕ
first_group n = n / 2 ^ 112 % 65536

-- `IsUnspecified`, `IsLoopback` and the three tests of multicast.
abbrev pub is_unspecified : Addr → Bool
is_unspecified no_addr = false
is_unspecified (v4 n) = n == 0
is_unspecified (v6 n []) = n == 0
is_unspecified (v6 n (c ∷ z)) = false

abbrev pub is_loopback : Addr → Bool
is_loopback no_addr = false
is_loopback (v4 n) = octet n 3 == 127
is_loopback (v6 n z) = n == 1

abbrev pub is_multicast : Addr → Bool
is_multicast no_addr = false
is_multicast (v4 n) = octet n 3 / 16 == 14
is_multicast (v6 n z) = first_group n / 256 == 255

abbrev pub is_link_local_multicast : Addr → Bool
is_link_local_multicast no_addr = false
is_link_local_multicast (v4 n) = octet n 3 == 224 && octet n 2 == 0 && octet n 1 == 0
is_link_local_multicast (v6 n z) = first_group n / 256 == 255 && first_group n % 16 == 2

abbrev pub is_interface_local_multicast : Addr → Bool
is_interface_local_multicast (v6 n z) = first_group n / 256 == 255 && first_group n % 16 == 1
is_interface_local_multicast _ = false

-- The four ranges of IPv4: three private ones, and the link-local one but for the metadata address.
abbrev pub local4 : ℕ → Bool
local4 n =
    if octet n 3 == 10
    then true
    else if octet n 3 == 172 && leb 16 (octet n 2) && leb (octet n 2) 31
    then true
    else if octet n 3 == 192 && octet n 2 == 168
    then true
    else if octet n 3 == 169 && octet n 2 == 254
    then not (octet n 1 == 169) || not (octet n 0 == 254)
    else false

-- `IsPrivate` and `IsLinkLocalUnicast` of IPv6.
abbrev pub local6 : ℕ → Bool
local6 n = first_group n / 512 == 126 || first_group n / 64 == 1018

abbrev pub is_special : Addr → Bool
is_special a =
    not (addr_is_valid a)
    || is_unspecified a
    || is_loopback a
    || is_multicast a
    || is_link_local_multicast a
    || is_interface_local_multicast a

abbrev pub is_local : Addr → Bool
is_local no_addr = false
is_local (v4 n) = local4 n
is_local (v6 n z) = local6 n

unfoldable pub device_destination : Addr → Bool
device_destination a = if is_special (unmap a) then false else is_local (unmap a)

unfoldable pub all_devices_from : List Addr → Bool
all_devices_from [] = true
all_devices_from (a ∷ as') =
    let rest = all_devices_from as' in if device_destination a then rest else false

unfoldable pub all_device_destinations : List Addr → Bool
all_device_destinations [] = false
all_device_destinations (a ∷ as') = all_devices_from (a ∷ as')

router_test : device_destination (v4 0xc0a80101) ≡ true
unfolding device_destination
router_test = refl

metadata_test : device_destination (v4 0xa9fea9fe) ≡ false
unfolding device_destination
metadata_test = refl

mapped_test : device_destination (v6 0xffff0a000001 []) ≡ true
unfolding device_destination
mapped_test = refl

local6_test : device_destination (v6 (0xfe80 * 65536 ^ 7 + 1) []) ≡ true
unfolding device_destination
local6_test = refl
