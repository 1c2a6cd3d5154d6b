-- ===== src/Examples/Netpolicy.antt =====
-- The theorems on prefixes and the addresses that they cover at concrete inputs.
use routevane.Netpolicy.Device.Url.{DeviceUrl, validate_device_url, parse_zoned_addr}
use routevane.Netip.Parse.{parse_addr, quad_from, groups_from}
use routevane.Common.Text.{Text, codes, Text-discrete}
use routevane.Common.{none, some, Option, Bool, true, false, [], ◌≡◌, refl, arith}
use routevane.Netip.{
  Addr, v4, Prefix, prefix_from, is4_in6, contains, overlaps, Addr-discrete, Prefix-discrete,
}
use routevane.Netip.Masks.{IsProper}
use routevane.Netpolicy.Device.{device_destination}
use routevane.Netpolicy.{routable_destination, routable_prefix}
use routevane.Netpolicy.Cover.{routable_prefix_sound, routable_prefix_complete}
use routevane.Examples.{public_addr, public_prefix}

public_is_routable : routable_prefix public_prefix ≡ true
unfolding routable_prefix overlaps Addr-discrete Prefix-discrete
public_is_routable = refl

public_contains : contains public_prefix public_addr ≡ true
public_contains = refl

routable_prefix_sound_example : routable_destination public_addr ≡ true
routable_prefix_sound_example =
    routable_prefix_sound public_prefix public_addr refl refl public_is_routable public_contains

-- 8.0.0.0/4, which holds 10.0.0.0/8.
abbrev wide : Prefix
wide = prefix_from (v4 0x08000000) 4

wide_is_refused : routable_prefix wide ≡ false
unfolding routable_prefix overlaps Addr-discrete Prefix-discrete
wide_is_refused = refl

wide-IsProper : IsProper wide
wide-IsProper = record {
  valid_bits = refl;
  valid_addr = refl;
  no_zone = refl;
  fits = omega arith;
  in_range = omega arith;
}

routable_prefix_complete_example :
    (a : Addr) × (contains wide a ≡ true) × (is4_in6 a ≡ false) × (routable_destination a ≡ false)
routable_prefix_complete_example = routable_prefix_complete wide wide-IsProper refl wide_is_refused

-- 192.168.1.1
abbrev router : Addr
router = v4 0xc0a80101

router_is_device : device_destination router ≡ true
unfolding device_destination
router_is_device = refl

-- A parser that reads one host.
abbrev host_url : Text → Text → Option DeviceUrl
host_url host raw = some record {
  scheme = codes "http";
  has_user = false;
  opaque = [];
  fragment = [];
  raw_query = [];
  path = [];
  hostname = host;
}

abbrev is_accepted : Option DeviceUrl → Bool
is_accepted none = false
is_accepted (some u) = true

device_url_is_accepted :
    is_accepted (validate_device_url (host_url (codes "192.168.1.1")) (codes "http://192.168.1.1"))
    ≡ true
unfolding validate_device_url parse_zoned_addr parse_addr quad_from groups_from device_destination
    Text-discrete
device_url_is_accepted = refl

public_url_is_refused :
    is_accepted (validate_device_url (host_url (codes "8.8.8.8")) (codes "http://8.8.8.8")) ≡ false
unfolding validate_device_url parse_zoned_addr parse_addr quad_from groups_from device_destination
    Text-discrete
public_url_is_refused = refl

zoned_host_test :
    is_accepted
      (validate_device_url (host_url (codes "fe80::1%eth0")) (codes "http://[fe80::1%25eth0]"))
    ≡ true
unfolding validate_device_url parse_zoned_addr parse_addr quad_from groups_from device_destination
    Text-discrete
zoned_host_test = refl
