-- ===== src/Netpolicy/Device/Url.antt =====
-- `ValidateDeviceURL` of internal/netpolicy/device.go.
use routevane.Common.{
  ◌==◌, [], ◌∷◌, Bool, false, ◌&&◌, ◌||◌, not, Option, none, some, leb, length, if◌then◌else◌,
}
use routevane.Common.Text.{Text, codes, text_eq, Text-discrete}
use routevane.Domain.Names.{is_empty, outer_space}
use routevane.Netip.{Addr, v6}
use routevane.Netip.Parse.{parse_addr}
use routevane.Netpolicy.Device.{device_destination}

-- What the code reads of a URL of net/url.
pub record DeviceUrl : Type 0 where
  pub scheme : Text
  pub has_user : Bool
  pub opaque : Text
  pub fragment : Text
  pub raw_query : Text
  pub path : Text
  pub hostname : Text

-- The parts before and after the first `%`.
abbrev cut_zone : Text → Option (Text × Text)
cut_zone [] = none
cut_zone (c ∷ s) =
    let rest = cut_zone s in
    if c == b'%' then some ([], s) else elim rest [ some (a, z) ↦ some (c ∷ a, z) | none ↦ none ]

-- Only an address of 128 bits has a zone, which is not empty.
abbrev with_zone : Option Addr → Text → Option Addr
with_zone (some (v6 n z)) (c ∷ zone) = some (v6 n (c ∷ zone))
with_zone _ _ = none

-- `ParseAddr` of a literal that may have a zone.
unfoldable pub parse_zoned_addr : Text → Option Addr
unfolding parse_addr
parse_zoned_addr s = elim (cut_zone s) [
  | none ↦ parse_addr s
  | some (a, zone) ↦ with_zone (parse_addr a) zone
]

abbrev pub is_device_host : Option Addr → Bool
is_device_host none = false
is_device_host (some a) = device_destination a

abbrev pub is_bare : DeviceUrl → Bool
is_bare u =
    not u.has_user
    && is_empty u.opaque
    && is_empty u.fragment
    && is_empty u.raw_query
    && (text_eq u.scheme (codes "http") || text_eq u.scheme (codes "https"))
    && (is_empty u.path || text_eq u.path (codes "/"))

abbrev pub checked_url : Option DeviceUrl → Option DeviceUrl
checked_url none = none
checked_url (some u) =
    if is_bare u && is_device_host (parse_zoned_addr u.hostname) then some u else none

-- `parse_url` is the `Parse` of net/url; every refusal is the same error.
unfoldable pub validate_device_url : (parse_url : Text → Option DeviceUrl) → Text → Option DeviceUrl
unfolding Text-discrete parse_zoned_addr device_destination
validate_device_url parse_url raw =
    if is_empty raw || not (leb (length raw) 512) || outer_space raw
    then none
    else checked_url (parse_url raw)
