-- ===== src/Netpolicy/Device/Local.antt =====
-- No address of a device is a destination that may be routed to, or one that is public.
use routevane.Common.{
  ℕ, ◌+◌, ◌-◌, ◌*◌, ◌/◌, ◌^◌, ◌<◌, ◌≤◌, ltb, ◌≡◌, refl, subst, Bool, true, false, ◌&&◌, not, [],
  any, any-In_intro, In, arith, inl, inr, ◌⊎◌, Bool-cases,
}
use routevane.Netip.{
  Addr, no_addr, v4, v6, Prefix, bit_len, value, unmap, without_zone, contains, addr_is_valid,
  prefix_from,
}
use routevane.Netpolicy.{
  excluded_destinations, routable_destination, public_unicast, plain, net4, net6,
}
use routevane.Netpolicy.Device.{
  octet, first_group, local4, local6, is_special, is_local, device_destination,
}

abbrev excluded : Addr → Bool
excluded a = any (λ e. contains e a) excluded_destinations

-- The range of an address of a device, by its octets.
abbrev Range4 : ℕ → Type 0
Range4 n =
    (octet n 3 ≡ 10)
    ⊎ (((octet n 3 ≡ 172) × (16 ≤ octet n 2) × (octet n 2 ≤ 31))
        ⊎ (((octet n 3 ≡ 192) × (octet n 2 ≡ 168)) ⊎ ((octet n 3 ≡ 169) × (octet n 2 ≡ 254))))

local4-Range4 : (n : ℕ) → local4 n ≡ true → Range4 n
local4-Range4 n k = ground arith

octets :
    (n : ℕ) → n < 2 ^ 32 → (n / 2 ^ 24 ≡ octet n 3) × (n / 2 ^ 16 ≡ octet n 3 * 256 + octet n 2)
octets n h = (omega arith, omega arith)

contains4 :
    (v b n : ℕ)
    → ltb 32 b ≡ false
    → v / 2 ^ (32 - b) ≡ n / 2 ^ (32 - b)
    → contains (prefix_from (v4 v) b) (v4 n) ≡ true
contains4 v b n f e = ground arith

by_entry :
    (e : Prefix) (a : Addr) → In e excluded_destinations → contains e a ≡ true → excluded a ≡ true
by_entry e a i c = any-In_intro (λ d. contains d a) e excluded_destinations i c

Range4-excluded : (n : ℕ) → n < 2 ^ 32 → Range4 n → excluded (v4 n) ≡ true
Range4-excluded n h r =
    let (high, two) = octets n h in
    elim r [
      | inl ten ↦
          by_entry (net4 10 0 0 0 8) (v4 n) (inr (inl refl))
            (contains4 0x0a000000 8 n refl (omega arith))
      | inr (inl (a, b, c)) ↦
          by_entry (net4 172 16 0 0 12) (v4 n) (inr (inr (inr (inr (inr (inl refl))))))
            (contains4 0xac100000 12 n refl (omega arith))
      | inr (inr (inl (a, b))) ↦
          by_entry (net4 192 168 0 0 16) (v4 n) (inr (inr (inr (inr (inr (inr (inr (inl refl))))))))
            (contains4 0xc0a80000 16 n refl (omega arith))
      | inr (inr (inr (a, b))) ↦
          by_entry (net4 169 254 0 0 16) (v4 n) (inr (inr (inr (inr (inl refl)))))
            (contains4 0xa9fe0000 16 n refl (omega arith))
    ]

contains6 :
    (v b n : ℕ)
    → ltb 128 b ≡ false
    → v / 2 ^ (128 - b) ≡ n / 2 ^ (128 - b)
    → contains (prefix_from (v6 v []) b) (v6 n []) ≡ true
contains6 v b n f e = ground arith

local6_excluded : (n : ℕ) → n < 2 ^ 128 → local6 n ≡ true → excluded (v6 n []) ≡ true
local6_excluded n h k =
    let group : n / 2 ^ 112 ≡ first_group n = omega arith in
    elim (split k) [
      | inl private ↦
          by_entry (net6 0xfc00 0 0 7) (v6 n [])
            (inr (
              inr (
                inr (
                  inr (
                    inr (
                      inr (
                        inr (
                          inr (
                            inr (
                              inr (
                                inr (
                                  inr
                                    (inr (inr (inr (inr (inr (inr (inr (inl refl))))))))))))))))))))
            (contains6 (0xfc00 * 65536 ^ 7) 7 n refl (omega arith))
      | inr link ↦
          by_entry (net6 0xfe80 0 0 10) (v6 n [])
            (inr (
              inr (
                inr (
                  inr (
                    inr (
                      inr (
                        inr (
                          inr (
                            inr (
                              inr (
                                inr (
                                  inr (
                                    inr (
                                      inr
                                        (inr (inr (inr (inr (inr (inr (inl refl)))))))))))))))))))))
            (contains6 (0xfe80 * 65536 ^ 7) 10 n refl (omega arith))
    ]
  where
    split : local6 n ≡ true → (first_group n / 512 ≡ 126) ⊎ (first_group n / 64 ≡ 1018)
    split k' = ground arith

-- An address that is no IPv4-mapped form, and its plain form.
local_excluded :
    (a : Addr) → value a < 2 ^ bit_len a → is_local a ≡ true → excluded (without_zone a) ≡ true
local_excluded no_addr h k = cc
local_excluded (v4 n) h k = Range4-excluded n h (local4-Range4 n k)
local_excluded (v6 n z) h k = local6_excluded n h k

plain_form : (a : Addr) → without_zone (unmap a) ≡ plain a
plain_form no_addr = refl
plain_form (v4 n) = refl
plain_form (v6 n z) = ground arith

unmap_range : (a : Addr) → value a < 2 ^ bit_len a → value (unmap a) < 2 ^ bit_len (unmap a)
unmap_range no_addr h = h
unmap_range (v4 n) h = h
unmap_range (v6 n z) h = ground arith

local_of_device : (a : Addr) → device_destination a ≡ true → is_local (unmap a) ≡ true
unfolding device_destination
local_of_device a h = elim (Bool-cases (is_special (unmap a))) [
  | inl special ↦ absurd (cc (rw special at h))
  | inr plain_one ↦ rw plain_one at h
]

-- An address of a device, in the range of its family, is no destination that may be routed to, and
-- none that may be contacted as public.
pub device_not_routable :
    (a : Addr)
    → value a < 2 ^ bit_len a
    → device_destination a ≡ true
    → (routable_destination a ≡ false) × (public_unicast a ≡ false)
unfolding routable_destination public_unicast
device_not_routable a h d =
    let bad : excluded (plain a) ≡ true =
      subst (λ b. excluded b ≡ true) (plain_form a)
        (local_excluded (unmap a) (unmap_range a h) (local_of_device a d)) in
    (
      refused (addr_is_valid (plain a)) (excluded (plain a)) bad,
      refused_too (addr_is_valid (plain a)) (excluded (plain a)) _ bad,
    )
  where
    refused : (v e : Bool) → e ≡ true → (v && not e) ≡ false
    refused v e t = ground arith

    refused_too : (v e b : Bool) → e ≡ true → ((v && not e) && not b) ≡ false
    refused_too v e b t = ground arith
