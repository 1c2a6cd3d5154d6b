-- ===== src/Netpolicy/Cover.antt =====
-- `RoutablePrefix` against the addresses that a prefix covers.
use routevane.Common.{
  ◌≡◌, refl, sym, ap, ◌∙◌, Bool, true, false, ◌&&◌, not, [], ◌∷◌, arith, ltb, leb, ◌^◌, In, any,
  all, any-In, any-In_intro, all-In, Bool-cases, and-true, inl, inr,
}
use routevane.Netip.{
  Addr, no_addr, v4, v6, Prefix, addr_is_valid, is4_in6, has_zone, bit_len, value, bits, is_valid,
  contains, overlaps,
}
use routevane.Netip.Masks.{IsProper, overlaps_of_contains, shared_address}
use routevane.Netpolicy.{
  excluded_destinations, plain, routable_destination, routable_prefix, clear_of_excluded,
}

-- An address that is no IPv4-mapped form is judged as it is.
plain_self : (a : Addr) → has_zone a ≡ false → is4_in6 a ≡ false → plain a ≡ a
plain_self no_addr z m = refl
plain_self (v4 n) z m = refl
plain_self (v6 n []) z m = ground arith
plain_self (v6 n (c ∷ z)) h m = ground arith

contains_no_zone : (p : Prefix) (a : Addr) → contains p a ≡ true → has_zone a ≡ false
contains_no_zone p a h = ground arith

contains_valid : (p : Prefix) (a : Addr) → contains p a ≡ true → addr_is_valid a ≡ true
contains_valid p a h = ground arith

contains_valid_prefix : (p : Prefix) (a : Addr) → contains p a ≡ true → is_valid p ≡ true
contains_valid_prefix p a h = ground arith

not-true : (b : Bool) → not b ≡ true → b ≡ false
not-true b h = ground arith

not-false : (b : Bool) → not b ≡ false → b ≡ true
not-false b h = ground arith

is_excluded : Addr → Bool
is_excluded a = any (λ e. contains e a) excluded_destinations

destination_of_plain :
    (a : Addr)
    → addr_is_valid a ≡ true
    → has_zone a ≡ false
    → is4_in6 a ≡ false
    → routable_destination a ≡ not (is_excluded a)
unfolding routable_destination is_excluded
destination_of_plain a v z m = rw (plain_self a z m, v) refl

clear_of_routable :
    (p : Prefix)
    → is_valid p ≡ true
    → is4_in6 p.addr ≡ false
    → routable_prefix p ≡ clear_of_excluded p
unfolding routable_prefix
clear_of_routable p v m = rw (v, m) refl

overlaps_excluded :
    (p : Prefix) (a : Addr)
    → contains p a ≡ true
    → is_excluded a ≡ true
    → clear_of_excluded p ≡ false
unfolding is_excluded clear_of_excluded
overlaps_excluded p a c bad =
    let (e, i, ce) = any-In (λ e. contains e a) excluded_destinations bad in
    ap not
      (any-In_intro (λ e. overlaps p e) e excluded_destinations i (overlaps_of_contains p e a c ce))

-- Every address that a routable prefix covers is a routable destination, where neither is an
-- IPv4-mapped form.
pub routable_prefix_sound :
    (p : Prefix) (a : Addr)
    → is4_in6 p.addr ≡ false
    → is4_in6 a ≡ false
    → routable_prefix p ≡ true
    → contains p a ≡ true
    → routable_destination a ≡ true
routable_prefix_sound p a mp ma h c =
    destination_of_plain a (contains_valid p a c) (contains_no_zone p a c) ma
    ∙ elim (Bool-cases (is_excluded a)) [
      | inr clear ↦ ap not clear
      | inl bad ↦
          absurd
            (cc (overlaps_excluded p a c bad, clear_of_routable p (contains_valid_prefix p a c) mp))
    ]

abbrev is_proper : Prefix → Bool
is_proper p =
    is_valid p
    && addr_is_valid p.addr
    && not (has_zone p.addr)
    && leb (bits p) (bit_len p.addr)
    && ltb (value p.addr) (2 ^ bit_len p.addr)

IsProper-of_test : (p : Prefix) → is_proper p ≡ true → IsProper p
IsProper-of_test p h = ground arith

abbrev table_test : Prefix → Bool
table_test e = is_proper e && not (is4_in6 e.addr)

table_checked : all table_test excluded_destinations ≡ true
table_checked = refl

table-IsProper : (e : Prefix) → In e excluded_destinations → IsProper e
table-IsProper e i =
    IsProper-of_test e
      (and-true (is_proper e) _ (all-In table_test e excluded_destinations table_checked i)).0

table_not_mapped : (e : Prefix) → In e excluded_destinations → is4_in6 e.addr ≡ false
table_not_mapped e i =
    not-true (is4_in6 e.addr)
      (and-true (is_proper e) _ (all-In table_test e excluded_destinations table_checked i)).1

not_destination :
    (p e : Prefix) (a : Addr)
    → In e excluded_destinations
    → contains p a ≡ true
    → contains e a ≡ true
    → is4_in6 a ≡ false
    → routable_destination a ≡ false
unfolding is_excluded
not_destination p e a i cp ce m =
    destination_of_plain a (contains_valid p a cp) (contains_no_zone p a cp) m
    ∙ ap not (any-In_intro (λ e. contains e a) e excluded_destinations i ce)

-- A proper prefix that is refused covers an address that is no routable destination.
pub routable_prefix_complete :
    (p : Prefix)
    → IsProper p
    → is4_in6 p.addr ≡ false
    → routable_prefix p ≡ false
    → (a : Addr) × (contains p a ≡ true) × (is4_in6 a ≡ false) × (routable_destination a ≡ false)
unfolding clear_of_excluded
routable_prefix_complete p hp mp h =
    let refused : clear_of_excluded p ≡ false = sym (clear_of_routable p hp.valid_bits mp) ∙ h in
    let (e, i, o) = any-In (λ e. overlaps p e) excluded_destinations (not-false _ refused) in
    let (a, cp, ce, which) = shared_address p e hp (table-IsProper e i) o in
    let m : is4_in6 a ≡ false = elim which [
      | inl same ↦ ap is4_in6 same ∙ mp
      | inr same ↦ ap is4_in6 same ∙ table_not_mapped e i
    ] in
    (a, cp, m, not_destination p e a i cp ce m)
