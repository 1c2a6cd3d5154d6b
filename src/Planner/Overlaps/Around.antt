-- ===== src/Planner/Overlaps/Around.antt =====
-- What the parents of a rule that is valid cover: names, or all the addresses that the rule routes.
use routevane.Common.{
  ℕ, ◌-◌, ltb, ◌≤◌, ◌<◌, ◌≡◌, refl, sym, ap, ◌∙◌, subst, true, false, arith, inl, inr, ◌⊎◌, In,
  Bool-cases, leb→le, ltb→lt, and-true, holds_sound,
}
use routevane.Common.Text.{Text}
use routevane.Netip.{
  Addr, no_addr, v4, v6, Prefix, addr_is_valid, has_zone, bit_len, bits, masked, prefix_from,
  contains, is_valid, Prefix-discrete,
}
use routevane.Netip.Print.{prefix_string}
use routevane.Domain.Kind.{
  RuleKind, domain_exact, domain_suffix, ipv4, ipv6, prefix4, prefix6, other_kind, is_domain,
  is_prefix,
}
use routevane.Domain.Rule.{RouteRule, rule_is_valid, rule_valid_for, prefix_is_normal}
use routevane.Planner.Overlaps.{
  Widths, overlap_key, network_key, network_kind, overlap_parents, rule_addr, within, widths_for,
}
use routevane.Planner.Overlaps.Parents.{
  IsAbove, parents_of_name, In-network_parents, Routes, family_masked, network_covers,
}

-- A key that covers a rule: of the suffix rule for its name or for one above, or of a network that
-- contains each address without a zone that the rule routes.
pub data Covers (r : RouteRule) (key : Text) : Type 0 where
  by_name :
      (a : Text)
      → is_domain r.kind ≡ true
      → key ≡ overlap_key domain_suffix a
      → (a ≡ r.domain) ⊎ IsAbove a r.domain
      → Covers r key
  by_network :
      (p : Prefix)
      → is_domain r.kind ≡ false
      → key ≡ overlap_key (network_kind p.addr) (prefix_string p)
      → ((x : Addr) → Routes r x → has_zone x ≡ false → contains p x ≡ true)
      → Covers r key

-- A prefix that is its own mask has no zone, and is no longer than its address.
masked-Fits :
    (p : Prefix)
    → is_valid p ≡ true
    → p ≡ masked p
    → (addr_is_valid p.addr ≡ true) × (has_zone p.addr ≡ false) × (bits p ≤ bit_len p.addr)
masked-Fits p v e = of_addr p.addr p.bits_plus_one v e
  where
    of_addr :
        (a : Addr) (b : ℕ)
        → ltb 0 b ≡ true
        → record { addr = a; bits_plus_one = b } ≡ masked (record { addr = a; bits_plus_one = b })
        → (addr_is_valid a ≡ true) × (has_zone a ≡ false) × (b - 1 ≤ bit_len a)
    of_addr no_addr b v e = let same = ap (λ q. q.bits_plus_one) e in absurd (ground arith)
    of_addr (v4 n) b v e = let same = ap (λ q. q.bits_plus_one) e in (refl, refl, ground arith)
    of_addr (v6 n z) b v e =
        let same = ap (λ q. q.bits_plus_one) e in
        let zone = ap (λ q. has_zone q.addr) e in (refl, ground arith, ground arith)

-- What a valid rule of no name has for an address.
record AddrFacts (r : RouteRule) : Type 0 where
  pub valid : addr_is_valid (rule_addr r) ≡ true
  pub of_prefix :
      is_prefix r.kind ≡ true
      → (has_zone r.prefix.addr ≡ false) × (bits r.prefix ≤ bit_len r.prefix.addr)

normal-Fits :
    (p : Prefix)
    → prefix_is_normal p ≡ true
    → (addr_is_valid p.addr ≡ true) × (has_zone p.addr ≡ false) × (bits p ≤ bit_len p.addr)
unfolding Prefix-discrete
normal-Fits p h =
    let (h, same) = and-true _ _ h in
    let (v, other) = and-true _ _ h in
    masked-Fits p v (holds_sound (Prefix-discrete p (masked p)) same)

valid-AddrFacts : (r : RouteRule) → rule_is_valid r ≡ true → is_domain r.kind ≡ false → AddrFacts r
unfolding rule_is_valid
valid-AddrFacts r v d = of_kind r.kind refl (and-true _ _ v).1
  where
    of_network : is_prefix r.kind ≡ true → prefix_is_normal r.prefix ≡ true → AddrFacts r
    of_network k n =
        let (valid, zone, fits) = normal-Fits r.prefix n in
        record { valid = rw k valid; of_prefix = λ t. (zone, fits) }

    of_address : is_prefix r.kind ≡ false → addr_is_valid r.addr ≡ true → AddrFacts r
    of_address k n = record { valid = rw k n; of_prefix = λ t. cc }

    of_kind : (k : RuleKind) → r.kind ≡ k → rule_valid_for r.kind r ≡ true → AddrFacts r
    of_kind domain_exact e h = cc (rw e at d)
    of_kind domain_suffix e h = cc (rw e at d)
    of_kind ipv4 e h = of_address (ap is_prefix e) (and-true _ _ (and-true _ _ (rw e at h)).0).0
    of_kind ipv6 e h = of_address (ap is_prefix e) (and-true _ _ (and-true _ _ (rw e at h)).0).0
    of_kind prefix4 e h = of_network (ap is_prefix e) (and-true _ _ (rw e at h)).0
    of_kind prefix6 e h = of_network (ap is_prefix e) (and-true _ _ (rw e at h)).0
    of_kind (other_kind t) e h = cc (rw e at h)

within_le : (r : RouteRule) (b : ℕ) → AddrFacts r → within r b ≡ true → b ≤ bit_len (rule_addr r)
within_le r b f h = elim (Bool-cases (is_prefix r.kind)) [
  | inr k ↦ rw k (leb→le b (bit_len r.addr) (rw k at h))
  | inl k ↦
      let lt : b < bits r.prefix = ltb→lt b (bits r.prefix) (rw k at h) in
      let (zone, fits) = f.of_prefix k in rw k (omega arith)
]

no_zone :
    (r : RouteRule) (x : Addr)
    → AddrFacts r
    → Routes r x
    → has_zone x ≡ false
    → has_zone (rule_addr r) ≡ false
no_zone r x f (inl (k, e)) z = rw k (subst (λ a. has_zone a ≡ false) e z)
no_zone r x f (inr (k, e)) z = rw k (f.of_prefix k).0

-- Each parent of a valid rule covers it.
pub parents-Covers :
    (r : RouteRule) (w : Widths) (key : Text)
    → rule_is_valid r ≡ true
    → In key (overlap_parents r w)
    → Covers r key
unfolding overlap_parents network_key
parents-Covers r w key v i = elim (Bool-cases (is_domain r.kind)) [
  | inl d ↦ let (a, e, above) = parents_of_name r w key d i in by_name a d e above
  | inr d ↦
      let f = valid-AddrFacts r v d in
      let (b, e, fits) = In-network_parents r (widths_for (rule_addr r) w) key (rw d at i) in
      let p = masked (prefix_from (rule_addr r) b) in
      by_network p d
        (e
          ∙ ap (λ k. overlap_key k (prefix_string p))
              (sym (family_masked (rule_addr r) b f.valid (within_le r b f fits))))
        (λ x route z.
          (network_covers r b x (λ k. (f.of_prefix k).1) fits f.valid (no_zone r x f route z)
            route).1)
]
