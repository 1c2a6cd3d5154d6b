-- ===== src/Planner/Overlaps/Parents.antt =====
-- What the parents of a destination are: names above a name, and networks around an address.
use routevane.Common.{
  ℕ, ◌≤◌, ◌<◌, ◌≡◌, refl, sym, ap, ◌∙◌, subst, true, false, List, [], ◌∷◌, ◌++◌, map, arith, inl,
  inr, ◌⊎◌, In, Bool-cases, ◌==◌, leb→le, ltb→lt,
}
use routevane.Common.Text.{Text}
use routevane.Netip.{
  Addr, no_addr, v4, v6, Prefix, addr_is_valid, has_zone, bit_len, bits, masked, prefix_from,
  contains,
}
use routevane.Netip.Print.{prefix_string}
use routevane.Netip.Wider.{contains-masked, bits-masked, contains_wider}
use routevane.Domain.Kind.{domain_exact, domain_suffix, is_domain, is_prefix, RuleKind}
use routevane.Domain.Rule.{RouteRule}
use routevane.Planner.Overlaps.{
  Widths, overlap_key, ancestors, suffix_key, domain_parents, network_parents, network_key,
  network_kind, overlap_parents, rule_addr, within, widths_for,
}

-- A name that stands above another: what follows one of its dots.
abbrev pub IsAbove : Text → Text → Type 0
IsAbove a d = (s : Text) × (d ≡ s ++ b'.' ∷ a)

ancestors-IsAbove : (d a : Text) → In a (ancestors d) → IsAbove a d
unfolding ancestors
ancestors-IsAbove [] a h = absurd h
ancestors-IsAbove (c ∷ s) a h = elim (Bool-cases (c == b'.')) [
  | inr other ↦ let (t, e) = ancestors-IsAbove s a (rw other at h) in (c ∷ t, ap (◌∷◌ c) e)
  | inl dot ↦ elim (dotted (rw dot at h)) [
    | inl e ↦ ([], ap₂-cons (is_dot dot) (sym e))
    | inr i ↦ let (t, e) = ancestors-IsAbove s a i in (c ∷ t, ap (◌∷◌ c) e)
  ]
]
  where
    dotted : In a (s ∷ ancestors s) → (a ≡ s) ⊎ In a (ancestors s)
    dotted h = h

    is_dot : (c == b'.') ≡ true → c ≡ b'.'
    is_dot h = ground arith

    ap₂-cons : {c' : ℕ} {s' : Text} → c ≡ c' → s ≡ s' → c ∷ s ≡ c' ∷ s'
    ap₂-cons e f = cc

In-map_suffix :
    (ds : List Text) (key : Text)
    → In key (map suffix_key ds)
    → (a : Text) × In a ds × (key ≡ suffix_key a)
In-map_suffix [] key h = absurd h
In-map_suffix (d ∷ ds) key (inl e) = (d, inl refl, e)
In-map_suffix (d ∷ ds) key (inr i) = let (a, j, e) = In-map_suffix ds key i in (a, inr j, e)

-- A parent of a name is a suffix rule, for the name itself or for one above it.
pub parents_of_name :
    (r : RouteRule) (w : Widths) (key : Text)
    → is_domain r.kind ≡ true
    → In key (overlap_parents r w)
    → (a : Text) × (key ≡ overlap_key domain_suffix a) × ((a ≡ r.domain) ⊎ IsAbove a r.domain)
unfolding overlap_parents domain_parents
parents_of_name r w key d h = of_kind r.kind (rw d at h)
  where
    above :
        In key (map suffix_key (ancestors r.domain))
        → (a : Text) × (key ≡ overlap_key domain_suffix a) × ((a ≡ r.domain) ⊎ IsAbove a r.domain)
    above i =
        let (a, j, e) = In-map_suffix (ancestors r.domain) key i in
        (a, e, inr (ancestors-IsAbove r.domain a j))

    of_kind :
        (k : RuleKind)
        → In key (elim k [
          | domain_exact ↦ suffix_key r.domain ∷ map suffix_key (ancestors r.domain)
          | _ ↦ map suffix_key (ancestors r.domain)
        ])
        → (a : Text) × (key ≡ overlap_key domain_suffix a) × ((a ≡ r.domain) ⊎ IsAbove a r.domain)
    of_kind domain_exact (inl e) = (r.domain, e, inl refl)
    of_kind domain_exact (inr i) = above i
    of_kind _ i = above i

pub In-network_parents :
    (r : RouteRule) (bs : List ℕ) (key : Text)
    → In key (network_parents r bs)
    → (b : ℕ) × (key ≡ network_key (rule_addr r) b) × (within r b ≡ true)
unfolding network_parents
In-network_parents r [] key h = absurd h
In-network_parents r (b ∷ bs) key h = elim (Bool-cases (within r b)) [
  | inr out ↦ In-network_parents r bs key (rw out at h)
  | inl fits ↦ elim (split (rw fits at h)) [
    | inl e ↦ (b, e, fits)
    | inr i ↦ In-network_parents r bs key i
  ]
]
  where
    split :
        In key (network_key (rule_addr r) b ∷ network_parents r bs)
        → (key ≡ network_key (rule_addr r) b) ⊎ In key (network_parents r bs)
    split h = h

-- An address that a rule of an address or a network routes.
abbrev pub Routes : RouteRule → Addr → Type 0
Routes r x =
    ((is_prefix r.kind ≡ false) × (x ≡ r.addr))
    ⊎ ((is_prefix r.kind ≡ true) × (contains r.prefix x ≡ true))

pub family_masked :
    (a : Addr) (b : ℕ)
    → addr_is_valid a ≡ true
    → b ≤ bit_len a
    → network_kind (masked (prefix_from a b)).addr ≡ network_kind a
family_masked no_addr b v h = cc
family_masked (v4 n) b v h = ground arith
family_masked (v6 n t) b v h = ground arith

-- The network that a parent of a rule names.
pub network_covers :
    (r : RouteRule) (b : ℕ) (x : Addr)
    → (is_prefix r.kind ≡ true → bits r.prefix ≤ bit_len r.prefix.addr)
    → within r b ≡ true
    → addr_is_valid (rule_addr r) ≡ true
    → has_zone (rule_addr r) ≡ false
    → Routes r x
    → (b ≤ bit_len (rule_addr r)) × (contains (masked (prefix_from (rule_addr r) b)) x ≡ true)
network_covers r b x p fits v z (inl (k, e)) =
    let le : b ≤ bit_len r.addr = leb→le b (bit_len r.addr) (rw k at fits) in
    let inside : contains (masked (prefix_from r.addr b)) r.addr ≡ true =
      contains-masked r.addr b (rw k at z) (rw k at v) le in
    rw k (le, subst (λ y. contains (masked (prefix_from r.addr b)) y ≡ true) (sym e) inside)
network_covers r b x p fits v z (inr (k, e)) =
    let a = r.prefix.addr in
    let lt : b < bits r.prefix = ltb→lt b (bits r.prefix) (rw k at fits) in
    let short : bits r.prefix ≤ bit_len a = p k in
    let le : b ≤ bit_len a = omega arith in
    let valid : addr_is_valid a ≡ true = rw k at v in
    let wide : bits (masked (prefix_from a b)) ≤ bits r.prefix =
      subst (λ n. n ≤ bits r.prefix) (sym (bits-masked a b valid le)) (omega arith) in
    rw k (
      le,
      contains_wider (masked (prefix_from a b)) r.prefix x wide
          (contains-masked a b (rw k at z) valid le) e,
    )

-- A parent of a rule of an address or a network, of an address that is valid and has no zone, is a
-- network that contains each address that the rule routes, where the rule's prefix is no longer than
-- its address.
pub parents_cover_addresses :
    (r : RouteRule) (w : Widths) (key : Text) (x : Addr)
    → is_domain r.kind ≡ false
    → addr_is_valid (rule_addr r) ≡ true
    → has_zone (rule_addr r) ≡ false
    → bits r.prefix ≤ bit_len r.prefix.addr
    → Routes r x
    → In key (overlap_parents r w)
    → (p : Prefix) × (key ≡ overlap_key (network_kind p.addr) (prefix_string p))
      × (contains p x ≡ true)
unfolding overlap_parents network_key
parents_cover_addresses r w key x d v z fits route i =
    let (b, e, inside) = In-network_parents r (widths_for (rule_addr r) w) key (rw d at i) in
    let (le, c) = network_covers r b x (λ k. fits) inside v z route in
    let p = masked (prefix_from (rule_addr r) b) in
    (p, e ∙ ap (λ k. overlap_key k (prefix_string p)) (sym (family_masked (rule_addr r) b v le)), c)
