-- ===== src/Netip/Wider.antt =====
-- The networks around an address or a network.
use native.Mathlib.Nat.{one-le-pow, mul-div_left}
use routevane.Common.{ℕ, ◌-◌, ◌/◌, ◌^◌, ◌≤◌, ◌<◌, ◌≡◌, ◌∙◌, subst, true, false, arith}
use routevane.Netip.{
  Addr, no_addr, v4, v6, Prefix, bit_len, value, addr_is_valid, has_zone, bits, contains, masked,
  prefix_from,
}
use routevane.Netip.Masks.{shorter, contains_high, contains_intro}

-- A prefix made of an address, with its other bits cleared, contains the address.
pub contains-masked :
    (a : Addr) (b : ℕ)
    → has_zone a ≡ false
    → addr_is_valid a ≡ true
    → b ≤ bit_len a
    → contains (masked (prefix_from a b)) a ≡ true
contains-masked no_addr b z v h = cc
contains-masked (v4 n) b z v h =
    let p : 0 < 2 ^ (32 - b) = one-le-pow (32 - b) 2 (omega arith) in
    ground (arith, mul-div_left (n / 2 ^ (32 - b)) p)
contains-masked (v6 n t) b z v h =
    let p : 0 < 2 ^ (128 - b) = one-le-pow (128 - b) 2 (omega arith) in
    ground (arith, mul-div_left (n / 2 ^ (128 - b)) p)

pub bits-masked :
    (a : Addr) (b : ℕ)
    → addr_is_valid a ≡ true
    → b ≤ bit_len a
    → bits (masked (prefix_from a b)) ≡ b
bits-masked no_addr b v h = cc
bits-masked (v4 n) b v h = ground arith
bits-masked (v6 n t) b v h = ground arith

-- A wider prefix that contains the start of a prefix contains what the prefix contains.
pub contains_wider :
    (p q : Prefix) (a : Addr)
    → bits p ≤ bits q
    → contains p q.addr ≡ true
    → contains q a ≡ true
    → contains p a ≡ true
contains_wider p q a le h k =
    let (lp, _, vp, hp) = contains_high p q.addr h in
    let (lq, pos, vq, hq) = contains_high q a k in
    contains_intro p a vp (ground arith) (ground arith) (lp ∙ lq) (
      subst (λ n. value p.addr / 2 ^ (n - bits p) ≡ value q.addr / 2 ^ (n - bits p)) lq hp
      ∙ shorter (bit_len a) (bits q) (bits p) (value q.addr) (value a) le hq)
