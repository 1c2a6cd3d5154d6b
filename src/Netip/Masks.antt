-- ===== src/Netip/Masks.antt =====
-- Prefixes that share an address overlap, and those that overlap share one.
use native.Mathlib.Nat.{
  div-div-eq-div-mul, pow-suc, add-suc, add-zero, mul_assoc, one-le-pow, mul-div_left, div-eq_of_lt,
  sub-zero,
}
use routevane.Common.{
  dec_le, ℕ, zero, suc, ◌+◌, ◌-◌, ◌*◌, ◌/◌, ◌^◌, ◌≤◌, ◌<◌, min, ◌≡◌, refl, sym, ap, ◌∙◌, subst,
  Bool, true, false, ◌&&◌, ◌||◌, not, arith, ◌==◌, holds, holds_sound, holds_complete, inl, inr,
  ◌⊎◌,
}
use routevane.Netip.{
  Addr, no_addr, v4, v6, Prefix, Addr-discrete, Prefix-discrete, bit_len, value, addr_is_valid, is4,
  has_zone, bits, is_valid, mask, contains, overlaps, addr_prefix, differ,
}

pow_add : (k d : ℕ) → 2 ^ (k + d) ≡ 2 ^ k * 2 ^ d
pow_add k zero = rw add-zero (omega arith)
pow_add k (suc d) = rw (add-suc, pow-suc, pow-suc) (rw (pow_add k d) (mul_assoc (2 ^ k) (2 ^ d) 2))

-- Numbers that agree in their high bits agree in fewer of them.
coarser : (k d x y : ℕ) → x / 2 ^ k ≡ y / 2 ^ k → x / 2 ^ (k + d) ≡ y / 2 ^ (k + d)
coarser k d x y h = rw (pow_add k d) (
    sym (div-div-eq-div-mul x (2 ^ k) (2 ^ d))
    ∙ ap (λ (t : ℕ). t / 2 ^ d) h
    ∙ div-div-eq-div-mul y (2 ^ k) (2 ^ d))

pub shorter :
    (w b c x y : ℕ) → c ≤ b → x / 2 ^ (w - b) ≡ y / 2 ^ (w - b) → x / 2 ^ (w - c) ≡ y / 2 ^ (w - c)
shorter w b c x y h e =
    let k : w - c ≡ (w - b) + ((w - c) - (w - b)) = omega arith in
    rw k (coarser (w - b) ((w - c) - (w - b)) x y e)

mask_of_high : (w b x y : ℕ) → x / 2 ^ (w - b) ≡ y / 2 ^ (w - b) → mask w b x ≡ mask w b y
mask_of_high w b x y h = ap (λ (t : ℕ). t * 2 ^ (w - b)) h

high_of_mask : (w b x y : ℕ) → mask w b x ≡ mask w b y → x / 2 ^ (w - b) ≡ y / 2 ^ (w - b)
high_of_mask w b x y h =
    let p : 0 < 2 ^ (w - b) = one-le-pow (w - b) 2 (omega arith) in
    sym (mul-div_left (x / 2 ^ (w - b)) p)
    ∙ ap (λ (t : ℕ). t / 2 ^ (w - b)) h
    ∙ mul-div_left (y / 2 ^ (w - b)) p

-- Two numbers that agree with a third agree in the bits that both comparisons look at.
mask_common :
    (w b c x y z : ℕ)
    → x / 2 ^ (w - b) ≡ z / 2 ^ (w - b)
    → y / 2 ^ (w - c) ≡ z / 2 ^ (w - c)
    → mask w (min b c) x ≡ mask w (min b c) y
mask_common w b c x y z h k =
    mask_of_high w (min b c) x y
      (shorter w b (min b c) x z (omega arith) h ∙ sym (shorter w c (min b c) y z (omega arith) k))

-- The test of `contains` for one family, as an equation.
pub contains_high :
    (p : Prefix) (a : Addr)
    → contains p a ≡ true
    → (bit_len p.addr ≡ bit_len a)
      × (0 < bit_len a)
      × (is_valid p ≡ true)
      × (value p.addr / 2 ^ (bit_len a - bits p) ≡ value a / 2 ^ (bit_len a - bits p))
contains_high p a h = ground arith

start_of_mask :
    (p q : Prefix) (b : ℕ)
    → bit_len p.addr ≡ bit_len q.addr
    → mask (bit_len p.addr) b (value p.addr) ≡ mask (bit_len p.addr) b (value q.addr)
    → (addr_prefix p.addr b).addr ≡ (addr_prefix q.addr b).addr
start_of_mask p q b e h = ground arith

family_of_len : (a b : Addr) → bit_len a ≡ bit_len b → is4 a ≡ is4 b
family_of_len no_addr b h = ground arith
family_of_len (v4 n) b h = ground arith
family_of_len (v6 n z) b h = ground arith

overlaps_intro :
    (p q : Prefix)
    → is_valid p ≡ true
    → is_valid q ≡ true
    → is4 p.addr ≡ is4 q.addr
    → (addr_prefix p.addr (min (bits p) (bits q))).addr
      ≡ (addr_prefix q.addr (min (bits p) (bits q))).addr
    → overlaps p q ≡ true
unfolding overlaps
overlaps_intro p q vp vq f e =
    rw (vp, vq, f, holds_complete (Addr-discrete _ _) e) (go (is4 q.addr) _ _)
  where
    go : (b c d : Bool) → (c || not (differ b b) && (d || true)) ≡ true
    go b c d = ground arith

-- Two prefixes that contain one address overlap.
pub overlaps_of_contains :
    (p q : Prefix) (a : Addr) → contains p a ≡ true → contains q a ≡ true → overlaps p q ≡ true
overlaps_of_contains p q a h k =
    let (lp, pos, vp, hp) = contains_high p a h in
    let (lq, _, vq, hq) = contains_high q a k in
    let len : bit_len p.addr ≡ bit_len q.addr = lp ∙ sym lq in
    overlaps_intro p q vp vq (family_of_len p.addr q.addr len) (
      start_of_mask p q (min (bits p) (bits q)) len
        (rw lp (mask_common (bit_len a) (bits p) (bits q) _ _ _ hp hq)))

-- A prefix as `PrefixFrom` makes it of an address in range.
pub record IsProper (p : Prefix) : Type 0 where
  pub valid_bits : is_valid p ≡ true
  pub valid_addr : addr_is_valid p.addr ≡ true
  pub no_zone : has_zone p.addr ≡ false
  pub fits : bits p ≤ bit_len p.addr
  pub in_range : value p.addr < 2 ^ bit_len p.addr

pub contains_intro :
    (p : Prefix) (a : Addr)
    → is_valid p ≡ true
    → has_zone a ≡ false
    → addr_is_valid a ≡ true
    → bit_len p.addr ≡ bit_len a
    → value p.addr / 2 ^ (bit_len a - bits p) ≡ value a / 2 ^ (bit_len a - bits p)
    → contains p a ≡ true
contains_intro p a v z va l h = ground arith

-- A prefix contains its own address.
contains_self : (p : Prefix) → IsProper p → contains p p.addr ≡ true
contains_self p h = contains_intro p p.addr h.valid_bits h.no_zone h.valid_addr refl refl

len_of_family :
    (a b : Addr)
    → addr_is_valid a ≡ true
    → addr_is_valid b ≡ true
    → is4 a ≡ is4 b
    → bit_len a ≡ bit_len b
len_of_family no_addr b h k e = ground arith
len_of_family (v4 n) b h k e = ground arith
len_of_family (v6 n z) b h k e = ground arith

mask_of_start :
    (a b : Addr) (k : ℕ)
    → bit_len a ≡ bit_len b
    → k ≤ bit_len a
    → (addr_prefix a k).addr ≡ (addr_prefix b k).addr
    → mask (bit_len a) k (value a) ≡ mask (bit_len a) k (value b)
mask_of_start no_addr no_addr k l h e = refl
mask_of_start no_addr (v4 m) k l h e = ground arith
mask_of_start no_addr (v6 m y) k l h e = ground arith
mask_of_start (v4 n) no_addr k l h e = ground arith
mask_of_start (v4 n) (v4 m) k l h e = ground arith
mask_of_start (v4 n) (v6 m y) k l h e = ground arith
mask_of_start (v6 n z) no_addr k l h e = ground arith
mask_of_start (v6 n z) (v4 m) k l h e = ground arith
mask_of_start (v6 n z) (v6 m y) k l h e = ground arith

overlap_tests :
    (a b e d z s : Bool)
    → (a && b && (e || not d && (z || s))) ≡ true
    → (e ≡ true) ⊎ ((d ≡ false) × ((z ≡ true) ⊎ (s ≡ true)))
overlap_tests a b e d z s h = ground arith

same_of_differ : (f g : Bool) → differ f g ≡ false → f ≡ g
same_of_differ f g h = ground arith

-- Overlapping prefixes are equal, or of one family with one start at the shorter length.
overlaps_elim :
    (p q : Prefix)
    → overlaps p q ≡ true
    → (p ≡ q)
      ⊎ ((is4 p.addr ≡ is4 q.addr)
          × ((min (bits p) (bits q) ≡ 0)
              ⊎ ((addr_prefix p.addr (min (bits p) (bits q))).addr
                  ≡ (addr_prefix q.addr (min (bits p) (bits q))).addr)))
unfolding overlaps
overlaps_elim p q h =
    let m = min (bits p) (bits q) in
    let start = Addr-discrete (addr_prefix p.addr m).addr (addr_prefix q.addr m).addr in
    let tests =
      overlap_tests (is_valid p) (is_valid q) (holds (Prefix-discrete p q))
        (differ (is4 p.addr) (is4 q.addr)) (m == 0) (holds start) h in
    elim tests [
      | inl e ↦ inl (holds_sound (Prefix-discrete p q) e)
      | inr (d, inl z) ↦ inr (same_of_differ (is4 p.addr) (is4 q.addr) d, inl (ground arith))
      | inr (d, inr s) ↦ inr (same_of_differ (is4 p.addr) (is4 q.addr) d, inr (holds_sound start s))
    ]

-- Proper prefixes that overlap agree in the bits of the shorter.
high_of_overlap :
    (p q : Prefix)
    → IsProper p
    → IsProper q
    → overlaps p q ≡ true
    → (bit_len p.addr ≡ bit_len q.addr)
      × (value p.addr / 2 ^ (bit_len p.addr - min (bits p) (bits q))
          ≡ value q.addr / 2 ^ (bit_len p.addr - min (bits p) (bits q)))
high_of_overlap p q hp hq h = elim (overlaps_elim p q h) [
  | inl e ↦ (
    ap (λ (r : Prefix). bit_len r.addr) e,
    ap (λ (r : Prefix). value r.addr / 2 ^ (bit_len p.addr - min (bits p) (bits q))) e,
  )
  | inr (f, inl z) ↦
      let len = len_of_family p.addr q.addr hp.valid_addr hq.valid_addr f in
      (len, rw (z, sub-zero) (div-eq_of_lt hp.in_range ∙ sym (div-eq_of_lt (rw len hq.in_range))))
  | inr (f, inr s) ↦
      let len = len_of_family p.addr q.addr hp.valid_addr hq.valid_addr f in
      (
        len,
        high_of_mask (bit_len p.addr) (min (bits p) (bits q)) _ _
            (mask_of_start p.addr q.addr _ len (omega (arith, hp.fits)) s),
      )
]

-- Of two proper prefixes that overlap, each contains the address of the longer.
pub shared_address :
    (p q : Prefix)
    → IsProper p
    → IsProper q
    → overlaps p q ≡ true
    → (a : Addr) × (contains p a ≡ true) × (contains q a ≡ true) × ((a ≡ p.addr) ⊎ (a ≡ q.addr))
shared_address p q hp hq h =
    let (len, high) = high_of_overlap p q hp hq h in
    elim (dec_le (bits p) (bits q)) [
      | yes le ↦
          let e : min (bits p) (bits q) ≡ bits p = omega arith in
          (
            q.addr,
            contains_intro p q.addr hp.valid_bits hq.no_zone hq.valid_addr len (
                rw (← len) (
                  subst
                    (λ (k : ℕ).
                      value p.addr / 2 ^ (bit_len p.addr - k)
                      ≡ value q.addr / 2 ^ (bit_len p.addr - k))
                    e high)),
            contains_self q hq,
            inr refl,
          )
      | no gt ↦
          let e : min (bits p) (bits q) ≡ bits q = omega arith in
          (
            p.addr,
            contains_self p hp,
            contains_intro q p.addr hq.valid_bits hp.no_zone hp.valid_addr (sym len) (
                sym (
                  subst
                    (λ (k : ℕ).
                      value p.addr / 2 ^ (bit_len p.addr - k)
                      ≡ value q.addr / 2 ^ (bit_len p.addr - k))
                    e high)),
            inl refl,
          )
    ]
