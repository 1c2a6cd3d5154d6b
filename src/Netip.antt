-- ===== src/Netip.antt =====
-- The part of Go's net/netip that the program uses: addresses, prefixes, masks and containment.
pub mod Print
pub mod Parse
pub mod Masks
pub mod Wider
use routevane.Common.{
  ℕ, suc, ◌-◌, ◌/◌, ◌%◌, ◌*◌, ◌^◌, min, Bool, true, false, ◌&&◌, ◌||◌, not, List, [], ◌∷◌, Option,
  none, some, ltb, leb, ◌==◌, if◌then◌else◌, holds, ℕ_discrete,
}
use routevane.Common.Text.{Text}

-- The zero `Addr`, an IPv4 address of 32 bits, and an IPv6 address of 128 bits with its zone.
pub data Addr : Type 0 where
  no_addr : Addr
  v4 : ℕ → Addr
  v6 : ℕ → Text → Addr

-- `bits_plus_one` is 0 in an invalid prefix, as in the library.
pub record Prefix : Type 0 where
  pub addr : Addr
  pub bits_plus_one : ℕ

unfoldable pub Addr-discrete : Discrete Addr
unfolding ℕ_discrete
Addr-discrete = hlevel ℕ_discrete

unfoldable pub Prefix-discrete : Discrete Prefix
unfolding ℕ_discrete
Prefix-discrete = hlevel ℕ_discrete

abbrev pub bit_len : Addr → ℕ
bit_len no_addr = 0
bit_len (v4 n) = 32
bit_len (v6 n z) = 128

abbrev pub value : Addr → ℕ
value no_addr = 0
value (v4 n) = n
value (v6 n z) = n

abbrev pub addr_is_valid : Addr → Bool
addr_is_valid no_addr = false
addr_is_valid (v4 n) = true
addr_is_valid (v6 n z) = true

abbrev pub is4 : Addr → Bool
is4 (v4 n) = true
is4 _ = false

abbrev pub is6 : Addr → Bool
is6 (v6 n z) = true
is6 _ = false

-- `::ffff:a.b.c.d`
abbrev pub is4_in6 : Addr → Bool
is4_in6 (v6 n z) = n / 2 ^ 32 == 65535
is4_in6 _ = false

abbrev pub has_zone : Addr → Bool
has_zone (v6 n (c ∷ z)) = true
has_zone _ = false

-- `WithZone("")`
abbrev pub without_zone : Addr → Addr
without_zone (v6 n z) = v6 n []
without_zone a = a

abbrev pub unmap : Addr → Addr
unmap (v6 n z) = if n / 2 ^ 32 == 65535 then v4 (n % 2 ^ 32) else v6 n z
unmap a = a

abbrev pub bits : Prefix → ℕ
bits p = p.bits_plus_one - 1

abbrev pub is_valid : Prefix → Bool
is_valid p = ltb 0 p.bits_plus_one

abbrev pub no_prefix : Prefix
no_prefix = record { addr = no_addr; bits_plus_one = 0 }

-- `PrefixFrom`: a length that the address does not have gives an invalid prefix.
abbrev pub prefix_from : Addr → ℕ → Prefix
prefix_from a b = record {
  addr = without_zone a;
  bits_plus_one = if addr_is_valid a && leb b (bit_len a) then suc b else 0;
}

-- The first `b` of `w` bits of `n`, and the rest 0.
abbrev pub mask : ℕ → ℕ → ℕ → ℕ
mask w b n = n / 2 ^ (w - b) * 2 ^ (w - b)

-- `Addr.Prefix`, whose error is the zero prefix.
abbrev pub addr_prefix : Addr → ℕ → Prefix
addr_prefix no_addr b = no_prefix
addr_prefix (v4 n) b = if leb b 32 then prefix_from (v4 (mask 32 b n)) b else no_prefix
addr_prefix (v6 n z) b = if leb b 128 then prefix_from (v6 (mask 128 b n) []) b else no_prefix

-- An invalid prefix has -1 bits, which `Addr.Prefix` refuses.
abbrev pub masked : Prefix → Prefix
masked p = if is_valid p then addr_prefix p.addr (bits p) else no_prefix

abbrev pub contains : Prefix → Addr → Bool
contains p a =
    is_valid p
    && not (has_zone a)
    && not (bit_len a == 0)
    && bit_len p.addr == bit_len a
    && value p.addr / 2 ^ (bit_len a - bits p) == value a / 2 ^ (bit_len a - bits p)

abbrev pub same_start : Prefix → Prefix → ℕ → Bool
same_start p q b =
    b == 0 || holds (Addr-discrete (addr_prefix p.addr b).addr (addr_prefix q.addr b).addr)

abbrev pub differ : Bool → Bool → Bool
differ true b = not b
differ false b = b

unfoldable pub overlaps : Prefix → Prefix → Bool
overlaps p q =
    is_valid p
    && is_valid q
    && (holds (Prefix-discrete p q)
        || not (differ (is4 p.addr) (is4 q.addr)) && same_start p q (min (bits p) (bits q)))
