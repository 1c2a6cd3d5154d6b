-- ===== src/Netip/Print.antt =====
-- `Addr.String` and `Prefix.String`.
use routevane.Common.{
  ℕ, zero, suc, ◌+◌, ◌-◌, ◌/◌, ◌%◌, ◌^◌, ◌&&◌, List, [], ◌∷◌, ◌++◌, ltb, ◌==◌, if◌then◌else◌, take,
  drop, ◌≡◌, refl,
}
use routevane.Common.Text.{Text, codes}
use routevane.Netip.{Addr, no_addr, v4, v6, Prefix, is_valid, bits, prefix_from}

-- The digits of a number below `base ^ fuel`, without leading zeros.
unfoldable pub digits : ℕ → ℕ → ℕ → List ℕ
digits base zero n = []
digits base (suc fuel) n =
    let rest = digits base fuel (n / base) in if ltb n base then n ∷ [] else rest ++ n % base ∷ []

abbrev decimal_digit : ℕ → ℕ
decimal_digit d = b'0' + d

abbrev hex_digit : ℕ → ℕ
hex_digit d = if ltb d 10 then b'0' + d else b'a' + d - 10

abbrev on_digits : (ℕ → ℕ) → List ℕ → Text
on_digits f [] = []
on_digits f (d ∷ ds) = f d ∷ on_digits f ds

-- Numbers of at most 20 digits.
unfoldable pub decimal : ℕ → Text
unfolding digits
decimal n = on_digits decimal_digit (digits 10 20 n)

unfoldable pub hex16 : ℕ → Text
unfolding digits
hex16 n = on_digits hex_digit (digits 16 4 n)

abbrev octet : ℕ → ℕ → ℕ
octet n k = n / 256 ^ k % 256

unfoldable pub dotted_quad : ℕ → Text
unfolding decimal
dotted_quad n =
    decimal (octet n 3)
    ++ b'.' ∷ decimal (octet n 2)
    ++ b'.' ∷ decimal (octet n 1)
    ++ b'.' ∷ decimal (octet n 0)

-- The eight 16-bit groups, the first first.
abbrev pub groups_below : ℕ → ℕ → List ℕ
groups_below zero n = []
groups_below (suc k) n = n / 65536 ^ k % 65536 ∷ groups_below k n

abbrev pub groups : ℕ → List ℕ
groups n = groups_below 8 n

abbrev zero_run : List ℕ → ℕ
zero_run [] = 0
zero_run (g ∷ gs) = if g == 0 then suc (zero_run gs) else 0

-- The longest run of two or more zero groups, the first of equals: where it starts, how long it is.
unfoldable pub longest_run : ℕ → List ℕ → ℕ → ℕ → ℕ × ℕ
longest_run i [] start len = (start, len)
longest_run i (g ∷ gs) start len =
    let run = zero_run (g ∷ gs) in
    let better = ltb 1 run && ltb len run in
    longest_run (i + 1) gs (if better then i else start) (if better then run else len)

abbrev join_hex : List ℕ → Text
unfolding hex16
join_hex [] = []
join_hex (g ∷ []) = hex16 g
join_hex (g ∷ h ∷ gs) = hex16 g ++ b':' ∷ join_hex (h ∷ gs)

unfoldable pub compressed : ℕ → Text
unfolding hex16 longest_run
compressed n =
    let gs = groups n in
    let (start, len) = longest_run 0 gs 0 0 in
    if len == 0
    then join_hex gs
    else join_hex (take start gs) ++ b':' ∷ b':' ∷ join_hex (drop (start + len) gs)

abbrev zone_text : Text → Text
zone_text [] = []
zone_text (c ∷ z) = b'%' ∷ c ∷ z

unfoldable pub addr_string : Addr → Text
unfolding dotted_quad compressed
addr_string no_addr = codes "invalid IP"
addr_string (v4 n) = dotted_quad n
addr_string (v6 n z) =
    if n / 2 ^ 32 == 65535
    then codes "::ffff:" ++ dotted_quad (n % 2 ^ 32) ++ zone_text z
    else compressed n ++ zone_text z

unfoldable pub prefix_string : Prefix → Text
unfolding addr_string
prefix_string p =
    if is_valid p then addr_string p.addr ++ b'/' ∷ decimal (bits p) else codes "invalid Prefix"

quad_test : addr_string (v4 0x0a000102) ≡ codes "10.0.1.2"
unfolding addr_string
quad_test = refl

run_test : addr_string (v6 0x20010db8000000000001000000000001 []) ≡ codes "2001:db8::1:0:0:1"
unfolding addr_string
run_test = refl

all_zero_test : prefix_string (prefix_from (v6 0 []) 0) ≡ codes "::/0"
unfolding prefix_string
all_zero_test = refl

no_run_test : addr_string (v6 0x00010002000000040005000600070008 []) ≡ codes "1:2:0:4:5:6:7:8"
unfolding addr_string
no_run_test = refl
