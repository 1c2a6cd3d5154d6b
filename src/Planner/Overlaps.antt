-- ===== src/Planner/Overlaps.antt =====
-- internal/planner/overlaps.go: the groups of equal destinations, their parents, and the report.
pub mod Parents
pub mod Report
pub mod Around
use routevane.Common.{
  ℕ, ◌-◌, ◌+◌, Ordering, compare, Bool, true, false, ◌&&◌, ◌||◌, not, List, [], ◌∷◌, ◌++◌, map,
  Option, none, some, ltb, leb, ◌==◌, if◌then◌else◌, length, keep,
}
use mathlib.Core.List.{reverse}
use routevane.Common.Text.{Text, text_eq, text_compare}
use routevane.Common.Sort.{sort_by, compact_by}
use routevane.Common.Assoc.{Map, get, put, keys}
use routevane.Netip.{Addr, bit_len, is4, bits, masked, prefix_from}
use routevane.Netip.Print.{prefix_string}
use routevane.Domain.Kind.{
  RuleKind, domain_exact, domain_suffix, prefix4, prefix6, is_domain, is_prefix, kind_text,
}
use routevane.Domain.Rule.{RouteRule, rule_value, rule_is_valid}
use routevane.Domain.Plan.{stable_strings}

-- Equal typed values, with the lists that have them.
pub record OverlapValue : Type 0 where
  pub rule_kind : RuleKind
  pub value : Text
  pub lists : List Text

pub data OverlapKind : Type 0 where
  duplicate covered : OverlapKind

pub record RuleOverlap : Type 0 where
  pub kind : OverlapKind
  pub entry : OverlapValue
  pub covering : Option OverlapValue

pub record OverlapSummary : Type 0 where
  pub list_id : Text
  pub overlaps : List Text

pub record RuleOverlaps : Type 0 where
  pub items : List RuleOverlap
  pub truncated : Bool
  pub summary : List OverlapSummary

pub record OverlapGroup : Type 0 where
  pub rule : RouteRule
  pub lists : List Text

unfoldable pub overlap_key : RuleKind → Text → Text
overlap_key kind value = kind_text kind ++ 0 ∷ value

unfoldable pub rule_key : RouteRule → Text
rule_key r = overlap_key r.kind (rule_value r)

abbrev pub grouped : Option OverlapGroup → RouteRule → OverlapGroup
grouped none r = record { rule = r; lists = r.list_id ∷ [] }
grouped (some g) r = record g { lists = g.lists ++ r.list_id ∷ [] }

-- The first rule of each group stands for it.
unfoldable pub group_valid : List RouteRule → Map OverlapGroup → Map OverlapGroup
group_valid [] m = m
group_valid (r ∷ rs) m =
    group_valid rs
      (if rule_is_valid r then put (rule_key r) (grouped (get (rule_key r) m) r) m else m)

-- The widths of the networks present, by family.
pub record Widths : Type 0 where
  pub of4 : List ℕ
  pub of6 : List ℕ

abbrev add_width : RouteRule → Widths → Widths
add_width r w = elim r.kind [
  | prefix4 ↦ record w { of4 = bits r.prefix ∷ w.of4 }
  | prefix6 ↦ record w { of6 = bits r.prefix ∷ w.of6 }
  | _ ↦ w
]

abbrev no_widths : Widths
no_widths = record { of4 = []; of6 = [] }

unfoldable pub widths_of : List RouteRule → Widths
widths_of [] = no_widths
widths_of (r ∷ rs) = add_width r (widths_of rs)

-- Each width once, the longest first.
unfoldable pub distinct_widths : List ℕ → List ℕ
distinct_widths ws = reverse (compact_by (λ a b. a == b) (sort_by compare ws))

abbrev pub order_widths : Widths → Widths
order_widths w = record { of4 = distinct_widths w.of4; of6 = distinct_widths w.of6 }

-- The text after each dot: `strings.Cut` again and again.
unfoldable pub ancestors : Text → List Text
ancestors [] = []
ancestors (c ∷ s) = let rest = ancestors s in if c == b'.' then s ∷ rest else rest

abbrev suffix_key : Text → Text
suffix_key name = overlap_key domain_suffix name

unfoldable pub domain_parents : RouteRule → List Text
domain_parents r = elim r.kind [
  | domain_exact ↦ suffix_key r.domain ∷ map suffix_key (ancestors r.domain)
  | _ ↦ map suffix_key (ancestors r.domain)
]

-- The address of the rule; a network is no parent of itself.
abbrev rule_addr : RouteRule → Addr
rule_addr r = if is_prefix r.kind then r.prefix.addr else r.addr

abbrev within : RouteRule → ℕ → Bool
within r b = if is_prefix r.kind then ltb b (bits r.prefix) else leb b (bit_len r.addr)

abbrev pub network_kind : Addr → RuleKind
network_kind a = if is4 a then prefix4 else prefix6

abbrev widths_for : Addr → Widths → List ℕ
widths_for a w = if is4 a then w.of4 else w.of6

unfoldable pub network_key : Addr → ℕ → Text
network_key a b = overlap_key (network_kind a) (prefix_string (masked (prefix_from a b)))

unfoldable pub network_parents : RouteRule → List ℕ → List Text
network_parents r [] = []
network_parents r (b ∷ bs) =
    let rest = network_parents r bs in
    if within r b then network_key (rule_addr r) b ∷ rest else rest

unfoldable pub overlap_parents : RouteRule → Widths → List Text
overlap_parents r w =
    if is_domain r.kind then domain_parents r else network_parents r (widths_for (rule_addr r) w)
