-- ===== src/Planner/Collapse.antt =====
-- internal/planner/reduce.go and `collapseObserved` of build_plan.go: the lossless reduction of
-- addresses and networks. netipx's set builder is `Externals.ip_set_prefixes`.
use routevane.Common.{
  ℕ, ◌+◌, Bool, ◌&&◌, ◌||◌, not, List, [], ◌∷◌, ◌++◌, map, Option, none, some, ltb, leb, ◌==◌,
  if◌then◌else◌, keep,
}
use routevane.Common.Text.{Text, codes, text_compare}
use routevane.Common.Sort.{sort_by}
use routevane.Common.Assoc.{Map, get, put, keys}
use routevane.Netip.{
  Addr, Prefix, addr_is_valid, bit_len, unmap, bits, is_valid, masked, prefix_from, contains,
}
use routevane.Domain.Result.{Result, ok, err}
use routevane.Domain.Kind.{SourceClass, observed, is_ip, is_prefix, class_text, class_of_text}
use routevane.Domain.Rule.{RouteRule, new_addr_rule, new_prefix_rule}
use routevane.Domain.Plan.{stable_strings}
use routevane.Planner.Externals.{Externals}
use routevane.Planner.Reasons.{fresh_dns_observation, lossless_collapsed}
use routevane.Planner.Dedupe.{later_expiry}

-- A prefix in the form that the builder is given.
abbrev builder_form : Prefix → Prefix
builder_form raw = masked (prefix_from (unmap raw.addr) (bits raw))

unfoldable pub builder_input : List Prefix → List Prefix
builder_input [] = []
builder_input (raw ∷ rest) =
    let more = builder_input rest in
    if is_valid raw && is_valid (builder_form raw) then builder_form raw ∷ more else more

-- An address as a network of its own length.
abbrev host_prefix : Addr → Prefix
host_prefix a = prefix_from a (bit_len a)

unfoldable pub host_prefixes : List Addr → List Prefix
host_prefixes [] = []
host_prefixes (a ∷ rest) =
    let more = host_prefixes rest in
    if addr_is_valid a then masked (host_prefix (unmap a)) ∷ more else more

abbrev rule_network : RouteRule → Prefix
rule_network r = if is_prefix r.kind then r.prefix else host_prefix (unmap r.addr)

abbrev is_network_rule : RouteRule → Bool
is_network_rule r = is_ip r.kind || is_prefix r.kind

abbrev group_key : RouteRule → Text
group_key r = r.list_id ++ 0 ∷ (r.component_id ++ 0 ∷ class_text r.source_class)

abbrev or_empty : Option (List RouteRule) → List RouteRule
or_empty none = []
or_empty (some rules) = rules

-- The network rules by list, component and class, each group in the order given.
unfoldable pub group_rules : List RouteRule → Map (List RouteRule) → Map (List RouteRule)
group_rules [] m = m
group_rules (r ∷ rs) m = group_rules rs (
    if is_network_rule r then put (group_key r) (or_empty (get (group_key r) m) ++ r ∷ []) m else m)

unfoldable pub covers : Prefix → RouteRule → Bool
covers p r =
    if is_prefix r.kind
    then leb (bits p) (bits r.prefix) && contains p (unmap r.prefix.addr)
    else contains p (unmap r.addr)

-- The text up to the first NUL, and the text after it.
abbrev cut_nul : Text → Option (Text × Text)
cut_nul [] = none
cut_nul (c ∷ s) =
    if c == 0
    then some ([], s)
    else elim (cut_nul s) [ none ↦ none | some (a, b) ↦ some (c ∷ a, b) ]

pub record GroupOwner : Type 0 where
  pub list_id : Text
  pub component_id : Text
  pub source_class : SourceClass

abbrev whole_key : Text → GroupOwner
whole_key key = record { list_id = key; component_id = codes "web"; source_class = observed }

-- `strings.SplitN(key, "\x00", 3)`
unfoldable pub split_group_key : Text → GroupOwner
split_group_key key = elim (cut_nul key) [
  | none ↦ whole_key key
  | some (a, rest) ↦ elim (cut_nul rest) [
    | none ↦ whole_key key
    | some (b, c) ↦ record { list_id = a; component_id = b; source_class = class_of_text c }
  ]
]

-- What the rules of a group that the prefix stands for have together.
pub record Merged : Type 0 where
  pub count : ℕ
  pub refs : List Text
  pub reasons : List Text
  pub expires : Option ℕ

abbrev nothing_merged : Merged
nothing_merged = record { count = 0; refs = []; reasons = []; expires = none }

unfoldable pub merge_covered : Prefix → List RouteRule → Merged → Merged
merge_covered p [] m = m
merge_covered p (r ∷ rs) m = merge_covered p rs (
    if covers p r
    then record {
      count = m.count + 1;
      refs = m.refs ++ r.provenance_refs;
      reasons = m.reasons ++ r.reason_codes;
      expires = later_expiry m.expires r.expires_at;
    }
    else m)

abbrev or_fresh : List Text → List Text
or_fresh [] = fresh_dns_observation ∷ []
or_fresh (r ∷ rs) = r ∷ rs

-- A prefix shorter than its address.
abbrev is_network : Prefix → Bool
is_network p = not (bits p == bit_len p.addr)

-- A merge of more than one rule into a network has a reason code of its own.
abbrev merge_reasons : Prefix → Merged → List Text
merge_reasons p m =
    let reasons = or_fresh (stable_strings m.reasons) in
    if is_network p && ltb 1 m.count
    then stable_strings (reasons ++ lossless_collapsed ∷ [])
    else reasons

abbrev network_rule : Prefix → GroupOwner → List Text → List Text → Result RouteRule
network_rule p o reasons refs =
    if is_network p
    then new_prefix_rule p o.list_id o.component_id o.source_class reasons refs
    else new_addr_rule p.addr o.list_id o.component_id o.source_class reasons refs

abbrev with_expiry : Option ℕ → Result RouteRule → List RouteRule
with_expiry expires (ok rule) = record rule { expires_at = expires } ∷ []
with_expiry expires (err e) = []

-- The rule of one collapsed prefix; a rule that cannot be made is left out.
unfoldable pub collapsed_rule : Prefix → List RouteRule → GroupOwner → List RouteRule
collapsed_rule p group o =
    let m = merge_covered p group nothing_merged in
    with_expiry m.expires (network_rule p o (merge_reasons p m) (stable_strings m.refs))

unfoldable pub collapsed_rules : List Prefix → List RouteRule → GroupOwner → List RouteRule
collapsed_rules [] group o = []
collapsed_rules (p ∷ ps) group o = collapsed_rule p group o ++ collapsed_rules ps group o

module _ (x : Externals) where
  unfoldable pub collapse_lossless_prefixes : List Prefix → List Prefix
  collapse_lossless_prefixes prefixes = x.ip_set_prefixes (builder_input prefixes)

  unfoldable pub collapse_lossless : List Addr → List Prefix
  collapse_lossless addrs = collapse_lossless_prefixes (host_prefixes addrs)

  unfoldable pub collapse_group : Text → List RouteRule → List RouteRule
  collapse_group key group =
      collapsed_rules (collapse_lossless_prefixes (map rule_network group)) group
        (split_group_key key)

  unfoldable pub collapse_groups : List Text → Map (List RouteRule) → List RouteRule
  collapse_groups [] m = []
  collapse_groups (k ∷ ks) m = collapse_group k (or_empty (get k m)) ++ collapse_groups ks m

  unfoldable pub collapse_observed : List RouteRule → List RouteRule
  collapse_observed rules =
      let groups = group_rules rules [] in
      keep (λ r. not (is_network_rule r)) rules
      ++ collapse_groups (sort_by text_compare (keys groups)) groups
