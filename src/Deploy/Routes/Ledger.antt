-- ===== src/Deploy/Routes/Ledger.antt =====
-- The ledger, and when it is valid. The map of a loop is a list of pairs in the order of insertion,
-- and Go's order is none: the lists that are made of a map are sorted.
use routevane.Common.{
  Bool, true, false, ◌&&◌, not, List, [], ◌∷◌, ◌++◌, Option, none, some, leb, ◌==◌, if◌then◌else◌,
  length, any, holds, Ordering, ◌⊎◌, inl, inr,
}
use routevane.Common.Text.{Text, text_eq, text_compare, Text-discrete}
use routevane.Common.Keyed.{lookup, store}
use routevane.Domain.Names.{is_empty}
use routevane.Netip.{Prefix, Prefix-discrete, is_valid, is4, masked}
use routevane.Netip.Print.{prefix_string}
use routevane.Encoding.Hex.{is_hex_id}
use routevane.Encoding.Utf8.{valid_from, valid_utf8, has_control, rune_count}
use routevane.Deploy.Routes.Labels.{
  valid_managed_description, canonical_managed_labels, compact_description,
}

pub record ManagedRouteScope : Type 0 where
  pub endpoint : Text
  pub target_id : Text
  pub interface_name : Text

pub record ManagedRouteSpec : Type 0 where
  pub prefix : Prefix
  pub description : Text
  pub labels : List Text

pub record ManagedRoute : Type 0 where
  pub prefix : Prefix
  pub description : Text
  pub created_by_routevane : Bool

pub record ManagedRouteClaim : Type 0 where
  pub output_id : Text
  pub prefix : Prefix
  pub description : Text
  pub labels : List Text

pub record ManagedRouteOwnership : Type 0 where
  pub scope : ManagedRouteScope
  pub routes : List ManagedRoute
  pub claims : List ManagedRouteClaim

pub data RouteError : Type 0 where
  invalid_output invalid_desired invalid_current invalid_scope : RouteError
  invalid_route duplicate_route invalid_claim claim_without_route duplicate_claim : RouteError
  route_without_claim foreign_description description_mismatch : RouteError

abbrev pub scope_text_valid : Text → Bool
scope_text_valid s = not (is_empty s) && leb (length s) 512 && valid_utf8 s && not (has_control s)

unfoldable pub valid_managed_route_scope : ManagedRouteScope → Bool
unfolding valid_from rune_count
valid_managed_route_scope s =
    scope_text_valid s.endpoint
    && scope_text_valid s.target_id
    && scope_text_valid s.interface_name
    && leb (length s.target_id) 64
    && leb (rune_count s.interface_name) 120

unfoldable pub compare_prefix : Prefix → Prefix → Ordering
unfolding prefix_string text_compare
compare_prefix p q = text_compare (prefix_string p) (prefix_string q)

abbrev pub prefix_eq : Prefix → Prefix → Bool
prefix_eq p q = holds (Prefix-discrete p q)

unfoldable pub route_prefix_valid : Prefix → Bool
unfolding Prefix-discrete
route_prefix_valid p = is_valid p && is4 p.addr && prefix_eq p (masked p)

abbrev pub same_texts : List Text → List Text → Bool
same_texts [] [] = true
same_texts (s ∷ ss) (t ∷ ts) = text_eq s t && same_texts ss ts
same_texts _ _ = false

-- `labels, ok := canonicalManagedLabels(x)`, then that they are `x` and their description is kept.
abbrev pub canonical_for : Option (List Text) → List Text → Text → Bool
canonical_for none labels description = false
canonical_for (some canonical) labels description =
    same_texts canonical labels && text_eq description (compact_description canonical)

abbrev pub or_empty : Option (List Text) → List Text
or_empty none = []
or_empty (some labels) = labels

abbrev pub LabelMap : Type 0
LabelMap = List (Prefix × List Text)

-- `m[p] = append(m[p], labels...)`
unfoldable pub append_labels : Prefix → List Text → LabelMap → LabelMap
unfolding lookup store Prefix-discrete
append_labels p labels m =
    store Prefix-discrete p (or_empty (lookup Prefix-discrete p m) ++ labels) m

abbrev pub RouteMap : Type 0
RouteMap = List (Prefix × ManagedRoute)

abbrev pub route_at : Prefix → RouteMap → Option ManagedRoute
route_at p m = lookup Prefix-discrete p m

unfoldable pub index_routes : List ManagedRoute → RouteMap → RouteError ⊎ RouteMap
unfolding route_prefix_valid valid_managed_description lookup store
index_routes [] m = inr m
index_routes (r ∷ rs) m =
    let rest = index_routes rs (store Prefix-discrete r.prefix r m) in
    if not (route_prefix_valid r.prefix && valid_managed_description r.description)
    then inl invalid_route
    else elim (route_at r.prefix m) [ some s ↦ inl duplicate_route | none ↦ rest ]

abbrev pub same_claim : ManagedRouteClaim → ManagedRouteClaim → Bool
same_claim c d =
    text_eq (c.output_id ++ 0 ∷ prefix_string c.prefix) (d.output_id ++ 0 ∷ prefix_string d.prefix)

-- The claims seen, and the labels of each prefix; an error is the first of the loop.
unfoldable pub index_claims :
    RouteMap → List ManagedRouteClaim → List ManagedRouteClaim → LabelMap → RouteError ⊎ LabelMap
unfolding is_hex_id route_prefix_valid canonical_managed_labels compact_description append_labels
    prefix_string
index_claims routes seen [] m = inr m
index_claims routes seen (c ∷ cs) m =
    let rest = index_claims routes (c ∷ seen) cs (append_labels c.prefix c.labels m) in
    if not (
      is_hex_id c.output_id
      && route_prefix_valid c.prefix
      && canonical_for (canonical_managed_labels c.labels) c.labels c.description)
    then inl invalid_claim
    else elim (route_at c.prefix routes) [
      | none ↦ inl claim_without_route
      | some r ↦ if any (same_claim c) seen then inl duplicate_claim else rest
    ]

abbrev pub owned_description_wrong : ManagedRoute → Text → Bool
owned_description_wrong r expected =
    r.created_by_routevane && not (is_empty expected) && not (text_eq r.description expected)

unfoldable pub check_descriptions : LabelMap → RouteMap → Option RouteError
unfolding lookup compact_description Text-discrete
check_descriptions m [] = none
check_descriptions m ((p, r) ∷ rs) =
    let rest = check_descriptions m rs in
    if not r.created_by_routevane && not (is_empty r.description)
    then some foreign_description
    else if owned_description_wrong r (compact_description (or_empty (lookup Prefix-discrete p m)))
    then some description_mismatch
    else rest

abbrev pub check_claimed : RouteMap → RouteError ⊎ LabelMap → Option RouteError
check_claimed routes (inl e) = some e
check_claimed routes (inr m) =
    if length m == length routes then check_descriptions m routes else some route_without_claim

abbrev pub check_indexed : List ManagedRouteClaim → RouteError ⊎ RouteMap → Option RouteError
check_indexed claims (inl e) = some e
check_indexed claims (inr routes) = check_claimed routes (index_claims routes [] claims [])

-- `validateManagedRouteOwnership`; none for a nil error.
unfoldable pub validate_ownership : ManagedRouteOwnership → Option RouteError
unfolding valid_managed_route_scope index_routes index_claims check_descriptions
validate_ownership o =
    if not (valid_managed_route_scope o.scope)
    then some invalid_scope
    else check_indexed o.claims (index_routes o.routes [])
