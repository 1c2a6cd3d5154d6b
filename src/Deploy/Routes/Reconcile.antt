-- ===== src/Deploy/Routes/Reconcile.antt =====
-- `reconcileManagedRoutes` and `verifyManagedRouteMutation`.
pub mod Maps
pub mod Owned
pub mod Settled
use routevane.Common.{
  ℕ, Bool, true, false, ◌&&◌, ◌||◌, not, List, [], ◌∷◌, ◌++◌, map, Option, none, some, ◌⊎◌, inl,
  inr, if◌then◌else◌, any, Ordering, keep,
}
use routevane.Common.Order.{then_compare}
use routevane.Common.Text.{Text, text_eq, text_compare, Text-discrete}
use routevane.Common.Sort.{sort_by}
use routevane.Common.Keyed.{lookup, store}
use routevane.Domain.Names.{is_empty}
use routevane.Netip.{Prefix, Prefix-discrete}
use routevane.Encoding.Hex.{is_hex_id}
use routevane.Encoding.Utf8.{valid_from, valid_utf8}
use routevane.Deploy.Routes.Labels.{canonical_managed_labels, compact_description}
use routevane.Deploy.Routes.Ledger.{
  ManagedRouteSpec, ManagedRoute, ManagedRouteClaim, ManagedRouteOwnership, RouteError,
  invalid_output, invalid_desired, invalid_current, LabelMap, RouteMap, route_at, or_empty,
  append_labels, canonical_for, route_prefix_valid, compare_prefix, prefix_eq, validate_ownership,
}

-- The route is there with this prefix and description; the labels are not read.
abbrev pub SpecMap : Type 0
SpecMap = List (Prefix × ManagedRouteSpec)

abbrev pub spec_at : Prefix → SpecMap → Option ManagedRouteSpec
spec_at p m = lookup Prefix-discrete p m

-- `currentSpecMap`; none is a refusal.
unfoldable pub current_spec_map : List ManagedRouteSpec → SpecMap → Option SpecMap
unfolding route_prefix_valid valid_from lookup store
current_spec_map [] m = some m
current_spec_map (s ∷ ss) m =
    let rest = current_spec_map ss (store Prefix-discrete s.prefix s m) in
    if not (route_prefix_valid s.prefix && valid_utf8 s.description)
    then none
    else elim (spec_at s.prefix m) [ some t ↦ none | none ↦ rest ]

abbrev pub stable_labels : List Text → List Text
stable_labels labels = or_empty (canonical_managed_labels labels)

abbrev pub spec_of : Prefix → List Text → ManagedRouteSpec
spec_of p labels = record { prefix = p; description = compact_description labels; labels = labels }

abbrev pub by_prefix : ManagedRouteSpec → ManagedRouteSpec → Ordering
by_prefix a b = compare_prefix a.prefix b.prefix

unfoldable pub labels_of_specs : List ManagedRouteSpec → LabelMap → Option LabelMap
unfolding route_prefix_valid canonical_managed_labels compact_description append_labels
labels_of_specs [] m = some m
labels_of_specs (s ∷ ss) m =
    let rest = labels_of_specs ss (append_labels s.prefix s.labels m) in
    if not (
      route_prefix_valid s.prefix
      && canonical_for (canonical_managed_labels s.labels) s.labels s.description)
    then none
    else rest

abbrev pub stable_spec : Prefix × List Text → ManagedRouteSpec
stable_spec (p, labels) = spec_of p (stable_labels labels)

abbrev pub sorted_specs : Option LabelMap → Option (List ManagedRouteSpec)
sorted_specs none = none
sorted_specs (some m) = some (sort_by by_prefix (map stable_spec m))

-- `canonicalDesiredSpecs`; none is a refusal.
unfoldable pub canonical_desired_specs : List ManagedRouteSpec → Option (List ManagedRouteSpec)
unfolding labels_of_specs sort_by
canonical_desired_specs specs = sorted_specs (labels_of_specs specs [])

pub record ManagedRouteMutation : Type 0 where
  pub upsert : List ManagedRouteSpec
  pub remove : List Prefix

abbrev pub claim_of : Text → ManagedRouteSpec → ManagedRouteClaim
claim_of output s = record {
  output_id = output;
  prefix = s.prefix;
  description = s.description;
  labels = s.labels;
}

unfoldable pub next_claims :
    Text → List ManagedRouteClaim → List ManagedRouteSpec → List ManagedRouteClaim
unfolding Text-discrete
next_claims output prior desired =
    keep (λ c. not (text_eq c.output_id output)) prior ++ map (claim_of output) desired

unfoldable pub labels_of_claims : List ManagedRouteClaim → LabelMap → LabelMap
unfolding append_labels
labels_of_claims [] m = m
labels_of_claims (c ∷ cs) m = labels_of_claims cs (append_labels c.prefix c.labels m)

-- The last route of a prefix; a valid ledger has one at most.
unfoldable pub routes_by_prefix : List ManagedRoute → RouteMap → RouteMap
unfolding store
routes_by_prefix [] m = m
routes_by_prefix (r ∷ rs) m = routes_by_prefix rs (store Prefix-discrete r.prefix r m)

abbrev pub created_before : Option ManagedRoute → Bool
created_before none = false
created_before (some r) = r.created_by_routevane

abbrev pub kept_description : Text → Option ManagedRoute → Text
kept_description d none = d
kept_description d (some r) = if is_empty d && r.created_by_routevane then r.description else d

-- What the loop decides of one claimed prefix: the route that the ledger keeps, and whether the
-- device is written.
pub record Decision : Type 0 where
  pub route : ManagedRoute
  pub written : Bool

abbrev pub route_of : Prefix → Text → Bool → ManagedRoute
route_of p d created = record {
  prefix = p;
  description = if created then d else [];
  created_by_routevane = created;
}

unfoldable pub decide : Prefix → Text → Option ManagedRoute → Option ManagedRouteSpec → Decision
unfolding Text-discrete
decide p d known none = record { route = route_of p d true; written = true }
decide p d known (some observed) = record {
  route = route_of p d (created_before known);
  written = created_before known && not (text_eq observed.description d);
}

abbrev pub description_for : RouteMap → Prefix × List Text → Text
description_for prior (p, labels) =
    kept_description (compact_description (stable_labels labels)) (route_at p prior)

abbrev pub decision_for : RouteMap → SpecMap → Prefix × List Text → Decision
decision_for prior current e =
    decide e.0 (description_for prior e) (route_at e.0 prior) (spec_at e.0 current)

abbrev pub written_spec : RouteMap → Prefix × List Text → ManagedRouteSpec
written_spec prior e = record {
  prefix = e.0;
  description = description_for prior e;
  labels = stable_labels e.1;
}

abbrev pub is_present : {V : Type 0} → Option V → Bool
is_present none = false
is_present (some v) = true

-- A route that Routevane created, that nothing claims and that is on the device.
unfoldable pub is_removable : LabelMap → SpecMap → Prefix × ManagedRoute → Bool
unfolding lookup
is_removable claimed current (p, r) =
    r.created_by_routevane
    && not (is_present (lookup Prefix-discrete p claimed))
    && is_present (spec_at p current)

abbrev pub key_of : Prefix × ManagedRoute → Prefix
key_of e = e.0

abbrev pub route_by_prefix : ManagedRoute → ManagedRoute → Ordering
route_by_prefix a b = compare_prefix a.prefix b.prefix

abbrev pub claim_order : ManagedRouteClaim → ManagedRouteClaim → Ordering
claim_order a b =
    then_compare (text_compare a.output_id b.output_id) (compare_prefix a.prefix b.prefix)

unfoldable pub mutation_for : RouteMap → SpecMap → LabelMap → ManagedRouteMutation
unfolding compact_description decide is_removable sort_by compare_prefix
mutation_for prior current claimed = record {
  upsert =
      sort_by by_prefix
        (map (written_spec prior) (keep (λ e. (decision_for prior current e).written) claimed));
  remove = sort_by compare_prefix (map key_of (keep (is_removable claimed current) prior));
}

unfoldable pub next_ownership :
    ManagedRouteOwnership
    → RouteMap
    → SpecMap
    → LabelMap
    → List ManagedRouteClaim
    → ManagedRouteOwnership
unfolding compact_description decide sort_by compare_prefix text_compare
next_ownership o prior current claimed claims = record {
  scope = o.scope;
  routes = sort_by route_by_prefix (map (λ e. (decision_for prior current e).route) claimed);
  claims = sort_by claim_order claims;
}

pub data Reconciled : Type 0 where
  refused : RouteError → Reconciled
  reconciled : ManagedRouteMutation → ManagedRouteOwnership → Reconciled

abbrev pub checked : ManagedRouteMutation → ManagedRouteOwnership → Option RouteError → Reconciled
checked m next none = reconciled m next
checked m next (some e) = refused e

abbrev pub reconcile_canonical :
    ManagedRouteOwnership → Text → Option (List ManagedRouteSpec) → Option SpecMap → Reconciled
reconcile_canonical o output none current = refused invalid_desired
reconcile_canonical o output (some desired) none = refused invalid_current
reconcile_canonical o output (some desired) (some current) =
    let prior = routes_by_prefix o.routes [] in
    let claims = next_claims output o.claims desired in
    let claimed = labels_of_claims claims [] in
    let next = next_ownership o prior current claimed claims in
    checked (mutation_for prior current claimed) next (validate_ownership next)

unfoldable pub reconcile_managed_routes :
    ManagedRouteOwnership → Text → List ManagedRouteSpec → List ManagedRouteSpec → Reconciled
unfolding is_hex_id validate_ownership canonical_desired_specs current_spec_map
reconcile_managed_routes o output desired current =
    if not (is_hex_id output) then refused invalid_output else elim (validate_ownership o) [
      | some e ↦ refused e
      | none ↦
          reconcile_canonical o output (canonical_desired_specs desired)
            (current_spec_map current [])
    ]

abbrev pub is_missing : SpecMap → ManagedRoute → Bool
is_missing present r = not (is_present (spec_at r.prefix present))

abbrev pub other_description : Option ManagedRouteSpec → Text → Bool
other_description none d = false
other_description (some s) d = not (text_eq s.description d)

abbrev pub is_mismatched : SpecMap → ManagedRoute → Bool
is_mismatched present r =
    r.created_by_routevane && other_description (spec_at r.prefix present) r.description

abbrev pub is_remaining : SpecMap → Prefix → Bool
is_remaining present p = is_present (spec_at p present)

-- The missing, the mismatched and the remaining prefixes of an error.
pub data Verified : Type 0 where
  unreadable matches : Verified
  differs : List Prefix → List Prefix → List Prefix → Verified

abbrev pub no_items : {A : Type 0} → List A → Bool
no_items [] = true
no_items (x ∷ xs) = false

unfoldable pub verify_present : ManagedRouteOwnership → ManagedRouteMutation → SpecMap → Verified
unfolding lookup Text-discrete
verify_present next m present =
    let missing = keep (is_missing present) next.routes in
    let mismatched = keep (is_mismatched present) next.routes in
    let remaining = keep (is_remaining present) m.remove in
    if no_items missing && no_items mismatched && no_items remaining
    then matches
    else differs (map (λ r. r.prefix) missing) (map (λ r. r.prefix) mismatched) remaining

-- `verifyManagedRouteMutation`
unfoldable pub verify_mutation :
    ManagedRouteOwnership → ManagedRouteMutation → List ManagedRouteSpec → Verified
unfolding current_spec_map
verify_mutation next m current = elim (current_spec_map current []) [
  | none ↦ unreadable
  | some present ↦ verify_present next m present
]
