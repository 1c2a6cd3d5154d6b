-- ===== src/Deploy/Cleanup/Surfaces.antt =====
-- The entries of a cleanup, for each surface that a ledger names.
use routevane.Common.{
  ◌≡◌, ◌≢◌, refl, sym, ◌∙◌, subst, ◌==◌, ◌++◌, ◌⊎◌, inl, inr, List, [], ◌∷◌, Option, none, some,
  All, All-In, All-of_In, In, In-append_left, In-append_right, In-keep_intro, In-map_intro,
  Bool-cases, Bool, keep, length, arith, if◌then◌else◌,
}
use routevane.Common.Text.{Text}
use routevane.Common.Assoc.{text_eq_complete}
use routevane.Domain.Target.{TargetDefinition}
use routevane.Deploy.Failure.{Chain}
use routevane.Deploy.Calls.{Deployer, ManagedFqdnGroup}
use routevane.Deploy.Routes.Ledger.{ManagedRouteScope, ManagedRouteClaim, ManagedRouteOwnership}
use routevane.Deploy.Delivery.{Answered, refused, found, Device}
use routevane.Deploy.Delivery.Delivered.{bind-found, found-inj}
use routevane.Deploy.Cleanup.Counts.{route_counts, route_counts_sum, claimed_by}
use routevane.Deploy.Cleanup.{
  DeviceObjects, Output, DeviceCleanupConfig, CleanupEntry, answered_by, surface_entry, objects_at,
  with_groups, group_entries, route_entries, ledger_entries,
}
use routevane.Deploy.Cleanup.Match.{
  choose, match_surface, match_deployer, match_target, match_entry, match_all, bound_device,
  surface_test, deployer_at, no_connection, cleanup_entries,
}

-- The output, the endpoint and the interface of a surface.
abbrev pub SurfaceKey : Type 0
SurfaceKey = Text × (Text × Text)

abbrev pub surface_key : DeviceObjects → SurfaceKey
surface_key o = (o.output_id, (o.endpoint, o.interface_name))

abbrev pub Holds : List CleanupEntry → SurfaceKey → Type 0
Holds entries k = (e : CleanupEntry) × In e entries × (surface_key e.objects ≡ k)

module _ (w : DeviceCleanupConfig) (On : SurfaceKey → Type 0) (o : Output) where
  -- The ledger of the endpoint was read, and names no group of the output or is on a surface.
  abbrev pub OnEndpoint : Text → Type 0
  OnEndpoint endpoint =
      (((w.managed_fqdn []).read [] endpoint o.id).1 ≡ none)
      × ((((w.managed_fqdn []).read [] endpoint o.id).0.groups ≡ [])
          ⊎ ((name : Text) × On (o.id, (endpoint, name))))

  -- The ledger of the scope was read, and has no claim of the output or is on a surface.
  abbrev pub OnScope : ManagedRouteScope → Type 0
  OnScope scope =
      (((w.managed_routes []).read [] scope).1 ≡ none)
      × (All (λ c. c.output_id ≢ o.id) ((w.managed_routes []).read [] scope).0.claims
          ⊎ On (o.id, (scope.endpoint, scope.interface_name)))

  -- All the ledgers of an output.
  pub record EachLedger : Type 0 where
    pub endpoints : List Text
    pub scopes : List ManagedRouteScope
    pub endpoints_read : w.fqdn_endpoints o.id ≡ found endpoints
    pub scopes_read : w.route_scopes o.id ≡ found scopes
    pub groups : All OnEndpoint endpoints
    pub routes : All OnScope scopes

module _ (w : DeviceCleanupConfig) (On Then : SurfaceKey → Type 0) where
  endpoint_then :
      (o : Output) (endpoint : Text)
      → ((k : SurfaceKey) → On k → Then k)
      → OnEndpoint w On o endpoint
      → OnEndpoint w Then o endpoint
  endpoint_then o endpoint f (read, inl none_named) = (read, inl none_named)
  endpoint_then o endpoint f (read, inr (name, k)) = (read, inr (name, f _ k))

  scope_then :
      (o : Output) (scope : ManagedRouteScope)
      → ((k : SurfaceKey) → On k → Then k)
      → OnScope w On o scope
      → OnScope w Then o scope
  scope_then o scope f (read, inl none_named) = (read, inl none_named)
  scope_then o scope f (read, inr k) = (read, inr (f _ k))

  pub ledgers_then :
      (o : Output) → ((k : SurfaceKey) → On k → Then k) → EachLedger w On o → EachLedger w Then o
  ledgers_then o f l = record {
    endpoints = l.endpoints;
    scopes = l.scopes;
    endpoints_read = l.endpoints_read;
    scopes_read = l.scopes_read;
    groups =
        All-of_In _ l.endpoints (λ e i. endpoint_then o e f (All-In _ e l.endpoints l.groups i));
    routes = All-of_In _ l.scopes (λ s i. scope_then o s f (All-In _ s l.scopes l.routes i));
  }

answered_by-found :
    {V : Type 0} (w : DeviceCleanupConfig) (x : V × Option Chain) (v : V)
    → answered_by w x ≡ found v
    → (x.1 ≡ none) × (x.0 ≡ v)
answered_by-found w (u, none) v h = (refl, found-inj h)
answered_by-found w (u, some e) v h = cc

Holds-right : (k : SurfaceKey) (xs ys : List CleanupEntry) → Holds ys k → Holds (xs ++ ys) k
Holds-right k xs ys (e, i, s) = (e, In-append_right e xs ys i, s)

Holds-left : (k : SurfaceKey) (xs ys : List CleanupEntry) → Holds xs k → Holds (xs ++ ys) k
Holds-left k xs ys (e, i, s) = (e, In-append_left e xs ys i, s)

length_of_In : {A : Type 0} (a : A) (xs : List A) → In a xs → length xs ≢ 0
length_of_In a [] i z = absurd i
length_of_In a (x ∷ xs) i z = omega (arith, z)

module _ (w : DeviceCleanupConfig) (o : Output) where
  with_groups-Holds :
      (endpoint : Text) (groups : List ManagedFqdnGroup) (rest : List CleanupEntry)
      → (groups ≡ [])
        ⊎ ((name : Text) × Holds (with_groups w o endpoint groups rest) (o.id, (endpoint, name)))
  unfolding with_groups
  with_groups-Holds endpoint [] rest = inl refl
  with_groups-Holds endpoint (g ∷ groups) rest = inr (g.interface_name, (_, inl refl, refl))

  with_groups-rest :
      (endpoint : Text) (groups : List ManagedFqdnGroup) (rest : List CleanupEntry) (k : SurfaceKey)
      → Holds rest k
      → Holds (with_groups w o endpoint groups rest) k
  unfolding with_groups
  with_groups-rest endpoint [] rest k h = h
  with_groups-rest endpoint (g ∷ groups) rest k (e, i, s) = (e, inr i, s)

  group_entries-Holds :
      (endpoints : List Text) (entries : List CleanupEntry)
      → group_entries w o endpoints ≡ found entries
      → All (OnEndpoint w (Holds entries) o) endpoints
  unfolding group_entries
  group_entries-Holds [] entries h = tt
  group_entries-Holds (endpoint ∷ endpoints) entries h =
      let (owned, a, h) =
        bind-found (answered_by w ((w.managed_fqdn []).read [] endpoint o.id)) _ _ h in
      let (rest, b, h) = bind-found (group_entries w o endpoints) _ _ h in
      let (read, same) = answered_by-found w ((w.managed_fqdn []).read [] endpoint o.id) owned a in
      let later = group_entries-Holds endpoints rest b in
      subst (λ es. All (OnEndpoint w (Holds es) o) (endpoint ∷ endpoints)) (found-inj h)
        (
          (
            read,
            subst
                (λ q.
                  (q.groups ≡ [])
                  ⊎ ((name : Text) × Holds (with_groups w o endpoint owned.groups rest)
                        (o.id, (endpoint, name))))
                (sym same) (with_groups-Holds endpoint owned.groups rest),
          ),
          All-of_In _ endpoints (λ e i.
              endpoint_then w (Holds rest) _ o e
                (λ k. with_groups-rest endpoint owned.groups rest k)
                (All-In _ e endpoints later i)),
        )

  unclaimed :
      (owned : ManagedRouteOwnership) (c : ManagedRouteClaim)
      → (route_counts owned o.id).claimed ≡ 0
      → In c owned.claims
      → c.output_id ≢ o.id
  unclaimed owned c z i e =
      let kept =
        In-keep_intro (claimed_by o.id) c owned.claims i (text_eq_complete c.output_id o.id e) in
      length_of_In c (keep (claimed_by o.id) owned.claims) kept
        (sym (route_counts_sum owned o.id).1 ∙ z)

  -- One scope of a ledger, before the rest.
  abbrev scope_entries :
      ManagedRouteOwnership → ManagedRouteScope → List CleanupEntry → List CleanupEntry
  scope_entries owned scope entries =
      if (route_counts owned o.id).claimed == 0
      then entries
      else surface_entry w record (objects_at w o scope.endpoint scope.interface_name) {
        routes = some (route_counts owned o.id);
      }
        ∷ entries

  scope_entries-Holds :
      (owned : ManagedRouteOwnership) (scope : ManagedRouteScope) (rest : List CleanupEntry)
      → All (λ c. c.output_id ≢ o.id) owned.claims
        ⊎ Holds (scope_entries owned scope rest) (o.id, (scope.endpoint, scope.interface_name))
  scope_entries-Holds owned scope rest =
      elim (Bool-cases ((route_counts owned o.id).claimed == 0)) [
        | inl z ↦ inl (All-of_In _ owned.claims (λ c i. unclaimed owned c (ground arith) i))
        | inr n ↦ inr (rw n (_, inl refl, refl))
      ]

  scope_entries-rest :
      (owned : ManagedRouteOwnership) (scope : ManagedRouteScope) (rest : List CleanupEntry)
      (k : SurfaceKey)
      → Holds rest k
      → Holds (scope_entries owned scope rest) k
  scope_entries-rest owned scope rest k (e, i, s) =
      elim (Bool-cases ((route_counts owned o.id).claimed == 0)) [
        | inl z ↦ rw z (e, i, s)
        | inr n ↦ rw n (e, inr i, s)
      ]

  route_entries-Holds :
      (scopes : List ManagedRouteScope) (entries : List CleanupEntry)
      → route_entries w o scopes ≡ found entries
      → All (OnScope w (Holds entries) o) scopes
  unfolding route_entries
  route_entries-Holds [] entries h = tt
  route_entries-Holds (scope ∷ scopes) entries h =
      let (owned, a, h) = bind-found (answered_by w ((w.managed_routes []).read [] scope)) _ _ h in
      let (rest, b, h) = bind-found (route_entries w o scopes) _ _ h in
      let (read, same) = answered_by-found w ((w.managed_routes []).read [] scope) owned a in
      let later = route_entries-Holds scopes rest b in
      subst (λ es. All (OnScope w (Holds es) o) (scope ∷ scopes)) (found-inj h)
        (
          (
            read,
            subst
                (λ q.
                  All (λ c. c.output_id ≢ o.id) q.claims
                  ⊎ Holds (scope_entries owned scope rest)
                      (o.id, (scope.endpoint, scope.interface_name)))
                (sym same) (scope_entries-Holds owned scope rest),
          ),
          All-of_In _ scopes (λ s i.
              scope_then w (Holds rest) _ o s (λ k. scope_entries-rest owned scope rest k)
                (All-In _ s scopes later i)),
        )

-- Every ledger of every output was read, and what it names is in the entries.
ledger_entries-EachLedger :
    (w : DeviceCleanupConfig) (outputs : List Output) (entries : List CleanupEntry)
    → ledger_entries w outputs ≡ found entries
    → All (EachLedger w (Holds entries)) outputs
unfolding ledger_entries
ledger_entries-EachLedger w [] entries h = tt
ledger_entries-EachLedger w (o ∷ outputs) entries h =
    let (endpoints, a, h) = bind-found (w.fqdn_endpoints o.id) _ _ h in
    let (groups, b, h) = bind-found (group_entries w o endpoints) _ _ h in
    let (scopes, c, h) = bind-found (w.route_scopes o.id) _ _ h in
    let (routes, d, h) = bind-found (route_entries w o scopes) _ _ h in
    let (rest, e, h) = bind-found (ledger_entries w outputs) _ _ h in
    let later = ledger_entries-EachLedger w outputs rest e in
    let g = group_entries-Holds w o endpoints groups b in
    let r = route_entries-Holds w o scopes routes d in
    subst (λ es. All (EachLedger w (Holds es)) (o ∷ outputs)) (found-inj h)
      (
        record {
          endpoints = endpoints;
          scopes = scopes;
          endpoints_read = a;
          scopes_read = c;
          groups = All-of_In _ endpoints (λ x i.
              endpoint_then w (Holds groups) _ o x
                (λ k q. Holds-left k (groups ++ routes) rest (Holds-left k groups routes q))
                (All-In _ x endpoints g i));
          routes = All-of_In _ scopes (λ x i.
              scope_then w (Holds routes) _ o x
                (λ k q. Holds-left k (groups ++ routes) rest (Holds-right k groups routes q))
                (All-In _ x scopes r i));
        },
        All-of_In _ outputs (λ x i.
            ledgers_then w (Holds rest) _ x (λ k. Holds-right k (groups ++ routes) rest)
              (All-In _ x outputs later i)),
      )

module _ (w : DeviceCleanupConfig) (e : CleanupEntry) where
  choose-key :
      (t : TargetDefinition) (d : Deployer) (device : Option Device)
      → surface_key (choose w e t d device).objects ≡ surface_key e.objects
  choose-key t d none = refl
  choose-key t d (some device) = refl

  surface-key :
      (devices : List Device) (bound : Text) (t : TargetDefinition) (d : Deployer)
      (test : Option (Option Deployer → Bool))
      → surface_key (match_surface w e devices bound t d test).objects ≡ surface_key e.objects
  surface-key devices bound t d none = refl
  surface-key devices bound t d (some reaches) = choose-key t d _

  deployer-key :
      (devices : List Device) (bound : Text) (t : TargetDefinition) (d : Option Deployer)
      → surface_key (match_deployer w e devices bound t d).objects ≡ surface_key e.objects
  deployer-key devices bound t none = refl
  deployer-key devices bound t (some d) =
      surface-key devices bound t d (surface_test w t e.objects d)

  target-key :
      (devices : List Device) (bound : Text) (t : Answered TargetDefinition)
      → surface_key (match_target w e devices bound t).objects ≡ surface_key e.objects
  target-key devices bound (refused why) = refl
  target-key devices bound (found t) =
      deployer-key devices bound t (deployer_at w t (no_connection w))

  match_entry-key :
      (devices : List Device) (bound : Text)
      → surface_key (match_entry w devices bound e).objects ≡ surface_key e.objects
  unfolding match_entry
  match_entry-key devices bound = target-key devices bound (w.target_definition e.objects.target_id)

match_all-Holds :
    (w : DeviceCleanupConfig) (outputs : List Output) (entries matched : List CleanupEntry)
    (k : SurfaceKey)
    → match_all w outputs entries ≡ found matched
    → Holds entries k
    → Holds matched k
match_all-Holds w outputs [] matched k h (e, i, s) = absurd i
match_all-Holds w outputs (c ∷ entries) matched k h (e, i, s) =
    let (devices, cards, h) = bind-found w.device_cards _ _ h in
    let matching : (CleanupEntry → CleanupEntry) =
      λ x. match_entry w devices (bound_device w x.objects.output_id outputs) x in
    (
      matching e,
      subst (In (matching e)) (found-inj h) (In-map_intro matching e (c ∷ entries) i),
      match_entry-key w e devices (bound_device w e.objects.output_id outputs) ∙ s,
    )

-- So it is for the entries of a cleanup.
pub cleanup_entries-EachLedger :
    (w : DeviceCleanupConfig) (outputs : List Output) (entries : List CleanupEntry)
    → cleanup_entries w outputs ≡ found entries
    → All (EachLedger w (Holds entries)) outputs
unfolding cleanup_entries
cleanup_entries-EachLedger w outputs entries h =
    let (named, a, h) = bind-found (ledger_entries w outputs) _ _ h in
    let each = ledger_entries-EachLedger w outputs named a in
    All-of_In _ outputs (λ o i.
      ledgers_then w (Holds named) _ o (λ k. match_all-Holds w outputs named entries k h)
        (All-In _ o outputs each i))
