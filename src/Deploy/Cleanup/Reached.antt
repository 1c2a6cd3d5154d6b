-- ===== src/Deploy/Cleanup/Reached.antt =====
-- The device of an entry of a cleanup: a saved one, through which the surface is reached.
use routevane.Common.{
  ◌≡◌, refl, sym, ap, ◌∙◌, subst, Bool, true, ◌&&◌, List, [], ◌∷◌, Option, none, some, ◌⊎◌, inl,
  inr, In, In-keep, In-map, Bool-cases, and-true, Ordering,
}
use routevane.Common.Text.{Text, text_eq}
use routevane.Common.Assoc.{get, text_eq_sound}
use routevane.Domain.Target.{TargetDefinition}
use routevane.Deploy.Failure.{Chain}
use routevane.Deploy.Calls.{Deployer, ManagedFqdnDeployer, ManagedRouteDeployer}
use routevane.Deploy.Progress.{is_nil}
use routevane.Deploy.Delivery.{Answered, refused, found, Device, connection_to}
use routevane.Deploy.Delivery.Delivered.{bind-found, found-inj}
use routevane.Deploy.Cleanup.{
  DeviceObjects, Output, DeviceCleanupConfig, CleanupEntry, ledger_entries,
}
use routevane.Deploy.Cleanup.Match.{
  choose, match_surface, match_deployer, match_target, match_entry, match_all, bound_device,
  surface_test, deployer_at, no_connection, min_by, min_from, lesser, compare_devices,
  candidate_devices, cleanup_entries, reaches_groups, reaches_routes, same_endpoint, same_surface,
  has_value,
}

-- The deployer answers with the endpoint of the surface, or with its scope.
abbrev pub AtSurface : DeviceObjects → TargetDefinition → Deployer → Type 0
AtSurface o t d =
    ((f : ManagedFqdnDeployer) × (d.managed_fqdn ≡ some f) × (f.endpoint ≡ (o.endpoint, none)))
    ⊎ ((m : ManagedRouteDeployer) × (d.managed_routes ≡ some m)
        × (m.scope.1 ≡ none)
        × (m.scope.0.endpoint ≡ o.endpoint)
        × (m.scope.0.target_id ≡ t.id)
        × (m.scope.0.interface_name ≡ o.interface_name))

-- The device of an entry is one of the saved devices, of the target of the entry, and the deployer that
-- its connection gives is at the surface.
pub record Reached (w : DeviceCleanupConfig) (e : CleanupEntry) : Type 0 where
  pub devices : List Device
  pub saved_devices : w.device_cards ≡ found devices
  pub saved : In e.device devices
  pub defined : w.target_definition e.objects.target_id ≡ found e.target
  pub of_target : e.device.target_id ≡ e.target.id
  pub deployer : Deployer
  pub available :
      get e.target.renderer_id (w.deployers [] (connection_to e.device [])) ≡ some deployer
  pub at_surface : AtSurface e.objects e.target deployer

In-lesser :
    {V : Type 0} (order : V → V → Ordering) (a b : V)
    → (lesser order a b ≡ a) ⊎ (lesser order a b ≡ b)
In-lesser order a b = of_order (order b a)
  where
    of_order :
        (o : Ordering)
        → (elim o [ Ordering.lt ↦ b | _ ↦ a ] ≡ a) ⊎ (elim o [ Ordering.lt ↦ b | _ ↦ a ] ≡ b)
    of_order Ordering.lt = inr refl
    of_order _ = inl refl

In-min_from :
    {V : Type 0} (order : V → V → Ordering) (a : V) (bs : List V)
    → In (min_from order a bs) (a ∷ bs)
unfolding min_from
In-min_from order a [] = inl refl
In-min_from order a (b ∷ bs) = elim (In-min_from order (lesser order a b) bs) [
  | inr i ↦ inr (inr i)
  | inl e ↦ elim (In-lesser order a b) [
    | inl first ↦ inl (e ∙ first)
    | inr second ↦ inr (inl (e ∙ second))
  ]
]

In-min_by :
    {V : Type 0} (order : V → V → Ordering) (xs : List V) (a : V)
    → min_by order xs ≡ some a
    → In a xs
unfolding min_by
In-min_by order [] a h = cc
In-min_by order (x ∷ xs) a h = subst (λ v. In v (x ∷ xs)) (some-inj h) (In-min_from order x xs)
  where
    some-inj : {V : Type 0} {u v : V} → some u ≡ some v → u ≡ v
    some-inj e = cc

is_nil-none : (o : Option Chain) → is_nil o ≡ true → o ≡ none
is_nil-none none h = refl
is_nil-none (some v) h = cc

module _ (o : DeviceObjects) (t : TargetDefinition) (d : Deployer) where
  endpoint-AtSurface :
      (f : Option ManagedFqdnDeployer)
      → d.managed_fqdn ≡ f
      → same_endpoint o f ≡ true
      → AtSurface o t d
  endpoint-AtSurface none e h = cc
  endpoint-AtSurface (some f) e h =
      let (none_wrong, same) = and-true _ _ h in
      let quiet = is_nil-none f.endpoint.1 none_wrong in
      let at = text_eq_sound f.endpoint.0 o.endpoint same in inl (f, e, cc)

  scope-AtSurface :
      (m : Option ManagedRouteDeployer)
      → d.managed_routes ≡ m
      → same_surface t o m ≡ true
      → AtSurface o t d
  scope-AtSurface none e h = cc
  scope-AtSurface (some m) e h =
      let (none_wrong, same) = and-true _ _ h in
      let (both, interface) = and-true _ _ same in
      let (endpoint, target) = and-true _ _ both in
      inr (
        m,
        e,
        is_nil-none m.scope.1 none_wrong,
        text_eq_sound m.scope.0.endpoint o.endpoint endpoint,
        text_eq_sound m.scope.0.target_id t.id target,
        text_eq_sound m.scope.0.interface_name o.interface_name interface,
      )

module _ (w : DeviceCleanupConfig) (o : DeviceObjects) (t : TargetDefinition) where
  abbrev Through : Option Deployer → Type 0
  Through k = (d : Deployer) × (k ≡ some d) × AtSurface o t d

  groups-Through : (k : Option Deployer) → reaches_groups w o k ≡ true → Through k
  groups-Through none h = cc
  groups-Through (some d) h = (d, refl, endpoint-AtSurface o t d d.managed_fqdn refl h)

  routes-Through : (k : Option Deployer) → reaches_routes w t o k ≡ true → Through k
  routes-Through none h = cc
  routes-Through (some d) h = (d, refl, scope-AtSurface o t d d.managed_routes refl h)

  test-Through :
      (d : Deployer) (reaches : Option Deployer → Bool) (k : Option Deployer)
      → surface_test w t o d ≡ some reaches
      → reaches k ≡ true
      → Through k
  test-Through d reaches k h r =
      elim (Bool-cases
        (has_value o.fqdn_groups && has_value d.managed_fqdn && has_value d.fqdn_remover)) [
          | inl g ↦ groups-Through k (ap (λ f. f k) (some-injective (rw g at h)) ∙ r)
          | inr g ↦ elim (Bool-cases (has_value o.routes && has_value d.managed_routes)) [
            | inl m ↦ routes-Through k (ap (λ f. f k) (some-injective (rw (g, m) at h)) ∙ r)
            | inr m ↦ cc (rw (g, m) at h)
          ]
        ]
    where
      some-injective : {u v : Option Deployer → Bool} → some u ≡ some v → u ≡ v
      some-injective e = cc

module _ (w : DeviceCleanupConfig) (e : CleanupEntry) (devices : List Device)
    (cards : w.device_cards ≡ found devices) where
  module _ (t : TargetDefinition)
      (defined : w.target_definition e.objects.target_id ≡ found t) where
    choose-Reached :
        (d : Deployer) (reaches : Option Deployer → Bool) (chosen : Option Device)
        → surface_test w t e.objects d ≡ some reaches
        → ((k : Device) → chosen ≡ some k → In k (candidate_devices w t reaches devices))
        → (choose w e t d chosen).objects.cleanable ≡ true
        → Reached w (choose w e t d chosen)
    choose-Reached d reaches none s f h = cc
    choose-Reached d reaches (some k) s f h =
        let (i, both) =
          In-keep (λ x. text_eq x.target_id t.id && reaches (deployer_at w t (connection_to x [])))
            k devices (f k refl) in
        let (same, there) = and-true _ _ both in
        let (q, available, at) = test-Through w e.objects t d reaches _ s there in
        record {
          devices = devices;
          saved_devices = cards;
          saved = i;
          defined = defined;
          of_target = text_eq_sound k.target_id t.id same;
          deployer = q;
          available = available;
          at_surface = at;
        }

    surface-Reached :
        (bound : Text) (d : Deployer) (test : Option (Option Deployer → Bool))
        → surface_test w t e.objects d ≡ test
        → (match_surface w e devices bound t d test).objects.cleanable ≡ true
        → Reached w (match_surface w e devices bound t d test)
    surface-Reached bound d none s h = cc
    surface-Reached bound d (some reaches) s h =
        choose-Reached d reaches _ s
          (λ k.
            In-min_by (compare_devices d.needs_credential bound)
              (candidate_devices w t reaches devices) k)
          h

    deployer-Reached :
        (bound : Text) (d : Option Deployer)
        → (match_deployer w e devices bound t d).objects.cleanable ≡ true
        → Reached w (match_deployer w e devices bound t d)
    deployer-Reached bound none h = cc
    deployer-Reached bound (some d) h =
        surface-Reached bound d (surface_test w t e.objects d) refl h

  target-Reached :
      (bound : Text) (t : Answered TargetDefinition)
      → w.target_definition e.objects.target_id ≡ t
      → (match_target w e devices bound t).objects.cleanable ≡ true
      → Reached w (match_target w e devices bound t)
  target-Reached bound (refused why) s h = cc
  target-Reached bound (found t) s h =
      deployer-Reached t s bound (deployer_at w t (no_connection w)) h

  entry-Reached :
      (bound : Text)
      → (match_entry w devices bound e).objects.cleanable ≡ true
      → Reached w (match_entry w devices bound e)
  unfolding match_entry
  entry-Reached bound h = target-Reached bound (w.target_definition e.objects.target_id) refl h

matched-Reached :
    (w : DeviceCleanupConfig) (outputs : List Output) (entries matched : List CleanupEntry)
    (e : CleanupEntry)
    → match_all w outputs entries ≡ found matched
    → In e matched
    → e.objects.cleanable ≡ true
    → Reached w e
matched-Reached w outputs [] matched e h i c = absurd (subst (In e) (sym (found-inj h)) i)
matched-Reached w outputs (k ∷ entries) matched e h i c =
    let (devices, cards, h) = bind-found w.device_cards _ _ h in
    let (x, j, same) =
      In-map (λ x. match_entry w devices (bound_device w x.objects.output_id outputs) x) e
        (k ∷ entries) (subst (In e) (sym (found-inj h)) i) in
    subst (Reached w) (sym same) (
      entry-Reached w x devices cards (bound_device w x.objects.output_id outputs)
        (subst (λ y. y.objects.cleanable ≡ true) same c))

-- Each entry of a cleanup that is cleanable has such a device.
pub cleanup_entries-Reached :
    (w : DeviceCleanupConfig) (outputs : List Output) (entries : List CleanupEntry)
    (e : CleanupEntry)
    → cleanup_entries w outputs ≡ found entries
    → In e entries
    → e.objects.cleanable ≡ true
    → Reached w e
unfolding cleanup_entries
cleanup_entries-Reached w outputs entries e h i c =
    let (named, a, h) = bind-found (ledger_entries w outputs) _ _ h in
    matched-Reached w outputs named entries e h i c
