-- ===== src/Deploy/Cleanup/Match.antt =====
-- `match` and `entries` of internal/application/device_cleanup.go: the saved connection of each surface.
use routevane.Common.{
  ◌+◌, map, ℕ, Ordering, compare, Bool, true, false, ◌&&◌, not, List, [], ◌∷◌, Option, none, some,
  if◌then◌else◌, any, keep,
}
use routevane.Common.Text.{Text, text_eq, text_compare, Text-discrete}
use routevane.Common.Assoc.{get}
use routevane.Domain.Target.{TargetDefinition}
use routevane.Deploy.Attempt.{Connection}
use routevane.Deploy.Calls.{ManagedRouteDeployer, ManagedFqdnDeployer, Deployer}
use routevane.Deploy.Progress.{is_nil}
use routevane.Deploy.Prepare.{same_scope}
use routevane.Deploy.Delivery.{Answered, refused, found, ◌>>=◌, Device, connection_to}
use routevane.Deploy.Cleanup.{
  unblocked, connection_missing, credential_missing, unsupported, DeviceObjects, Output,
  DeviceCleanupConfig, CleanupEntry, no_registered_device, ledger_entries,
}

abbrev pub has_value : {V : Type 0} → Option V → Bool
has_value none = false
has_value (some v) = true

abbrev pub same_endpoint : DeviceObjects → Option ManagedFqdnDeployer → Bool
same_endpoint o none = false
same_endpoint o (some f) = is_nil f.endpoint.1 && text_eq f.endpoint.0 o.endpoint

abbrev pub same_surface : TargetDefinition → DeviceObjects → Option ManagedRouteDeployer → Bool
same_surface t o none = false
same_surface t o (some m) =
    is_nil m.scope.1
    && same_scope m.scope.0
        record { endpoint = o.endpoint; target_id = t.id; interface_name = o.interface_name }

-- A device that can sign in comes first, then the bound one, then the oldest.
abbrev pub rank : Bool → Text → Device → ℕ
rank needs_credential bound d =
    (if needs_credential && not d.credential_stored then 2 else 0)
    + (if text_eq d.id bound then 0 else 1)

abbrev pub or_then : Ordering → Ordering → Ordering
or_then Ordering.lt o = Ordering.lt
or_then Ordering.eq o = o
or_then Ordering.gt o = Ordering.gt

abbrev pub compare_devices : Bool → Text → Device → Device → Ordering
compare_devices needs_credential bound a b =
    or_then (compare (rank needs_credential bound a) (rank needs_credential bound b))
      (or_then (compare a.created_at b.created_at) (text_compare a.id b.id))

-- `slices.MinFunc`: the first of the least; none on an empty list.
abbrev pub lesser : {V : Type 0} → (V → V → Ordering) → V → V → V
lesser order a b = elim (order b a) [ Ordering.lt ↦ b | _ ↦ a ]

unfoldable pub min_from : {V : Type 0} → (V → V → Ordering) → V → List V → V
min_from order a [] = a
min_from order a (b ∷ bs) = min_from order (lesser order a b) bs

unfoldable pub min_by : {V : Type 0} → (V → V → Ordering) → List V → Option V
unfolding min_from
min_by order [] = none
min_by order (a ∷ bs) = some (min_from order a bs)

module _ (w : DeviceCleanupConfig) where
  abbrev pub no_connection : Connection
  no_connection = record { url = []; username = []; password = []; interface_name = [] }

  abbrev pub deployer_at : TargetDefinition → Connection → Option Deployer
  deployer_at t c = get t.renderer_id (w.deployers [] c)

  -- The surface that a connection reaches, compared with the one of the ledger.
  abbrev pub reaches_groups : DeviceObjects → Option Deployer → Bool
  reaches_groups o none = false
  reaches_groups o (some d) = same_endpoint o d.managed_fqdn

  abbrev pub reaches_routes : TargetDefinition → DeviceObjects → Option Deployer → Bool
  reaches_routes t o none = false
  reaches_routes t o (some d) = same_surface t o d.managed_routes

  -- The way to a surface, if the deployer has one.
  abbrev pub surface_test :
      TargetDefinition → DeviceObjects → Deployer → Option (Option Deployer → Bool)
  surface_test t o d =
      if has_value o.fqdn_groups && has_value d.managed_fqdn && has_value d.fqdn_remover
      then some (reaches_groups o)
      else if has_value o.routes && has_value d.managed_routes
      then some (reaches_routes t o)
      else none

  abbrev pub candidate_devices :
      TargetDefinition → (Option Deployer → Bool) → List Device → List Device
  candidate_devices t reaches =
      keep (λ d. text_eq d.target_id t.id && reaches (deployer_at t (connection_to d [])))

  abbrev pub choose : CleanupEntry → TargetDefinition → Deployer → Option Device → CleanupEntry
  choose e t d none = record {
    objects = record (e.objects) { cleanable = false; blocked_by = connection_missing };
    target = t;
    device = no_registered_device;
    needs_credential = d.needs_credential;
  }
  choose e t d (some device) =
      let blocked = d.needs_credential && not device.credential_stored in
      record {
        objects = record (e.objects) {
          connection = some device;
          cleanable = not blocked;
          blocked_by = if blocked then credential_missing else unblocked;
        };
        target = t;
        device = device;
        needs_credential = d.needs_credential;
      }

  abbrev pub unsupported_entry : CleanupEntry → CleanupEntry
  unsupported_entry e = record e {
    objects = record (e.objects) { cleanable = false; blocked_by = unsupported };
  }

  abbrev pub match_surface :
      CleanupEntry
      → List Device
      → Text
      → TargetDefinition
      → Deployer
      → Option (Option Deployer → Bool)
      → CleanupEntry
  match_surface e devices bound t d none = unsupported_entry e
  match_surface e devices bound t d (some reaches) =
      choose e t d
        (min_by (compare_devices d.needs_credential bound) (candidate_devices t reaches devices))

  abbrev pub match_deployer :
      CleanupEntry → List Device → Text → TargetDefinition → Option Deployer → CleanupEntry
  match_deployer e devices bound t none = unsupported_entry e
  match_deployer e devices bound t (some d) =
      match_surface e devices bound t d (surface_test t e.objects d)

  abbrev pub match_target :
      CleanupEntry → List Device → Text → Answered TargetDefinition → CleanupEntry
  match_target e devices bound (refused why) = unsupported_entry e
  match_target e devices bound (found t) =
      match_deployer e devices bound t (deployer_at t no_connection)

  -- `match`
  unfoldable pub match_entry : List Device → Text → CleanupEntry → CleanupEntry
  unfolding get min_by text_compare Text-discrete
  match_entry devices bound e =
      match_target e devices bound (w.target_definition e.objects.target_id)

  unfoldable pub bound_device : Text → List Output → Text
  unfolding Text-discrete
  bound_device id [] = []
  bound_device id (o ∷ outputs) =
      let rest = bound_device id outputs in
      if any (λ k. text_eq k.id id) outputs
      then rest
      else if text_eq o.id id
      then o.device_id
      else []

  abbrev pub match_all : List Output → List CleanupEntry → Answered (List CleanupEntry)
  match_all outputs [] = found []
  match_all outputs (e ∷ entries) = w.device_cards >>= λ devices.
      found
        (map (λ k. match_entry devices (bound_device k.objects.output_id outputs) k) (e ∷ entries))

  -- `entries`
  unfoldable pub cleanup_entries : List Output → Answered (List CleanupEntry)
  unfolding ledger_entries match_entry bound_device
  cleanup_entries outputs = ledger_entries w outputs >>= match_all outputs
