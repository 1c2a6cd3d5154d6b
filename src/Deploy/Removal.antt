-- ===== src/Deploy/Removal.antt =====
-- `RemoveFromDevice` of internal/application/device_removal.go: the removal of what one output
-- delivered to one device.
pub mod Going
pub mod Settled
use routevane.Common.{
  Bool, true, false, ◌&&◌, ◌||◌, not, List, [], ◌∷◌, Option, none, some, if◌then◌else◌, any,
}
use routevane.Common.Text.{Text, codes, text_eq, Text-discrete}
use routevane.Common.Assoc.{get}
use routevane.Domain.Names.{is_empty}
use routevane.Encoding.Hex.{is_hex_id}
use routevane.Deploy.Failure.{
  Chain, error_is, Sentinel-discrete, deploy_composition, connection_invalid, deploy_failed,
  device_incompatible, device_unchanged, verify_failed, ownership_persist, rollback_failed,
  removal_unsupported,
}
use routevane.Deploy.Attempt.{DeployResult, DeviceInfo, empty_result, no_device}
use routevane.Deploy.Routes.Ledger.{
  ManagedRouteOwnership, ManagedRouteScope, ManagedRouteClaim, valid_managed_route_scope,
  validate_ownership,
}
use routevane.Deploy.Routes.Reconcile.{
  ManagedRouteMutation, Reconciled, reconciled, refused, reconcile_managed_routes, verify_mutation,
  no_items,
}
use routevane.Deploy.Calls.{
  BackupPayload, ManagedFqdnGroup, ManagedFqdnOwnership, Call, probed, read_fqdn_ledger,
  previewed_removal, read_route_ledger, read_routes, applied_routes, removed_groups, verified,
  replaced_route_ledger, replaced_fqdn_ledger, restored, ManagedRouteDeployer, ManagedFqdnDeployer,
  ManagedFqdnRemover, Deployer, ManagedRouteRepository, ManagedFqdnRepository, BackupStore,
  RemovalRequest, DeployerRegistry,
}
use routevane.Deploy.Progress.{
  Progress, Ended, stop, is_nil, call, audit, Part, ended, go_on, ◌>>=◌, refuse_if, fail_on,
}
use routevane.Deploy.Prepare.{
  lookup_deployer, same_fqdn_scope, same_scope, is_refused, store_verified_backup,
}
use routevane.Deploy.Change.{applied, is_match, verify_error}
use routevane.Deploy.Surface.{
  fqdn_surface, route_surface, Surface, Removal, claims_for, nothing_owned, check_removal,
  fqdn_surface_of, route_surface_of, fqdn_or_refuse, route_or_refuse, surface_for, surface_of,
  probe_for_removal, preview_surface, prepare_surface, prepare_removal,
}

-- What the change of the device leaves: whether it may have changed, its error, and the ledger after.
pub record Removing : Type 0 where
  pub progress : Progress
  pub may_have_changed : Bool
  pub error : Option Chain
  pub ledger : ManagedRouteMutation × ManagedRouteOwnership

abbrev pub no_mutation : ManagedRouteMutation
no_mutation = record { upsert = []; remove = [] }

abbrev pub removing :
    Progress → Bool → Option Chain → ManagedRouteMutation × ManagedRouteOwnership → Removing
removing p may e ledger = record {
  progress = p;
  may_have_changed = may;
  error = e;
  ledger = ledger;
}

unfoldable pub remove_reconciled :
    ManagedRouteDeployer → ManagedRouteOwnership → Reconciled → Progress → Removing
remove_reconciled m prior (refused e) p =
    removing p false (some (device_unchanged ∷ [])) (no_mutation, prior)
remove_reconciled m prior (reconciled mutation next) p =
    if no_items mutation.upsert && no_items mutation.remove
    then removing p false none (mutation, next)
    else removing (call (applied_routes mutation) p) true (m.apply_changes p.calls mutation)
        (mutation, next)

unfoldable pub remove_routes :
    RemovalRequest → ManagedRouteDeployer → ManagedRouteOwnership → Progress → Removing
unfolding remove_reconciled reconcile_managed_routes
remove_routes r m prior p =
    let (current, e) = m.current p.calls in
    elim e [
      | some why ↦
          removing (call read_routes p) false (some (device_unchanged ∷ why)) (no_mutation, prior)
      | none ↦
          remove_reconciled m prior (reconcile_managed_routes prior r.output_id [] current)
            (call read_routes p)
    ]

abbrev pub no_ledger : ManagedRouteOwnership
no_ledger = record {
  scope = record { endpoint = []; target_id = []; interface_name = [] };
  routes = [];
  claims = [];
}

unfoldable pub remove_surface : RemovalRequest → Surface → Progress → Removing
unfolding remove_routes
remove_surface r (fqdn_surface remover repo endpoint owned) p =
    let (may, e) = remover.remove p.calls owned in
    removing (call (removed_groups may) p) may e (no_mutation, no_ledger)
remove_surface r (route_surface m repo prior) p = remove_routes r m prior p

unfoldable pub removal_passes : Surface → Removing → Progress → Progress × Bool
unfolding verify_mutation
removal_passes (fqdn_surface remover repo endpoint owned) k p =
    (p, is_nil (remover.verify_removed p.calls owned))
removal_passes (route_surface m repo prior) k p =
    let (current, e) = m.current p.calls in
    (call read_routes p, is_nil e && is_match (verify_mutation k.ledger.1 k.ledger.0 current))

abbrev pub removal_persisted : Progress → Option Chain → Part Chain
removal_persisted p none = ended (applied p)
removal_persisted p (some e) = go_on p (ownership_persist ∷ [])

abbrev pub emptied : RemovalRequest → Text → ManagedFqdnOwnership
emptied r endpoint = record { endpoint = endpoint; output_id = r.output_id; groups = [] }

unfoldable pub persist_removal : RemovalRequest → Surface → Removing → Progress → Part Chain
persist_removal r (fqdn_surface remover repo endpoint owned) k p =
    let e = repo.replace p.calls (emptied r endpoint) in
    removal_persisted
      (audit (codes "ownership") e r.output_id (call (replaced_fqdn_ledger (emptied r endpoint)) p))
      e
persist_removal r (route_surface m repo prior) k p =
    let e = repo.replace p.calls k.ledger.1 in
    removal_persisted
      (audit (codes "ownership") e r.output_id (call (replaced_route_ledger k.ledger.1) p)) e

-- The failure of a removal, or its end.
unfoldable pub verify_removal : RemovalRequest → Surface → Removing → Progress → Part Chain
unfolding removal_passes persist_removal
verify_removal r s k p = elim k.error [
  | some e ↦ go_on p (deploy_failed ∷ e)
  | none ↦
      let (q, passed) = removal_passes s k p in
      let q = audit (codes "verify") (verify_error passed) r.output_id (call (verified passed) q) in
      if passed then persist_removal r s k q else go_on q (verify_failed ∷ [])
]

abbrev pub after_removal_rollback : Progress → Chain → Option Chain → Ended
after_removal_rollback p e (some why) = stop p (rollback_failed ∷ e)
after_removal_rollback p e none =
    stop (record p { result = record (p.result) { rolled_back = true } }) e

unfoldable pub roll_back_removal : Deployer → BackupPayload → Chain → Progress → Ended
roll_back_removal d backup e p =
    let fault = d.rollback p.calls backup in
    after_removal_rollback (audit (codes "rollback") fault backup.ref.id (call (restored backup) p))
      e fault

abbrev pub says_unchanged : Option Chain → Bool
says_unchanged none = false
says_unchanged (some e) = error_is device_unchanged e

abbrev pub recover_removal : Deployer → BackupPayload → Removing → Part Chain → Ended
recover_removal d backup k (ended e) = e
recover_removal d backup k (go_on p e) =
    if not k.may_have_changed || says_unchanged k.error
    then stop p e
    else roll_back_removal d backup e p

unfoldable pub settle_removal : RemovalRequest → Removal → BackupPayload → Removing → Ended
unfolding verify_removal roll_back_removal Sentinel-discrete
settle_removal r v backup k =
    recover_removal v.deployer backup k
      (verify_removal r v.surface k (audit (codes "remove") k.error r.output_id k.progress))

abbrev pub keep_backup_ref : BackupPayload → Progress → Progress
keep_backup_ref b p = record p { result = record (p.result) { backup = b.ref } }

abbrev pub remove_backed : RemovalRequest → Removal → Part BackupPayload → Ended
remove_backed r v (ended e) = e
remove_backed r v (go_on p b) =
    settle_removal r v b (remove_surface r v.surface (keep_backup_ref b p))

abbrev pub remove_prepared : RemovalRequest → BackupStore → Part Removal → Ended
remove_prepared r store (ended e) = e
remove_prepared r store (go_on p v) =
    if nothing_owned r.output_id v.surface
    then applied p
    else remove_backed r v (store_verified_backup v.deployer store v.device p)

abbrev pub removal_start : Progress
removal_start = record { calls = []; result = empty_result [] }

-- `RemoveFromDevice`
unfoldable pub remove_from_device : RemovalRequest → DeployerRegistry → BackupStore → Ended
unfolding prepare_removal nothing_owned store_verified_backup remove_surface settle_removal
remove_from_device r deployers store =
    remove_prepared r store (prepare_removal r deployers removal_start)
