-- ===== src/Deploy/Lifecycle.antt =====
-- `DeployToDevice` of internal/application/deploy.go as a whole.
pub mod Ordered
pub mod Recovered
use routevane.Common.{
  ℕ, Bool, true, false, ◌&&◌, ◌||◌, not, List, [], ◌∷◌, ◌++◌, Option, none, some, ◌⊎◌, inl, inr,
  if◌then◌else◌,
}
use routevane.Common.Text.{Text, codes, text_eq, Text-discrete}
use routevane.Common.Assoc.{Map, get}
use routevane.Domain.Names.{is_empty}
use routevane.Encoding.Hex.{is_hex_id}
use routevane.Deploy.Failure.{
  Chain, error_is, Sentinel-discrete, deploy_composition, deployer_unavailable, connection_invalid,
  deploy_failed, device_incompatible, backup_required, device_unchanged, fqdn_ownership_conflict,
  verify_failed, ownership_persist, rollback_failed,
}
use routevane.Deploy.Attempt.{DeployResult, DeployEvent, DeviceInfo, BackupRef, empty_result}
use routevane.Deploy.Routes.Ledger.{
  ManagedRouteScope, ManagedRouteSpec, ManagedRouteOwnership, valid_managed_route_scope,
  validate_ownership, RouteError,
}
use routevane.Deploy.Routes.Reconcile.{
  ManagedRouteMutation, Reconciled, reconciled, refused, reconcile_managed_routes, verify_mutation,
  Verified, matches, no_items,
}
use routevane.Deploy.Calls.{
  BackupPayload, is_verified, ManagedFqdnOwnership, DeployArtifact, Call, probed, read_fqdn_ledger,
  previewed_groups, read_route_ledger, took_backup, stored_backup, read_routes, applied_routes,
  wrote_artifact, verified, replaced_route_ledger, replaced_fqdn_ledger, restored, Calls, Writer,
  plain, reporting, ManagedRouteDeployer, ManagedFqdnDeployer, Deployer, ManagedRouteRepository,
  ManagedFqdnRepository, BackupStore, DeployRequest, DeployerRegistry,
}
use routevane.Deploy.Progress.{
  Progress, Ended, stop, is_nil, call, audit, Part, ◌>>=◌, refuse_if, fail_on, ended, go_on,
}
use routevane.Deploy.Prepare.{
  lookup_deployer, check_request, probe_device, Groups, prepare_groups_with, prepare_groups, Routes,
  prepare_routes_with, prepare_routes, store_verified_backup, artifact_of, Prepared, prepare,
}
use routevane.Deploy.Change.{
  Change, Changed, changed, apply_reconciled, change_routes, write_artifact, change_device, passes,
  verify_error, applied, persisted, persist, verify_and_persist, recovery_error, after_rollback,
  roll_back, recover,
}

unfoldable pub settle :
    DeployRequest → Deployer → DeployArtifact → Option Groups → BackupPayload → Changed → Ended
unfolding verify_and_persist roll_back Sentinel-discrete
settle r d a groups backup k =
    let p = audit (codes "deploy") k.change.error a.artifact_hash k.progress in
    elim k.change.error [
      | none ↦ recover d backup k.change (verify_and_persist r d a k.change groups p)
      | some e ↦
          if error_is device_unchanged e || error_is fqdn_ownership_conflict e
          then stop p e
          else recover d backup k.change (go_on p e)
    ]

abbrev pub keep_backup : BackupPayload → Progress → Progress
keep_backup b p = record p { result = record (p.result) { backup = b.ref } }

abbrev pub deliver : DeployRequest → Part Prepared → Ended
deliver r (ended e) = e
deliver r (go_on p v) =
    let a = artifact_of r v.groups in
    settle r v.deployer a v.groups v.backup
      (change_device r v.deployer a v.routes (keep_backup v.backup p))

abbrev pub start_of : DeployRequest → Progress
start_of r = record { calls = []; result = empty_result r.artifact.artifact_id }

unfoldable pub deploy_to_device : DeployRequest → DeployerRegistry → BackupStore → Ended
unfolding prepare change_device settle
deploy_to_device r deployers store = deliver r (prepare r deployers store (start_of r))
