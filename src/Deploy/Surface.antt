-- ===== src/Deploy/Surface.antt =====
-- `prepareRemoval` of internal/application/device_removal.go: the ledger of an output on one device,
-- and the read-only part of a removal.
pub mod Quiet
use routevane.Common.{
  Bool, true, false, ◌&&◌, ◌||◌, not, List, [], ◌∷◌, Option, none, some, if◌then◌else◌, any,
}
use routevane.Common.Text.{Text, codes, text_eq, Text-discrete}
use routevane.Common.Assoc.{get}
use routevane.Domain.Names.{is_empty}
use routevane.Encoding.Hex.{is_hex_id}
use routevane.Deploy.Failure.{
  Chain, error_is, Sentinel-discrete, deploy_composition, connection_invalid, deploy_failed,
  device_incompatible, device_unchanged, verify_failed, ownership_persist, rollback_failed,
  removal_unsupported,
}
use routevane.Deploy.Attempt.{DeployResult, DeviceInfo, empty_result, no_device}
use routevane.Deploy.Routes.Ledger.{
  ManagedRouteOwnership, ManagedRouteScope, ManagedRouteClaim, valid_managed_route_scope,
  validate_ownership,
}
use routevane.Deploy.Routes.Reconcile.{
  ManagedRouteMutation, Reconciled, reconciled, refused, reconcile_managed_routes, verify_mutation,
  no_items,
}
use routevane.Deploy.Calls.{
  BackupPayload, ManagedFqdnGroup, ManagedFqdnOwnership, Call, probed, read_fqdn_ledger,
  previewed_removal, read_route_ledger, read_routes, applied_routes, removed_groups, verified,
  replaced_route_ledger, replaced_fqdn_ledger, restored, ManagedRouteDeployer, ManagedFqdnDeployer,
  ManagedFqdnRemover, Deployer, ManagedRouteRepository, ManagedFqdnRepository, BackupStore,
  RemovalRequest, DeployerRegistry,
}
use routevane.Deploy.Groups.{valid_fqdn_ownership}
use routevane.Deploy.Progress.{
  Progress, Ended, stop, is_nil, call, audit, Part, ended, go_on, ◌>>=◌, refuse_if, fail_on,
}
use routevane.Deploy.Prepare.{
  lookup_deployer, same_fqdn_scope, same_scope, is_refused, store_verified_backup,
}
use routevane.Deploy.Change.{applied, is_match, verify_error}

-- What the ledger names on the surface of the connection.
pub data Surface : Type 0 where
  fqdn_surface : ManagedFqdnRemover → ManagedFqdnRepository → Text → List ManagedFqdnGroup → Surface
  route_surface : ManagedRouteDeployer → ManagedRouteRepository → ManagedRouteOwnership → Surface

pub record Removal : Type 0 where
  pub deployer : Deployer
  pub device : DeviceInfo
  pub surface : Surface

abbrev pub claims_for : Text → ManagedRouteOwnership → Bool
claims_for output o = any (λ c. text_eq c.output_id output) o.claims

unfoldable pub nothing_owned : Text → Surface → Bool
unfolding Text-discrete
nothing_owned output (fqdn_surface remover repo endpoint owned) = no_items owned
nothing_owned output (route_surface m repo prior) = not (claims_for output prior)

unfoldable pub check_removal : RemovalRequest → DeployerRegistry → Progress → Part Deployer
unfolding get is_hex_id Text-discrete
check_removal r deployers p =
    refuse_if p
      (no_items deployers
        || not (is_hex_id r.output_id)
        || is_empty r.connection.url
        || is_empty r.target.id
        || is_empty r.target.renderer_id
        || is_empty r.target.format_key)
      (deploy_composition ∷ []) tt
    >>= λ p u. lookup_deployer p (get r.target.renderer_id deployers) >>= λ p d.
        fail_on p (d.connection_fault r.connection) (λ e. connection_invalid ∷ e) d

unfoldable pub fqdn_surface_of :
    RemovalRequest
    → ManagedFqdnDeployer
    → ManagedFqdnRemover
    → ManagedFqdnRepository
    → Progress
    → Part Surface
unfolding Text-discrete valid_fqdn_ownership
fqdn_surface_of r f remover repo p =
    let (endpoint, scope_fault) = f.endpoint in
    fail_on p scope_fault (λ e. connection_invalid ∷ e) tt >>= λ p u.
    let (prior, read_fault) = repo.read p.calls endpoint r.output_id in
    fail_on (call read_fqdn_ledger p) read_fault (λ e. deploy_composition ∷ []) tt >>= λ p u.
    refuse_if p (not (same_fqdn_scope repo endpoint r.output_id prior)) (deploy_composition ∷ [])
      (fqdn_surface remover repo endpoint prior.groups)

unfoldable pub route_surface_of :
    RemovalRequest → ManagedRouteDeployer → ManagedRouteRepository → Progress → Part Surface
unfolding Text-discrete valid_managed_route_scope validate_ownership
route_surface_of r m repo p =
    let (scope, scope_fault) = m.scope in
    refuse_if p (not (is_nil scope_fault) || not (valid_managed_route_scope scope))
      (deploy_composition ∷ []) tt
    >>= λ p u.
        let (prior, read_fault) = repo.read p.calls scope in
        fail_on (call read_route_ledger p) read_fault (λ e. deploy_composition ∷ []) tt >>= λ p u.
        refuse_if p (not (same_scope prior.scope scope) || is_refused (validate_ownership prior))
          (deploy_composition ∷ []) (route_surface m repo prior)

abbrev unsupported : Progress → Part Surface
unsupported p = ended (stop p (removal_unsupported ∷ []))

abbrev pub fqdn_or_refuse :
    RemovalRequest
    → ManagedFqdnDeployer
    → Option ManagedFqdnRemover
    → Option ManagedFqdnRepository
    → Progress
    → Part Surface
fqdn_or_refuse r f (some remover) (some repo) p = fqdn_surface_of r f remover repo p
fqdn_or_refuse r f _ _ p = unsupported p

abbrev pub route_or_refuse :
    RemovalRequest
    → Option ManagedRouteDeployer
    → Option ManagedRouteRepository
    → Progress
    → Part Surface
route_or_refuse r (some m) (some repo) p = route_surface_of r m repo p
route_or_refuse r _ _ p = unsupported p

-- The groups come before the routes.
abbrev pub surface_for :
    RemovalRequest → Deployer → Option ManagedFqdnDeployer → Progress → Part Surface
surface_for r d (some f) p = fqdn_or_refuse r f d.fqdn_remover r.managed_fqdn p
surface_for r d none p = route_or_refuse r d.managed_routes r.managed_routes p

unfoldable pub surface_of : RemovalRequest → Deployer → Progress → Part Surface
unfolding fqdn_surface_of route_surface_of
surface_of r d p = surface_for r d d.managed_fqdn p

-- The probe and the check of the firmware; the result names the device once the probe has answered.
unfoldable pub probe_for_removal : RemovalRequest → Deployer → Progress → Part DeviceInfo
unfolding Text-discrete
probe_for_removal r d p =
    let (device, e) = d.probe p.calls in
    fail_on (audit (codes "probe") e device.firmware_version (call probed p)) e
      (λ e. deploy_failed ∷ e) tt
    >>= λ p u.
        let device = record device { deployer_id = d.id } in
        refuse_if (record p { result = record (p.result) { device = device } })
          (is_empty device.format_key || not (text_eq device.format_key r.target.format_key))
          (device_incompatible ∷ []) device

unfoldable pub preview_surface : Deployer → DeviceInfo → Surface → Progress → Part Removal
preview_surface d device (route_surface m repo prior) p =
    go_on p (record { deployer = d; device = device; surface = route_surface m repo prior })
preview_surface d device (fqdn_surface remover repo endpoint owned) p =
    fail_on (call previewed_removal p) (remover.preview p.calls owned) (λ e. deploy_failed ∷ e)
      (record { deployer = d; device = device; surface = fqdn_surface remover repo endpoint owned })

-- A surface where nothing is owned reaches no device.
unfoldable pub prepare_surface : RemovalRequest → Deployer → Surface → Progress → Part Removal
unfolding nothing_owned probe_for_removal preview_surface
prepare_surface r d s p =
    if nothing_owned r.output_id s
    then go_on p (record { deployer = d; device = no_device; surface = s })
    else probe_for_removal r d p >>= λ p device. preview_surface d device s p

-- `prepareRemoval`; `PreviewRemoval` is the same without the record of its steps.
unfoldable pub prepare_removal : RemovalRequest → DeployerRegistry → Progress → Part Removal
unfolding check_removal surface_of prepare_surface
prepare_removal r deployers p =
    check_removal r deployers p >>= λ p d. surface_of r d p >>= λ p s. prepare_surface r d s p
