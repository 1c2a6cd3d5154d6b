-- ===== src/Deploy/Prepare.antt =====
-- `DeployToDevice` of internal/application/deploy.go up to the first change of the device, with
-- `storeVerifiedBackup`.
pub mod Quiet
use routevane.Common.{Bool, true, false, ◌&&◌, ◌||◌, not, List, [], ◌∷◌, Option, none, some}
use routevane.Common.Text.{Text, codes, text_eq, Text-discrete}
use routevane.Common.Assoc.{get}
use routevane.Domain.Names.{is_empty}
use routevane.Encoding.Hex.{is_hex_id}
use routevane.Deploy.Failure.{
  deploy_composition, deployer_unavailable, connection_invalid, deploy_failed, device_incompatible,
  backup_required,
}
use routevane.Deploy.Attempt.{DeviceInfo}
use routevane.Deploy.Routes.Ledger.{
  ManagedRouteScope, ManagedRouteSpec, ManagedRouteOwnership, valid_managed_route_scope,
  validate_ownership, RouteError,
}
use routevane.Deploy.Routes.Reconcile.{no_items}
use routevane.Deploy.Groups.{valid_fqdn_ownership}
use routevane.Deploy.Calls.{
  BackupPayload, is_verified, ManagedFqdnOwnership, DeployArtifact, probed, read_fqdn_ledger,
  previewed_groups, read_route_ledger, took_backup, stored_backup, ManagedRouteDeployer,
  ManagedFqdnDeployer, Deployer, ManagedRouteRepository, ManagedFqdnRepository, BackupStore,
  DeployRequest, DeployerRegistry,
}
use routevane.Deploy.Progress.{
  Progress, stop, is_nil, call, audit, Part, ◌>>=◌, refuse_if, fail_on, ended, go_on,
}

abbrev pub lookup_deployer : Progress → Option Deployer → Part Deployer
lookup_deployer p none = ended (stop p (deployer_unavailable ∷ []))
lookup_deployer p (some d) = go_on p d

-- Each check before the device is asked anything. That the services are there is a check of its own.
unfoldable pub check_request : DeployRequest → DeployerRegistry → Progress → Part Deployer
unfolding get Text-discrete
check_request r deployers p =
    refuse_if p
      (no_items deployers
        || is_empty r.target.id
        || is_empty r.target.renderer_id
        || is_empty r.target.format_key
        || is_empty r.artifact.artifact_id
        || is_empty r.artifact.payload
        || is_empty r.artifact.artifact_hash
        || not (text_eq r.artifact.renderer_id r.target.renderer_id)
        || is_empty r.connection.url)
      (deploy_composition ∷ []) tt
    >>= λ p u. lookup_deployer p (get r.target.renderer_id deployers) >>= λ p d.
        fail_on p (d.connection_fault r.connection) (λ e. connection_invalid ∷ e) d

-- An incompatible firmware is refused before anything on the device changes.
unfoldable pub probe_device : DeployRequest → Deployer → Progress → Part DeviceInfo
unfolding Text-discrete
probe_device r d p =
    let (device, e) = d.probe p.calls in
    fail_on (audit (codes "probe") e device.firmware_version (call probed p)) e
      (λ e. deploy_failed ∷ e) tt
    >>= λ p u.
        let device = record device { deployer_id = d.id } in
        refuse_if (record p { result = record (p.result) { device = device } })
          (is_empty device.format_key || not (text_eq device.format_key r.target.format_key))
          (device_incompatible ∷ []) device

-- What the ledger of FQDN groups gives: the request with the groups owned, and the next ledger.
pub record Groups : Type 0 where
  pub artifact : DeployArtifact
  pub repository : ManagedFqdnRepository
  pub next : ManagedFqdnOwnership

abbrev pub same_fqdn_scope : ManagedFqdnRepository → Text → Text → ManagedFqdnOwnership → Bool
same_fqdn_scope repo endpoint output prior =
    text_eq prior.endpoint endpoint
    && text_eq prior.output_id output
    && valid_fqdn_ownership repo.parse_url prior

unfoldable pub prepare_groups_with :
    DeployRequest
    → DeviceInfo
    → ManagedFqdnDeployer
    → ManagedFqdnRepository
    → Progress
    → Part (Option Groups)
unfolding Text-discrete valid_fqdn_ownership
prepare_groups_with r device f repo p =
    let (endpoint, scope_fault) = f.endpoint in
    fail_on p scope_fault (λ e. e) tt >>= λ p u.
    let (prior, read_fault) = repo.read p.calls endpoint r.output_id in
    fail_on (call read_fqdn_ledger p) read_fault (λ e. deploy_composition ∷ []) tt >>= λ p u.
    refuse_if p (not (same_fqdn_scope repo endpoint r.output_id prior)) (deploy_composition ∷ []) tt
    >>= λ p u.
        let artifact = record (r.artifact) { owned_fqdn_groups = prior.groups } in
        let (groups, desired_fault) = f.desired device artifact in
        fail_on p desired_fault (λ e. deploy_composition ∷ []) tt >>= λ p u.
        fail_on (call previewed_groups p) (f.preview p.calls artifact) (λ e. deploy_failed ∷ e)
          (some record {
            artifact = artifact;
            repository = repo;
            next = record { endpoint = endpoint; output_id = r.output_id; groups = groups };
          })

unfoldable pub prepare_groups :
    DeployRequest → Deployer → DeviceInfo → Progress → Part (Option Groups)
unfolding prepare_groups_with is_hex_id
prepare_groups r d device p = elim d.managed_fqdn [
  | none ↦ go_on p none
  | some f ↦ elim r.managed_fqdn [
    | none ↦ ended (stop p (deploy_composition ∷ []))
    | some repo ↦ refuse_if p (not (is_hex_id r.output_id)) (deploy_composition ∷ []) tt >>= λ p u.
        prepare_groups_with r device f repo p
  ]
]

-- What the ledger of routes gives.
pub record Routes : Type 0 where
  pub deployer : ManagedRouteDeployer
  pub repository : ManagedRouteRepository
  pub prior : ManagedRouteOwnership
  pub desired : List ManagedRouteSpec

abbrev pub same_scope : ManagedRouteScope → ManagedRouteScope → Bool
same_scope a b =
    text_eq a.endpoint b.endpoint
    && text_eq a.target_id b.target_id
    && text_eq a.interface_name b.interface_name

abbrev pub is_refused : Option RouteError → Bool
is_refused none = false
is_refused (some e) = true

unfoldable pub prepare_routes_with :
    DeployRequest
    → DeployArtifact
    → ManagedRouteDeployer
    → ManagedRouteRepository
    → Progress
    → Part (Option Routes)
unfolding Text-discrete is_hex_id valid_managed_route_scope validate_ownership
prepare_routes_with r artifact m repo p =
    let (scope, scope_fault) = m.scope in
    refuse_if p
      (not (is_hex_id r.output_id)
        || not (is_nil scope_fault)
        || not (valid_managed_route_scope scope))
      (deploy_composition ∷ []) tt
    >>= λ p u.
        let (prior, read_fault) = repo.read p.calls scope in
        fail_on (call read_route_ledger p) read_fault (λ e. deploy_composition ∷ []) tt >>= λ p u.
        refuse_if p (not (same_scope prior.scope scope) || is_refused (validate_ownership prior))
          (deploy_composition ∷ []) tt
        >>= λ p u.
            let (desired, desired_fault) = m.desired artifact in
            fail_on p desired_fault (λ e. deploy_composition ∷ [])
              (some record { deployer = m; repository = repo; prior = prior; desired = desired })

-- Without a ledger the deployer's routes are not managed.
unfoldable pub prepare_routes :
    DeployRequest → Deployer → DeployArtifact → Progress → Part (Option Routes)
unfolding prepare_routes_with
prepare_routes r d artifact p = elim d.managed_routes [
  | none ↦ go_on p none
  | some m ↦ elim r.managed_routes [
    | none ↦ go_on p none
    | some repo ↦ prepare_routes_with r artifact m repo p
  ]
]

-- `storeVerifiedBackup`
unfoldable pub store_verified_backup :
    Deployer → BackupStore → DeviceInfo → Progress → Part BackupPayload
unfolding is_verified
store_verified_backup d store device p =
    let (backup, e) = d.take_backup p.calls in
    fail_on (audit (codes "backup") e backup.ref.hash (call took_backup p)) e
      (λ e. backup_required ∷ []) tt
    >>= λ p u. refuse_if p (is_empty backup.payload) (backup_required ∷ []) tt >>= λ p u.
        let (stored, store_fault) = store p.calls device.deployer_id backup.payload in
        fail_on (call (stored_backup backup.payload stored) p) store_fault
          (λ e. backup_required ∷ []) tt
        >>= λ p u.
            refuse_if p (not (is_verified stored)) (backup_required ∷ [])
              (record { ref = stored; payload = backup.payload })

abbrev pub artifact_of : DeployRequest → Option Groups → DeployArtifact
artifact_of r none = r.artifact
artifact_of r (some g) = g.artifact

-- The device, its ledgers and its verified backup: all before the first change.
pub record Prepared : Type 0 where
  pub deployer : Deployer
  pub groups : Option Groups
  pub routes : Option Routes
  pub backup : BackupPayload

unfoldable pub prepare : DeployRequest → DeployerRegistry → BackupStore → Progress → Part Prepared
unfolding check_request probe_device prepare_groups prepare_routes store_verified_backup
prepare r deployers store p = check_request r deployers p >>= λ p d.
    probe_device r d p >>= λ p device. prepare_groups r d device p >>= λ p groups.
    prepare_routes r d (artifact_of r groups) p >>= λ p routes.
    store_verified_backup d store device p >>= λ p backup.
    go_on p (record { deployer = d; groups = groups; routes = routes; backup = backup })
