-- ===== src/Deploy/Delivery/Plan.antt =====
-- `Plan`, `CheckCredential`, `ValidateStoredConnection`, `DeployableTargets` and `RetireManagedRoutes` of
-- internal/application/deployment_service.go.
pub mod Planned
use routevane.Common.{
  ℕ, Ordering, Bool, true, false, ◌&&◌, ◌||◌, not, List, [], ◌∷◌, Option, none, some, if◌then◌else◌,
}
use routevane.Common.Text.{Text, codes, text_eq, text_compare, Text-discrete}
use routevane.Common.Assoc.{get}
use routevane.Common.Sort.{sort_by}
use routevane.Domain.Target.{TargetDefinition}
use routevane.Deploy.Failure.{
  Chain, connection_invalid, deploy_composition, deploy_failed, device_incompatible,
  no_credential_check,
}
use routevane.Deploy.Attempt.{Connection, DeployCommand, DeviceInfo, empty_result}
use routevane.Deploy.Routes.Ledger.{ManagedRouteScope, valid_managed_route_scope}
use routevane.Deploy.Routes.Reconcile.{no_items}
use routevane.Deploy.Calls.{
  DeployerRegistry, Deployer, DeployArtifact, ManagedFqdnDeployer, ManagedFqdnGroup,
  ManagedFqdnOwnership, ManagedFqdnRepository, ManagedRouteDeployer, ManagedRouteRepository, probed,
  read_fqdn_ledger, previewed_groups,
}
use routevane.Deploy.Progress.{
  Progress, Ended, stop, is_nil, call, Part, ended, go_on, ◌>>=◌, refuse_if, fail_on,
}
use routevane.Deploy.Delivery.{
  is_empty, ArtifactPayload, Answered, refused, found, DeploymentConfig, is_none, Resolved,
  registered, resolve, artifact_target,
}

-- `NewDeploymentService` accepts a registry whose deployers stand under their own names.
unfoldable pub named_deployers : DeployerRegistry → Bool
unfolding Text-discrete
named_deployers [] = true
named_deployers ((id, d) ∷ rest) = not (is_empty id) && text_eq d.id id && named_deployers rest

unfoldable pub new_deployment_service : DeploymentConfig → Option DeploymentConfig
unfolding named_deployers
new_deployment_service config =
    if not (no_items config.deployers) && named_deployers config.deployers
    then some config
    else none

-- The title of a plan, which a screen shows, is left out.
pub record DeployPlan : Type 0 where
  pub artifact_id : Text
  pub artifact_hash : Text
  pub target_id : Text
  pub deployer_id : Text
  pub size_bytes : ℕ
  pub fqdn_changes : List Text
  pub needs_credential : Bool

abbrev pub deploy_plan_of : Resolved → DeployPlan
deploy_plan_of v = record {
  artifact_id = v.payload.id;
  artifact_hash = v.payload.artifact_hash;
  target_id = v.target.id;
  deployer_id = v.deployer.id;
  size_bytes = v.payload.size_bytes;
  fqdn_changes = [];
  needs_credential = v.deployer.needs_credential;
}

abbrev pub preview_artifact : Resolved → List ManagedFqdnGroup → DeployArtifact
preview_artifact v groups = record {
  artifact_id = [];
  renderer_id = v.payload.renderer_id;
  artifact_hash = [];
  payload = v.payload.payload;
  routing_plan_hash = [];
  owned_fqdn_groups = groups;
}

abbrev same_error : Chain → Chain
same_error e = e

-- The probe, the ledger and the preview of the groups.
unfoldable pub plan_groups :
    DeployCommand
    → Resolved
    → ManagedFqdnDeployer
    → ManagedFqdnRepository
    → Progress
    → Part DeployPlan
unfolding Text-discrete
plan_groups c v f repo p =
    let (device, probe_fault) = v.deployer.probe p.calls in
    fail_on (call probed p) probe_fault (λ e. deploy_failed ∷ e) tt >>= λ p u.
    refuse_if p (not (text_eq device.format_key v.target.format_key)) (device_incompatible ∷ []) tt
    >>= λ p u. fail_on p f.endpoint.1 same_error tt >>= λ p u.
        let (prior, read_fault) = repo.read p.calls f.endpoint.0 v.payload.output_id in
        fail_on (call read_fqdn_ledger p) read_fault same_error tt >>= λ p u.
        let artifact = preview_artifact v prior.groups in
        fail_on (call previewed_groups p) (f.preview p.calls artifact) (λ e. deploy_failed ∷ e)
          (record (deploy_plan_of v) { fqdn_changes = f.changes p.calls artifact })

abbrev pub plan_surface :
    DeployCommand
    → Resolved
    → Option ManagedFqdnDeployer
    → Option ManagedFqdnRepository
    → Progress
    → Part DeployPlan
plan_surface c v none repo p = go_on p (deploy_plan_of v)
plan_surface c v (some f) none p = ended (stop p (deploy_composition ∷ []))
plan_surface c v (some f) (some repo) p = plan_groups c v f repo p

abbrev pub plan_start : Progress
plan_start = record { calls = []; result = empty_result [] }

-- A login that is asked of the device, or a refusal before.
pub data CredentialCheck : Type 0 where
  unasked : Chain → CredentialCheck
  asked : Option Chain → CredentialCheck

pub record DeployableTarget : Type 0 where
  pub target_id : Text
  pub deployer_id : Text
  pub needs_credential : Bool

-- What a retirement of ledgers asks of a repository; the call of one that is nil panics.
pub data Retiring : Type 0 where
  nothing_to_retire : Retiring
  not_retired : Chain → Retiring
  retired_groups : (endpoint interface_name : Text) → Option Chain → Retiring
  retired_routes : ManagedRouteScope → Option Chain → Retiring
  nil_repository : Retiring

module _ (s : DeploymentConfig) where
  abbrev pub plan_resolved : DeployCommand → Answered Resolved → Part DeployPlan
  plan_resolved c (refused e) = ended (stop plan_start e)
  plan_resolved c (found v) = plan_surface c v v.deployer.managed_fqdn s.managed_fqdn plan_start

  -- `Plan`
  unfoldable pub plan_deployment : DeployCommand → Part DeployPlan
  unfolding resolve plan_groups
  plan_deployment c = plan_resolved c (resolve s c)

  -- A deployer of a target, by the target's identity.
  abbrev pub deployer_of : Answered TargetDefinition → Answered Deployer
  deployer_of (refused e) = refused e
  deployer_of (found t) = registered (get t.renderer_id s.deployers)

  abbrev pub stored_answer : Option Chain → Option Chain
  stored_answer none = none
  stored_answer (some e) = some (connection_invalid ∷ e)

  abbrev pub validate_with : Connection → Answered Deployer → Option Chain
  validate_with connection (refused e) = some e
  validate_with connection (found d) = stored_answer (d.stored_connection_fault connection)

  -- `ValidateStoredConnection`
  unfoldable pub validate_stored_connection : Text → Connection → Option Chain
  unfolding get
  validate_stored_connection target_id connection =
      validate_with connection (deployer_of (s.artifacts.target_definition target_id))

  abbrev pub ask_login : Connection → Deployer → CredentialCheck
  ask_login connection d =
      if not d.needs_credential
      then unasked (no_credential_check ∷ [])
      else elim (d.connection_fault connection) [
        | some e ↦ unasked (connection_invalid ∷ e)
        | none ↦ asked (d.probe []).1
      ]

  abbrev pub check_with : Connection → Option Deployer → CredentialCheck
  check_with connection none = unasked (no_credential_check ∷ [])
  check_with connection (some d) = ask_login connection d

  abbrev pub check_target : Connection → Answered TargetDefinition → CredentialCheck
  check_target connection (refused e) = unasked e
  check_target connection (found t) = check_with connection (get t.renderer_id s.deployers)

  -- `CheckCredential`
  unfoldable pub check_credential : Text → Connection → CredentialCheck
  unfolding get
  check_credential target_id connection =
      check_target connection (s.artifacts.target_definition target_id)

  abbrev pub add_deployable :
      TargetDefinition → Option Deployer → List DeployableTarget → List DeployableTarget
  add_deployable t none rest = rest
  add_deployable t (some d) rest =
      record { target_id = t.id; deployer_id = d.id; needs_credential = d.needs_credential } ∷ rest

  unfoldable pub deployable : List TargetDefinition → List DeployableTarget
  unfolding get
  deployable [] = []
  deployable (t ∷ options) = add_deployable t (get t.renderer_id s.deployers) (deployable options)

  -- `DeployableTargets`
  unfoldable pub deployable_targets : List TargetDefinition → List DeployableTarget
  unfolding deployable sort_by text_compare
  deployable_targets options =
      sort_by (λ a b. text_compare a.target_id b.target_id) (deployable options)

  abbrev pub retire_endpoint : Connection → ManagedFqdnRepository → Text × Option Chain → Retiring
  retire_endpoint connection repo (endpoint, some e) = not_retired e
  retire_endpoint connection repo (endpoint, none) =
      retired_groups endpoint connection.interface_name
        (repo.retire endpoint connection.interface_name)

  abbrev pub retire_valid_scope :
      ManagedRouteScope → Bool → Option ManagedRouteRepository → Retiring
  retire_valid_scope scope false repo = not_retired (deploy_composition ∷ [])
  retire_valid_scope scope true none = nil_repository
  retire_valid_scope scope true (some repo) = retired_routes scope (repo.retire scope)

  abbrev pub retire_scope : Connection → Deployer → Option ManagedRouteDeployer → Retiring
  retire_scope connection d none = nothing_to_retire
  retire_scope connection d (some m) = elim (stored_answer (d.stored_connection_fault connection)) [
    | some e ↦ not_retired e
    | none ↦
        retire_valid_scope m.scope.0 (is_nil m.scope.1 && valid_managed_route_scope m.scope.0)
          s.managed_routes
  ]

  abbrev pub retire_surface :
      Connection → Deployer → Option ManagedFqdnDeployer → Option ManagedFqdnRepository → Retiring
  retire_surface connection d (some f) (some repo) = retire_endpoint connection repo f.endpoint
  retire_surface connection d _ _ = retire_scope connection d d.managed_routes

  abbrev pub retire_with : Connection → Answered Deployer → Retiring
  retire_with connection (refused e) = not_retired e
  retire_with connection (found d) = retire_surface connection d d.managed_fqdn s.managed_fqdn

  -- `RetireManagedRoutes`
  unfoldable pub retire_managed_routes : Text → Connection → Retiring
  unfolding get valid_managed_route_scope
  retire_managed_routes target_id connection =
      if is_none s.managed_routes && is_none s.managed_fqdn
      then nothing_to_retire
      else retire_with connection (deployer_of (s.artifacts.target_definition target_id))
