-- ===== src/Deploy/Cleanup.antt =====
-- internal/application/device_cleanup.go: the surfaces that the ledgers name, the saved connection of
-- each, and their removal before a retirement. The step that a refusal names is left out.

pub mod Counts
pub mod Match
pub mod Surfaces
pub mod Reached
pub mod Act
pub mod Retire
use routevane.Common.{
  ◌+◌, ◌==◌, map, ℕ, Ordering, compare, Bool, true, false, ◌&&◌, ◌||◌, not, List, [], ◌∷◌, ◌++◌,
  Option, none, some, if◌then◌else◌, any, keep, length,
}
use routevane.Common.Text.{Text, codes, text_eq, text_compare, Text-discrete}
use routevane.Common.Assoc.{get}
use routevane.Common.Sort.{sort_by}
use routevane.Domain.Names.{is_empty}
use routevane.Domain.Target.{TargetDefinition}
use routevane.Deploy.Failure.{
  Chain, error_is, failure_code, device_cleanup_unavailable, removal_unsupported, Sentinel-discrete,
}
use routevane.Deploy.Attempt.{
  Connection, DeployResult, AttemptStatus, pending, succeeded, failed, empty_result,
}
use routevane.Deploy.Routes.Ledger.{ManagedRouteScope, ManagedRouteOwnership}
use routevane.Deploy.Routes.Reconcile.{no_items}
use routevane.Deploy.Calls.{
  ManagedRouteDeployer, ManagedFqdnDeployer, ManagedFqdnGroup, ManagedFqdnOwnership, Deployer,
  DeployerRegistry, ManagedRouteRepository, ManagedFqdnRepository, BackupStore, RemovalRequest,
}
use routevane.Deploy.Progress.{Progress, Ended, Part, ended, go_on, is_nil}
use routevane.Deploy.Prepare.{same_scope}
use routevane.Deploy.Surface.{prepare_removal, Removal}
use routevane.Deploy.Removal.{remove_from_device, removal_start}
use routevane.Deploy.Delivery.{Answered, refused, found, ◌>>=◌, Device, connection_to}
use routevane.Deploy.Cleanup.Counts.{DeviceRouteCounts, route_counts}

pub data Blocked : Type 0 where
  unblocked connection_missing credential_missing unsupported : Blocked

pub record DeviceObjects : Type 0 where
  pub output_id : Text
  pub target_id : Text
  pub endpoint : Text
  pub interface_name : Text
  pub connection : Option Device
  pub cleanable : Bool
  pub blocked_by : Blocked
  pub fqdn_groups : Option (List Text)
  pub routes : Option DeviceRouteCounts

pub record DeviceCleanupAttempt : Type 0 where
  pub id : Text
  pub output_id : Text
  pub device_id : Text
  pub endpoint : Text
  pub status : AttemptStatus
  pub started_at : ℕ
  pub completed_at : ℕ
  pub result : DeployResult
  pub error : Text

pub record Output : Type 0 where
  pub id : Text
  pub profile_id : Text
  pub target_id : Text
  pub device_id : Text

-- The previews and removals so far, the latest first.
abbrev pub History : Type 0
History = List Ended

-- What a cleanup stands on. A deployer's methods may depend on the connection and on what came before.
pub record DeviceCleanupConfig : Type 0 where
  pub target_definition : Text → Answered TargetDefinition
  pub device_cards : Answered (List Device)
  pub credential : Text → Answered Text
  pub deployers : History → Connection → DeployerRegistry
  pub backups : History → BackupStore
  pub managed_routes : History → ManagedRouteRepository
  pub managed_fqdn : History → ManagedFqdnRepository
  pub fqdn_endpoints : Text → Answered (List Text)
  pub route_scopes : Text → Answered (List ManagedRouteScope)
  pub random_id : History → Answered Text
  pub now : History → ℕ
  pub begin : List DeviceCleanupAttempt → DeviceCleanupAttempt → Option Chain
  pub complete : List DeviceCleanupAttempt → DeviceCleanupAttempt → Option Chain

pub record CleanupEntry : Type 0 where
  pub objects : DeviceObjects
  pub target : TargetDefinition
  pub device : Device
  pub needs_credential : Bool

-- The zero values of an entry's target and device.
abbrev pub no_target : TargetDefinition
no_target = record {
  id = [];
  format_key = [];
  renderer_id = [];
  constraints = record {
    supports_domain_exact = false;
    supports_domain_suffix = false;
    supports_dynamic_dns_set = false;
    supports_ipv4 = false;
    supports_ipv6 = false;
    supports_prefixes = false;
    max_rules = 0;
    max_artifact_size = 0;
    max_entries_per_list = 0;
    max_lists = 0;
  };
}

abbrev pub no_registered_device : Device
no_registered_device = record {
  id = [];
  target_id = [];
  address = [];
  account = [];
  interface_name = [];
  credential_stored = false;
  created_at = 0;
}

-- `DeviceCleanupFailureCode`
unfoldable pub device_cleanup_failure_code : Option Chain → Text
unfolding failure_code Sentinel-discrete Text-discrete
device_cleanup_failure_code none = []
device_cleanup_failure_code (some e) =
    if error_is device_cleanup_unavailable e || error_is removal_unsupported e
    then codes "device_cleanup_unavailable"
    else if not (text_eq (failure_code (some e)) (codes "deploy_failed"))
    then failure_code (some e)
    else codes "device_cleanup_failed"

module _ (w : DeviceCleanupConfig) where
  abbrev pub answered_by : {V : Type 0} → V × Option Chain → Answered V
  answered_by (v, none) = found v
  answered_by (v, some e) = refused e

  abbrev pub objects_at : Output → Text → Text → DeviceObjects
  objects_at o endpoint interface_name = record {
    output_id = o.id;
    target_id = o.target_id;
    endpoint = endpoint;
    interface_name = interface_name;
    connection = none;
    cleanable = false;
    blocked_by = unblocked;
    fqdn_groups = none;
    routes = none;
  }

  abbrev pub surface_entry : DeviceObjects → CleanupEntry
  surface_entry o = record {
    objects = o;
    target = no_target;
    device = no_registered_device;
    needs_credential = false;
  }

  -- The groups of one endpoint; none is no entry.
  unfoldable pub with_groups :
      Output → Text → List ManagedFqdnGroup → List CleanupEntry → List CleanupEntry
  unfolding sort_by text_compare
  with_groups o endpoint [] rest = rest
  with_groups o endpoint (g ∷ groups) rest =
      surface_entry record (objects_at o endpoint g.interface_name) {
        fqdn_groups = some (sort_by text_compare (map (λ k. k.name) (g ∷ groups)));
      }
      ∷ rest

  unfoldable pub group_entries : Output → List Text → Answered (List CleanupEntry)
  unfolding with_groups
  group_entries o [] = found []
  group_entries o (endpoint ∷ endpoints) =
      let rest = group_entries o endpoints in
      answered_by ((w.managed_fqdn []).read [] endpoint o.id) >>= λ owned.
      rest >>= λ entries. found (with_groups o endpoint owned.groups entries)

  unfoldable pub route_entries : Output → List ManagedRouteScope → Answered (List CleanupEntry)
  unfolding route_counts
  route_entries o [] = found []
  route_entries o (scope ∷ scopes) =
      let rest = route_entries o scopes in
      answered_by ((w.managed_routes []).read [] scope) >>= λ owned. rest >>= λ entries.
      let counts = route_counts owned o.id in
      found (
        if counts.claimed == 0
        then entries
        else surface_entry
            record (objects_at o scope.endpoint scope.interface_name) { routes = some counts }
          ∷ entries)

  unfoldable pub ledger_entries : List Output → Answered (List CleanupEntry)
  unfolding group_entries route_entries
  ledger_entries [] = found []
  ledger_entries (o ∷ outputs) =
      let rest = ledger_entries outputs in
      w.fqdn_endpoints o.id >>= λ endpoints. group_entries o endpoints >>= λ groups.
      w.route_scopes o.id >>= λ scopes.
      route_entries o scopes >>= λ routes. rest >>= λ entries. found (groups ++ routes ++ entries)
