-- ===== src/Deploy/Delivery.antt =====
-- internal/application/deployment_service.go: from one published artifact and one connection to a
-- delivery.
pub mod Delivered
pub mod Saved
pub mod Plan
use routevane.Common.{
  ℕ, Bool, true, false, ◌&&◌, ◌||◌, not, List, [], ◌∷◌, Option, none, some, if◌then◌else◌,
}
use routevane.Common.Text.{Text, codes, text_eq, Text-discrete}
use routevane.Common.Assoc.{get}
use routevane.Domain.Names.{is_empty}
use routevane.Domain.Target.{TargetDefinition}
use routevane.Deploy.Failure.{
  Chain, confirmation_required, connection_invalid, deploy_composition, deployer_unavailable,
  device_incompatible,
}
use routevane.Deploy.Attempt.{
  Connection, DeviceConnectionSnapshot, DeployCommand, DeployResult, empty_result,
}
use routevane.Deploy.Calls.{
  Deployer, DeployRequest, DeployArtifact, DeployerRegistry, BackupStore, ManagedRouteRepository,
  ManagedFqdnRepository,
}
use routevane.Deploy.Progress.{Ended, stop}
use routevane.Deploy.Lifecycle.{deploy_to_device}

-- The fields of an artifact's record, of its output, of its plan and of a device that the service reads.
pub record ArtifactPayload : Type 0 where
  pub id : Text
  pub output_id : Text
  pub renderer_id : Text
  pub artifact_hash : Text
  pub plan_snapshot_id : Text
  pub payload : Text
  pub size_bytes : ℕ

pub record Device : Type 0 where
  pub id : Text
  pub target_id : Text
  pub address : Text
  pub account : Text
  pub interface_name : Text
  pub credential_stored : Bool
  pub created_at : ℕ

-- A value or an error.
pub data Answered (V : Type 0) : Type 0 where
  refused : Chain → Answered V
  found : V → Answered V

infixl 4 ◌>>=◌
abbrev pub ◌>>=◌ : {V W : Type 0} → (first : Answered V) (next : V → Answered W) → Answered W
refused e >>= next = refused e
found v >>= next = next v

-- The answers of publication: the artifact, the target of its output, and the hash of its plan.
pub record ArtifactSource : Type 0 where
  pub artifact : Text → Answered ArtifactPayload
  pub output_target : Text → Answered Text
  pub snapshot_hash : Text → Answered Text
  pub target_definition : Text → Answered TargetDefinition

pub record DeploymentConfig : Type 0 where
  pub artifacts : ArtifactSource
  pub deployers : DeployerRegistry
  pub backups : BackupStore
  pub managed_routes : Option ManagedRouteRepository
  pub managed_fqdn : Option ManagedFqdnRepository

pub record DeviceSource : Type 0 where
  pub device : Text → Answered Device
  pub credential : Text → Answered Text

abbrev pub guard : Bool → Chain → Answered Unit
guard ok e = if ok then found tt else refused e

abbrev pub registered : Option Deployer → Answered Deployer
registered none = refused (deployer_unavailable ∷ [])
registered (some d) = found d

abbrev pub valid_connection : Option Chain → Answered Unit
valid_connection none = found tt
valid_connection (some e) = refused (connection_invalid ∷ e)

abbrev pub is_none : {V : Type 0} → Option V → Bool
is_none none = true
is_none (some v) = false

-- The artifact, the target and the deployer that a command resolves to.
pub record Resolved : Type 0 where
  pub payload : ArtifactPayload
  pub target : TargetDefinition
  pub deployer : Deployer

abbrev pub snapshot_of : Answered Text → Answered Text
snapshot_of (refused e) = refused (deploy_composition ∷ [])
snapshot_of (found hash) = if is_empty hash then refused (deploy_composition ∷ []) else found hash

abbrev pub refused_result : Chain → Ended
refused_result e = stop (record { calls = []; result = empty_result [] }) e

abbrev pub same_snapshot : DeviceConnectionSnapshot → Device → Bool
same_snapshot e d =
    text_eq e.address d.address
    && text_eq e.account d.account
    && text_eq e.interface_name d.interface_name

abbrev pub stored_password : Answered Text → Answered Text
stored_password (refused e) = refused (connection_invalid ∷ [])
stored_password (found p) = if is_empty p then refused (connection_invalid ∷ []) else found p

-- The password of the request wins over the stored one.
abbrev pub password_for : DeviceSource → Device → Deployer → Text → Answered Text
password_for devices d deployer password =
    if not (is_empty password && deployer.needs_credential)
    then found password
    else if not d.credential_stored
    then refused (connection_invalid ∷ [])
    else stored_password (devices.credential d.id)

abbrev pub connection_to : Device → Text → Connection
connection_to d password = record {
  url = d.address;
  username = d.account;
  password = password;
  interface_name = d.interface_name;
}

abbrev pub saved_command : DeployCommand → Device → Text → DeployCommand
saved_command c d password = record c {
  device_id = [];
  saved_device_id = d.id;
  expected_connection = none;
  connection = connection_to d password;
}

abbrev pub expected : Option DeviceConnectionSnapshot → Answered DeviceConnectionSnapshot
expected none = refused (connection_invalid ∷ [])
expected (some e) = found e

module _ (s : DeploymentConfig) where
  -- `artifactTarget`
  unfoldable pub artifact_target : Text → Answered (ArtifactPayload × TargetDefinition)
  unfolding Text-discrete
  artifact_target id = do
    payload ← s.artifacts.artifact id
    target_id ← s.artifacts.output_target payload.output_id
    target ← s.artifacts.target_definition target_id
    matching ← guard (text_eq payload.renderer_id target.renderer_id) (deploy_composition ∷ [])
    found (payload, target)

  -- `resolve`
  unfoldable pub resolve : DeployCommand → Answered Resolved
  unfolding artifact_target get
  resolve c = do
    typed ← guard (is_empty c.device_id && is_none c.expected_connection) (connection_invalid ∷ [])
    (payload, target) ← artifact_target c.artifact_id
    deployer ← registered (get target.renderer_id s.deployers)
    valid ← valid_connection (deployer.connection_fault c.connection)
    found (record { payload = payload; target = target; deployer = deployer })

  abbrev pub request_of : DeployCommand → Resolved → Text → DeployRequest
  request_of c v hash = record {
    target = v.target;
    connection = c.connection;
    artifact = record {
      artifact_id = v.payload.id;
      renderer_id = v.payload.renderer_id;
      artifact_hash = v.payload.artifact_hash;
      payload = v.payload.payload;
      routing_plan_hash = hash;
      owned_fqdn_groups = [];
    };
    output_id = v.payload.output_id;
    managed_routes = s.managed_routes;
    managed_fqdn = s.managed_fqdn;
  }

  -- Confirmed, resolved, and with the plan that the bytes represent.
  unfoldable pub request_for : DeployCommand → Answered DeployRequest
  unfolding resolve
  request_for c = do
    confirmed ← guard c.confirm (confirmation_required ∷ [])
    v ← resolve c
    hash ← snapshot_of (s.artifacts.snapshot_hash v.payload.plan_snapshot_id)
    found (request_of c v hash)

  abbrev pub deliver_request : Answered DeployRequest → Ended
  deliver_request (refused e) = refused_result e
  deliver_request (found r) = deploy_to_device r s.deployers s.backups

  -- `Deploy`
  unfoldable pub deploy_command : DeployCommand → Ended
  unfolding request_for deploy_to_device
  deploy_command c = deliver_request (request_for c)

  unfoldable pub resolve_saved : DeviceSource → DeployCommand → Answered DeployCommand
  unfolding artifact_target get Text-discrete
  resolve_saved devices c = do
    e ← expected c.expected_connection
    blank ←
        guard
          (is_empty c.connection.url
            && is_empty c.connection.username
            && is_empty c.connection.interface_name)
          (connection_invalid ∷ [])
    d ← devices.device c.device_id
    current ← guard (same_snapshot e d) (connection_invalid ∷ [])
    (payload, target) ← artifact_target c.artifact_id
    compatible ← guard (text_eq d.target_id target.id) (device_incompatible ∷ [])
    deployer ← registered (get target.renderer_id s.deployers)
    password ← password_for devices d deployer c.connection.password
    valid ← valid_connection (deployer.connection_fault (connection_to d password))
    found (saved_command c d password)

  -- `ResolveDeviceConnection`
  unfoldable pub resolve_device_connection : DeviceSource → DeployCommand → Answered DeployCommand
  unfolding resolve_saved
  resolve_device_connection devices c =
      if is_empty c.device_id
      then if is_none c.expected_connection then found c else refused (connection_invalid ∷ [])
      else resolve_saved devices c
