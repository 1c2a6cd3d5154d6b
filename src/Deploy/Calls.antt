-- ===== src/Deploy/Calls.antt =====
-- What a delivery calls: the interfaces of internal/application/deploy.go. An answer may depend on
-- all the calls before it, so that any device and any fault is one of these. The connection and the
-- probed device are the same in each call of one delivery.
use routevane.Common.{Bool, ◌&&◌, not, List, Option, ltb}
use routevane.Common.Text.{Text}
use routevane.Common.Assoc.{Map}
use routevane.Domain.Names.{is_empty}
use routevane.Domain.Target.{TargetDefinition}
use routevane.Deploy.Failure.{Chain}
use routevane.Deploy.Attempt.{Connection, DeviceInfo, BackupRef}
use routevane.Deploy.Routes.Ledger.{ManagedRouteScope, ManagedRouteSpec, ManagedRouteOwnership}
use routevane.Deploy.Routes.Reconcile.{ManagedRouteMutation}

pub record BackupPayload : Type 0 where
  pub ref : BackupRef
  pub payload : Text

-- `BackupRef.Verified`
unfoldable pub is_verified : BackupRef → Bool
is_verified b =
    not (is_empty b.id)
    && not (is_empty b.path)
    && not (is_empty b.hash)
    && ltb 0 b.size_bytes
    && ltb 0 b.created_at

-- The fields that the lifecycle reads.
pub record ManagedFqdnGroup : Type 0 where
  pub name : Text
  pub entries : List Text
  pub description : Text
  pub interface_name : Text
  pub auto : Bool

pub record ManagedFqdnOwnership : Type 0 where
  pub endpoint : Text
  pub output_id : Text
  pub groups : List ManagedFqdnGroup

pub record DeployArtifact : Type 0 where
  pub artifact_id : Text
  pub renderer_id : Text
  pub artifact_hash : Text
  pub payload : Text
  pub routing_plan_hash : Text
  pub owned_fqdn_groups : List ManagedFqdnGroup

-- One call, with the part of its answer that later steps stand on.
pub data Call : Type 0 where
  probed : Call
  read_fqdn_ledger : Call
  previewed_groups : Call
  previewed_removal : Call
  read_route_ledger : Call
  took_backup : Call
  stored_backup : Text → BackupRef → Call
  read_routes : Call
  applied_routes : ManagedRouteMutation → Call
  wrote_artifact : (may_have_changed : Bool) → Call
  removed_groups : (may_have_changed : Bool) → Call
  verified : (passed : Bool) → Call
  replaced_route_ledger : ManagedRouteOwnership → Call
  replaced_fqdn_ledger : ManagedFqdnOwnership → Call
  restored : BackupPayload → Call

-- The calls so far, the latest first.
abbrev pub Calls : Type 0
Calls = List Call

-- Whether an artifact's write reports that nothing was submitted.
pub data Writer : Type 0 where
  plain : (Calls → DeployArtifact → Option Chain) → Writer
  reporting : (Calls → DeployArtifact → Bool × Option Chain) → Writer

pub record ManagedRouteDeployer : Type 0 where
  pub scope : ManagedRouteScope × Option Chain
  pub desired : DeployArtifact → List ManagedRouteSpec × Option Chain
  pub current : Calls → List ManagedRouteSpec × Option Chain
  pub apply_changes : Calls → ManagedRouteMutation → Option Chain

-- `changes` are the texts of a preview that has no fault.
pub record ManagedFqdnDeployer : Type 0 where
  pub endpoint : Text × Option Chain
  pub desired : DeviceInfo → DeployArtifact → List ManagedFqdnGroup × Option Chain
  pub preview : Calls → DeployArtifact → Option Chain
  pub changes : Calls → DeployArtifact → List Text

-- It removes exactly the groups that a ledger names.
pub record ManagedFqdnRemover : Type 0 where
  pub preview : Calls → List ManagedFqdnGroup → Option Chain
  pub remove : Calls → List ManagedFqdnGroup → Bool × Option Chain
  pub verify_removed : Calls → List ManagedFqdnGroup → Option Chain

pub record Deployer : Type 0 where
  pub id : Text
  pub needs_credential : Bool
  pub connection_fault : Connection → Option Chain
  pub stored_connection_fault : Connection → Option Chain
  pub probe : Calls → DeviceInfo × Option Chain
  pub take_backup : Calls → BackupPayload × Option Chain
  pub write : Writer
  pub verify : Calls → DeployArtifact → Option Chain
  pub rollback : Calls → BackupPayload → Option Chain
  pub managed_routes : Option ManagedRouteDeployer
  pub managed_fqdn : Option ManagedFqdnDeployer
  pub fqdn_remover : Option ManagedFqdnRemover

pub record ManagedRouteRepository : Type 0 where
  pub read : Calls → ManagedRouteScope → ManagedRouteOwnership × Option Chain
  pub replace : Calls → ManagedRouteOwnership → Option Chain
  pub retire : ManagedRouteScope → Option Chain

-- What `ManagedFQDNOwnership.Validate` reads of a URL.
pub record UrlParts : Type 0 where
  pub scheme : Text
  pub host : Text
  pub has_user : Bool

-- `parse_url` is the `Parse` of net/url.
pub record ManagedFqdnRepository : Type 0 where
  pub read : Calls → Text → Text → ManagedFqdnOwnership × Option Chain
  pub replace : Calls → ManagedFqdnOwnership → Option Chain
  pub retire : Text → Text → Option Chain
  pub parse_url : Text → Option UrlParts

abbrev pub BackupStore : Type 0
BackupStore = Calls → Text → Text → BackupRef × Option Chain

pub record DeployRequest : Type 0 where
  pub target : TargetDefinition
  pub connection : Connection
  pub artifact : DeployArtifact
  pub output_id : Text
  pub managed_routes : Option ManagedRouteRepository
  pub managed_fqdn : Option ManagedFqdnRepository

pub record RemovalRequest : Type 0 where
  pub target : TargetDefinition
  pub connection : Connection
  pub output_id : Text
  pub managed_routes : Option ManagedRouteRepository
  pub managed_fqdn : Option ManagedFqdnRepository

abbrev pub DeployerRegistry : Type 0
DeployerRegistry = Map Deployer
