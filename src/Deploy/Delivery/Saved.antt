-- ===== src/Deploy/Delivery/Saved.antt =====
-- A command that selects a saved device.
use routevane.Common.{
  ◌≡◌, refl, sym, subst, ap, ◌∙◌, true, false, ◌&&◌, [], ◌∷◌, Option, none, some, Bool-cases, arith,
  inl, inr,
}
use routevane.Common.Text.{Text, text_eq}
use routevane.Common.Assoc.{get, text_eq_sound}
use routevane.Domain.Names.{is_empty}
use routevane.Domain.Target.{TargetDefinition}
use routevane.Deploy.Failure.{connection_invalid}
use routevane.Deploy.Attempt.{DeployCommand, DeviceConnectionSnapshot}
use routevane.Deploy.Calls.{Deployer, DeployRequest}
use routevane.Deploy.Delivery.{
  ArtifactPayload, Answered, refused, found, DeploymentConfig, guard, registered, Device,
  DeviceSource, valid_connection, artifact_target, same_snapshot, stored_password, password_for,
  connection_to, saved_command, expected, resolve_saved, resolve_device_connection,
}
use routevane.Deploy.Delivery.Delivered.{
  bind-found, guard-found, found-inj, registered-found, valid-found, Aimed, target-Aimed, Sendable,
}

-- The password of the request, or else the one that is kept for the device.
pub data Password (devices : DeviceSource) (d : Device) (given : Text) : Text → Type 0 where
  of_request : Password devices d given given
  of_store :
      (p : Text)
      → is_empty given ≡ true
      → d.credential_stored ≡ true
      → devices.credential d.id ≡ found p
      → is_empty p ≡ false
      → Password devices d given p

-- The registered device whose access a command has taken.
pub record SavedAccess (s : DeploymentConfig) (devices : DeviceSource) (c resolved : DeployCommand)
    : Type 0 where
  pub snapshot : DeviceConnectionSnapshot
  pub device : Device
  pub payload : ArtifactPayload
  pub target : TargetDefinition
  pub deployer : Deployer
  pub password : Text
  pub selected : c.expected_connection ≡ some snapshot
  pub stored : devices.device c.device_id ≡ found device
  pub current : same_snapshot snapshot device ≡ true
  pub aimed : Aimed s c.artifact_id payload target
  pub compatible : text_eq device.target_id target.id ≡ true
  pub available : get target.renderer_id s.deployers ≡ some deployer
  pub chosen : Password devices device c.connection.password password
  pub accepted : deployer.connection_fault (connection_to device password) ≡ none
  pub command : resolved ≡ saved_command c device password

expected-found :
    (o : Option DeviceConnectionSnapshot) (e : DeviceConnectionSnapshot)
    → expected o ≡ found e
    → o ≡ some e
expected-found none e h = cc
expected-found (some k) e h = cc

stored-found :
    (a : Answered Text) (p : Text)
    → stored_password a ≡ found p
    → (a ≡ found p) × (is_empty p ≡ false)
stored-found (refused e) p h = cc
stored-found (found k) p h = ground arith

chosen-Password :
    (devices : DeviceSource) (d : Device) (deployer : Deployer) (given p : Text)
    → password_for devices d deployer given ≡ found p
    → Password devices d given p
chosen-Password devices d deployer given p h =
    elim (Bool-cases (is_empty given && deployer.needs_credential)) [
      | inr e ↦
          let picked : password_for devices d deployer given ≡ found given = rw e refl in
          subst (Password devices d given) (found-inj (sym picked ∙ h)) of_request
      | inl e ↦ elim (Bool-cases d.credential_stored) [
        | inr k ↦
            let picked : password_for devices d deployer given ≡ refused (connection_invalid ∷ []) =
              rw (e, k) refl in
            cc
        | inl k ↦
            let picked : password_for devices d deployer given
                ≡ stored_password (devices.credential d.id) =
              rw (e, k) refl in
            let (a, n) = stored-found (devices.credential d.id) p (sym picked ∙ h) in
            of_store p (ground arith) k a n
      ]
    ]

module _ (s : DeploymentConfig) (devices : DeviceSource) where
  saved-SavedAccess :
      (c k : DeployCommand) → resolve_saved s devices c ≡ found k → SavedAccess s devices c k
  unfolding resolve_saved
  saved-SavedAccess c k h =
      let (e, selected, h) = bind-found (expected c.expected_connection) _ _ h in
      let (u, blank, h) =
        bind-found
          (guard
            (is_empty c.connection.url
              && is_empty c.connection.username
              && is_empty c.connection.interface_name)
            _)
          _ _ h in
      let (d, stored, h) = bind-found (devices.device c.device_id) _ _ h in
      let (u, current, h) = bind-found (guard (same_snapshot e d) _) _ _ h in
      let ((payload, target), aimed, h) = bind-found (artifact_target s c.artifact_id) _ _ h in
      let (v, compatible, h) = bind-found (guard (text_eq d.target_id target.id) _) _ _ h in
      let (deployer, available, h) =
        bind-found (registered (get target.renderer_id s.deployers)) _ _ h in
      let (p, chosen, h) =
        bind-found (password_for devices d deployer c.connection.password) _ _ h in
      let (w, accepted, h) =
        bind-found (valid_connection (deployer.connection_fault (connection_to d p))) _ _ h in
      record {
        snapshot = e;
        device = d;
        payload = payload;
        target = target;
        deployer = deployer;
        password = p;
        selected = expected-found _ e selected;
        stored = stored;
        current = guard-found _ _ u current;
        aimed = target-Aimed s c.artifact_id payload target aimed;
        compatible = guard-found _ _ v compatible;
        available = registered-found _ deployer available;
        chosen = chosen-Password devices d deployer c.connection.password p chosen;
        accepted = valid-found _ w accepted;
        command = sym (found-inj h);
      }

same_snapshot-holds :
    (e : DeviceConnectionSnapshot) (d : Device)
    → same_snapshot e d ≡ true
    → (e.address ≡ d.address) × (e.account ≡ d.account) × (e.interface_name ≡ d.interface_name)
same_snapshot-holds e d h = (
  text_eq_sound e.address d.address (ground arith),
  text_eq_sound e.account d.account (ground arith),
  text_eq_sound e.interface_name d.interface_name (ground arith),
)

-- Of a delivery to a saved device: the access that the operator selected, still registered, and a
-- device that was registered for the target of the artifact.
pub record SavedDelivery (devices : DeviceSource) (c : DeployCommand) (r : DeployRequest)
    : Type 0 where
  pub snapshot : DeviceConnectionSnapshot
  pub device : Device
  pub selected : c.expected_connection ≡ some snapshot
  pub stored : devices.device c.device_id ≡ found device
  pub address : (r.connection.url ≡ snapshot.address) × (device.address ≡ snapshot.address)
  pub account : (r.connection.username ≡ snapshot.account) × (device.account ≡ snapshot.account)
  pub interface :
      (r.connection.interface_name ≡ snapshot.interface_name)
      × (device.interface_name ≡ snapshot.interface_name)
  pub compatible : device.target_id ≡ r.target.id
  pub chosen : Password devices device c.connection.password r.connection.password

target_once :
    (s : DeploymentConfig) (id : Text) (p q : ArtifactPayload) (t u : TargetDefinition)
    → Aimed s id p t
    → Aimed s id q u
    → t ≡ u
target_once s id p q t u a b =
    let same = found-inj (sym a.stored ∙ b.stored) in
    let there =
      found-inj (sym a.output ∙ ap (λ k. s.artifacts.output_target k.output_id) same ∙ b.output) in
    found-inj (sym a.defined ∙ ap s.artifacts.target_definition there ∙ b.defined)

access-SavedDelivery :
    (s : DeploymentConfig) (devices : DeviceSource) (c k : DeployCommand) (r : DeployRequest)
    → SavedAccess s devices c k
    → Sendable s k r
    → SavedDelivery devices c r
access-SavedDelivery s devices c k r a b =
    let (e1, e2, e3) = same_snapshot-holds a.snapshot a.device a.current in
    let sent : r.connection ≡ connection_to a.device a.password =
      ap (λ q. q.connection) b.request ∙ ap (λ q. q.connection) a.command in
    let there =
      target_once s c.artifact_id a.payload b.resolved.payload a.target b.resolved.target a.aimed (
        subst (λ n. Aimed s n.artifact_id b.resolved.payload b.resolved.target) a.command
          b.matched.aimed) in
    record {
      snapshot = a.snapshot;
      device = a.device;
      selected = a.selected;
      stored = a.stored;
      address = (ap (λ q. q.url) sent ∙ sym e1, sym e1);
      account = (ap (λ q. q.username) sent ∙ sym e2, sym e2);
      interface = (ap (λ q. q.interface_name) sent ∙ sym e3, sym e3);
      compatible =
          text_eq_sound a.device.target_id a.target.id a.compatible
          ∙ ap (λ q. q.id) there
          ∙ sym (ap (λ q. q.target.id) b.request);
      chosen =
          subst (Password devices a.device c.connection.password) (sym (ap (λ q. q.password) sent))
            a.chosen;
    }

-- A command that selects a registered device and is resolved, then sent, reaches the address, account
-- and interface that the operator selected, which are those registered at that moment; the device is
-- registered for the target that the artifact was rendered for; and the password is the command's
-- own, or, where that is empty, the one that is kept for this device.
pub saved-SavedDelivery :
    (s : DeploymentConfig) (devices : DeviceSource) (c k : DeployCommand) (r : DeployRequest)
    → is_empty c.device_id ≡ false
    → resolve_device_connection s devices c ≡ found k
    → Sendable s k r
    → SavedDelivery devices c r
unfolding resolve_device_connection
saved-SavedDelivery s devices c k r n h b =
    let taken : resolve_device_connection s devices c ≡ resolve_saved s devices c = rw n refl in
    access-SavedDelivery s devices c k r (saved-SavedAccess s devices c k (sym taken ∙ h)) b
