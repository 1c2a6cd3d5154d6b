-- ===== src/Deploy/Delivery/Delivered.antt =====
-- What a command that is sent has resolved to.
use routevane.Common.{ap, ◌≡◌, refl, sym, subst, Bool, true, false, ◌&&◌, Option, none, some, arith}
use routevane.Common.Text.{Text, text_eq}
use routevane.Common.Assoc.{get}
use routevane.Domain.Names.{is_empty}
use routevane.Domain.Target.{TargetDefinition}
use routevane.Deploy.Failure.{Chain}
use routevane.Deploy.Attempt.{DeployCommand}
use routevane.Deploy.Calls.{Deployer, DeployRequest}
use routevane.Deploy.Progress.{Ended}
use routevane.Deploy.Lifecycle.{deploy_to_device}
use routevane.Deploy.Delivery.{
  ArtifactPayload, Answered, refused, found, ◌>>=◌, DeploymentConfig, guard, is_none, registered,
  valid_connection, Resolved, snapshot_of, refused_result, artifact_target, resolve, request_of,
  request_for, deploy_command, deliver_request,
}

module _ {V W : Type 0} where
  -- Both steps have answered.
  pub bind-found :
      (first : Answered V) (next : V → Answered W) (w : W)
      → (first >>= next) ≡ found w
      → (v : V) × (first ≡ found v) × (next v ≡ found w)
  bind-found (refused e) next w h = cc
  bind-found (found v) next w h = (v, refl, h)

pub found-inj : {V : Type 0} {v w : V} → found v ≡ found w → v ≡ w
found-inj h = cc

pub guard-found : (ok : Bool) (e : Chain) (u : Unit) → guard ok e ≡ found u → ok ≡ true
guard-found true e u h = refl
guard-found false e u h = cc

pub registered-found : (o : Option Deployer) (d : Deployer) → registered o ≡ found d → o ≡ some d
registered-found none d h = cc
registered-found (some d) k h = cc

pub valid-found : (o : Option Chain) (u : Unit) → valid_connection o ≡ found u → o ≡ none
valid-found none u h = refl
valid-found (some e) u h = cc

snapshot-found :
    (a : Answered Text) (hash : Text)
    → snapshot_of a ≡ found hash
    → (a ≡ found hash) × (is_empty hash ≡ false)
snapshot-found (refused e) hash h = cc
snapshot-found (found k) hash h = ground arith

-- The artifact, the target of its output, and a renderer that is the target's.
pub record Aimed (s : DeploymentConfig) (id : Text) (payload : ArtifactPayload)
    (target : TargetDefinition) : Type 0 where
  pub target_id : Text
  pub stored : s.artifacts.artifact id ≡ found payload
  pub output : s.artifacts.output_target payload.output_id ≡ found target_id
  pub defined : s.artifacts.target_definition target_id ≡ found target
  pub matching : text_eq payload.renderer_id target.renderer_id ≡ true

-- Of a command with a typed address: its artifact, the deployer of its target, and an accepted connection.
pub record Matched (s : DeploymentConfig) (c : DeployCommand) (v : Resolved) : Type 0 where
  pub typed : (is_empty c.device_id && is_none c.expected_connection) ≡ true
  pub aimed : Aimed s c.artifact_id v.payload v.target
  pub available : get v.target.renderer_id s.deployers ≡ some v.deployer
  pub accepted : v.deployer.connection_fault c.connection ≡ none

-- A confirmed command and the request that it stands for.
pub record Sendable (s : DeploymentConfig) (c : DeployCommand) (r : DeployRequest) : Type 0 where
  pub resolved : Resolved
  pub hash : Text
  pub confirmed : c.confirm ≡ true
  pub matched : Matched s c resolved
  pub planned : s.artifacts.snapshot_hash resolved.payload.plan_snapshot_id ≡ found hash
  pub named : is_empty hash ≡ false
  pub of_plan : r.artifact.routing_plan_hash ≡ hash
  pub of_payload : r.artifact.payload ≡ resolved.payload.payload
  pub of_target : r.target ≡ resolved.target
  pub of_connection : r.connection ≡ c.connection
  pub request : r ≡ request_of s c resolved hash

module _ (s : DeploymentConfig) where
  pub target-Aimed :
      (id : Text) (payload : ArtifactPayload) (target : TargetDefinition)
      → artifact_target s id ≡ found (payload, target)
      → Aimed s id payload target
  unfolding artifact_target
  target-Aimed id payload target h =
      let (p, a, h) = bind-found (s.artifacts.artifact id) _ _ h in
      let (i, b, h) = bind-found (s.artifacts.output_target p.output_id) _ _ h in
      let (t, d, h) = bind-found (s.artifacts.target_definition i) _ _ h in
      let (u, g, h) = bind-found (guard (text_eq p.renderer_id t.renderer_id) _) _ _ h in
      subst (λ k. Aimed s id k.0 k.1) (found-inj h)
        record {
          target_id = i;
          stored = a;
          output = b;
          defined = d;
          matching = guard-found _ _ u g;
        }

  pub resolve-Matched : (c : DeployCommand) (v : Resolved) → resolve s c ≡ found v → Matched s c v
  unfolding resolve
  resolve-Matched c v h =
      let (u, typed, h) =
        bind-found (guard (is_empty c.device_id && is_none c.expected_connection) _) _ _ h in
      let ((payload, target), aimed, h) = bind-found (artifact_target s c.artifact_id) _ _ h in
      let (d, available, h) = bind-found (registered (get target.renderer_id s.deployers)) _ _ h in
      let (w, accepted, h) =
        bind-found (valid_connection (d.connection_fault c.connection)) _ _ h in
      subst (Matched s c) (found-inj h) record {
        typed = guard-found _ _ u typed;
        aimed = target-Aimed c.artifact_id payload target aimed;
        available = registered-found _ d available;
        accepted = valid-found _ w accepted;
      }

  pub request-Sendable :
      (c : DeployCommand) (r : DeployRequest) → request_for s c ≡ found r → Sendable s c r
  unfolding request_for
  request-Sendable c r h =
      let (u, confirmed, h) = bind-found (guard c.confirm _) _ _ h in
      let (v, resolved, h) = bind-found (resolve s c) _ _ h in
      let (hash, planned, h) =
        bind-found (snapshot_of (s.artifacts.snapshot_hash v.payload.plan_snapshot_id)) _ _ h in
      record {
        resolved = v;
        hash = hash;
        confirmed = guard-found _ _ u confirmed;
        matched = resolve-Matched c v resolved;
        planned = (snapshot-found _ hash planned).0;
        named = (snapshot-found _ hash planned).1;
        of_plan = ap (λ q. q.artifact.routing_plan_hash) (sym (found-inj h));
        of_payload = ap (λ q. q.artifact.payload) (sym (found-inj h));
        of_target = ap (λ q. q.target) (sym (found-inj h));
        of_connection = ap (λ q. q.connection) (sym (found-inj h));
        request = sym (found-inj h);
      }

  pub request_for_complete :
      (c : DeployCommand) (r : DeployRequest) → Sendable s c r → request_for s c ≡ found r
  unfolding request_for resolve artifact_target
  request_for_complete c r k =
      let m = k.matched in
      rw
        (
          k.confirmed, m.typed, m.aimed.stored, m.aimed.output, m.aimed.defined, m.aimed.matching,
          m.available, m.accepted, k.planned, k.named, k.request,
        )
        refl

-- A command that stands for no request makes no call.
pub data Delivered (s : DeploymentConfig) (c : DeployCommand) : Ended → Type 0 where
  turned_away :
      (e : Chain) → ((r : DeployRequest) → Sendable s c r → ⊥) → Delivered s c (refused_result e)
  delivered :
      (r : DeployRequest)
      → Sendable s c r
      → Delivered s c (deploy_to_device r s.deployers s.backups)

module _ (s : DeploymentConfig) where
  judged-Delivered :
      (c : DeployCommand) (a : Answered DeployRequest)
      → request_for s c ≡ a
      → Delivered s c (deliver_request s a)
  judged-Delivered c (refused e) h =
      turned_away e (λ r k. let q = request_for_complete s c r k in cc)
  judged-Delivered c (found r) h = delivered r (request-Sendable s c r h)

  -- A command reaches `DeployToDevice` exactly when it is confirmed, carries a typed address and no
  -- registered device, names a stored artifact that was rendered for the target of its own output,
  -- has a deployer that accepts the connection, and has a plan with a hash; the request then carries
  -- that artifact, that target, that hash and the command's connection. Any other command ends in an
  -- error with no call of a device, a backup store or a ledger.
  pub deploy_command-Delivered : (c : DeployCommand) → Delivered s c (deploy_command s c)
  unfolding deploy_command
  deploy_command-Delivered c = judged-Delivered c (request_for s c) refl
