-- ===== src/Deploy/Change.antt =====
-- The change of the device, its verification, its ledger and its recovery, in `DeployToDevice` and
-- `restoreDetached`.
use routevane.Common.{
  Bool, true, false, ◌&&◌, ◌||◌, not, [], ◌∷◌, Option, none, some, if◌then◌else◌,
}
use routevane.Common.Text.{codes}
use routevane.Deploy.Failure.{
  Chain, error_is, Sentinel-discrete, deploy_failed, device_unchanged, verify_failed,
  ownership_persist, rollback_failed,
}
use routevane.Deploy.Routes.Ledger.{ManagedRouteOwnership}
use routevane.Deploy.Routes.Reconcile.{
  ManagedRouteMutation, Reconciled, reconciled, refused, reconcile_managed_routes, verify_mutation,
  Verified, matches, no_items,
}
use routevane.Deploy.Calls.{
  BackupPayload, DeployArtifact, read_routes, applied_routes, wrote_artifact, verified,
  replaced_route_ledger, replaced_fqdn_ledger, restored, Writer, plain, reporting, Deployer,
  DeployRequest,
}
use routevane.Deploy.Progress.{Progress, Ended, stop, is_nil, call, audit, Part, ended, go_on}
use routevane.Deploy.Prepare.{Groups, Routes}

-- Whether the device may have changed, the error so far, and what the ledger of routes becomes.
pub record Change : Type 0 where
  pub may_have_changed : Bool
  pub error : Option Chain
  pub ledger : Option (Routes × ManagedRouteMutation × ManagedRouteOwnership)

pub record Changed : Type 0 where
  pub progress : Progress
  pub change : Change

abbrev pub changed :
    Progress
    → Bool
    → Option Chain
    → Option (Routes × ManagedRouteMutation × ManagedRouteOwnership)
    → Changed
changed p may e ledger = record {
  progress = p;
  change = record { may_have_changed = may; error = e; ledger = ledger };
}

unfoldable pub apply_reconciled : Routes → Reconciled → Progress → Changed
apply_reconciled m (refused e) p = changed p false (some (device_unchanged ∷ [])) none
apply_reconciled m (reconciled mutation next) p =
    if no_items mutation.upsert && no_items mutation.remove
    then changed p false none (some (m, mutation, next))
    else changed (call (applied_routes mutation) p) true (m.deployer.apply_changes p.calls mutation)
        (some (m, mutation, next))

-- A failed read or reconciliation leaves the device as it is.
unfoldable pub change_routes : DeployRequest → Routes → Progress → Changed
unfolding apply_reconciled reconcile_managed_routes
change_routes r m p =
    let (current, e) = m.deployer.current p.calls in
    elim e [
      | some why ↦ changed (call read_routes p) false (some (device_unchanged ∷ why)) none
      | none ↦
          apply_reconciled m (reconcile_managed_routes m.prior r.output_id m.desired current)
            (call read_routes p)
    ]

unfoldable pub write_artifact : Writer → DeployArtifact → Progress → Changed
write_artifact (plain f) a p = changed (call (wrote_artifact true) p) true (f p.calls a) none
write_artifact (reporting f) a p =
    let (may, e) = f p.calls a in changed (call (wrote_artifact may) p) may e none

unfoldable pub change_device :
    DeployRequest → Deployer → DeployArtifact → Option Routes → Progress → Changed
unfolding change_routes write_artifact
change_device r d a none p = write_artifact d.write a p
change_device r d a (some m) p = change_routes r m p

abbrev pub is_match : Verified → Bool
is_match matches = true
is_match v = false

unfoldable pub passes : Deployer → DeployArtifact → Change → Progress → Progress × Bool
unfolding verify_mutation
passes d a c p = elim c.ledger [
  | none ↦ (p, is_nil (d.verify p.calls a))
  | some (m, mutation, next) ↦
      let (current, e) = m.deployer.current p.calls in
      (call read_routes p, is_nil e && is_match (verify_mutation next mutation current))
]

abbrev pub verify_error : Bool → Option Chain
verify_error true = none
verify_error false = some (verify_failed ∷ [])

abbrev pub applied : Progress → Ended
applied p = record {
  progress = record p { result = record (p.result) { applied = true } };
  error = none;
}

-- The error of the change, where the delivery goes on to its recovery.
abbrev pub persisted : Progress → Option Chain → Part Chain
persisted p none = ended (applied p)
persisted p (some e) = go_on p (ownership_persist ∷ [])

unfoldable pub persist : DeployRequest → Change → Option Groups → Progress → Part Chain
persist r c groups p = elim c.ledger [
  | some (m, mutation, next) ↦
      let e = m.repository.replace p.calls next in
      persisted (audit (codes "ownership") e r.output_id (call (replaced_route_ledger next) p)) e
  | none ↦ elim groups [
    | some g ↦
        let e = g.repository.replace p.calls g.next in
        persisted (audit (codes "ownership") e r.output_id (call (replaced_fqdn_ledger g.next) p)) e
    | none ↦ ended (applied p)
  ]
]

unfoldable pub verify_and_persist :
    DeployRequest → Deployer → DeployArtifact → Change → Option Groups → Progress → Part Chain
unfolding passes persist
verify_and_persist r d a c groups p =
    let (q, passed) = passes d a c p in
    let q =
      audit (codes "verify") (verify_error passed) a.routing_plan_hash (call (verified passed) q) in
    if passed then persist r c groups q else go_on q (verify_failed ∷ [])

abbrev pub recovery_error : Chain → Chain
recovery_error e =
    if error_is verify_failed e || error_is ownership_persist e then e else deploy_failed ∷ e

abbrev pub after_rollback : Progress → Chain → Option Chain → Ended
after_rollback p e (some why) = stop p (rollback_failed ∷ e)
after_rollback p e none =
    stop (record p { result = record (p.result) { rolled_back = true } }) (recovery_error e)

-- `restoreDetached`, and the errors of the recovery.
unfoldable pub roll_back : Deployer → BackupPayload → Chain → Progress → Ended
unfolding Sentinel-discrete
roll_back d backup e p =
    let fault = d.rollback p.calls backup in
    after_rollback (audit (codes "rollback") fault backup.ref.id (call (restored backup) p)) e fault

abbrev pub recover : Deployer → BackupPayload → Change → Part Chain → Ended
recover d backup c (ended e) = e
recover d backup c (go_on p e) = if not c.may_have_changed then stop p e else roll_back d backup e p
