-- ===== src/Deploy/Cleanup/Act.antt =====
-- `clean` and `attempt` of internal/application/device_cleanup.go: every surface is cleaned, or none is
-- retired.
pub mod Rounds
pub mod Safe
use routevane.Common.{
  ◌+◌, ◌==◌, map, ℕ, Ordering, compare, Bool, true, false, ◌&&◌, ◌||◌, not, List, [], ◌∷◌, ◌++◌,
  Option, none, some, if◌then◌else◌, any, keep, length,
}
use routevane.Common.Text.{Text, codes, text_eq, text_compare, Text-discrete}
use routevane.Common.Assoc.{get}
use routevane.Common.Sort.{sort_by}
use routevane.Domain.Names.{is_empty}
use routevane.Domain.Target.{TargetDefinition}
use routevane.Deploy.Failure.{
  Chain, error_is, failure_code, device_cleanup_unavailable, removal_unsupported, Sentinel-discrete,
}
use routevane.Deploy.Attempt.{
  Connection, DeployResult, AttemptStatus, pending, succeeded, failed, empty_result,
}
use routevane.Deploy.Routes.Ledger.{ManagedRouteScope, ManagedRouteOwnership}
use routevane.Deploy.Routes.Reconcile.{no_items}
use routevane.Deploy.Calls.{
  ManagedRouteDeployer, ManagedFqdnDeployer, ManagedFqdnGroup, ManagedFqdnOwnership, Deployer,
  DeployerRegistry, ManagedRouteRepository, ManagedFqdnRepository, BackupStore, RemovalRequest,
}
use routevane.Deploy.Progress.{Progress, Ended, Part, ended, go_on, is_nil}
use routevane.Deploy.Prepare.{same_scope}
use routevane.Deploy.Surface.{prepare_removal, Removal}
use routevane.Deploy.Removal.{remove_from_device, removal_start}
use routevane.Deploy.Delivery.{Answered, refused, found, ◌>>=◌, Device, connection_to}
use routevane.Deploy.Cleanup.Counts.{DeviceRouteCounts, route_counts}
use routevane.Deploy.Cleanup.{
  Blocked, unblocked, connection_missing, credential_missing, unsupported, DeviceObjects,
  DeviceCleanupAttempt, Output, History, DeviceCleanupConfig, CleanupEntry, no_registered_device,
  ledger_entries, device_cleanup_failure_code,
}
use routevane.Deploy.Cleanup.Match.{cleanup_entries}

-- `PreviewRemoval`: the read-only part of a removal.
abbrev pub previewed : Part Removal → Ended
previewed (ended e) = e
previewed (go_on p v) = record { progress = p; error = none }

unfoldable pub preview_removal : RemovalRequest → DeployerRegistry → Ended
unfolding prepare_removal
preview_removal r deployers = previewed (prepare_removal r deployers removal_start)

-- A removal that is ready: its surface and the connection that it signs in with.
pub record Planned : Type 0 where
  pub entry : CleanupEntry
  pub connection : Connection

pub data PlannedAll : Type 0 where
  no_login : DeviceObjects → PlannedAll
  planned : List Planned → PlannedAll

pub data CleanupOutcome : Type 0 where
  cleaned : CleanupOutcome
  unread : Chain → CleanupOutcome
  blocked : List DeviceObjects → CleanupOutcome
  stopped : DeviceObjects → Chain → CleanupOutcome

pub record Cleanup : Type 0 where
  pub history : History
  pub attempts : List DeviceCleanupAttempt
  pub outcome : CleanupOutcome

abbrev pub cleanup : History → List DeviceCleanupAttempt → CleanupOutcome → Cleanup
cleanup h attempts o = record { history = h; attempts = attempts; outcome = o }

abbrev pub add_planned : Planned → PlannedAll → PlannedAll
add_planned p (no_login o) = no_login o
add_planned p (planned ps) = planned (p ∷ ps)

abbrev pub without_login : CleanupEntry → PlannedAll
without_login e =
    no_login (record (e.objects) { cleanable = false; blocked_by = credential_missing })

abbrev pub with_login : CleanupEntry → Answered Text → PlannedAll → PlannedAll
with_login e (refused why) rest = without_login e
with_login e (found secret) rest =
    if is_empty secret
    then without_login e
    else add_planned (record { entry = e; connection = connection_to e.device secret }) rest

abbrev pub status_of : Option Chain → AttemptStatus
status_of none = succeeded
status_of (some e) = failed

-- The error of a removal, and then that of its record.
abbrev pub joined : Option Chain → Option Chain → Option Chain
joined none record_fault = record_fault
joined (some e) none = some e
joined (some e) (some f) = some (e ++ f)

-- An attempt that has no record reaches no device.
pub data Attempted : Type 0 where
  not_begun : Chain → Attempted
  made : Ended → DeviceCleanupAttempt → Option Chain → Attempted

abbrev pub is_blocked : CleanupEntry → Bool
is_blocked e = not e.objects.cleanable

module _ (w : DeviceCleanupConfig) where
  unfoldable pub plan_requests : List CleanupEntry → PlannedAll
  plan_requests [] = planned []
  plan_requests (e ∷ entries) =
      let rest = plan_requests entries in
      if e.needs_credential
      then with_login e (w.credential e.device.id) rest
      else add_planned (record { entry = e; connection = connection_to e.device [] }) rest

  abbrev pub request_at : History → Planned → RemovalRequest
  request_at h p = record {
    target = p.entry.target;
    connection = p.connection;
    output_id = p.entry.objects.output_id;
    managed_routes = some (w.managed_routes h);
    managed_fqdn = some (w.managed_fqdn h);
  }

  abbrev pub preview_at : History → Planned → Ended
  preview_at h p = preview_removal (request_at h p) (w.deployers h p.connection)

  abbrev pub removal_at : History → Planned → Ended
  removal_at h p = remove_from_device (request_at h p) (w.deployers h p.connection) (w.backups h)

  abbrev pub proposed_attempt : History → Text → Planned → DeviceCleanupAttempt
  proposed_attempt h id p = record {
    id = id;
    output_id = p.entry.objects.output_id;
    device_id = p.entry.device.id;
    endpoint = p.entry.objects.endpoint;
    status = pending;
    started_at = w.now h;
    completed_at = 0;
    result = empty_result [];
    error = [];
  }

  abbrev pub completed_attempt : History → Ended → DeviceCleanupAttempt → DeviceCleanupAttempt
  completed_attempt h e a = record a {
    result = e.progress.result;
    completed_at = w.now (e ∷ h);
    error = device_cleanup_failure_code e.error;
    status = status_of e.error;
  }

  -- `attempt`
  abbrev pub attempt_begun :
      History
      → List DeviceCleanupAttempt
      → Planned
      → DeviceCleanupAttempt
      → Option Chain
      → Attempted
  attempt_begun h attempts p a (some why) = not_begun why
  attempt_begun h attempts p a none =
      let e = removal_at h p in
      made e (completed_attempt h e a)
        (joined e.error (w.complete attempts (completed_attempt h e a)))

  abbrev pub attempt_named :
      History → List DeviceCleanupAttempt → Planned → Answered Text → Attempted
  attempt_named h attempts p (refused why) = not_begun why
  attempt_named h attempts p (found id) =
      attempt_begun h attempts p (proposed_attempt h id p)
        (w.begin attempts (proposed_attempt h id p))

  unfoldable pub attempt_at : History → List DeviceCleanupAttempt → Planned → Attempted
  unfolding remove_from_device device_cleanup_failure_code
  attempt_at h attempts p = attempt_named h attempts p (w.random_id h)

  -- The previews of all devices, until one refuses.
  unfoldable pub ask : History → List Planned → History × Option (DeviceObjects × Chain)
  unfolding preview_removal
  ask h [] = (h, none)
  ask h (p ∷ ps) =
      let e = preview_at h p in
      let rest = ask (e ∷ h) ps in
      elim e.error [ some why ↦ (e ∷ h, some (p.entry.objects, why)) | none ↦ rest ]

  -- The removals, until one fails.
  unfoldable pub act : History → List DeviceCleanupAttempt → List Planned → Cleanup
  unfolding attempt_at
  act h attempts [] = cleanup h attempts cleaned
  act h attempts (p ∷ ps) = elim (attempt_at h attempts p) [
    | not_begun why ↦ cleanup h attempts (stopped p.entry.objects why)
    | made e a (some why) ↦ cleanup (e ∷ h) (attempts ++ a ∷ []) (stopped p.entry.objects why)
    | made e a none ↦ act (e ∷ h) (attempts ++ a ∷ []) ps
  ]

  abbrev pub act_asked : List Planned → History × Option (DeviceObjects × Chain) → Cleanup
  act_asked ps (h, some (o, why)) = cleanup h [] (stopped o why)
  act_asked ps (h, none) = act h [] ps

  abbrev pub clean_planned : PlannedAll → Cleanup
  clean_planned (no_login o) = cleanup [] [] (blocked (o ∷ []))
  clean_planned (planned ps) = act_asked ps (ask [] ps)

  unfoldable pub clean_entries : List CleanupEntry → Cleanup
  unfolding plan_requests ask act
  clean_entries entries =
      if any is_blocked entries
      then cleanup [] [] (blocked (map (λ e. e.objects) (keep is_blocked entries)))
      else clean_planned (plan_requests entries)

  abbrev pub clean_read : Answered (List CleanupEntry) → Cleanup
  clean_read (refused why) = cleanup [] [] (unread why)
  clean_read (found entries) = clean_entries entries

  -- `clean`
  unfoldable pub clean : List Output → Cleanup
  unfolding cleanup_entries clean_entries
  clean outputs = clean_read (cleanup_entries w outputs)
