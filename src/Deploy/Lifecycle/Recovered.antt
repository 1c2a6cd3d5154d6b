-- ===== src/Deploy/Lifecycle/Recovered.antt =====
-- How a delivery ends.
use routevane.Common.{
  ◌≡◌, refl, Bool, true, false, ◌&&◌, ◌||◌, [], ◌∷◌, Option, none, some, inl, inr, all, any, In,
  Bool-cases, Option-cases, and-true,
}
use routevane.Deploy.Failure.{
  Chain, Sentinel-discrete, error_is, device_unchanged, fqdn_ownership_conflict, rollback_failed,
}
use routevane.Deploy.Calls.{
  previewed_removal, removed_groups, BackupPayload, DeployArtifact, Call, probed, read_fqdn_ledger,
  previewed_groups, read_route_ledger, took_backup, read_routes, stored_backup, applied_routes,
  wrote_artifact, verified, replaced_route_ledger, replaced_fqdn_ledger, restored, Calls, Deployer,
  Writer, plain, reporting, BackupStore, DeployRequest, DeployerRegistry,
}
use routevane.Deploy.Progress.{Progress, Ended, Part, ended, go_on, audit, is_nil}
use routevane.Deploy.Prepare.{Groups, Routes, Prepared, prepare, artifact_of}
use routevane.Deploy.Prepare.Quiet.{
  is_quiet, Quiet, QuietPart, fails, goes_on, Stored, prepare-QuietPart,
}
use routevane.Deploy.Routes.Reconcile.{Reconciled, refused, reconciled, no_items}
use routevane.Deploy.Change.{
  Change, Changed, apply_reconciled, change_routes, write_artifact, change_device, passes, persist,
  verify_and_persist, roll_back, recover, after_rollback, persisted,
}
use routevane.Deploy.Lifecycle.{Text, settle, deliver, deploy_to_device, start_of, keep_backup}
use routevane.Deploy.Lifecycle.Ordered.{is_change}

-- A call that may leave the device other than it was, or puts it back.
abbrev pub touches : Call → Bool
touches (restored b) = true
touches c = is_change c

abbrev pub Untouched : Calls → Type 0
Untouched cs = any touches cs ≡ false

-- The four ways in which a delivery fails.
pub data Recovery (p : Progress) (e : Chain) : Type 0 where
  untouched : Untouched p.calls → Recovery p e
  left_unchanged :
      (error_is device_unchanged e || error_is fqdn_ownership_conflict e) ≡ true → Recovery p e
  rolled_back :
      (b : BackupPayload) (rest : Calls)
      → p.calls ≡ restored b ∷ rest
      → p.result.rolled_back ≡ true
      → Recovery p e
  not_rolled_back :
      (b : BackupPayload) (rest : Calls)
      → p.calls ≡ restored b ∷ rest
      → p.result.rolled_back ≡ false
      → error_is rollback_failed e ≡ true
      → Recovery p e

-- A delivery without an error has applied the artifact, and what it changed it has verified; one
-- with an error has not, and has recovered.
pub data Settled : Ended → Type 0 where
  succeeded :
      (p : Progress)
      → p.result.applied ≡ true
      → p.result.rolled_back ≡ false
      → In (verified true) p.calls
      → Settled (record { progress = p; error = none })
  failed :
      (p : Progress) (e : Chain)
      → p.result.applied ≡ false
      → Recovery p e
      → Settled (record { progress = p; error = some e })

quiet-touches : (c : Call) → is_quiet c ≡ true → touches c ≡ false
quiet-touches probed h = refl
quiet-touches read_fqdn_ledger h = refl
quiet-touches previewed_groups h = refl
quiet-touches previewed_removal h = refl
quiet-touches read_route_ledger h = refl
quiet-touches took_backup h = refl
quiet-touches (stored_backup p r) h = refl
quiet-touches read_routes h = refl
quiet-touches (applied_routes m) h = cc
quiet-touches (wrote_artifact may) h = cc
quiet-touches (removed_groups may) h = cc
quiet-touches (verified passed) h = cc
quiet-touches (replaced_route_ledger o) h = cc
quiet-touches (replaced_fqdn_ledger o) h = cc
quiet-touches (restored b) h = cc

pub quiet-Untouched : (cs : Calls) → all is_quiet cs ≡ true → Untouched cs
quiet-Untouched [] h = refl
quiet-Untouched (c ∷ cs) h =
    let (a, b) = and-true _ _ h in rw (quiet-touches c a) (quiet-Untouched cs b)

-- What holds from the change on: nothing is settled yet, and where the device cannot have changed
-- it is untouched.
pub record Open (may : Bool) (p : Progress) : Type 0 where
  pub not_applied : p.result.applied ≡ false
  pub not_back : p.result.rolled_back ≡ false
  pub calm : may ≡ false → Untouched p.calls

reconciled-Open :
    (m : Routes) (k : Reconciled) (p : Progress)
    → Open false p
    → Open (apply_reconciled m k p).change.may_have_changed (apply_reconciled m k p).progress
unfolding apply_reconciled
reconciled-Open m (refused e) p h = h
reconciled-Open m (reconciled mutation next) p h =
    elim (Bool-cases (no_items mutation.upsert && no_items mutation.remove)) [
      | inl e ↦ rw e h
      | inr e ↦ rw e record { not_applied = h.not_applied; not_back = h.not_back; calm = λ t. cc }
    ]

routes-Open :
    (r : DeployRequest) (m : Routes) (p : Progress)
    → Open false p
    → Open (change_routes r m p).change.may_have_changed (change_routes r m p).progress
unfolding change_routes
routes-Open r m p h = elim (Option-cases (m.deployer.current p.calls).1) [
  | inr (why, e) ↦
      rw (e, change_routes)
        record { not_applied = h.not_applied; not_back = h.not_back; calm = h.calm }
  | inl e ↦
      rw (e, change_routes)
        (reconciled-Open m _ _
          record { not_applied = h.not_applied; not_back = h.not_back; calm = h.calm })
]

write-Open :
    (w : Writer) (a : DeployArtifact) (p : Progress)
    → Open false p
    → Open (write_artifact w a p).change.may_have_changed (write_artifact w a p).progress
unfolding write_artifact
write-Open (plain f) a p h = record {
  not_applied = h.not_applied;
  not_back = h.not_back;
  calm = λ t. cc;
}
write-Open (reporting f) a p h = record {
  not_applied = h.not_applied;
  not_back = h.not_back;
  calm = λ t. rw t (h.calm refl);
}

change-Open :
    (r : DeployRequest) (d : Deployer) (a : DeployArtifact) (m : Option Routes) (p : Progress)
    → Open false p
    → Open (change_device r d a m p).change.may_have_changed (change_device r d a m p).progress
unfolding change_device
change-Open r d a none p h = write-Open d.write a p h
change-Open r d a (some m) p h = routes-Open r m p h

pub data PartOpen (may : Bool) : Part Chain → Type 0 where
  open_ended :
      (p : Progress)
      → Settled (record { progress = p; error = none })
      → PartOpen may (ended (record { progress = p; error = none }))
  open_on : (p : Progress) (e : Chain) → Open may p → PartOpen may (go_on p e)

persisted-PartOpen :
    (may : Bool) (p : Progress) (e : Option Chain)
    → Open may p
    → In (verified true) p.calls
    → PartOpen may (persisted p e)
persisted-PartOpen may p none h v = open_ended _ (succeeded _ refl h.not_back v)
persisted-PartOpen may p (some e) h v = open_on p _ h

persist-PartOpen :
    (r : DeployRequest) (c : Change) (groups : Option Groups) (p : Progress)
    → Open c.may_have_changed p
    → In (verified true) p.calls
    → PartOpen c.may_have_changed (persist r c groups p)
unfolding persist
persist-PartOpen r c groups p h v = elim (Option-cases c.ledger) [
  | inr ((m, mutation, next), l) ↦
      rw (l, persist)
        (persisted-PartOpen c.may_have_changed _ _
          record { not_applied = h.not_applied; not_back = h.not_back; calm = h.calm } (inr v))
  | inl l ↦ elim (Option-cases groups) [
    | inl n ↦ rw (l, n, persist) (open_ended _ (succeeded _ refl h.not_back v))
    | inr (g, n) ↦
        rw (l, n, persist)
          (persisted-PartOpen c.may_have_changed _ _
            record { not_applied = h.not_applied; not_back = h.not_back; calm = h.calm } (inr v))
  ]
]

passes-Open :
    (d : Deployer) (a : DeployArtifact) (c : Change) (p : Progress)
    → Open c.may_have_changed p
    → Open c.may_have_changed (passes d a c p).0
unfolding passes
passes-Open d a c p h = elim (Option-cases c.ledger) [
  | inl l ↦ rw (l, passes) h
  | inr (t, l) ↦
      rw (l, passes) record { not_applied = h.not_applied; not_back = h.not_back; calm = h.calm }
]

verified-PartOpen :
    (r : DeployRequest) (d : Deployer) (a : DeployArtifact) (c : Change) (groups : Option Groups)
    (p : Progress)
    → Open c.may_have_changed p
    → PartOpen c.may_have_changed (verify_and_persist r d a c groups p)
unfolding verify_and_persist
verified-PartOpen r d a c groups p h =
    let k = passes-Open d a c p h in
    elim (Bool-cases (passes d a c p).1) [
      | inl t ↦
          rw (t, verify_and_persist)
            (persist-PartOpen r c groups _
              record { not_applied = k.not_applied; not_back = k.not_back; calm = k.calm }
              (inl refl))
      | inr f ↦
          rw (f, verify_and_persist)
            (open_on _ _
              record { not_applied = k.not_applied; not_back = k.not_back; calm = k.calm })
    ]

after_rollback-Settled :
    (b : BackupPayload) (p : Progress) (e : Chain) (fault : Option Chain) (rest : Calls)
    → p.calls ≡ restored b ∷ rest
    → p.result.applied ≡ false
    → p.result.rolled_back ≡ false
    → Settled (after_rollback p e fault)
unfolding Sentinel-discrete
after_rollback-Settled b p e none rest c n k = failed _ _ n (rolled_back b rest c refl)
after_rollback-Settled b p e (some why) rest c n k = failed p _ n (not_rolled_back b rest c k refl)

recover-Settled :
    (d : Deployer) (b : BackupPayload) (c : Change) (part : Part Chain)
    → PartOpen c.may_have_changed part
    → Settled (recover d b c part)
unfolding roll_back
recover-Settled d b c part (open_ended p h) = h
recover-Settled d b c part (open_on p e h) = elim (Bool-cases c.may_have_changed) [
  | inr f ↦ rw f (failed p e h.not_applied (untouched (h.calm f)))
  | inl t ↦
      rw t
        (after_rollback-Settled b _ e (d.rollback p.calls b) p.calls refl h.not_applied h.not_back)
]

pub audit-Open :
    (may : Bool) (step : Text) (e : Option Chain) (detail : Text) (p : Progress)
    → Open may p
    → Open may (audit step e detail p)
audit-Open may step e detail p h = record {
  not_applied = h.not_applied;
  not_back = h.not_back;
  calm = h.calm;
}

settle-Settled :
    (r : DeployRequest) (d : Deployer) (a : DeployArtifact) (groups : Option Groups)
    (b : BackupPayload) (k : Changed)
    → Open k.change.may_have_changed k.progress
    → Settled (settle r d a groups b k)
unfolding settle
settle-Settled r d a groups b k h =
    let o = audit-Open k.change.may_have_changed _ k.change.error a.artifact_hash k.progress h in
    elim (Option-cases k.change.error) [
      | inl n ↦
          rw (n, settle)
            (recover-Settled d b k.change _ (verified-PartOpen r d a k.change groups _ o))
      | inr (e, n) ↦
          elim (Bool-cases (error_is device_unchanged e || error_is fqdn_ownership_conflict e)) [
            | inl u ↦ rw (n, u, settle) (failed _ e h.not_applied (left_unchanged u))
            | inr u ↦ rw (n, u, settle) (recover-Settled d b k.change _ (open_on _ e o))
          ]
    ]

pub fails-Settled :
    (p : Progress) (e : Option Chain)
    → Quiet p
    → is_nil e ≡ false
    → Settled (record { progress = p; error = e })
fails-Settled p none q h = cc
fails-Settled p (some e) q h = failed p e q.1 (untouched (quiet-Untouched p.calls q.0))

deliver-Settled :
    (r : DeployRequest) (part : Part Prepared)
    → QuietPart (λ q v. Stored q.calls v.backup) part
    → Settled (deliver r part)
deliver-Settled r part (fails e h) = fails-Settled e.progress e.error h.0 h.1
deliver-Settled r part (goes_on p v h s) =
    let a = artifact_of r v.groups in
    settle-Settled r v.deployer a v.groups v.backup _ (
      change-Open r v.deployer a v.routes (keep_backup v.backup p)
        record { not_applied = h.1; not_back = h.2; calm = λ t. quiet-Untouched p.calls h.0 })

-- Whatever the device, the backup store and the ledgers answer, a delivery that reports no error has
-- applied the artifact, verified it and rolled nothing back. One that reports an error has not
-- applied it, and made no call that touches the device, or the error says that the device is
-- unchanged or its groups are another's, or its last call restored the backup, and the result or
-- the error says whether that succeeded.
pub deploy-Settled :
    (r : DeployRequest) (deployers : DeployerRegistry) (store : BackupStore)
    → Settled (deploy_to_device r deployers store)
unfolding deploy_to_device
deploy-Settled r deployers store =
    deliver-Settled r (prepare r deployers store (start_of r))
      (prepare-QuietPart r deployers store (start_of r) (refl, refl, refl))
