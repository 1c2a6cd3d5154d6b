-- ===== src/Deploy/Lifecycle/Ordered.antt =====
-- The order of the calls of a delivery: a backup before a change, a change before its recovery, and
-- a verification before the ledger.
use routevane.Common.{
  ◌≡◌, refl, Bool, true, false, ◌&&◌, ◌||◌, [], ◌∷◌, Option, none, some, inl, inr, all, any,
  Bool-cases, Option-cases, arith, and-true,
}
use routevane.Deploy.Failure.{Chain, error_is, device_unchanged, fqdn_ownership_conflict}
use routevane.Deploy.Calls.{
  previewed_removal, removed_groups, BackupPayload, DeployArtifact, Call, probed, read_fqdn_ledger,
  previewed_groups, read_route_ledger, took_backup, read_routes, stored_backup, applied_routes,
  wrote_artifact, verified, replaced_route_ledger, replaced_fqdn_ledger, restored, Calls, Deployer,
  Writer, plain, reporting, BackupStore, DeployRequest, DeployerRegistry,
}
use routevane.Deploy.Progress.{Progress, Part, ended, go_on, audit, call}
use routevane.Deploy.Prepare.{Groups, Routes, Prepared, prepare, artifact_of}
use routevane.Deploy.Prepare.Quiet.{is_quiet, QuietPart, fails, goes_on, Stored, prepare-QuietPart}
use routevane.Deploy.Routes.Reconcile.{Reconciled, refused, reconciled, no_items}
use routevane.Deploy.Change.{
  Change, Changed, apply_reconciled, change_routes, write_artifact, change_device, passes, persist,
  verify_and_persist, roll_back, recover, after_rollback, persisted,
}
use routevane.Deploy.Lifecycle.{settle, deliver, deploy_to_device, start_of, keep_backup}

abbrev pub is_change : Call → Bool
is_change (applied_routes m) = true
is_change (wrote_artifact may) = may
is_change (removed_groups may) = may
is_change _ = false

-- What stands before a call: a change of the device has a verified backup, a recovery restores that
-- backup after a change, and a ledger is replaced right after a verification that passed.
abbrev pub Allowed : Call → Calls → Type 0
Allowed (applied_routes m) earlier = (b : BackupPayload) × Stored earlier b
Allowed (wrote_artifact may) earlier = (b : BackupPayload) × Stored earlier b
Allowed (removed_groups may) earlier = (b : BackupPayload) × Stored earlier b
Allowed (restored b) earlier = Stored earlier b × (any is_change earlier ≡ true)
Allowed (replaced_route_ledger o) earlier = (rest : Calls) × (earlier ≡ verified true ∷ rest)
Allowed (replaced_fqdn_ledger o) earlier = (rest : Calls) × (earlier ≡ verified true ∷ rest)
Allowed c earlier = Unit

abbrev pub Ordered : Calls → Type 0
Ordered [] = Unit
Ordered (c ∷ cs) = Allowed c cs × Ordered cs

quiet-Allowed : (c : Call) (cs : Calls) → is_quiet c ≡ true → Allowed c cs
quiet-Allowed probed cs h = tt
quiet-Allowed read_fqdn_ledger cs h = tt
quiet-Allowed previewed_groups cs h = tt
quiet-Allowed previewed_removal cs h = tt
quiet-Allowed read_route_ledger cs h = tt
quiet-Allowed took_backup cs h = tt
quiet-Allowed (stored_backup p r) cs h = tt
quiet-Allowed read_routes cs h = tt
quiet-Allowed (applied_routes m) cs h = cc
quiet-Allowed (wrote_artifact may) cs h = cc
quiet-Allowed (removed_groups may) cs h = cc
quiet-Allowed (verified passed) cs h = tt
quiet-Allowed (replaced_route_ledger o) cs h = cc
quiet-Allowed (replaced_fqdn_ledger o) cs h = cc
quiet-Allowed (restored b) cs h = cc

pub quiet-Ordered : (cs : Calls) → all is_quiet cs ≡ true → Ordered cs
quiet-Ordered [] h = tt
quiet-Ordered (c ∷ cs) h = let (a, b) = and-true _ _ h in (quiet-Allowed c cs a, quiet-Ordered cs b)

-- What holds while a delivery goes on from its backup.
pub record Backed (b : BackupPayload) (may : Bool) (cs : Calls) : Type 0 where
  pub ordered : Ordered cs
  pub stored : Stored cs b
  pub changes : may ≡ true → any is_change cs ≡ true

-- A step of another kind keeps it.
pub step-Backed :
    (b : BackupPayload) (may : Bool) (c : Call) (cs : Calls)
    → Allowed c cs
    → Backed b may cs
    → Backed b may (c ∷ cs)
step-Backed b may c cs a h = record {
  ordered = (a, h.ordered);
  stored = (inr h.stored.0, h.stored.1);
  changes = λ e. ground (arith, h.changes e);
}

pub new_change-Backed :
    (b : BackupPayload) (may : Bool) (c : Call) (cs : Calls)
    → Allowed c cs
    → is_change c ≡ may
    → Ordered cs
    → Stored cs b
    → Backed b may (c ∷ cs)
new_change-Backed b may c cs a e o s = record {
  ordered = (a, o);
  stored = (inr s.0, s.1);
  changes = λ t. ground arith;
}

abbrev BackedChanged : BackupPayload → Changed → Type 0
BackedChanged b k = Backed b k.change.may_have_changed k.progress.calls

pub unchanged-Backed :
    (b : BackupPayload) (cs : Calls) → Ordered cs → Stored cs b → Backed b false cs
unchanged-Backed b cs o s = record { ordered = o; stored = s; changes = λ e. cc }

reconciled-Backed :
    (m : Routes) (k : Reconciled) (b : BackupPayload) (p : Progress)
    → Ordered p.calls
    → Stored p.calls b
    → BackedChanged b (apply_reconciled m k p)
unfolding apply_reconciled
reconciled-Backed m (refused e) b p o s = unchanged-Backed b p.calls o s
reconciled-Backed m (reconciled mutation next) b p o s =
    elim (Bool-cases (no_items mutation.upsert && no_items mutation.remove)) [
      | inl e ↦ rw e (unchanged-Backed b p.calls o s)
      | inr e ↦ rw e (new_change-Backed b true (applied_routes mutation) p.calls (b, s) refl o s)
    ]

routes-Backed :
    (r : DeployRequest) (m : Routes) (b : BackupPayload) (p : Progress)
    → Ordered p.calls
    → Stored p.calls b
    → BackedChanged b (change_routes r m p)
unfolding change_routes
routes-Backed r m b p o s = elim (Option-cases (m.deployer.current p.calls).1) [
  | inr (why, e) ↦ rw (e, change_routes) (unchanged-Backed b _ (tt, o) (inr s.0, s.1))
  | inl e ↦ rw (e, change_routes) (reconciled-Backed m _ b _ (tt, o) (inr s.0, s.1))
]

write-Backed :
    (w : Writer) (a : DeployArtifact) (b : BackupPayload) (p : Progress)
    → Ordered p.calls
    → Stored p.calls b
    → BackedChanged b (write_artifact w a p)
unfolding write_artifact
write-Backed (plain f) a b p o s = new_change-Backed b true _ p.calls (b, s) refl o s
write-Backed (reporting f) a b p o s = new_change-Backed b _ _ p.calls (b, s) refl o s

change-Backed :
    (r : DeployRequest) (d : Deployer) (a : DeployArtifact) (m : Option Routes) (b : BackupPayload)
    (p : Progress)
    → Ordered p.calls
    → Stored p.calls b
    → BackedChanged b (change_device r d a m p)
unfolding change_device
change-Backed r d a none b p o s = write-Backed d.write a b p o s
change-Backed r d a (some m) b p o s = routes-Backed r m b p o s

-- Where a part ends the delivery its calls are in order, and else it may be recovered.
abbrev PartBacked : BackupPayload → Bool → Part Chain → Type 0
PartBacked b may (ended e) = Ordered e.progress.calls
PartBacked b may (go_on p e) = Backed b may p.calls

persisted-PartBacked :
    (b : BackupPayload) (may : Bool) (p : Progress) (e : Option Chain)
    → Backed b may p.calls
    → PartBacked b may (persisted p e)
persisted-PartBacked b may p none h = h.ordered
persisted-PartBacked b may p (some e) h = h

-- After a verification that passed, the ledger may be replaced.
persist-PartBacked :
    (r : DeployRequest) (c : Change) (groups : Option Groups) (b : BackupPayload) (p : Progress)
    (rest : Calls)
    → p.calls ≡ verified true ∷ rest
    → Backed b c.may_have_changed p.calls
    → PartBacked b c.may_have_changed (persist r c groups p)
unfolding persist
persist-PartBacked r c groups b p rest e h = elim (Option-cases c.ledger) [
  | inr ((m, mutation, next), l) ↦
      rw (l, persist)
        (persisted-PartBacked b c.may_have_changed _ _
          (step-Backed b c.may_have_changed (replaced_route_ledger next) p.calls (rest, e) h))
  | inl l ↦ elim (Option-cases groups) [
    | inl n ↦ rw (l, n, persist) h.ordered
    | inr (g, n) ↦
        rw (l, n, persist)
          (persisted-PartBacked b c.may_have_changed _ _
            (step-Backed b c.may_have_changed (replaced_fqdn_ledger g.next) p.calls (rest, e) h))
  ]
]

passes-Backed :
    (d : Deployer) (a : DeployArtifact) (c : Change) (b : BackupPayload) (p : Progress)
    → Backed b c.may_have_changed p.calls
    → Backed b c.may_have_changed (passes d a c p).0.calls
unfolding passes
passes-Backed d a c b p h = elim (Option-cases c.ledger) [
  | inl l ↦ rw (l, passes) h
  | inr (t, l) ↦ rw (l, passes) (step-Backed b c.may_have_changed read_routes p.calls tt h)
]

verified-PartBacked :
    (r : DeployRequest) (d : Deployer) (a : DeployArtifact) (c : Change) (groups : Option Groups)
    (b : BackupPayload) (p : Progress)
    → Backed b c.may_have_changed p.calls
    → PartBacked b c.may_have_changed (verify_and_persist r d a c groups p)
unfolding verify_and_persist
verified-PartBacked r d a c groups b p h =
    let k = passes-Backed d a c b p h in
    elim (Bool-cases (passes d a c p).1) [
      | inl t ↦
          rw (t, verify_and_persist)
            (persist-PartBacked r c groups b _ (passes d a c p).0.calls refl
              (step-Backed b c.may_have_changed (verified true) _ tt k))
      | inr f ↦
          rw (f, verify_and_persist) (step-Backed b c.may_have_changed (verified false) _ tt k)
    ]

rollback-calls :
    (p : Progress) (e : Chain) (fault : Option Chain)
    → (after_rollback p e fault).progress.calls ≡ p.calls
rollback-calls p e none = refl
rollback-calls p e (some why) = refl

recover-Ordered :
    (d : Deployer) (b : BackupPayload) (c : Change) (part : Part Chain)
    → PartBacked b c.may_have_changed part
    → Ordered (recover d b c part).progress.calls
unfolding roll_back
recover-Ordered d b c (ended e) h = h
recover-Ordered d b c (go_on p e) h = elim (Bool-cases c.may_have_changed) [
  | inr f ↦ rw f h.ordered
  | inl t ↦
      rw (t, rollback-calls (audit _ _ _ (call (restored b) p)) e (d.rollback p.calls b))
        ((h.stored, h.changes t), h.ordered)
]

settle-Ordered :
    (r : DeployRequest) (d : Deployer) (a : DeployArtifact) (groups : Option Groups)
    (b : BackupPayload) (k : Changed)
    → BackedChanged b k
    → Ordered (settle r d a groups b k).progress.calls
unfolding settle
settle-Ordered r d a groups b k h = elim (Option-cases k.change.error) [
  | inl n ↦
      rw (n, settle)
        (recover-Ordered d b k.change _ (verified-PartBacked r d a k.change groups b _ h))
  | inr (e, n) ↦
      elim (Bool-cases (error_is device_unchanged e || error_is fqdn_ownership_conflict e)) [
        | inl u ↦ rw (n, u, settle) h.ordered
        | inr u ↦ rw (n, u, settle) (recover-Ordered d b k.change (go_on _ e) h)
      ]
]

deliver-Ordered :
    (r : DeployRequest) (part : Part Prepared)
    → QuietPart (λ q v. Stored q.calls v.backup) part
    → Ordered (deliver r part).progress.calls
deliver-Ordered r part (fails e h) = quiet-Ordered e.progress.calls h.0.0
deliver-Ordered r part (goes_on p v h s) =
    let a = artifact_of r v.groups in
    settle-Ordered r v.deployer a v.groups v.backup _ (
      change-Backed r v.deployer a v.routes v.backup (keep_backup v.backup p)
        (quiet-Ordered p.calls h.0) s)

-- Whatever the device, the backup store and the ledgers answer, a delivery changes the device only
-- after a verified backup of it is stored, restores that backup only after a call that may have
-- changed the device, and replaces a ledger only right after a verification that passed.
pub deploy-Ordered :
    (r : DeployRequest) (deployers : DeployerRegistry) (store : BackupStore)
    → Ordered (deploy_to_device r deployers store).progress.calls
unfolding deploy_to_device
deploy-Ordered r deployers store =
    deliver-Ordered r (prepare r deployers store (start_of r))
      (prepare-QuietPart r deployers store (start_of r) (refl, refl, refl))
