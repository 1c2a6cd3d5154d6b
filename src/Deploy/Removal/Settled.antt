-- ===== src/Deploy/Removal/Settled.antt =====
-- How a removal ends, and the order of its calls.
use routevane.Common.{
  All-of_In, All, any-In_intro, ◌≢◌, In, [], subst, ◌≡◌, refl, true, false, ◌∷◌, Option, none, some,
  inl, inr, Bool-cases, Option-cases, arith,
}
use routevane.Deploy.Failure.{Chain, Sentinel-discrete, error_is, device_unchanged}
use routevane.Deploy.Calls.{
  BackupPayload, restored, Calls, Deployer, BackupStore, RemovalRequest, DeployerRegistry,
}
use routevane.Deploy.Progress.{Progress, Ended, Part, ended, go_on}
use routevane.Deploy.Prepare.Quiet.{QuietPart, fails, goes_on, Stored, backup-QuietPart}
use routevane.Deploy.Surface.{
  Surface, fqdn_surface, route_surface, Removal, nothing_owned, prepare_removal, claims_for,
}
use routevane.Deploy.Surface.Quiet.{prepare_removal-QuietPart, Named, Registered, PreparedFor}
use routevane.Deploy.Routes.Ledger.{ManagedRouteClaim, ManagedRouteOwnership}
use routevane.Common.Text.{Text, text_eq}
use routevane.Common.Assoc.{text_eq_complete}
use routevane.Deploy.Removal.{
  Removing, removal_passes, removal_persisted, persist_removal, verify_removal,
  after_removal_rollback, roll_back_removal, says_unchanged, recover_removal, settle_removal,
  keep_backup_ref, remove_backed, remove_prepared, removal_start, remove_from_device,
}
use routevane.Deploy.Lifecycle.Ordered.{Ordered, unchanged-Backed, quiet-Ordered}
use routevane.Deploy.Lifecycle.Recovered.{
  Settled, failed, untouched, left_unchanged, rolled_back, not_rolled_back, Untouched,
  fails-Settled, quiet-Untouched,
}
use routevane.Deploy.Removal.Going.{
  Going, audit-Going, surface-Going, PartGoing, verify-PartGoing, done, going,
}

-- The ledger names no group, or no claim of the output.
abbrev pub OwnsNothing : Text → Surface → Type 0
OwnsNothing output (fqdn_surface m repo endpoint owned) = owned ≡ []
OwnsNothing output (route_surface m repo prior) = All (λ c. c.output_id ≢ output) prior.claims

-- Where the ledger of the target's deployer named nothing of the output a removal succeeds without a
-- device; else it is settled as a delivery is.
pub data Removed (r : RemovalRequest) (deployers : DeployerRegistry) : Ended → Type 0 where
  nothing_to_remove :
      (p : Progress) (d : Deployer) (s : Surface)
      → Registered r deployers d
      → Named r d s
      → OwnsNothing r.output_id s
      → p.result.applied ≡ true
      → Untouched p.calls
      → Removed r deployers (record { progress = p; error = none })
  settled : (e : Ended) → Settled e → Removed r deployers e

claims_for-none :
    (output : Text) (o : ManagedRouteOwnership) (c : ManagedRouteClaim)
    → claims_for output o ≡ false
    → In c o.claims
    → c.output_id ≢ output
claims_for-none output o c h i e =
    let named =
      any-In_intro (λ k. text_eq k.output_id output) c o.claims i
        (text_eq_complete c.output_id output e) in
    cc

nothing_owned-OwnsNothing :
    (output : Text) (s : Surface) → nothing_owned output s ≡ true → OwnsNothing output s
unfolding nothing_owned
nothing_owned-OwnsNothing output (fqdn_surface m repo endpoint []) h = refl
nothing_owned-OwnsNothing output (fqdn_surface m repo endpoint (g ∷ gs)) h = cc
nothing_owned-OwnsNothing output (route_surface m repo prior) h =
    All-of_In _ prior.claims (λ c i. claims_for-none output prior c (ground arith) i)

-- The end of a removal is settled and its calls are in order.
abbrev Both : Ended → Type 0
Both e = Settled e × Ordered e.progress.calls

rollback-Both :
    (b : BackupPayload) (p : Progress) (e : Chain) (fault : Option Chain) (rest : Calls)
    → p.calls ≡ restored b ∷ rest
    → p.result.applied ≡ false
    → p.result.rolled_back ≡ false
    → Ordered p.calls
    → Both (after_removal_rollback p e fault)
unfolding Sentinel-discrete
rollback-Both b p e none rest c n k o = (failed _ _ n (rolled_back b rest c refl), o)
rollback-Both b p e (some why) rest c n k o = (failed p _ n (not_rolled_back b rest c k refl), o)

roll_back-Both :
    (d : Deployer) (b : BackupPayload) (p : Progress) (e : Chain)
    → Going b true p
    → Both (roll_back_removal d b e p)
unfolding roll_back_removal
roll_back-Both d b p e h =
    rollback-Both b _ e (d.rollback p.calls b) p.calls refl h.1.not_applied h.1.not_back
      ((h.0.stored, h.0.changes refl), h.0.ordered)

-- The error of a step after a failed change is the failure of that change.
abbrev Names : Option Chain → Part Chain → Type 0
Names why (ended e) = Unit
Names why (go_on p e) = says_unchanged why ≡ true → error_is device_unchanged e ≡ true

persisted-Names :
    (why : Option Chain) (p : Progress) (e : Option Chain)
    → says_unchanged why ≡ false
    → Names why (removal_persisted p e)
persisted-Names why p none n = tt
persisted-Names why p (some e) n = λ h. cc

persist-Names :
    (r : RemovalRequest) (s : Surface) (k : Removing) (p : Progress)
    → Names none (persist_removal r s k p)
unfolding persist_removal
persist-Names r (fqdn_surface m repo endpoint owned) k p = persisted-Names none _ _ refl
persist-Names r (route_surface m repo prior) k p = persisted-Names none _ _ refl

verify-Names :
    (r : RemovalRequest) (s : Surface) (k : Removing) (p : Progress)
    → Names k.error (verify_removal r s k p)
unfolding verify_removal
verify-Names r s k p = elim (Option-cases k.error) [
  | inr (e, n) ↦ rw (n, verify_removal) (λ h. ground (arith, h))
  | inl n ↦ elim (Bool-cases (removal_passes s k p).1) [
    | inl t ↦ rw (n, t, verify_removal) (persist-Names r s k _)
    | inr f ↦ rw (n, f, verify_removal) (λ h. cc)
  ]
]

recover-Both :
    (d : Deployer) (b : BackupPayload) (k : Removing) (part : Part Chain)
    → PartGoing b k.may_have_changed part
    → Names k.error part
    → Both (recover_removal d b k part)
recover-Both d b k part (done e s o) n = (s, o)
recover-Both d b k part (going p e h) n = elim (Bool-cases k.may_have_changed) [
  | inr f ↦ rw f (failed p e h.1.not_applied (untouched (h.1.calm f)), h.0.ordered)
  | inl t ↦ elim (Bool-cases (says_unchanged k.error)) [
    | inl u ↦ rw (t, u) (failed p e h.1.not_applied (left_unchanged (rw (n u) refl)), h.0.ordered)
    | inr u ↦ rw (t, u) (roll_back-Both d b p e (subst (λ m. Going b m p) t h))
  ]
]

settle-Both :
    (r : RemovalRequest) (v : Removal) (b : BackupPayload) (k : Removing)
    → Going b k.may_have_changed k.progress
    → Both (settle_removal r v b k)
unfolding settle_removal
settle-Both r v b k h =
    recover-Both v.deployer b k _
      (verify-PartGoing r v.surface k b _
        (audit-Going b k.may_have_changed _ k.error r.output_id k.progress h))
      (verify-Names r v.surface k _)

backed-Both :
    (r : RemovalRequest) (v : Removal) (part : Part BackupPayload)
    → QuietPart (λ q b. Stored q.calls b) part
    → Both (remove_backed r v part)
backed-Both r v part (fails e h) =
    (fails-Settled e.progress e.error h.0 h.1, quiet-Ordered e.progress.calls h.0.0)
backed-Both r v part (goes_on p b h s) = settle-Both r v b _ (
    surface-Going r v.surface b (keep_backup_ref b p) (
      unchanged-Backed b p.calls (quiet-Ordered p.calls h.0) s,
      record { not_applied = h.1; not_back = h.2; calm = λ t. quiet-Untouched p.calls h.0 },
    ))

prepared-Removed :
    (r : RemovalRequest) (deployers : DeployerRegistry) (store : BackupStore) (part : Part Removal)
    → QuietPart (λ q v. PreparedFor r deployers v) part
    → Removed r deployers (remove_prepared r store part)
      × Ordered (remove_prepared r store part).progress.calls
prepared-Removed r deployers store part (fails e h) =
    (settled e (fails-Settled e.progress e.error h.0 h.1), quiet-Ordered e.progress.calls h.0.0)
prepared-Removed r deployers store part (goes_on p v h q) =
    elim (Bool-cases (nothing_owned r.output_id v.surface)) [
      | inl none_left ↦ rw none_left (
        nothing_to_remove _ v.deployer v.surface q.0 q.1
            (nothing_owned-OwnsNothing r.output_id v.surface none_left) refl
            (quiet-Untouched p.calls h.0),
        quiet-Ordered p.calls h.0,
      )
      | inr some_left ↦ rw some_left (
          let (s, o) = backed-Both r v _ (backup-QuietPart v.deployer store v.device p h) in
          (settled _ s, o))
    ]

-- Whatever the device, the backup store and the ledgers answer, a removal without an error touched
-- no device, where the ledger of the target's deployer named no group, or no claim of the output,
-- when it was read, or it was verified and rolled nothing back; one with an error has recovered as a
-- delivery has; and it changes the device only after a verified backup, restores that backup only
-- after a call that may have changed the device, and replaces a ledger only right after a
-- verification that passed.
pub removal-Removed :
    (r : RemovalRequest) (deployers : DeployerRegistry) (store : BackupStore)
    → Removed r deployers (remove_from_device r deployers store)
      × Ordered (remove_from_device r deployers store).progress.calls
unfolding remove_from_device
removal-Removed r deployers store =
    prepared-Removed r deployers store (prepare_removal r deployers removal_start)
      (prepare_removal-QuietPart r deployers removal_start (refl, refl, refl))
