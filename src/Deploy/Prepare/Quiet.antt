-- ===== src/Deploy/Prepare/Quiet.antt =====
-- Until its first change a delivery leaves the device and the ledgers alone.
use routevane.Common.{
  Option-cases, ◌≡◌, refl, Bool, true, false, Option, none, some, inl, inr, all, In, arith,
}
use routevane.Deploy.Failure.{Chain}
use routevane.Deploy.Attempt.{DeviceInfo}
use routevane.Deploy.Calls.{
  removed_groups, BackupPayload, is_verified, DeployArtifact, Call, stored_backup, applied_routes,
  wrote_artifact, verified, replaced_route_ledger, replaced_fqdn_ledger, restored, Calls, Deployer,
  ManagedFqdnDeployer, ManagedFqdnRepository, ManagedRouteDeployer, ManagedRouteRepository,
  BackupStore, DeployRequest, DeployerRegistry,
}
use routevane.Deploy.Progress.{
  Progress, Ended, Part, ended, go_on, ◌>>=◌, refuse_if, fail_on, stop, is_nil,
}
use routevane.Deploy.Prepare.{
  lookup_deployer, check_request, probe_device, prepare_groups_with, prepare_groups,
  prepare_routes_with, prepare_routes, store_verified_backup, prepare, artifact_of,
}

-- A call that changes neither the device nor a ledger.
abbrev pub is_quiet : Call → Bool
is_quiet (applied_routes m) = false
is_quiet (wrote_artifact may) = false
is_quiet (removed_groups may) = false
is_quiet (replaced_route_ledger o) = false
is_quiet (replaced_fqdn_ledger o) = false
is_quiet (restored b) = false
is_quiet (verified passed) = false
is_quiet _ = true

abbrev pub Quiet : Progress → Type 0
Quiet p =
    (all is_quiet p.calls ≡ true) × (p.result.applied ≡ false) × (p.result.rolled_back ≡ false)

abbrev pub Fails : Ended → Type 0
Fails e = Quiet e.progress × (is_nil e.error ≡ false)

-- What a part that goes on leaves, where one that ends the delivery has failed quietly.
pub data QuietPart {V : Type 0} (Q : Progress → V → Type 0) : Part V → Type 0 where
  fails : (e : Ended) → Fails e → QuietPart Q (ended e)
  goes_on : (p : Progress) (v : V) → Quiet p → Q p v → QuietPart Q (go_on p v)

abbrev pub Any : {V : Type 0} → Progress → V → Type 0
Any p v = Unit

module _ {V W : Type 0} {Q : Progress → V → Type 0} {R : Progress → W → Type 0} where
  pub bind-QuietPart :
      (first : Part V) (next : Progress → V → Part W)
      → QuietPart Q first
      → ((p : Progress) (v : V) → Quiet p → Q p v → QuietPart R (next p v))
      → QuietPart R (first >>= next)
  unfolding ◌>>=◌
  bind-QuietPart first next (fails e h) f = fails e h
  bind-QuietPart first next (goes_on p v h q) f = f p v h q

module _ {V : Type 0} {Q : Progress → V → Type 0} where
  pub refuse_if-QuietPart :
      (p : Progress) (bad : Bool) (e : Chain) (v : V)
      → Quiet p
      → (bad ≡ false → Q p v)
      → QuietPart Q (refuse_if p bad e v)
  unfolding refuse_if
  refuse_if-QuietPart p true e v h q = fails (stop p e) (h, refl)
  refuse_if-QuietPart p false e v h q = goes_on p v h (q refl)

  pub fail_on-QuietPart :
      (p : Progress) (e : Option Chain) (wrap : Chain → Chain) (v : V)
      → Quiet p
      → Q p v
      → QuietPart Q (fail_on p e wrap v)
  unfolding fail_on
  fail_on-QuietPart p none wrap v h q = goes_on p v h q
  fail_on-QuietPart p (some e) wrap v h q = fails (stop p (wrap e)) (h, refl)

pub lookup-QuietPart :
    (p : Progress) (o : Option Deployer) → Quiet p → QuietPart Any (lookup_deployer p o)
lookup-QuietPart p none h = fails _ (h, refl)
lookup-QuietPart p (some d) h = goes_on p d h tt

check_request-QuietPart :
    (r : DeployRequest) (deployers : DeployerRegistry) (p : Progress)
    → Quiet p
    → QuietPart Any (check_request r deployers p)
unfolding check_request
check_request-QuietPart r deployers p h =
    bind-QuietPart {Q = Any} _ _ (refuse_if-QuietPart p _ _ tt h (λ e. tt)) (λ q u k l.
      bind-QuietPart {Q = Any} _ _ (lookup-QuietPart q _ k)
        (λ q d k l. fail_on-QuietPart q _ _ d k tt))

probe_device-QuietPart :
    (r : DeployRequest) (d : Deployer) (p : Progress) → Quiet p → QuietPart Any (probe_device r d p)
unfolding probe_device
probe_device-QuietPart r d p h =
    bind-QuietPart {Q = Any} _ _ (fail_on-QuietPart _ _ _ tt h tt)
      (λ q u k l. refuse_if-QuietPart _ _ _ _ k (λ e. tt))

groups_with-QuietPart :
    (r : DeployRequest) (device : DeviceInfo) (f : ManagedFqdnDeployer)
    (repo : ManagedFqdnRepository) (p : Progress)
    → Quiet p
    → QuietPart Any (prepare_groups_with r device f repo p)
unfolding prepare_groups_with
groups_with-QuietPart r device f repo p h =
    bind-QuietPart {Q = Any} _ _ (fail_on-QuietPart p _ _ tt h tt) (λ q u k l.
      bind-QuietPart {Q = Any} _ _ (fail_on-QuietPart _ _ _ tt k tt) (λ q u k l.
        bind-QuietPart {Q = Any} _ _ (refuse_if-QuietPart q _ _ tt k (λ e. tt)) (λ q u k l.
          bind-QuietPart {Q = Any} _ _ (fail_on-QuietPart q _ _ tt k tt)
            (λ q u k l. fail_on-QuietPart _ _ _ _ k tt))))

groups-QuietPart :
    (r : DeployRequest) (d : Deployer) (device : DeviceInfo) (p : Progress)
    → Quiet p
    → QuietPart Any (prepare_groups r d device p)
unfolding prepare_groups
groups-QuietPart r d device p h = elim (Option-cases d.managed_fqdn) [
  | inl e ↦ rw e (goes_on p none h tt)
  | inr (f, e) ↦ elim (Option-cases r.managed_fqdn) [
    | inl n ↦ rw (e, n) (fails _ (h, refl))
    | inr (repo, n) ↦
        rw (e, n)
          (bind-QuietPart {Q = Any} _ _ (refuse_if-QuietPart p _ _ tt h (λ e. tt))
            (λ q u k l. groups_with-QuietPart r device f repo q k))
  ]
]

routes_with-QuietPart :
    (r : DeployRequest) (a : DeployArtifact) (m : ManagedRouteDeployer)
    (repo : ManagedRouteRepository) (p : Progress)
    → Quiet p
    → QuietPart Any (prepare_routes_with r a m repo p)
unfolding prepare_routes_with
routes_with-QuietPart r a m repo p h =
    bind-QuietPart {Q = Any} _ _ (refuse_if-QuietPart p _ _ tt h (λ e. tt)) (λ q u k l.
      bind-QuietPart {Q = Any} _ _ (fail_on-QuietPart _ _ _ tt k tt) (λ q u k l.
        bind-QuietPart {Q = Any} _ _ (refuse_if-QuietPart q _ _ tt k (λ e. tt))
          (λ q u k l. fail_on-QuietPart q _ _ _ k tt)))

routes-QuietPart :
    (r : DeployRequest) (d : Deployer) (a : DeployArtifact) (p : Progress)
    → Quiet p
    → QuietPart Any (prepare_routes r d a p)
unfolding prepare_routes
routes-QuietPart r d a p h = elim (Option-cases d.managed_routes) [
  | inl e ↦ rw e (goes_on p none h tt)
  | inr (m, e) ↦ elim (Option-cases r.managed_routes) [
    | inl n ↦ rw (e, n) (goes_on p none h tt)
    | inr (repo, n) ↦ rw (e, n) (routes_with-QuietPart r a m repo p h)
  ]
]

-- The backup is stored in this delivery, and can be restored.
abbrev pub Stored : Calls → BackupPayload → Type 0
Stored calls b = In (stored_backup b.payload b.ref) calls × (is_verified b.ref ≡ true)

pub backup-QuietPart :
    (d : Deployer) (store : BackupStore) (device : DeviceInfo) (p : Progress)
    → Quiet p
    → QuietPart (λ q b. Stored q.calls b) (store_verified_backup d store device p)
unfolding store_verified_backup
backup-QuietPart d store device p h =
    bind-QuietPart {Q = Any} _ _ (fail_on-QuietPart _ _ _ tt h tt) (λ q u k l.
      bind-QuietPart {Q = Any} _ _ (refuse_if-QuietPart q _ _ tt k (λ e. tt)) (λ q u k l.
        bind-QuietPart
          {Q = λ q' u'.
            In
              (stored_backup (d.take_backup p.calls).0.payload
                (store q.calls device.deployer_id (d.take_backup p.calls).0.payload).0)
              q'.calls}
          _ _ (fail_on-QuietPart _ _ _ tt k (inl refl))
          (λ q' u' k' l'. refuse_if-QuietPart q' _ _ _ k' (λ e. (l', ground arith)))))

-- Up to its first change, a delivery that fails has changed neither the device nor a ledger, and
-- one that goes on has stored a verified backup.
pub prepare-QuietPart :
    (r : DeployRequest) (deployers : DeployerRegistry) (store : BackupStore) (p : Progress)
    → Quiet p
    → QuietPart (λ q v. Stored q.calls v.backup) (prepare r deployers store p)
unfolding prepare
prepare-QuietPart r deployers store p h =
    bind-QuietPart {Q = Any} _ _ (check_request-QuietPart r deployers p h) (λ p d k l.
      bind-QuietPart {Q = Any} _ _ (probe_device-QuietPart r d p k) (λ p device k l.
        bind-QuietPart {Q = Any} _ _ (groups-QuietPart r d device p k) (λ p groups k l.
          bind-QuietPart {Q = Any} _ _ (routes-QuietPart r d (artifact_of r groups) p k)
            (λ p routes k l.
              bind-QuietPart {Q = λ q b. Stored q.calls b} _ _ (backup-QuietPart d store device p k)
                (λ p b k l. goes_on p _ k l)))))
