-- ===== src/Deploy/Surface/Quiet.antt =====
-- The read-only part of a removal leaves the device and the ledgers alone.
use routevane.Common.{◌≡◌, refl, Option, none, some, Bool-cases, inl, inr}
use routevane.Deploy.Attempt.{DeviceInfo}
use routevane.Deploy.Calls.{
  ManagedRouteDeployer, ManagedFqdnDeployer, ManagedFqdnRemover, Deployer, ManagedRouteRepository,
  ManagedFqdnRepository, RemovalRequest, DeployerRegistry,
}
use routevane.Deploy.Progress.{Progress}
use routevane.Common.Assoc.{get}
use routevane.Deploy.Prepare.{lookup_deployer}
use routevane.Deploy.Calls.{Calls}
use routevane.Deploy.Prepare.Quiet.{
  Quiet, QuietPart, fails, goes_on, Any, bind-QuietPart, refuse_if-QuietPart, fail_on-QuietPart,
}
use routevane.Deploy.Surface.{
  Surface, fqdn_surface, route_surface, nothing_owned, check_removal, fqdn_surface_of,
  route_surface_of, fqdn_or_refuse, route_or_refuse, surface_for, surface_of, probe_for_removal,
  preview_surface, prepare_surface, prepare_removal, Removal,
}

-- What the deployer's ledger named when the removal read it.
pub data Named (r : RemovalRequest) (d : Deployer) : Surface → Type 0 where
  named_groups :
      (f : ManagedFqdnDeployer) (m : ManagedFqdnRemover) (repo : ManagedFqdnRepository)
      (calls : Calls)
      → d.managed_fqdn ≡ some f
      → d.fqdn_remover ≡ some m
      → r.managed_fqdn ≡ some repo
      → Named r d
          (fqdn_surface m repo f.endpoint.0 (repo.read calls f.endpoint.0 r.output_id).0.groups)
  named_claims :
      (m : ManagedRouteDeployer) (repo : ManagedRouteRepository) (calls : Calls)
      → d.managed_routes ≡ some m
      → r.managed_routes ≡ some repo
      → Named r d (route_surface m repo (repo.read calls m.scope.0).0)

lookup-Registered :
    (p : Progress) (o : Option Deployer)
    → Quiet p
    → QuietPart (λ q d. o ≡ some d) (lookup_deployer p o)
lookup-Registered p none h = fails _ (h, refl)
lookup-Registered p (some d) h = goes_on p d h refl

abbrev pub Registered : RemovalRequest → DeployerRegistry → Deployer → Type 0
Registered r deployers d = get r.target.renderer_id deployers ≡ some d

check_removal-QuietPart :
    (r : RemovalRequest) (deployers : DeployerRegistry) (p : Progress)
    → Quiet p
    → QuietPart (λ q d. Registered r deployers d) (check_removal r deployers p)
unfolding check_removal
check_removal-QuietPart r deployers p h =
    bind-QuietPart {Q = Any} _ _ (refuse_if-QuietPart p _ _ tt h (λ e. tt)) (λ q u k l.
      bind-QuietPart {Q = λ q d. Registered r deployers d} _ _ (lookup-Registered q _ k)
        (λ q d k l. fail_on-QuietPart q _ _ d k l))

fqdn-QuietPart :
    (r : RemovalRequest) (d : Deployer) (f : ManagedFqdnDeployer) (m : ManagedFqdnRemover)
    (repo : ManagedFqdnRepository) (p : Progress)
    → d.managed_fqdn ≡ some f
    → d.fqdn_remover ≡ some m
    → r.managed_fqdn ≡ some repo
    → Quiet p
    → QuietPart (λ q s. Named r d s) (fqdn_surface_of r f m repo p)
unfolding fqdn_surface_of
fqdn-QuietPart r d f m repo p a b c h =
    bind-QuietPart {Q = Any} _ _ (fail_on-QuietPart p _ _ tt h tt) (λ q u k l.
      bind-QuietPart {Q = Any} _ _ (fail_on-QuietPart _ _ _ tt k tt)
        (λ q2 u k l. refuse_if-QuietPart q2 _ _ _ k (λ e. named_groups f m repo q.calls a b c)))

route-QuietPart :
    (r : RemovalRequest) (d : Deployer) (m : ManagedRouteDeployer) (repo : ManagedRouteRepository)
    (p : Progress)
    → d.managed_routes ≡ some m
    → r.managed_routes ≡ some repo
    → Quiet p
    → QuietPart (λ q s. Named r d s) (route_surface_of r m repo p)
unfolding route_surface_of
route-QuietPart r d m repo p a b h =
    bind-QuietPart {Q = Any} _ _ (refuse_if-QuietPart p _ _ tt h (λ e. tt)) (λ q u k l.
      bind-QuietPart {Q = Any} _ _ (fail_on-QuietPart _ _ _ tt k tt)
        (λ q2 u k l. refuse_if-QuietPart q2 _ _ _ k (λ e. named_claims m repo q.calls a b)))

module _ (r : RemovalRequest) (d : Deployer) where
  fqdn_or_refuse-QuietPart :
      (f : ManagedFqdnDeployer) (m : Option ManagedFqdnRemover)
      (repo : Option ManagedFqdnRepository) (p : Progress)
      → d.managed_fqdn ≡ some f
      → d.fqdn_remover ≡ m
      → r.managed_fqdn ≡ repo
      → Quiet p
      → QuietPart (λ q s. Named r d s) (fqdn_or_refuse r f m repo p)
  fqdn_or_refuse-QuietPart f none none p a b c h = fails _ (h, refl)
  fqdn_or_refuse-QuietPart f none (some repo) p a b c h = fails _ (h, refl)
  fqdn_or_refuse-QuietPart f (some m) none p a b c h = fails _ (h, refl)
  fqdn_or_refuse-QuietPart f (some m) (some repo) p a b c h = fqdn-QuietPart r d f m repo p a b c h

  route_or_refuse-QuietPart :
      (m : Option ManagedRouteDeployer) (repo : Option ManagedRouteRepository) (p : Progress)
      → d.managed_routes ≡ m
      → r.managed_routes ≡ repo
      → Quiet p
      → QuietPart (λ q s. Named r d s) (route_or_refuse r m repo p)
  route_or_refuse-QuietPart none none p a b h = fails _ (h, refl)
  route_or_refuse-QuietPart none (some repo) p a b h = fails _ (h, refl)
  route_or_refuse-QuietPart (some m) none p a b h = fails _ (h, refl)
  route_or_refuse-QuietPart (some m) (some repo) p a b h = route-QuietPart r d m repo p a b h

  surface-QuietPart :
      (f : Option ManagedFqdnDeployer) (p : Progress)
      → d.managed_fqdn ≡ f
      → Quiet p
      → QuietPart (λ q s. Named r d s) (surface_for r d f p)
  surface-QuietPart none p a h =
      route_or_refuse-QuietPart d.managed_routes r.managed_routes p refl refl h
  surface-QuietPart (some f) p a h =
      fqdn_or_refuse-QuietPart f d.fqdn_remover r.managed_fqdn p a refl refl h

  surface_of-QuietPart :
      (p : Progress) → Quiet p → QuietPart (λ q s. Named r d s) (surface_of r d p)
  unfolding surface_of
  surface_of-QuietPart p h = surface-QuietPart d.managed_fqdn p refl h

probe-QuietPart :
    (r : RemovalRequest) (d : Deployer) (p : Progress)
    → Quiet p
    → QuietPart Any (probe_for_removal r d p)
unfolding probe_for_removal
probe-QuietPart r d p h =
    bind-QuietPart {Q = Any} _ _ (fail_on-QuietPart _ _ _ tt h tt)
      (λ q u k l. refuse_if-QuietPart _ _ _ _ k (λ e. tt))

-- What a removal is prepared for.
abbrev pub PreparedFor : RemovalRequest → DeployerRegistry → Removal → Type 0
PreparedFor r deployers v = Registered r deployers v.deployer × Named r v.deployer v.surface

preview-QuietPart :
    (r : RemovalRequest) (deployers : DeployerRegistry) (d : Deployer) (device : DeviceInfo)
    (s : Surface) (p : Progress)
    → Registered r deployers d
    → Named r d s
    → Quiet p
    → QuietPart (λ q v. PreparedFor r deployers v) (preview_surface d device s p)
unfolding preview_surface
preview-QuietPart r deployers d device (route_surface m repo prior) p a n h = goes_on p _ h (a, n)
preview-QuietPart r deployers d device (fqdn_surface m repo endpoint owned) p a n h =
    fail_on-QuietPart _ _ _ _ h (a, n)

prepare_surface-QuietPart :
    (r : RemovalRequest) (deployers : DeployerRegistry) (d : Deployer) (s : Surface) (p : Progress)
    → Registered r deployers d
    → Named r d s
    → Quiet p
    → QuietPart (λ q v. PreparedFor r deployers v) (prepare_surface r d s p)
unfolding prepare_surface
prepare_surface-QuietPart r deployers d s p a n h =
    elim (Bool-cases (nothing_owned r.output_id s)) [
      | inl e ↦ rw (e, prepare_surface) (goes_on p _ h (a, n))
      | inr e ↦
          rw (e, prepare_surface)
            (bind-QuietPart {Q = Any} _ _ (probe-QuietPart r d p h)
              (λ q device k l. preview-QuietPart r deployers d device s q a n k))
    ]

-- A preview of a removal changes neither the device nor a ledger, and one that goes on has read what
-- the ledger of the target's deployer names.
pub prepare_removal-QuietPart :
    (r : RemovalRequest) (deployers : DeployerRegistry) (p : Progress)
    → Quiet p
    → QuietPart (λ q v. PreparedFor r deployers v) (prepare_removal r deployers p)
unfolding prepare_removal
prepare_removal-QuietPart r deployers p h =
    bind-QuietPart {Q = λ q d. Registered r deployers d} _ _
      (check_removal-QuietPart r deployers p h)
      (λ q d k a.
        bind-QuietPart {Q = λ q s. Named r d s} _ _ (surface_of-QuietPart r d q k)
          (λ q s k n. prepare_surface-QuietPart r deployers d s q a n k))
