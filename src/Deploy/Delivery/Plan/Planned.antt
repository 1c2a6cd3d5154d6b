-- ===== src/Deploy/Delivery/Plan/Planned.antt =====
-- A plan reads, and says what a delivery of the same command would use.
use routevane.Common.{◌≡◌, refl, sym, ap, ◌∙◌, true, Option, none, some}
use routevane.Common.Assoc.{get}
use routevane.Deploy.Attempt.{DeployCommand}
use routevane.Deploy.Calls.{Deployer, DeployRequest, ManagedFqdnDeployer, ManagedFqdnRepository}
use routevane.Deploy.Progress.{Progress, Part}
use routevane.Deploy.Prepare.Quiet.{
  Quiet, QuietPart, fails, goes_on, Any, bind-QuietPart, refuse_if-QuietPart, fail_on-QuietPart,
}
use routevane.Deploy.Delivery.{
  Answered, refused, found, DeploymentConfig, Resolved, resolve, artifact_target,
}
use routevane.Deploy.Delivery.Delivered.{Matched, Sendable, found-inj}
use routevane.Deploy.Delivery.Plan.{
  DeployPlan, plan_groups, plan_surface, plan_resolved, plan_start, plan_deployment,
}

-- What the plan of a resolved command says.
abbrev Says : Resolved → Progress → DeployPlan → Type 0
Says v p k =
    (k.artifact_id ≡ v.payload.id)
    × (k.artifact_hash ≡ v.payload.artifact_hash)
    × (k.target_id ≡ v.target.id)
    × (k.deployer_id ≡ v.deployer.id)

groups-QuietPart :
    (c : DeployCommand) (v : Resolved) (f : ManagedFqdnDeployer) (repo : ManagedFqdnRepository)
    (p : Progress)
    → Quiet p
    → QuietPart (Says v) (plan_groups c v f repo p)
unfolding plan_groups
groups-QuietPart c v f repo p h =
    bind-QuietPart {Q = Any} _ _ (fail_on-QuietPart _ _ _ tt h tt) (λ q u k l.
      bind-QuietPart {Q = Any} _ _ (refuse_if-QuietPart q _ _ tt k (λ e. tt)) (λ q u k l.
        bind-QuietPart {Q = Any} _ _ (fail_on-QuietPart q _ _ tt k tt) (λ q u k l.
          bind-QuietPart {Q = Any} _ _ (fail_on-QuietPart _ _ _ tt k tt)
            (λ q u k l. fail_on-QuietPart _ _ _ _ k (refl, refl, refl, refl)))))

surface-QuietPart :
    (c : DeployCommand) (v : Resolved) (f : Option ManagedFqdnDeployer)
    (repo : Option ManagedFqdnRepository) (p : Progress)
    → Quiet p
    → QuietPart (Says v) (plan_surface c v f repo p)
surface-QuietPart c v none repo p h = goes_on p _ h (refl, refl, refl, refl)
surface-QuietPart c v (some f) none p h = fails _ (h, refl)
surface-QuietPart c v (some f) (some repo) p h = groups-QuietPart c v f repo p h

resolve_complete :
    (s : DeploymentConfig) (c : DeployCommand) (v : Resolved)
    → Matched s c v
    → resolve s c ≡ found v
unfolding resolve artifact_target
resolve_complete s c v m =
    rw
      (
        m.typed, m.aimed.stored, m.aimed.output, m.aimed.defined, m.aimed.matching, m.available,
        m.accepted,
      )
      refl

abbrev confirmed_command : DeployCommand → DeployCommand
confirmed_command c = record c { confirm = true }

-- A plan agrees with each request that the command stands for once it is confirmed.
abbrev pub Agrees : DeploymentConfig → DeployCommand → Progress → DeployPlan → Type 0
Agrees s c p k =
    (r : DeployRequest)
    → Sendable s (confirmed_command c) r
    → (r.artifact.artifact_id ≡ k.artifact_id)
      × (r.artifact.artifact_hash ≡ k.artifact_hash)
      × (r.target.id ≡ k.target_id)
      × (d : Deployer) × (get r.target.renderer_id s.deployers ≡ some d)
      × (d.id ≡ k.deployer_id)

resolved_confirmed :
    (s : DeploymentConfig) (c : DeployCommand) (v : Resolved)
    → resolve s c ≡ found v
    → resolve s (confirmed_command c) ≡ found v
unfolding resolve
resolved_confirmed s c v h = h

told-Agrees :
    (s : DeploymentConfig) (c : DeployCommand) (v : Resolved) (p : Progress) (k : DeployPlan)
    → resolve s c ≡ found v
    → Says v p k
    → Agrees s c p k
told-Agrees s c v p k h (a, b, t, d) r q =
    let same : v ≡ q.resolved = found-inj (
      sym (resolved_confirmed s c v h)
      ∙ resolve_complete s (confirmed_command c) q.resolved q.matched) in
    (
      ap (λ x. x.artifact.artifact_id) q.request ∙ sym (ap (λ w. w.payload.id) same) ∙ sym a,
      ap (λ x. x.artifact.artifact_hash) q.request
          ∙ sym (ap (λ w. w.payload.artifact_hash) same)
          ∙ sym b,
      ap (λ x. x.target.id) q.request ∙ sym (ap (λ w. w.target.id) same) ∙ sym t,
      q.resolved.deployer,
      ap (λ x. get x.target.renderer_id s.deployers) q.request ∙ q.matched.available,
      sym (ap (λ w. w.deployer.id) same) ∙ sym d,
    )

weaken :
    {V : Type 0} {Q R : Progress → V → Type 0} (part : Part V)
    → ((p : Progress) (v : V) → Q p v → R p v)
    → QuietPart Q part
    → QuietPart R part
weaken part f (fails e h) = fails e h
weaken part f (goes_on p v h q) = goes_on p v h (f p v q)

resolved-Agrees :
    (s : DeploymentConfig) (c : DeployCommand) (a : Answered Resolved)
    → resolve s c ≡ a
    → QuietPart (Agrees s c) (plan_resolved s c a)
resolved-Agrees s c (refused e) h = fails _ ((refl, refl, refl), refl)
resolved-Agrees s c (found v) h =
    weaken _ (λ p k q. told-Agrees s c v p k h q)
      (surface-QuietPart c v v.deployer.managed_fqdn s.managed_fqdn plan_start (refl, refl, refl))

-- A plan makes no call that changes a device or a ledger, and names the artifact, its hash, the target and
-- the deployer of any request that the same command stands for once it is confirmed; a plan that is refused
-- has made no such call either.
pub plan_deployment-Agrees :
    (s : DeploymentConfig) (c : DeployCommand) → QuietPart (Agrees s c) (plan_deployment s c)
unfolding plan_deployment
plan_deployment-Agrees s c = resolved-Agrees s c (resolve s c) refl
