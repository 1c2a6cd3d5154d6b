-- ===== src/Deploy/Removal/Going.antt =====
-- A removal from its change of the device on, as far as its verification and its ledger.
use routevane.Common.{
  sym, subst, ◌∙◌, ◌≡◌, refl, Bool, true, false, ◌&&◌, [], ◌∷◌, Option, none, some, In, inl, inr,
  Bool-cases, Option-cases,
}
use routevane.Common.Text.{Text, codes}
use routevane.Deploy.Failure.{Chain, verify_failed}
use routevane.Deploy.Calls.{
  BackupPayload, Call, applied_routes, read_routes, verified, Calls, ManagedRouteDeployer,
  RemovalRequest,
}
use routevane.Deploy.Progress.{Progress, Ended, Part, ended, go_on, audit, call}
use routevane.Deploy.Routes.Ledger.{ManagedRouteOwnership}
use routevane.Deploy.Routes.Reconcile.{Reconciled, refused, reconciled, no_items}
use routevane.Deploy.Change.{verify_error}
use routevane.Deploy.Surface.{Surface, fqdn_surface, route_surface}
use routevane.Deploy.Removal.{
  Removing, remove_reconciled, remove_routes, remove_surface, removal_passes, removal_persisted,
  persist_removal, verify_removal,
}
use routevane.Deploy.Lifecycle.Ordered.{Ordered, Allowed, Backed, step-Backed, new_change-Backed}
use routevane.Deploy.Lifecycle.Recovered.{Settled, succeeded, Untouched, Open, audit-Open}

-- What holds from the change of the device on.
abbrev pub Going : BackupPayload → Bool → Progress → Type 0
Going b may p = Backed b may p.calls × Open may p

kept-Open :
    (may : Bool) (p q : Progress)
    → q.result.applied ≡ p.result.applied
    → q.result.rolled_back ≡ p.result.rolled_back
    → (may ≡ false → Untouched q.calls)
    → Open may p
    → Open may q
kept-Open may p q ea er c o = record {
  not_applied = ea ∙ o.not_applied;
  not_back = er ∙ o.not_back;
  calm = c;
}

read-Going :
    (b : BackupPayload) (may : Bool) (p : Progress)
    → Going b may p
    → Going b may (call read_routes p)
read-Going b may p (k, o) = (
  step-Backed b may read_routes p.calls tt k,
  kept-Open may p (call read_routes p) refl refl o.calm o,
)

verified-Going :
    (b : BackupPayload) (may passed : Bool) (p : Progress)
    → Going b may p
    → Going b may (call (verified passed) p)
verified-Going b may passed p (k, o) = (
  step-Backed b may (verified passed) p.calls tt k,
  kept-Open may p (call (verified passed) p) refl refl o.calm o,
)

pub audit-Going :
    (b : BackupPayload) (may : Bool) (step : Text) (e : Option Chain) (detail : Text) (p : Progress)
    → Going b may p
    → Going b may (audit step e detail p)
audit-Going b may step e detail p (k, o) = (k, audit-Open may step e detail p o)

reconciled-Going :
    (m : ManagedRouteDeployer) (prior : ManagedRouteOwnership) (k : Reconciled) (b : BackupPayload)
    (p : Progress)
    → Going b false p
    → Going b
        (remove_reconciled m prior k p).may_have_changed
        (remove_reconciled m prior k p).progress
unfolding remove_reconciled
reconciled-Going m prior (refused e) b p h = h
reconciled-Going m prior (reconciled mutation next) b p h =
    elim (Bool-cases (no_items mutation.upsert && no_items mutation.remove)) [
      | inl e ↦ rw e h
      | inr e ↦ rw e (
        new_change-Backed b true (applied_routes mutation) p.calls (b, h.0.stored) refl h.0.ordered
            h.0.stored,
        kept-Open true p (call (applied_routes mutation) p) refl refl (λ t. cc)
            record { not_applied = h.1.not_applied; not_back = h.1.not_back; calm = λ t. cc },
      )
    ]

routes-Going :
    (r : RemovalRequest) (m : ManagedRouteDeployer) (prior : ManagedRouteOwnership)
    (b : BackupPayload) (p : Progress)
    → Going b false p
    → Going b (remove_routes r m prior p).may_have_changed (remove_routes r m prior p).progress
unfolding remove_routes
routes-Going r m prior b p h = elim (Option-cases (m.current p.calls).1) [
  | inr (why, e) ↦ rw (e, remove_routes) (read-Going b false p h)
  | inl e ↦ rw (e, remove_routes) (reconciled-Going m prior _ b _ (read-Going b false p h))
]

pub surface-Going :
    (r : RemovalRequest) (s : Surface) (b : BackupPayload) (p : Progress)
    → Going b false p
    → Going b (remove_surface r s p).may_have_changed (remove_surface r s p).progress
unfolding remove_surface
surface-Going r (fqdn_surface m repo endpoint owned) b p h = (
  new_change-Backed b _ _ p.calls (b, h.0.stored) refl h.0.ordered h.0.stored,
  record {
    not_applied = h.1.not_applied;
    not_back = h.1.not_back;
    calm = λ t. rw t (h.1.calm refl);
  },
)
surface-Going r (route_surface m repo prior) b p h = routes-Going r m prior b p h

-- A part that ends the removal has succeeded.
pub data PartGoing (b : BackupPayload) (may : Bool) : Part Chain → Type 0 where
  done : (e : Ended) → Settled e → Ordered e.progress.calls → PartGoing b may (ended e)
  going : (p : Progress) (e : Chain) → Going b may p → PartGoing b may (go_on p e)

persisted-PartGoing :
    (b : BackupPayload) (may : Bool) (p : Progress) (e : Option Chain)
    → Going b may p
    → In (verified true) p.calls
    → PartGoing b may (removal_persisted p e)
persisted-PartGoing b may p none h v = done _ (succeeded _ refl h.1.not_back v) h.0.ordered
persisted-PartGoing b may p (some e) h v = going p _ h

ledger-Going :
    (b : BackupPayload) (may : Bool) (c : Call) (p : Progress)
    → Allowed c p.calls
    → (may ≡ false → Untouched (c ∷ p.calls))
    → Going b may p
    → Going b may (call c p)
ledger-Going b may c p a u h =
    (step-Backed b may c p.calls a h.0, kept-Open may p (call c p) refl refl u h.1)

persist-PartGoing :
    (r : RemovalRequest) (s : Surface) (k : Removing) (b : BackupPayload) (p : Progress)
    (rest : Calls)
    → p.calls ≡ verified true ∷ rest
    → Going b k.may_have_changed p
    → PartGoing b k.may_have_changed (persist_removal r s k p)
unfolding persist_removal
persist-PartGoing r (fqdn_surface m repo endpoint owned) k b p rest e h =
    persisted-PartGoing b k.may_have_changed _ _
      (audit-Going b k.may_have_changed _ _ _ _
        (ledger-Going b k.may_have_changed _ p (rest, e) h.1.calm h))
      (inr (subst (In (verified true)) (sym e) (inl refl)))
persist-PartGoing r (route_surface m repo prior) k b p rest e h =
    persisted-PartGoing b k.may_have_changed _ _
      (audit-Going b k.may_have_changed _ _ _ _
        (ledger-Going b k.may_have_changed _ p (rest, e) h.1.calm h))
      (inr (subst (In (verified true)) (sym e) (inl refl)))

passes-Going :
    (s : Surface) (k : Removing) (b : BackupPayload) (p : Progress)
    → Going b k.may_have_changed p
    → Going b k.may_have_changed (removal_passes s k p).0
unfolding removal_passes
passes-Going (fqdn_surface m repo endpoint owned) k b p h = h
passes-Going (route_surface m repo prior) k b p h = read-Going b k.may_have_changed p h

pub verify-PartGoing :
    (r : RemovalRequest) (s : Surface) (k : Removing) (b : BackupPayload) (p : Progress)
    → Going b k.may_have_changed p
    → PartGoing b k.may_have_changed (verify_removal r s k p)
unfolding verify_removal
verify-PartGoing r s k b p h = elim (Option-cases k.error) [
  | inr (e, n) ↦ rw (n, verify_removal) (going _ _ h)
  | inl n ↦
      let g = passes-Going s k b p h in
      elim (Bool-cases (removal_passes s k p).1) [
        | inl t ↦
            rw (n, t, verify_removal)
              (persist-PartGoing r s k b _ (removal_passes s k p).0.calls refl (
                audit-Going b k.may_have_changed (codes "verify") (verify_error true) r.output_id _
                  (verified-Going b k.may_have_changed true _ g)))
        | inr f ↦
            rw (n, f, verify_removal)
              (going _ (verify_failed ∷ []) (
                audit-Going b k.may_have_changed (codes "verify") (verify_error false) r.output_id _
                  (verified-Going b k.may_have_changed false _ g)))
      ]
]
