-- ===== src/Deploy/Routes/Reconcile/Owned.antt =====
-- What a reconciliation may change on the device, and that the device then passes verification.
use routevane.Common.{
  All-of_In, All, In-keep_intro, In-append_left, ◌≢◌, ◌↔◌, In-map, ◌≡◌, refl, sym, subst, ap, ◌⊎◌,
  inl, inr, true, false, List, [], Option, none, some, arith, Bool-cases, Option-cases, In, In-keep,
}
use routevane.Common.Text.{Text, text_eq}
use routevane.Common.Assoc.{text_eq_sound}
use routevane.Common.Keyed.{lookup, lookup-In}
use routevane.Common.Sort.Laws.{In-sort}
use routevane.Netip.{Prefix, Prefix-discrete}
use routevane.Encoding.Hex.{is_hex_id}
use routevane.Deploy.Routes.Ledger.{
  ManagedRouteSpec, ManagedRoute, ManagedRouteClaim, ManagedRouteOwnership, RouteError, LabelMap,
  RouteMap, route_at, validate_ownership, compare_prefix,
}
use routevane.Deploy.Routes.Reconcile.{
  claim_order, SpecMap, spec_at, current_spec_map, canonical_desired_specs, ManagedRouteMutation,
  next_claims, labels_of_claims, routes_by_prefix, decision_for, written_spec, is_present,
  is_removable, key_of, mutation_for, next_ownership, reconciled, reconcile_canonical,
  reconcile_managed_routes, by_prefix, checked, decide, created_before,
}
use routevane.Deploy.Routes.Reconcile.Maps.{
  is_present-some, In-routes_by_prefix, In-current_spec_map, claim-claimed, claimed-In,
  current-reads,
}

-- The values that a reconciliation that succeeds is made of.
pub record Reached (o : ManagedRouteOwnership) (output : Text) (current : List ManagedRouteSpec)
    (m : ManagedRouteMutation) (next : ManagedRouteOwnership) : Type 0 where
  pub desired : List ManagedRouteSpec
  pub before : SpecMap
  pub read : current_spec_map current [] ≡ some before
  pub mutation :
      m
      ≡ mutation_for
          (routes_by_prefix o.routes [])
          before
          (labels_of_claims (next_claims output o.claims desired) [])
  pub ownership :
      next
      ≡ next_ownership o
          (routes_by_prefix o.routes [])
          before
          (labels_of_claims (next_claims output o.claims desired) [])
          (next_claims output o.claims desired)
  pub valid : validate_ownership next ≡ none

reconciled-injective :
    {m n : ManagedRouteMutation} {o p : ManagedRouteOwnership}
    → reconciled m o ≡ reconciled n p
    → (m ≡ n) × (o ≡ p)
reconciled-injective h = (cc, cc)

checked-reconciled :
    (m n : ManagedRouteMutation) (o p : ManagedRouteOwnership) (e : Option RouteError)
    → checked m o e ≡ reconciled n p
    → (e ≡ none) × (n ≡ m) × (p ≡ o)
checked-reconciled m n o p none h = let (a, b) = reconciled-injective h in (refl, sym a, sym b)
checked-reconciled m n o p (some e) h = cc

canonical-Reached :
    (o : ManagedRouteOwnership) (output : Text) (d : Option (List ManagedRouteSpec))
    (current : List ManagedRouteSpec) (c : Option SpecMap) (m : ManagedRouteMutation)
    (next : ManagedRouteOwnership)
    → current_spec_map current [] ≡ c
    → reconcile_canonical o output d c ≡ reconciled m next
    → Reached o output current m next
canonical-Reached o output none current c m next e h = cc
canonical-Reached o output (some desired) current none m next e h = cc
canonical-Reached o output (some desired) current (some before) m next e h =
    let (v, em, en) = checked-reconciled _ m _ next _ h in
    record {
      desired = desired;
      before = before;
      read = e;
      mutation = em;
      ownership = en;
      valid = subst (λ t. validate_ownership t ≡ none) (sym en) v;
    }

pub reconcile-Reached :
    (o : ManagedRouteOwnership) (output : Text) (desired current : List ManagedRouteSpec)
    (m : ManagedRouteMutation) (next : ManagedRouteOwnership)
    → reconcile_managed_routes o output desired current ≡ reconciled m next
    → Reached o output current m next
unfolding reconcile_managed_routes
reconcile-Reached o output desired current m next h = elim (Bool-cases (is_hex_id output)) [
  | inr bad ↦ cc (rw bad at h)
  | inl hex ↦ elim (Option-cases (validate_ownership o)) [
    | inr (e, v) ↦ cc (rw (hex, v) at h)
    | inl v ↦
        canonical-Reached o output (canonical_desired_specs desired) current _ m next refl
          (rw (hex, v) at h)
  ]
]

-- A route that Routevane made, by the ledger before.
abbrev pub Own : ManagedRouteOwnership → Prefix → Type 0
Own o p = (r : ManagedRoute) × In r o.routes × (r.prefix ≡ p) × (r.created_by_routevane ≡ true)

abbrev pub OnDevice : List ManagedRouteSpec → Prefix → Type 0
OnDevice current p = (s : ManagedRouteSpec) × In s current × (s.prefix ≡ p)

abbrev pub Claimed : ManagedRouteOwnership → Prefix → Type 0
Claimed o p = (c : ManagedRouteClaim) × In c o.claims × (c.prefix ≡ p)

pub removed-In :
    (prior : RouteMap) (before : SpecMap) (claimed : LabelMap) (p : Prefix)
    → In p (mutation_for prior before claimed).remove
    → (r : ManagedRoute) × In (p, r) prior × (is_removable claimed before (p, r) ≡ true)
unfolding mutation_for
removed-In prior before claimed p h =
    let (e, i, same) = In-map key_of p _ ((In-sort compare_prefix p _).0 h) in
    let (j, t) = In-keep (is_removable claimed before) e prior i in
    (
      e.1,
      subst (λ q. In (q, e.1) prior) (sym same) j,
      subst (λ q. is_removable claimed before (q, e.1) ≡ true) (sym same) t,
    )

pub removable-parts :
    (claimed : LabelMap) (before : SpecMap) (p : Prefix) (r : ManagedRoute)
    → is_removable claimed before (p, r) ≡ true
    → (r.created_by_routevane ≡ true)
      × (is_present (lookup Prefix-discrete p claimed) ≡ false)
      × (is_present (spec_at p before) ≡ true)
unfolding is_removable
removable-parts claimed before p r h = (ground arith, ground arith, ground arith)

next-claims :
    (o : ManagedRouteOwnership) (prior : RouteMap) (before : SpecMap) (claimed : LabelMap)
    (cs : List ManagedRouteClaim) (c : ManagedRouteClaim)
    → In c (next_ownership o prior before claimed cs).claims ↔ In c cs
unfolding next_ownership
next-claims o prior before claimed cs c = In-sort claim_order c cs

read-OnDevice :
    (current : List ManagedRouteSpec) (before : SpecMap) (p : Prefix)
    → current_spec_map current [] ≡ some before
    → is_present (spec_at p before) ≡ true
    → OnDevice current p
read-OnDevice current before p e h =
    let (s, at) = is_present-some (spec_at p before) h in
    elim (In-current_spec_map p s current [] before e (lookup-In Prefix-discrete p s before at)) [
      | inl nowhere ↦ absurd nowhere
      | inr (i, same) ↦ (s, i, sym same)
    ]

prior-In :
    (o : ManagedRouteOwnership) (p : Prefix) (r : ManagedRoute)
    → In (p, r) (routes_by_prefix o.routes [])
    → In r o.routes × (r.prefix ≡ p)
prior-In o p r h = elim (In-routes_by_prefix p r o.routes [] h) [
  | inl nowhere ↦ absurd nowhere
  | inr (i, e) ↦ (i, sym e)
]

-- The claims of the other outputs are kept.
next_claims-keeps :
    (output : Text) (prior : List ManagedRouteClaim) (desired : List ManagedRouteSpec)
    (c : ManagedRouteClaim)
    → In c prior
    → text_eq c.output_id output ≡ false
    → In c (next_claims output prior desired)
unfolding next_claims
next_claims-keeps output prior desired c i other =
    In-append_left c _ _ (In-keep_intro _ c prior i (rw other refl))

-- A claim of this output, or one that is kept and is not for the prefix.
abbrev pub KeptClaim : Text → ManagedRouteOwnership → Prefix → ManagedRouteClaim → Type 0
KeptClaim output next p c = (c.output_id ≡ output) ⊎ ((c.prefix ≢ p) × In c next.claims)

-- A reconciliation removes a route only where Routevane made it, no output claims it in the ledger
-- after, no other output claimed it in the ledger before, and it is on the device; and each claim of
-- another output in the ledger before is in the ledger after.
pub removes_no_foreign :
    (o : ManagedRouteOwnership) (output : Text) (desired current : List ManagedRouteSpec)
    (m : ManagedRouteMutation) (next : ManagedRouteOwnership) (p : Prefix)
    → reconcile_managed_routes o output desired current ≡ reconciled m next
    → In p m.remove
    → Own o p × (Claimed next p → ⊥) × OnDevice current p × All (KeptClaim output next p) o.claims
removes_no_foreign o output desired current m next p h i =
    let r = reconcile-Reached o output desired current m next h in
    let claims = next_claims output o.claims r.desired in
    let (route, at, t) =
      removed-In (routes_by_prefix o.routes []) r.before (labels_of_claims claims []) p
        (subst (λ n. In p n.remove) r.mutation i) in
    let (made, free, there) = removable-parts (labels_of_claims claims []) r.before p route t in
    let (j, same) = prior-In o p route at in
    let unclaimed : (Claimed next p → ⊥) = λ claim.
      let (c, k, e) = claim in
      cc (
        free,
        subst (λ q. is_present (lookup Prefix-discrete q (labels_of_claims claims [])) ≡ true) e
            (claim-claimed c claims []
              ((next-claims o _ _ _ claims c).0 (subst (λ n. In c n.claims) r.ownership k))),
      ) in
    (
      (route, j, same, made),
      unclaimed,
      read-OnDevice current r.before p r.read there,
      All-of_In _ o.claims (λ c k. elim (Bool-cases (text_eq c.output_id output)) [
        | inl own ↦ inl (text_eq_sound c.output_id output own)
        | inr other ↦
            let kept =
              subst (λ n. In c n.claims) (sym r.ownership)
                ((next-claims o _ _ _ claims c).1
                  (next_claims-keeps output o.claims r.desired c k other)) in
            inr (λ e. unclaimed (c, kept, e), kept)
      ]),
    )

pub written-In :
    (prior : RouteMap) (before : SpecMap) (claimed : LabelMap) (s : ManagedRouteSpec)
    → In s (mutation_for prior before claimed).upsert
    → (e : Prefix × List Text) × In e claimed
      × (s ≡ written_spec prior e)
      × ((decision_for prior before e).written ≡ true)
unfolding mutation_for
written-In prior before claimed s h =
    let (e, i, same) = In-map (written_spec prior) s _ ((In-sort by_prefix s _).0 h) in
    let (j, t) = In-keep (λ k. (decision_for prior before k).written) e claimed i in (e, j, same, t)

-- What is written is absent, or was made by Routevane.
pub decide-written :
    (p : Prefix) (d : Text) (known : Option ManagedRoute) (observed : Option ManagedRouteSpec)
    → (decide p d known observed).written ≡ true
    → (observed ≡ none) ⊎ (created_before known ≡ true)
unfolding decide
decide-written p d known none h = inl refl
decide-written p d known (some s) h = inr (ground arith)

created-some :
    (known : Option ManagedRoute)
    → created_before known ≡ true
    → (r : ManagedRoute) × (known ≡ some r) × (r.created_by_routevane ≡ true)
created-some none h = cc
created-some (some r) h = (r, refl, h)

-- A reconciliation writes a route only where an output claims it, and the route is not on the
-- device or Routevane made it.
pub writes_no_foreign :
    (o : ManagedRouteOwnership) (output : Text) (desired current : List ManagedRouteSpec)
    (m : ManagedRouteMutation) (next : ManagedRouteOwnership) (s : ManagedRouteSpec)
    → reconcile_managed_routes o output desired current ≡ reconciled m next
    → In s m.upsert
    → Claimed next s.prefix × ((OnDevice current s.prefix → ⊥) ⊎ Own o s.prefix)
writes_no_foreign o output desired current m next s h i =
    let r = reconcile-Reached o output desired current m next h in
    let prior = routes_by_prefix o.routes [] in
    let claims = next_claims output o.claims r.desired in
    let (e, at, same, t) =
      written-In prior r.before (labels_of_claims claims []) s
        (subst (λ n. In s n.upsert) r.mutation i) in
    subst (λ p. Claimed next p × ((OnDevice current p → ⊥) ⊎ Own o p))
      (sym (ap (λ k. k.prefix) same))
      (
        elim (claimed-In e.0 e.1 claims [] at) [
          | inl nowhere ↦ absurd nowhere
          | inr (c, k, ec) ↦ (
            c,
            subst (λ n. In c n.claims) (sym r.ownership) ((next-claims o _ _ _ claims c).1 k),
            ec,
          )
        ],
        elim (decide-written e.0 _ (route_at e.0 prior) (spec_at e.0 r.before) t) [
          | inl absent ↦ inl (λ there.
              let (q, k, eq) = there in
              cc (
                absent,
                subst (λ p. spec_at p r.before ≡ some q) eq
                    (current-reads q current [] r.before r.read k),
              ))
          | inr made ↦
              let (route, known, own) = created-some (route_at e.0 prior) made in
              let (j, same_prefix) =
                prior-In o e.0 route (lookup-In Prefix-discrete e.0 route prior known) in
              inr (route, j, same_prefix, own)
        ],
      )
