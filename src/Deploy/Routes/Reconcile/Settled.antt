-- ===== src/Deploy/Routes/Reconcile/Settled.antt =====
-- A device that has taken the changes of a reconciliation passes the verification.
use routevane.Common.{
  ap₂, some-injective, ◌≡◌, ◌≢◌, refl, sym, subst, ap, ◌∙◌, inl, inr, Bool, true, false, List, [],
  ◌∷◌, Option, none, some, arith, Bool-cases, In, In-map, In-keep_intro, In-map_intro, keep,
}
use routevane.Common.Text.{Text}
use routevane.Common.Assoc.{text_eq_sound, text_eq_complete}
use routevane.Common.Keyed.{lookup-IsKeyed, IsKeyed, lookup}
use routevane.Common.Sort.Laws.{In-sort}
use routevane.Netip.{Prefix, Prefix-discrete}
use routevane.Deploy.Routes.Ledger.{
  ManagedRouteClaim, ManagedRouteSpec, ManagedRoute, ManagedRouteOwnership, LabelMap, RouteMap,
  route_at,
}
use routevane.Deploy.Routes.Reconcile.{
  SpecMap, spec_at, current_spec_map, ManagedRouteMutation, decision_for, written_spec, is_present,
  mutation_for, next_ownership, reconciled, reconcile_managed_routes, by_prefix, decide,
  verify_mutation, verify_present, matches, is_missing, is_mismatched, is_remaining,
  route_by_prefix, description_for, labels_of_claims, next_claims, routes_by_prefix,
}
use routevane.Deploy.Routes.Reconcile.Maps.{labels_of_claims-IsKeyed}
use routevane.Deploy.Routes.Reconcile.Owned.{
  removable-parts, written-In, removed-In, reconcile-Reached,
}

-- The device after the changes: what was written is there with its description, what was removed is
-- not, and what was there and is not removed is there, with its description where it was not written.
pub record Applied (m : ManagedRouteMutation) (before after : SpecMap) : Type 0 where
  pub written :
      (s : ManagedRouteSpec)
      → In s m.upsert
      → (t : ManagedRouteSpec) × (spec_at s.prefix after ≡ some t) × (t.description ≡ s.description)
  pub gone : (p : Prefix) → In p m.remove → spec_at p after ≡ none
  pub kept :
      (p : Prefix) (s : ManagedRouteSpec)
      → spec_at p before ≡ some s
      → ¬ In p m.remove
      → ((t : ManagedRouteSpec) → In t m.upsert → t.prefix ≢ p)
      → (t : ManagedRouteSpec) × (spec_at p after ≡ some t) × (t.description ≡ s.description)

abbrev Holds : SpecMap → ManagedRoute → Type 0
Holds after r =
    (t : ManagedRouteSpec) × (spec_at r.prefix after ≡ some t)
    × (r.created_by_routevane ≡ true → t.description ≡ r.description)

Holds-verified :
    (after : SpecMap) (r : ManagedRoute)
    → Holds after r
    → (is_missing after r ≡ false) × (is_mismatched after r ≡ false)
Holds-verified after r (t, at, same) = elim (Bool-cases r.created_by_routevane) [
  | inl made ↦ rw (at, made, text_eq_complete t.description r.description (same made)) (refl, refl)
  | inr foreign ↦ rw (at, foreign) (refl, refl)
]

keep-nothing :
    {A : Type 0} (p : A → Bool) (xs : List A) → ((a : A) → In a xs → p a ≡ false) → keep p xs ≡ []
keep-nothing p [] f = refl
keep-nothing p (x ∷ xs) f = rw (f x (inl refl)) (keep-nothing p xs (λ a i. f a (inr i)))

decide-prefix :
    (p : Prefix) (d : Text) (known : Option ManagedRoute) (observed : Option ManagedRouteSpec)
    → (decide p d known observed).route.prefix ≡ p
unfolding decide
decide-prefix p d known none = refl
decide-prefix p d known (some s) = refl

decide-description :
    (p : Prefix) (d : Text) (known : Option ManagedRoute) (observed : Option ManagedRouteSpec)
    → (decide p d known observed).route.created_by_routevane ≡ true
    → (decide p d known observed).route.description ≡ d
unfolding decide
decide-description p d known none h = refl
decide-description p d known (some s) h = rw h refl

-- A route that is not written is on the device, with the description it should have where it is own.
decide-unwritten :
    (p : Prefix) (d : Text) (known : Option ManagedRoute) (observed : Option ManagedRouteSpec)
    → (decide p d known observed).written ≡ false
    → (s : ManagedRouteSpec) × (observed ≡ some s)
      × ((decide p d known observed).route.created_by_routevane ≡ true → s.description ≡ d)
unfolding decide
decide-unwritten p d known none h = cc
decide-unwritten p d known (some s) h =
    (s, refl, λ made. text_eq_sound s.description d (ground arith))

module _ (prior : RouteMap) (before after : SpecMap) (claimed : LabelMap)
    (keyed : IsKeyed Prefix-discrete claimed)
    (h : Applied (mutation_for prior before claimed) before after) where
  -- A claimed prefix that is written is on the device with the description that the ledger keeps.
  written-Holds :
      (e : Prefix × List Text)
      → In e claimed
      → (decision_for prior before e).written ≡ true
      → Holds after (decision_for prior before e).route
  unfolding mutation_for
  written-Holds e i w =
      let (t, at, same) = h.written (written_spec prior e) (
        (In-sort by_prefix _ _).1
          (In-map_intro (written_spec prior) e _ (In-keep_intro _ e claimed i w))) in
      (
        t,
        subst (λ p. spec_at p after ≡ some t)
            (sym (
              decide-prefix e.0 (description_for prior e) (route_at e.0 prior)
                (spec_at e.0 before)))
            at,
        λ made.
            same
            ∙ sym (
                decide-description e.0 (description_for prior e) (route_at e.0 prior)
                  (spec_at e.0 before) made),
      )

  not-removed :
      (e : Prefix × List Text) → In e claimed → ¬ In e.0 (mutation_for prior before claimed).remove
  not-removed e i r =
      let (route, at, t) = removed-In prior before claimed e.0 r in
      let (made, free, there) = removable-parts claimed before e.0 route t in
      cc (free, ap is_present (lookup-IsKeyed Prefix-discrete e.0 e.1 claimed keyed i))

  not-written :
      (e : Prefix × List Text)
      → In e claimed
      → (decision_for prior before e).written ≡ false
      → (t : ManagedRouteSpec) → In t (mutation_for prior before claimed).upsert
      → t.prefix ≢ e.0
  not-written e i w t j same =
      let (k, at, made, written) = written-In prior before claimed t j in
      let key = sym (ap (λ s. s.prefix) made) ∙ same in
      let labels = some-injective (
        sym (lookup-IsKeyed Prefix-discrete k.0 k.1 claimed keyed at)
        ∙ ap (λ p. lookup Prefix-discrete p claimed) key
        ∙ lookup-IsKeyed Prefix-discrete e.0 e.1 claimed keyed i) in
      cc (
        w,
        sym (ap (λ q. (decision_for prior before q).written) (ap₂ (λ a b. (a, b)) key labels))
            ∙ written,
      )

  claimed-Holds :
      (e : Prefix × List Text) → In e claimed → Holds after (decision_for prior before e).route
  claimed-Holds e i = elim (Bool-cases (decision_for prior before e).written) [
    | inl w ↦ written-Holds e i w
    | inr w ↦
        let (s, seen, own) =
          decide-unwritten e.0 (description_for prior e) (route_at e.0 prior) (spec_at e.0 before)
            w in
        let (t, at, same) = h.kept e.0 s seen (not-removed e i) (not-written e i w) in
        (
          t,
          subst (λ p. spec_at p after ≡ some t)
              (sym (
                decide-prefix e.0 (description_for prior e) (route_at e.0 prior)
                  (spec_at e.0 before)))
              at,
          λ made.
              same
              ∙ own made
              ∙ sym (
                  decide-description e.0 (description_for prior e) (route_at e.0 prior)
                    (spec_at e.0 before) made),
        )
  ]

  next-Holds :
      (o : ManagedRouteOwnership) (cs : List ManagedRouteClaim) (r : ManagedRoute)
      → In r (next_ownership o prior before claimed cs).routes
      → Holds after r
  unfolding next_ownership
  next-Holds o cs r i =
      let (e, j, same) =
        In-map (λ k. (decision_for prior before k).route) r claimed
          ((In-sort route_by_prefix r _).0 i) in
      subst (Holds after) (sym same) (claimed-Holds e j)

  present-matches :
      (o : ManagedRouteOwnership) (cs : List ManagedRouteClaim)
      → verify_present
          (next_ownership o prior before claimed cs)
          (mutation_for prior before claimed)
          after
        ≡ matches
  unfolding verify_present
  present-matches o cs =
      rw
        (
          keep-nothing (is_missing after) (next_ownership o prior before claimed cs).routes
              (λ r i. (Holds-verified after r (next-Holds o cs r i)).0),
          keep-nothing (is_mismatched after) (next_ownership o prior before claimed cs).routes
              (λ r i. (Holds-verified after r (next-Holds o cs r i)).1),
          keep-nothing (is_remaining after) (mutation_for prior before claimed).remove
              (λ p i. ap is_present (h.gone p i)),
        )
        refl

-- Where a reconciliation succeeds and the device takes its changes and keeps all else, the
-- verification finds the routes of the new ledger there, with their descriptions, and the removed
-- ones gone.
pub reconcile-matches :
    (o : ManagedRouteOwnership) (output : Text) (desired current later : List ManagedRouteSpec)
    (m : ManagedRouteMutation) (next : ManagedRouteOwnership) (before after : SpecMap)
    → reconcile_managed_routes o output desired current ≡ reconciled m next
    → current_spec_map current [] ≡ some before
    → current_spec_map later [] ≡ some after
    → Applied m before after
    → verify_mutation next m later ≡ matches
unfolding verify_mutation
reconcile-matches o output desired current later m next before after h read reread a =
    let r = reconcile-Reached o output desired current m next h in
    let prior = routes_by_prefix o.routes [] in
    let claims = next_claims output o.claims r.desired in
    let claimed = labels_of_claims claims [] in
    let same = some-injective (sym r.read ∙ read) in
    let changes = r.mutation ∙ ap (λ b. mutation_for prior b claimed) same in
    let ledger = r.ownership ∙ ap (λ b. next_ownership o prior b claimed claims) same in
    rw (reread, verify_mutation)
      (ap₂ (λ n k. verify_present n k after) ledger changes
        ∙ present-matches prior before after claimed (labels_of_claims-IsKeyed claims [] tt)
            (subst (λ k. Applied k before after) changes a) o claims)
