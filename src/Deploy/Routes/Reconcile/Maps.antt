-- ===== src/Deploy/Routes/Reconcile/Maps.antt =====
-- What the maps of a reconciliation hold.
use routevane.Common.{
  holds_complete, holds_sound, ◌≡◌, refl, sym, subst, ap, ◌∙◌, ◌⊎◌, inl, inr, true, ◌&&◌, List, [],
  ◌∷◌, Option, none, some, Bool-cases, Option-cases, In, some-injective, holds,
}
use routevane.Common.Keyed.{
  store-IsKeyed, IsKeyed, lookup, store, In-store, lookup-store_same, lookup-store_other,
}
use routevane.Encoding.Utf8.{valid_utf8}
use routevane.Netip.{Prefix, Prefix-discrete}
use routevane.Deploy.Routes.Ledger.{
  ManagedRouteSpec, ManagedRoute, ManagedRouteClaim, LabelMap, RouteMap, route_prefix_valid,
  append_labels,
}
use routevane.Deploy.Routes.Reconcile.{
  Text, SpecMap, spec_at, current_spec_map, labels_of_claims, routes_by_prefix, is_present,
}

pub is_present-some : {V : Type 0} (o : Option V) → is_present o ≡ true → (v : V) × (o ≡ some v)
is_present-some none h = cc
is_present-some (some v) h = (v, refl)

pub In-routes_by_prefix :
    (p : Prefix) (r : ManagedRoute) (rs : List ManagedRoute) (m : RouteMap)
    → In (p, r) (routes_by_prefix rs m)
    → In (p, r) m ⊎ (In r rs × (p ≡ r.prefix))
unfolding routes_by_prefix
In-routes_by_prefix p r [] m h = inl h
In-routes_by_prefix p r (s ∷ rs) m h =
    elim (In-routes_by_prefix p r rs (store Prefix-discrete s.prefix s m) h) [
      | inr (i, e) ↦ inr (inr i, e)
      | inl i ↦ elim (In-store Prefix-discrete p s.prefix r s m i) [
        | inl (ep, er) ↦ inr (inl er, ep ∙ sym (ap (λ t. t.prefix) er))
        | inr old ↦ inl old
      ]
    ]

-- What the map of the device's routes holds is one of them.
pub In-current_spec_map :
    (p : Prefix) (s : ManagedRouteSpec) (specs : List ManagedRouteSpec) (m n : SpecMap)
    → current_spec_map specs m ≡ some n
    → In (p, s) n
    → In (p, s) m ⊎ (In s specs × (p ≡ s.prefix))
unfolding current_spec_map
In-current_spec_map p s [] m n e h = inl (subst (In (p, s)) (sym (some-injective e)) h)
In-current_spec_map p s (t ∷ ts) m n e h =
    elim (Bool-cases (route_prefix_valid t.prefix && valid_utf8 t.description)) [
      | inr bad ↦ cc (rw bad at e)
      | inl good ↦ elim (Option-cases (spec_at t.prefix m)) [
        | inr (u, dup) ↦ cc (rw (good, dup) at e)
        | inl new ↦
            elim (In-current_spec_map p s ts (store Prefix-discrete t.prefix t m) n
              (rw (good, new) at e) h) [
                | inr (i, ep) ↦ inr (inr i, ep)
                | inl i ↦ elim (In-store Prefix-discrete p t.prefix s t m i) [
                  | inl (ep, es) ↦ inr (inl es, ep ∙ sym (ap (λ u. u.prefix) es))
                  | inr old ↦ inl old
                ]
              ]
      ]
    ]

-- A prefix that was read stays as it was read.
current-keeps :
    (p : Prefix) (s : ManagedRouteSpec) (specs : List ManagedRouteSpec) (m n : SpecMap)
    → current_spec_map specs m ≡ some n
    → spec_at p m ≡ some s
    → spec_at p n ≡ some s
unfolding current_spec_map
current-keeps p s [] m n e h = subst (λ k. spec_at p k ≡ some s) (some-injective e) h
current-keeps p s (t ∷ ts) m n e h =
    elim (Bool-cases (route_prefix_valid t.prefix && valid_utf8 t.description)) [
      | inr bad ↦ cc (rw bad at e)
      | inl good ↦ elim (Option-cases (spec_at t.prefix m)) [
        | inr (u, dup) ↦ cc (rw (good, dup) at e)
        | inl new ↦
            current-keeps p s ts (store Prefix-discrete t.prefix t m) n (rw (good, new) at e) (
              lookup-store_other Prefix-discrete p t.prefix t m
                (λ same. cc (subst (λ k. spec_at k m ≡ none) same new, h))
              ∙ h)
      ]
    ]

-- Each of the device's routes is in the map.
pub current-reads :
    (s : ManagedRouteSpec) (specs : List ManagedRouteSpec) (m n : SpecMap)
    → current_spec_map specs m ≡ some n
    → In s specs
    → spec_at s.prefix n ≡ some s
unfolding current_spec_map
current-reads s [] m n e h = absurd h
current-reads s (t ∷ ts) m n e h =
    elim (Bool-cases (route_prefix_valid t.prefix && valid_utf8 t.description)) [
      | inr bad ↦ cc (rw bad at e)
      | inl good ↦ elim (Option-cases (spec_at t.prefix m)) [
        | inr (u, dup) ↦ cc (rw (good, dup) at e)
        | inl new ↦ elim h [
          | inr i ↦
              current-reads s ts (store Prefix-discrete t.prefix t m) n (rw (good, new) at e) i
          | inl same ↦
              current-keeps s.prefix s ts (store Prefix-discrete t.prefix t m) n
                (rw (good, new) at e)
                (subst (λ k. spec_at k.prefix (store Prefix-discrete t.prefix t m) ≡ some k)
                  (sym same) (lookup-store_same Prefix-discrete t.prefix t m))
        ]
      ]
    ]

store-keeps :
    (p q : Prefix) (v : List Text) (m : LabelMap)
    → is_present (lookup Prefix-discrete p m) ≡ true
    → is_present (lookup Prefix-discrete p (store Prefix-discrete q v m)) ≡ true
store-keeps p q v m h = elim (Bool-cases (holds (Prefix-discrete q p))) [
  | inl e ↦
      subst (λ k. is_present (lookup Prefix-discrete k (store Prefix-discrete q v m)) ≡ true)
        (holds_sound (Prefix-discrete q p) e)
        (ap is_present (lookup-store_same Prefix-discrete q v m))
  | inr n ↦
      ap is_present (
        lookup-store_other Prefix-discrete p q v m
          (λ e. cc (n, holds_complete (Prefix-discrete q p) e)))
      ∙ h
]

append-keeps :
    (p q : Prefix) (ls : List Text) (m : LabelMap)
    → is_present (lookup Prefix-discrete p m) ≡ true
    → is_present (lookup Prefix-discrete p (append_labels q ls m)) ≡ true
unfolding append_labels
append-keeps p q ls m h = store-keeps p q _ m h

append-present :
    (q : Prefix) (ls : List Text) (m : LabelMap)
    → is_present (lookup Prefix-discrete q (append_labels q ls m)) ≡ true
unfolding append_labels
append-present q ls m = ap is_present (lookup-store_same Prefix-discrete q _ m)

labels-keep :
    (p : Prefix) (cs : List ManagedRouteClaim) (m : LabelMap)
    → is_present (lookup Prefix-discrete p m) ≡ true
    → is_present (lookup Prefix-discrete p (labels_of_claims cs m)) ≡ true
unfolding labels_of_claims
labels-keep p [] m h = h
labels-keep p (c ∷ cs) m h =
    labels-keep p cs (append_labels c.prefix c.labels m) (append-keeps p c.prefix c.labels m h)

-- The prefix of each claim is claimed.
pub claim-claimed :
    (c : ManagedRouteClaim) (cs : List ManagedRouteClaim) (m : LabelMap)
    → In c cs
    → is_present (lookup Prefix-discrete c.prefix (labels_of_claims cs m)) ≡ true
unfolding labels_of_claims
claim-claimed c [] m h = absurd h
claim-claimed c (d ∷ cs) m (inl e) =
    subst (λ k. is_present (lookup Prefix-discrete k.prefix (labels_of_claims (d ∷ cs) m)) ≡ true)
      (sym e)
      (labels-keep d.prefix cs (append_labels d.prefix d.labels m)
        (append-present d.prefix d.labels m))
claim-claimed c (d ∷ cs) m (inr h) = claim-claimed c cs (append_labels d.prefix d.labels m) h

In-append_labels :
    (p q : Prefix) (ls ks : List Text) (m : LabelMap)
    → In (p, ks) (append_labels q ls m)
    → (p ≡ q) ⊎ In (p, ks) m
unfolding append_labels
In-append_labels p q ls ks m h = elim (In-store Prefix-discrete p q ks _ m h) [
  | inl (e, f) ↦ inl e
  | inr old ↦ inr old
]

-- Each claimed prefix has a claim.
pub claimed-In :
    (p : Prefix) (ks : List Text) (cs : List ManagedRouteClaim) (m : LabelMap)
    → In (p, ks) (labels_of_claims cs m)
    → In (p, ks) m ⊎ ((c : ManagedRouteClaim) × In c cs × (c.prefix ≡ p))
unfolding labels_of_claims
claimed-In p ks [] m h = inl h
claimed-In p ks (c ∷ cs) m h = elim (claimed-In p ks cs (append_labels c.prefix c.labels m) h) [
  | inr (d, i, e) ↦ inr (d, inr i, e)
  | inl i ↦ elim (In-append_labels p c.prefix c.labels ks m i) [
    | inl e ↦ inr (c, inl refl, sym e)
    | inr old ↦ inl old
  ]
]

pub labels_of_claims-IsKeyed :
    (cs : List ManagedRouteClaim) (m : LabelMap)
    → IsKeyed Prefix-discrete m
    → IsKeyed Prefix-discrete (labels_of_claims cs m)
unfolding labels_of_claims append_labels
labels_of_claims-IsKeyed [] m h = h
labels_of_claims-IsKeyed (c ∷ cs) m h =
    labels_of_claims-IsKeyed cs (append_labels c.prefix c.labels m)
      (store-IsKeyed Prefix-discrete c.prefix _ m h)
