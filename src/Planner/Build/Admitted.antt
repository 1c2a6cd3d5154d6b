-- ===== src/Planner/Build/Admitted.antt =====
-- What the admission loops let through, and what they account for.
use routevane.Common.{
  ◌≡◌, refl, sym, ap, ◌∙◌, subst, true, false, List, none, some, arith, Bool-cases, inl, inr, ◌⊎◌,
}
use routevane.Common.Text.{Text}
use routevane.Common.Assoc.{Map, get, is_key}
use routevane.Domain.Result.{Result, ok, err}
use routevane.Domain.Kind.{RuleKind, domain_exact, is_prefix}
use routevane.Domain.Rule.{RouteRule, rule_value, rule_value_for}
use routevane.Domain.Observation.{Sighting, is_fresh}
use routevane.Domain.Catalog.{Seed}
use routevane.Domain.Plan.{Excluded}
use routevane.Planner.Externals.{Externals}
use routevane.Planner.Admission.{
  DegradedSource, admissible_value, supports_rule, admissible_under_grace, declared_network,
}
use routevane.Planner.Candidates.{sighting_rule, component_or_web}
use routevane.Planner.Candidates.Facts.{KindFits, sighting_rule_facts}
use routevane.Planner.Build.Judge.{
  Policy, Verdict, accept, exclude, skip, has_text, judge_seed, judge_seed_rule, judge_value,
  judge_candidate, judge_sighting, is_foreign, is_redundant, degraded_rule, window_end,
}

-- A rule that was let through is admissible and carried by the target, and its value was not
-- switched off by the operator; its sighting is fresh, or kept by grace until the window ends; a
-- network was declared as one.
pub record IsAdmitted (p : Policy) (s : Sighting) (r : RouteRule) : Type 0 where
  pub admissible : admissible_value r ≡ none
  pub carried : supports_rule r.kind p.constraints ≡ true
  pub wanted : has_text (rule_value r) p.excluded_values ≡ false
  pub current :
      (is_fresh s p.cutoff ≡ true)
      ⊎ ((admissible_under_grace s p.grace ≡ true)
          × (r.expires_at ≡ some (window_end (get s.source_id p.grace))))
  pub declared : (is_prefix r.kind ≡ false) ⊎ (declared_network s ≡ true)

-- What the checks from the value on let through.
judge_value_accept :
    (p : Policy) (names : List Text) (s : Sighting) (c r : RouteRule)
    → judge_value p names s c ≡ accept r
    → (r ≡ c)
      × (admissible_value c ≡ none)
      × (supports_rule c.kind p.constraints ≡ true)
      × ((is_prefix c.kind ≡ false) ⊎ (declared_network s ≡ true))
      × (is_redundant p names s c ≡ false)
unfolding judge_value
judge_value_accept p names s c r h =
    (ground arith, ground arith, ground arith, ground arith, ground arith)

-- The value of a rule does not depend on its reasons and its expiry.
value_for-degraded :
    (m : Map DegradedSource) (s : Sighting) (c : RouteRule) (k : RuleKind)
    → rule_value_for k (degraded_rule m s c) ≡ rule_value_for k c
unfolding degraded_rule
value_for-degraded m s c domain_exact = refl
value_for-degraded m s c _ = refl

value-degraded :
    (m : Map DegradedSource) (s : Sighting) (c : RouteRule)
    → rule_value (degraded_rule m s c) ≡ rule_value c
unfolding rule_value degraded_rule
value-degraded m s c = value_for-degraded m s c c.kind

kind-degraded :
    (m : Map DegradedSource) (s : Sighting) (c : RouteRule)
    → ((degraded_rule m s c).kind ≡ c.kind)
      × ((degraded_rule m s c).component_id ≡ c.component_id)
      × ((degraded_rule m s c).list_id ≡ c.list_id)
      × ((degraded_rule m s c).expires_at ≡ some (window_end (get s.source_id m)))
unfolding degraded_rule
kind-degraded m s c = (refl, refl, refl, refl)

-- The two ways past the freshness check.
judge_candidate_paths :
    (p : Policy) (names : List Text) (s : Sighting) (c r : RouteRule)
    → judge_candidate p names s c ≡ accept r
    → (has_text (rule_value c) p.excluded_values ≡ false)
      × (((is_fresh s p.cutoff ≡ true) × (judge_value p names s c ≡ accept r))
          ⊎ ((admissible_under_grace s p.grace ≡ true)
              × (judge_value p names s (degraded_rule p.grace s c) ≡ accept r)))
unfolding judge_candidate
judge_candidate_paths p names s c r h = ground arith

-- What holds of an accepted rule and of the candidate that it was made of.
record IsMadeOf (p : Policy) (names : List Text) (s : Sighting) (c r : RouteRule) : Type 0 where
  admitted : IsAdmitted p s r
  same_kind : r.kind ≡ c.kind
  same_component : r.component_id ≡ c.component_id
  same_list : r.list_id ≡ c.list_id
  needed : is_redundant p names s r ≡ false

judge_candidate_accept :
    (p : Policy) (names : List Text) (s : Sighting) (c r : RouteRule)
    → judge_candidate p names s c ≡ accept r
    → IsMadeOf p names s c r
judge_candidate_accept p names s c r h =
    let (wanted, paths) = judge_candidate_paths p names s c r h in
    elim paths [
      | inl (fresh, v) ↦
          let (e, a, u, d, n) = judge_value_accept p names s c r v in
          subst (λ r'. IsMadeOf p names s c r') (sym e)
            (record {
              admitted = record {
                admissible = a;
                carried = u;
                wanted = wanted;
                current = inl fresh;
                declared = d;
              };
              same_kind = refl;
              same_component = refl;
              same_list = refl;
              needed = n;
            })
      | inr (grace, v) ↦
          let c' = degraded_rule p.grace s c in
          let (e, a, u, d, n) = judge_value_accept p names s c' r v in
          let (k, i, l, x) = kind-degraded p.grace s c in
          subst (λ r'. IsMadeOf p names s c r') (sym e)
            (record {
              admitted = record {
                admissible = a;
                carried = u;
                wanted =
                    ap (λ t. has_text t p.excluded_values) (value-degraded p.grace s c) ∙ wanted;
                current = inr (grace, x);
                declared = d;
              };
              same_kind = k;
              same_component = i;
              same_list = l;
              needed = n;
            })
    ]

skip-ne-accept : (r : RouteRule) → skip ≡ accept r → ⊥
skip-ne-accept r h = cc

accept_of_ok :
    (m : Result RouteRule) (f : RouteRule → Verdict) (e : Excluded) (r : RouteRule)
    → elim m [ err _ ↦ exclude e | ok c ↦ f c ] ≡ accept r
    → (c : RouteRule) × (m ≡ ok c) × (f c ≡ accept r)
accept_of_ok (ok c) f e r h = (c, refl, h)
accept_of_ok (err d) f e r h = cc

-- What an accepted sighting gives: an admitted rule of this list, of the kind of its resource and
-- of its component, that no name seen so far makes redundant.
pub record IsTaken (p : Policy) (names : List Text) (s : Sighting) (r : RouteRule) : Type 0 where
  pub admitted : IsAdmitted p s r
  pub fits : KindFits s.resource.kind r.kind
  pub of_list : r.list_id ≡ p.list_id
  pub of_component : r.component_id ≡ component_or_web s.component_id
  pub known : is_key (component_or_web s.component_id) p.components ≡ true
  pub needed : is_redundant p names s r ≡ false

module _ (x : Externals) where
  not_foreign :
      (p : Policy) (names : List Text) (s : Sighting) (r : RouteRule)
      → judge_sighting x p names s ≡ accept r
      → (c : RouteRule) × (sighting_rule x s p.list_id p.components ≡ ok c)
        × (judge_candidate p names s c ≡ accept r)
  unfolding judge_sighting
  not_foreign p names s r h = elim (Bool-cases (is_foreign p s)) [
    | inl foreign ↦ absurd (skip-ne-accept r (rw foreign at h))
    | inr own ↦ accept_of_ok _ _ _ r (rw own at h)
  ]

  -- A sighting that the loop accepts gives a rule of this list, of its kind and of a component that
  -- the list has; the rule is admissible, is carried by the target, is not switched off, is fresh or
  -- kept by grace, is declared where it is a network, and is not redundant under the names so far.
  pub judge_sighting_accept :
      (p : Policy) (names : List Text) (s : Sighting) (r : RouteRule)
      → judge_sighting x p names s ≡ accept r
      → IsTaken p names s r
  judge_sighting_accept p names s r h =
      let (c, made, judged) = not_foreign p names s r h in
      let ((l, i, _), fits, known, _, _) = sighting_rule_facts x s p.list_id p.components c made in
      let m = judge_candidate_accept p names s c r judged in
      record {
        admitted = m.admitted;
        fits = subst (KindFits s.resource.kind) (sym m.same_kind) fits;
        of_list = m.same_list ∙ l;
        of_component = m.same_component ∙ i;
        known = known;
        needed = m.needed;
      }

-- A seed that is accepted gives a rule that is admissible and carried by the target.
pub judge_seed_accept :
    (p : Policy) (s : Seed) (r : RouteRule)
    → judge_seed p s ≡ accept r
    → (admissible_value r ≡ none) × (supports_rule r.kind p.constraints ≡ true)
unfolding judge_seed judge_seed_rule
judge_seed_accept p s r h = (ground arith, ground arith)
