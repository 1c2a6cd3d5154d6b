-- ===== src/Application/Preflight/Accepted.antt =====
-- What a plan that passes the preflight is.
use routevane.Domain.Kind.{
  RuleKind, RuleKind-discrete, domain_exact, domain_suffix, ipv4, ipv6, prefix4, prefix6,
  other_kind, Action, route, other_action,
}
use routevane.Common.{
  holds_sound, zero, suc, ◌⊎◌, ltb, ◌==◌, ap₂, ℕ, ◌≤◌, ◌<◌, ◌≡◌, refl, sym, Bool, true, false, ◌&&◌,
  not, List, [], ◌∷◌, Option, none, some, inl, inr, Ordering, map, In, All, All-In, All-of_In,
  Bool-cases, any, any-In_intro, arith, and-true,
}
use routevane.Common.Text.{Text, text_eq, text_compare}
use routevane.Common.Text.Order.{text_compare-TotalOrder}
use routevane.Common.Assoc.{text_eq_sound, text_eq_complete}
use routevane.Common.Sort.Laws.{IsAscending}
use routevane.Domain.Names.{validate_slug}
use routevane.Domain.Rule.{is_route, RouteRule, candidate_key, rule_is_valid}
use routevane.Domain.Target.{TargetConstraints, TargetDefinition}
use routevane.Planner.Reasons.{policy_version}
use routevane.Domain.Plan.{routing_plan_interface_version, stable_strings, Coverage, RoutingPlan}
use routevane.Planner.Canonical.{HashPayload, semantic_hash}
use routevane.Application.Preflight.{
  equal_strings, Renderer, Projection, projected, projection_failed, projection_negative,
  PreflightError, preflight_plan, identity_holds, lists_ascend, check_rule, check_rules,
  check_position, rule_sort_key, check_coverage, check_projection, check_hash, first_error,
  error_if, after_prior, canonical_strings, target_supports_rule, kind_eq, is_expired, coverage_key,
  is_open,
}

first_error-none : (a b : Option PreflightError) → first_error a b ≡ none → (a ≡ none) × (b ≡ none)
first_error-none none b h = (refl, h)
first_error-none (some e) b h = cc

error_if-none : (b : Bool) (e : PreflightError) → error_if b e ≡ none → b ≡ false
error_if-none true e h = cc
error_if-none false e h = refl

true_of_not : (b : Bool) → not b ≡ false → b ≡ true
true_of_not true h = refl
true_of_not false h = cc

-- No two texts are the same.
abbrev pub Distinct : List Text → Type 0
Distinct [] = Unit
Distinct (s ∷ ss) = ¬ In s ss × Distinct ss

after-some : (p s : Text) → after_prior (some p) s ≡ true → text_compare p s ≡ Ordering.lt
after-some p s h = ground arith

ascend_after :
    (p : Text) (ls : List Text)
    → lists_ascend (some p) ls ≡ true
    → All (λ s. text_compare p s ≡ Ordering.lt) ls
unfolding lists_ascend
ascend_after p [] h = tt
ascend_after p (l ∷ ls) h =
    let (ab, c) = and-true _ _ h in
    let lt = after-some p l (and-true _ _ ab).1 in
    (
      lt,
      All-of_In _ ls
          (λ s i. text_compare-TotalOrder.trans p l s lt (All-In _ s ls (ascend_after l ls c) i)),
    )

lists_ascend-IsAscending :
    (prior : Option Text) (ls : List Text)
    → lists_ascend prior ls ≡ true
    → IsAscending text_compare ls
unfolding lists_ascend
lists_ascend-IsAscending prior [] h = tt
lists_ascend-IsAscending prior (l ∷ ls) h =
    let (ab, c) = and-true _ _ h in (ascend_after l ls c, lists_ascend-IsAscending (some l) ls c)

is_route-route : (a : Action) → is_route a ≡ true → a ≡ route
is_route-route route h = refl
is_route-route (other_action t) h = cc

In-of_any : (s : Text) (ss : List Text) → any (text_eq s) ss ≡ true → In s ss
In-of_any s [] h = cc
In-of_any s (t ∷ ts) h = elim (Bool-cases (text_eq s t)) [
  | inl e ↦ inl (text_eq_sound s t e)
  | inr n ↦ inr (In-of_any s ts (rw n at h))
]

In-of_any_kind : (k : RuleKind) (ks : List RuleKind) → any (kind_eq k) ks ≡ true → In k ks
unfolding RuleKind-discrete
In-of_any_kind k [] h = cc
In-of_any_kind k (j ∷ ks) h = elim (Bool-cases (kind_eq k j)) [
  | inl e ↦ inl (holds_sound (RuleKind-discrete k j) e)
  | inr n ↦ inr (In-of_any_kind k ks (rw n at h))
]

-- What the limits of a target say of a kind of rules.
abbrev pub Supports : TargetConstraints → RuleKind → Type 0
Supports c domain_exact = c.supports_domain_exact ≡ true
Supports c domain_suffix = c.supports_domain_suffix ≡ true
Supports c ipv4 = c.supports_ipv4 ≡ true
Supports c ipv6 = c.supports_ipv6 ≡ true
Supports c prefix4 = (c.supports_prefixes ≡ true) × (c.supports_ipv4 ≡ true)
Supports c prefix6 = (c.supports_prefixes ≡ true) × (c.supports_ipv6 ≡ true)
Supports c (other_kind t) = ⊥

supported-Supports :
    (c : TargetConstraints) (k : RuleKind) → target_supports_rule c k ≡ true → Supports c k
supported-Supports c domain_exact h = h
supported-Supports c domain_suffix h = h
supported-Supports c ipv4 h = h
supported-Supports c ipv6 h = h
supported-Supports c prefix4 h = and-true _ _ h
supported-Supports c prefix6 h = and-true _ _ h
supported-Supports c (other_kind t) h = cc

expires-After :
    (cutoff : ℕ) (o : Option ℕ)
    → is_expired cutoff o ≡ false
    → (o ≡ none) ⊎ ((t : ℕ) × (o ≡ some t) × (cutoff < t))
expires-After cutoff none h = inl refl
expires-After cutoff (some u) h = inr (u, refl, ground arith)

equal_strings_sound : (ss ts : List Text) → equal_strings ss ts ≡ true → ss ≡ ts
equal_strings_sound [] [] h = refl
equal_strings_sound [] (t ∷ ts) h = cc
equal_strings_sound (s ∷ ss) [] h = cc
equal_strings_sound (s ∷ ss) (t ∷ ts) h =
    let (e, rest) = and-true _ _ h in
    ap₂ (λ a b. a ∷ b) (text_eq_sound s t e) (equal_strings_sound ss ts rest)

canonical_strings-stable : (ss : List Text) → canonical_strings ss ≡ true → ss ≡ stable_strings ss
unfolding canonical_strings
canonical_strings-stable ss h = equal_strings_sound ss (stable_strings ss) h

-- What each rule of an accepted plan is.
pub record RuleAccepted (plan : RoutingPlan) (target : TargetDefinition) (renderer : Renderer)
    (cutoff : ℕ) (r : RouteRule) : Type 0 where
  pub valid : rule_is_valid r ≡ true
  pub routes : r.action ≡ route
  pub of_plan : In r.list_id plan.lists
  pub of_target : Supports target.constraints r.kind
  pub of_renderer : In r.kind renderer.supported_rule_kinds
  pub live : (r.expires_at ≡ none) ⊎ ((t : ℕ) × (r.expires_at ≡ some t) × (cutoff < t))
  pub labels : r.labels ≡ stable_strings r.labels
  pub reasons : r.reason_codes ≡ stable_strings r.reason_codes
  pub provenance : r.provenance_refs ≡ stable_strings r.provenance_refs

module _ (plan : RoutingPlan) (target : TargetDefinition) (renderer : Renderer) (cutoff : ℕ) where
  rule-RuleAccepted :
      (r : RouteRule)
      → check_rule plan target renderer cutoff r ≡ none
      → RuleAccepted plan target renderer cutoff r
  unfolding check_rule
  rule-RuleAccepted r h = record {
    valid = ground arith;
    routes = is_route-route r.action (ground arith);
    of_plan = In-of_any r.list_id plan.lists (ground arith);
    of_target = supported-Supports target.constraints r.kind (ground arith);
    of_renderer = In-of_any_kind r.kind renderer.supported_rule_kinds (ground arith);
    live = expires-After cutoff r.expires_at (ground arith);
    labels = canonical_strings-stable r.labels (ground arith);
    reasons = canonical_strings-stable r.reason_codes (ground arith);
    provenance = canonical_strings-stable r.provenance_refs (ground arith);
  }

  rules-RuleAccepted :
      (prior : Option Text) (seen : List Text) (rs : List RouteRule)
      → check_rules plan target renderer cutoff prior seen rs ≡ none
      → All (RuleAccepted plan target renderer cutoff) rs
  unfolding check_rules
  rules-RuleAccepted prior seen [] h = tt
  rules-RuleAccepted prior seen (r ∷ rs) h =
      let (a, bc) = first_error-none _ _ h in
      let (b, c) = first_error-none _ _ bc in
      (
        rule-RuleAccepted r a,
        rules-RuleAccepted (some (rule_sort_key r)) (candidate_key r ∷ seen) rs c,
      )

  position-after :
      (prior : Option Text) (seen : List Text) (r : RouteRule)
      → check_position plan target renderer cutoff prior seen r ≡ none
      → (after_prior prior (rule_sort_key r) ≡ true)
        × (any (text_eq (candidate_key r)) seen ≡ false)
  position-after prior seen r h = (ground arith, ground arith)

  -- The keys after a rule's are greater.
  keys_after :
      (p : Text) (seen : List Text) (rs : List RouteRule)
      → check_rules plan target renderer cutoff (some p) seen rs ≡ none
      → All (λ k. text_compare p k ≡ Ordering.lt) (map rule_sort_key rs)
  unfolding check_rules
  keys_after p seen [] h = tt
  keys_after p seen (r ∷ rs) h =
      let (a, bc) = first_error-none _ _ h in
      let (b, c) = first_error-none _ _ bc in
      let lt = after-some p (rule_sort_key r) (position-after (some p) seen r b).0 in
      let later = keys_after (rule_sort_key r) (candidate_key r ∷ seen) rs c in
      (
        lt,
        All-of_In _ (map rule_sort_key rs) (λ k i.
            text_compare-TotalOrder.trans p (rule_sort_key r) k lt
              (All-In _ k (map rule_sort_key rs) later i)),
      )

  keys-IsAscending :
      (prior : Option Text) (seen : List Text) (rs : List RouteRule)
      → check_rules plan target renderer cutoff prior seen rs ≡ none
      → IsAscending text_compare (map rule_sort_key rs)
  unfolding check_rules
  keys-IsAscending prior seen [] h = tt
  keys-IsAscending prior seen (r ∷ rs) h =
      let (a, bc) = first_error-none _ _ h in
      let (b, c) = first_error-none _ _ bc in
      (
        keys_after (rule_sort_key r) (candidate_key r ∷ seen) rs c,
        keys-IsAscending (some (rule_sort_key r)) (candidate_key r ∷ seen) rs c,
      )

  seen-absent :
      (prior : Option Text) (seen : List Text) (k : Text) (rs : List RouteRule)
      → check_rules plan target renderer cutoff prior seen rs ≡ none
      → In k seen
      → ¬ In k (map candidate_key rs)
  unfolding check_rules
  seen-absent prior seen k [] h i j = absurd j
  seen-absent prior seen k (r ∷ rs) h i j =
      let (a, bc) = first_error-none _ _ h in
      let (b, c) = first_error-none _ _ bc in
      elim j [
        | inl e ↦ cc (
          (position-after prior seen r b).1,
          any-In_intro (text_eq (candidate_key r)) k seen i
              (text_eq_complete (candidate_key r) k (sym e)),
        )
        | inr l ↦ seen-absent (some (rule_sort_key r)) (candidate_key r ∷ seen) k rs c (inr i) l
      ]

  candidates-Distinct :
      (prior : Option Text) (seen : List Text) (rs : List RouteRule)
      → check_rules plan target renderer cutoff prior seen rs ≡ none
      → Distinct (map candidate_key rs)
  unfolding check_rules
  candidates-Distinct prior seen [] h = tt
  candidates-Distinct prior seen (r ∷ rs) h =
      let (a, bc) = first_error-none _ _ h in
      let (b, c) = first_error-none _ _ bc in
      (
        seen-absent (some (rule_sort_key r)) (candidate_key r ∷ seen) (candidate_key r) rs c
            (inl refl),
        candidates-Distinct (some (rule_sort_key r)) (candidate_key r ∷ seen) rs c,
      )

coverage-complete :
    (every : List Coverage) (seen : List Text) (cs : List Coverage)
    → check_coverage every seen cs ≡ none
    → All (λ c. c.complete ≡ true) cs
unfolding check_coverage
coverage-complete every seen [] h = tt
coverage-complete every seen (c ∷ cs) h =
    elim (Bool-cases (validate_slug c.list_id && validate_slug c.component_id)) [
      | inr bad ↦ cc (rw bad at h)
      | inl good ↦ elim (Bool-cases (any (text_eq (coverage_key c)) seen)) [
        | inl dup ↦ cc (rw (good, dup) at h)
        | inr new ↦ elim (Bool-cases (is_open c)) [
          | inl gap ↦ cc (rw (good, new, gap) at h)
          | inr full ↦ (
            ground arith,
            coverage-complete every (coverage_key c ∷ seen) cs (rw (good, new, full) at h),
          )
        ]
      ]
    ]

abbrev pub WithinProjection : Bool → ℕ → Projection → Type 0
WithinProjection enforce maximum projection_failed = ⊥
WithinProjection enforce maximum projection_negative = ⊥
WithinProjection enforce maximum (projected n) = (enforce ≡ false) ⊎ (maximum ≡ 0) ⊎ (n ≤ maximum)

projection-Within :
    (enforce : Bool) (maximum : ℕ) (p : Projection)
    → check_projection enforce maximum p ≡ none
    → WithinProjection enforce maximum p
unfolding check_projection
projection-Within enforce maximum projection_failed h = cc
projection-Within enforce maximum projection_negative h = cc
projection-Within false maximum (projected n) h = inl refl
projection-Within true zero (projected n) h = inr (inl refl)
projection-Within true (suc k) (projected n) h = inr (inr (ground arith))

-- The plan, the target and the renderer name each other.
pub record Identified (plan : RoutingPlan) (target : TargetDefinition) (r : Renderer) (cutoff : ℕ)
    : Type 0 where
  pub interface : plan.interface_version ≡ routing_plan_interface_version
  pub policy : plan.policy_version ≡ policy_version
  pub target_id : plan.target_id ≡ target.id
  pub format_key : plan.format_key ≡ target.format_key
  pub observed : plan.observation_cutoff ≡ cutoff
  pub started : 0 < cutoff
  pub target_slug : validate_slug target.id ≡ true
  pub format_slug : validate_slug target.format_key ≡ true
  pub renderer_slug : validate_slug target.renderer_id ≡ true
  pub renderer_id : r.id ≡ target.renderer_id
  pub renderer_version : r.version ≡ target.format_key

eq_sound : (a b : ℕ) → (a == b) ≡ true → a ≡ b
eq_sound a b h = ground arith

ltb_sound : (a b : ℕ) → ltb a b ≡ true → a < b
ltb_sound a b h = ground arith

identity-Identified :
    (plan : RoutingPlan) (target : TargetDefinition) (r : Renderer) (cutoff : ℕ)
    → identity_holds plan target r cutoff ≡ true
    → Identified plan target r cutoff
unfolding identity_holds
identity-Identified plan target r cutoff h =
    let (h, renderer_version) = and-true _ _ h in
    let (h, renderer_id) = and-true _ _ h in
    let (h, renderer_slug) = and-true _ _ h in
    let (h, format_slug) = and-true _ _ h in
    let (h, target_slug) = and-true _ _ h in
    let (h, observed) = and-true _ _ h in
    let (h, positive) = and-true _ _ h in
    let (h, format_key) = and-true _ _ h in
    let (h, target_id) = and-true _ _ h in
    let (h, policy) = and-true _ _ h in
    let (started, interface) = and-true _ _ h in
    record {
      interface = text_eq_sound _ _ interface;
      policy = text_eq_sound _ _ policy;
      target_id = text_eq_sound _ _ target_id;
      format_key = text_eq_sound _ _ format_key;
      observed = eq_sound _ _ observed;
      started = ltb_sound 0 cutoff started;
      target_slug = target_slug;
      format_slug = format_slug;
      renderer_slug = renderer_slug;
      renderer_id = text_eq_sound _ _ renderer_id;
      renderer_version = text_eq_sound _ _ renderer_version;
    }

-- A plan as the renderer may take it.
pub record Accepted (sha256_hex : Text → Text) (digest : HashPayload → Text) (plan : RoutingPlan)
    (target : TargetDefinition) (r : Renderer) (cutoff : ℕ) (enforce : Bool) : Type 0 where
  pub identity : Identified plan target r cutoff
  pub lists : IsAscending text_compare plan.lists
  pub rules : All (RuleAccepted plan target r cutoff) plan.rules
  pub keys : IsAscending text_compare (map rule_sort_key plan.rules)
  pub candidates : Distinct (map candidate_key plan.rules)
  pub covered : All (λ c. c.complete ≡ true) plan.coverage
  pub projection :
      WithinProjection enforce target.constraints.max_rules (r.projected_rule_count plan)
  pub hash : plan.semantic_hash ≡ semantic_hash sha256_hex digest plan target

module _ (sha256_hex : Text → Text) (digest : HashPayload → Text) where
  hash-same :
      (plan : RoutingPlan) (target : TargetDefinition)
      → check_hash sha256_hex digest plan target ≡ none
      → plan.semantic_hash ≡ semantic_hash sha256_hex digest plan target
  unfolding check_hash
  hash-same plan target h =
      text_eq_sound plan.semantic_hash (semantic_hash sha256_hex digest plan target) (ground arith)

  -- A plan that passes the preflight is of the current interface and policy, names the target, its
  -- format and the cutoff, which is set, and is for a renderer whose id and version are the target's;
  -- its lists are in order; its rules are valid, route, expire after the cutoff if at all, are of its
  -- lists and of kinds that target and renderer take, with sorted and compacted metadata, in strict
  -- order and of different candidates; every coverage row is complete; the renderer projects the
  -- plan, within the target's limit where that is enforced; and its hash is its own.
  pub preflight_plan-Accepted :
      (plan : RoutingPlan) (target : TargetDefinition) (r : Renderer) (cutoff : ℕ) (enforce : Bool)
      → preflight_plan sha256_hex digest plan target (some r) cutoff enforce ≡ none
      → Accepted sha256_hex digest plan target r cutoff enforce
  unfolding preflight_plan
  preflight_plan-Accepted plan target r cutoff enforce h =
      let (a, h) = first_error-none _ _ h in
      let (b, h) = first_error-none _ _ h in
      let (c, h) = first_error-none _ _ h in
      let (d, h) = first_error-none _ _ h in
      let (e, h) = first_error-none _ _ h in
      let (f, g) = first_error-none _ _ h in
      record {
        identity = identity-Identified plan target r cutoff (true_of_not _ (error_if-none _ _ a));
        lists =
            lists_ascend-IsAscending none plan.lists
              (and-true _ _ (true_of_not _ (error_if-none _ _ b))).1;
        rules = rules-RuleAccepted plan target r cutoff none [] plan.rules d;
        keys = keys-IsAscending plan target r cutoff none [] plan.rules d;
        candidates = candidates-Distinct plan target r cutoff none [] plan.rules d;
        covered = coverage-complete plan.coverage [] plan.coverage e;
        projection =
            projection-Within enforce target.constraints.max_rules (r.projected_rule_count plan) f;
        hash = hash-same plan target g;
      }
