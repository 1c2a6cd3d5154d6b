-- ===== src/Planner/PlanSet/Covered.antt =====
-- The required components of the lists of a set that is planned have rules.
use routevane.Common.{
  ℕ, ◌<◌, ◌≡◌, ◌≢◌, refl, sym, ap, ◌∙◌, subst, Bool, true, false, ◌||◌, List, [], ◌∷◌, ◌++◌, none,
  some, arith, ltb, ◌==◌, if◌then◌else◌, Bool-cases, Option-cases, inl, inr, In, All, All-In,
  All-of_In, In-append_left, In-append_right, In-keep, In-map_intro, and-true, keep, length, map,
}
use routevane.Common.Text.{Text, text_eq, text_compare}
use routevane.Common.Sort.{sort_by}
use routevane.Common.Sort.Laws.{In-sort}
use routevane.Common.Assoc.{Map, get, put, get-put, keys, text_eq_sound, text_eq_complete}
use routevane.Common.Assoc.Distinct.{In-keys}
use routevane.Domain.Result.{Error, Result, ok, err, bind-eq-ok, ok-injective}
use routevane.Domain.Target.{TargetDefinition}
use routevane.Domain.Rule.{RouteRule}
use routevane.Domain.Catalog.{ComponentDefinition}
use routevane.Domain.Plan.{Coverage, RoutingPlan}
use routevane.Planner.Externals.{Externals}
use routevane.Planner.Dedupe.{sort_rules, compare_rules}
use routevane.Planner.Canonical.{
  HashPayload, by_key, canonicalize_plan, stable_rule, compare_coverage,
}
use routevane.Planner.Build.Judge.{Options}
use routevane.Planner.Build.Summary.{
  serves, count_rules, coverage_of, coverage_rows, build_coverage,
}
use routevane.Planner.Build.{
  ListInput, finish_plan, build_plan, component_map, draft_plan, is_empty, no_entries,
}
use routevane.Planner.PlanSet.{
  SetResult, SetError, planned, refused, failed, build_plan_set, check_combined, check_identities,
  combine, combine_lists, input_id, unbounded, empty_plan, first_revision,
}
use routevane.Planner.PlanSet.Checks.{Checked, WithinLimit, check_plan-Checked}

-- The definition of a list requires a component: its last component of this id, which is not empty, is
-- required.
pub record Requires (components : List ComponentDefinition) (id : Text) : Type 0 where
  pub before : List ComponentDefinition
  pub component : ComponentDefinition
  pub after : List ComponentDefinition
  pub parts : components ≡ before ++ component ∷ after
  pub named : component.id ≡ id
  pub not_empty : id ≢ []
  pub required : component.required ≡ true
  pub last : (d : ComponentDefinition) → In d after → d.id ≢ id

abbrev pub HasRuleFor : List RouteRule → Text → Text → Type 0
HasRuleFor rules list_id component_id =
    (r : RouteRule) × In r rules × (r.list_id ≡ list_id) × (r.component_id ≡ component_id)

get-put_same : {V : Type 0} (k j : Text) (v : V) (m : Map V) → k ≡ j → get j (put k v m) ≡ some v
get-put_same k j v m e = get-put j k v m ∙ rw (text_eq_complete k j e) refl

get-put_other : {V : Type 0} (k j : Text) (v : V) (m : Map V) → k ≢ j → get j (put k v m) ≡ get j m
get-put_other k j v m n = elim (Bool-cases (text_eq k j)) [
  | inl same ↦ absurd (n (text_eq_sound k j same))
  | inr other ↦ get-put j k v m ∙ rw other refl
]

refused-ne-planned : (e : SetError) (q : RoutingPlan) → refused e ≡ planned q → ⊥
refused-ne-planned e q h = cc

-- A component that comes after leaves the one of another id.
component_map-keeps :
    (cs : List ComponentDefinition) (m : Map ComponentDefinition) (id : Text)
    (c : ComponentDefinition)
    → ((d : ComponentDefinition) → In d cs → d.id ≢ id)
    → get id m ≡ some c
    → get id (component_map cs m) ≡ some c
unfolding component_map
component_map-keeps [] m id c f e = e
component_map-keeps (d ∷ cs) m id c f e =
    component_map-keeps cs _ id c (λ k i. f k (inr i)) (of_id d.id)
  where
    of_id : (t : Text) → get id (elim t [ [] ↦ m | _ ↦ put d.id d m ]) ≡ some c
    of_id [] = e
    of_id (b ∷ s) = get-put_other d.id id d m (f d (inl refl)) ∙ e

component_map-last :
    (before after : List ComponentDefinition) (m : Map ComponentDefinition) (id : Text)
    (c : ComponentDefinition)
    → c.id ≡ id
    → id ≢ []
    → ((d : ComponentDefinition) → In d after → d.id ≢ id)
    → get id (component_map (before ++ c ∷ after) m) ≡ some c
unfolding component_map
component_map-last (d ∷ before) after m id c e n f = component_map-last before after _ id c e n f
component_map-last [] after m id c e n f = component_map-keeps after _ id c f (of_id c.id refl)
  where
    of_id : (t : Text) → c.id ≡ t → get id (elim t [ [] ↦ m | _ ↦ put c.id c m ]) ≡ some c
    of_id [] same = absurd (n (sym e ∙ same))
    of_id (b ∷ s) same = get-put_same c.id id c m e

-- So a required component is in the map of a list.
required-get :
    (components : List ComponentDefinition) (id : Text) (r : Requires components id)
    → get id (component_map components []) ≡ some r.component
required-get components id r =
    ap (λ cs. get id (component_map cs [])) r.parts
    ∙ component_map-last r.before r.after [] id r.component r.named r.not_empty r.last

In-coverage_rows :
    (rules : List RouteRule) (components : Map ComponentDefinition) (list_id id : Text)
    (ids : List Text)
    → In id ids
    → In (coverage_of rules components list_id id) (coverage_rows rules components list_id ids)
unfolding coverage_rows
In-coverage_rows rules components list_id id [] i = absurd i
In-coverage_rows rules components list_id id (j ∷ ids) (inl e) =
    inl (ap (coverage_of rules components list_id) e)
In-coverage_rows rules components list_id id (j ∷ ids) (inr i) =
    inr (In-coverage_rows rules components list_id id ids i)

-- A list that has no element of a kind is not counted.
counted-In :
    (rules : List RouteRule) (list_id id : Text)
    → 0 < count_rules rules list_id id
    → HasRuleFor rules list_id id
unfolding count_rules
counted-In rules list_id id h = of_kept (keep (serves list_id id) rules) refl h
  where
    of_kept :
        (kept : List RouteRule)
        → keep (serves list_id id) rules ≡ kept
        → 0 < length kept
        → HasRuleFor rules list_id id
    of_kept [] e p = absurd (omega (arith, p))
    of_kept (r ∷ kept) e p =
        let (i, t) = In-keep (serves list_id id) r rules (subst (In r) (sym e) (inl refl)) in
        let (a, b) = and-true _ _ t in
        (r, i, text_eq_sound r.list_id list_id a, text_eq_sound r.component_id id b)

-- The row of a required component is complete only where a rule serves it.
complete-HasRule :
    (rules : List RouteRule) (components : Map ComponentDefinition) (list_id id : Text)
    (c : ComponentDefinition)
    → get id components ≡ some c
    → c.required ≡ true
    → (coverage_of rules components list_id id).complete ≡ true
    → HasRuleFor rules list_id id
unfolding coverage_of
complete-HasRule rules components list_id id c e r h =
    counted-In rules list_id id (positive (count_rules rules list_id id) (rw (e, r) at h))
  where
    positive : (n : ℕ) → (ltb 0 n || false) ≡ true → 0 < n
    positive n p = ground arith

sorted-HasRule :
    (rules : List RouteRule) (list_id id : Text)
    → HasRuleFor rules list_id id
    → HasRuleFor (sort_rules (map stable_rule rules)) list_id id
unfolding sort_rules
sorted-HasRule rules list_id id (r, i, a, b) = (
  stable_rule r,
  (In-sort compare_rules (stable_rule r) (map stable_rule rules)).1
      (In-map_intro stable_rule r rules i),
  a,
  b,
)

past_errors :
    {V : Type 0} {v : V} (a b c d : Bool) (e f g k : Error) (r : V)
    → (if a then err e else if b then err f else if c then err g else if d then err k else ok r)
      ≡ ok v
    → r ≡ v
past_errors true b c d e f g k r h = cc
past_errors false true c d e f g k r h = cc
past_errors false false true d e f g k r h = cc
past_errors false false false true e f g k r h = cc
past_errors false false false false e f g k r h = ok-injective h

-- The rules and the rows of each part are in the whole.
abbrev Contains : RoutingPlan → RoutingPlan → Type 0
Contains c p =
    ((r : RouteRule) → In r p.rules → In r c.rules)
    × ((k : Coverage) → In k p.coverage → In k c.coverage)

module _ (x : Externals) (digest : HashPayload → Text) where
  finish-HasRule :
      (target : TargetDefinition) (p : RoutingPlan) (list_id id : Text)
      → HasRuleFor p.rules list_id id
      → HasRuleFor (finish_plan x digest target p).rules list_id id
  unfolding finish_plan canonicalize_plan
  finish-HasRule target p list_id id h = sorted-HasRule p.rules list_id id h

  finish-row :
      (target : TargetDefinition) (p : RoutingPlan) (c : Coverage)
      → In c p.coverage
      → In c (finish_plan x digest target p).coverage
  unfolding finish_plan canonicalize_plan
  finish-row target p c i = (In-sort compare_coverage c p.coverage).1 i

  -- Where the rows of the plan of a list are complete, its required components have rules.
  list-Covered :
      (i : ListInput) (target : TargetDefinition) (cutoff : ℕ) (options : Options) (p : RoutingPlan)
      (id : Text)
      → build_plan x digest i target cutoff true options ≡ ok p
      → All (λ c. c.complete ≡ true) p.coverage
      → Requires i.definition.components id
      → HasRuleFor p.rules i.definition.id id
  unfolding build_plan draft_plan build_coverage
  list-Covered i target cutoff options p id h done r =
      let d = draft_plan x i target cutoff true options in
      let components = component_map i.definition.components [] in
      let same : finish_plan x digest target d ≡ p =
        past_errors (is_empty i.definition.id) (is_empty target.id) (cutoff == 0)
          (no_entries components) _ _ _ _ _ h in
      let present = required-get i.definition.components id r in
      let row = coverage_of d.rules components i.definition.id id in
      subst (λ q. HasRuleFor q.rules i.definition.id id) same
        (finish-HasRule target d i.definition.id id (
          complete-HasRule d.rules components i.definition.id id r.component present r.required (
            All-In _ row p.coverage done (
              subst (λ q. In row q.coverage) same
                (finish-row target d row (
                  In-coverage_rows d.rules components i.definition.id id _ (
                    (In-sort text_compare id (keys components)).1
                      (In-keys id r.component components present))))))))

  combine-Contains :
      (c p : RoutingPlan) (id : Text) → Contains (combine c id p) c × Contains (combine c id p) p
  unfolding combine
  combine-Contains c p id = (
    (λ r i. In-append_left r c.rules p.rules i, λ k i. In-append_left k c.coverage p.coverage i),
    (λ r i. In-append_right r c.rules p.rules i, λ k i. In-append_right k c.coverage p.coverage i),
  )

  part_of_part : (a b c : RoutingPlan) → Contains a b → Contains b c → Contains a c
  part_of_part a b c (f, g) (h, k) = (λ r i. f r (h r i), λ r i. g r (k r i))

  module _ (target : TargetDefinition) (cutoff : ℕ) (options : Options) where
    -- The plan of one list of the set, within the whole.
    abbrev PartOf : RoutingPlan → ListInput → Type 0
    PartOf c i =
        (p : RoutingPlan) × (build_plan x digest i (unbounded target) cutoff true options ≡ ok p)
        × Contains c p

    combine_lists-PartOf :
        (inputs : List ListInput) (before c : RoutingPlan)
        → combine_lists x digest target cutoff options inputs before ≡ ok c
        → Contains c before × All (PartOf c) inputs
    unfolding combine_lists
    combine_lists-PartOf [] before c h =
        (subst (λ q. Contains q before) (ok-injective h) (λ r i. i, λ k i. i), tt)
    combine_lists-PartOf (i ∷ inputs) before c h =
        let (p, built, h) =
          bind-eq-ok (build_plan x digest i (unbounded target) cutoff true options) _ h in
        let next = combine before (input_id i) p in
        let (whole, parts) = combine_lists-PartOf inputs next c h in
        let (old, new) = combine-Contains before p (input_id i) in
        (part_of_part c next before whole old, ((p, built, part_of_part c next p whole new), parts))

    part-HasRule :
        (c q : RoutingPlan) (i : ListInput) (id : Text)
        → finish_plan x digest target c ≡ q
        → All (λ k. k.complete ≡ true) q.coverage
        → PartOf c i
        → Requires i.definition.components id
        → HasRuleFor q.rules i.definition.id id
    part-HasRule c q i id same done (p, built, (rules, rows)) r =
        let complete = All-of_In _ p.coverage (λ k j.
          All-In _ k q.coverage done
            (subst (λ t. In k t.coverage) same (finish-row target c k (rows k j)))) in
        let (rule, j, a, b) =
          list-Covered i (unbounded target) cutoff options p id built complete r in
        subst (λ t. HasRuleFor t.rules i.definition.id id) same
          (finish-HasRule target c i.definition.id id (rule, rules rule j, a, b))

    given_plan :
        (p q : RoutingPlan) (r : SetResult)
        → Checked target p r
        → r ≡ planned q
        → (p ≡ q) × All (λ c. c.complete ≡ true) q.coverage × WithinLimit target q
    given_plan p q (refused why) h e = cc
    given_plan p q (planned t) (same, done, fits) e =
        let back : p ≡ q = sym same ∙ planned-injective e in
        (
          back,
          subst (λ k. All (λ c. c.complete ≡ true) k.coverage) back done,
          subst (WithinLimit target) back fits,
        )
      where
        planned-injective : planned t ≡ planned q → t ≡ q
        planned-injective h = cc

    combined-Covered :
        (inputs : List ListInput) (before q : RoutingPlan) (m : Result RoutingPlan) (i : ListInput)
        (id : Text)
        → combine_lists x digest target cutoff options inputs before ≡ m
        → check_combined x digest target m ≡ planned q
        → In i inputs
        → Requires i.definition.components id
        → HasRuleFor q.rules i.definition.id id × WithinLimit target q
    combined-Covered inputs before q (err e) i id h k j r = cc
    combined-Covered inputs before q (ok c) i id h k j r =
        let (same, done, fits) =
          given_plan (finish_plan x digest target c) q _ (check_plan-Checked target _) k in
        let parts = (combine_lists-PartOf inputs before c h).1 in
        (part-HasRule c q i id same done (All-In _ i inputs parts j) r, fits)

    -- In every plan that a set of lists is given, each component that the definition of one of the
    -- lists requires has a rule of this list and component, and the rule limit is kept.
    pub build_plan_set-Covered :
        (inputs : List ListInput) (q : RoutingPlan) (i : ListInput) (id : Text)
        → build_plan_set x digest inputs target cutoff options ≡ planned q
        → In i inputs
        → Requires i.definition.components id
        → HasRuleFor q.rules i.definition.id id × WithinLimit target q
    unfolding build_plan_set
    build_plan_set-Covered [] q i id h j r = absurd j
    build_plan_set-Covered (l ∷ ls) q i id h j r =
        let ordered = sort_by (by_key input_id) (l ∷ ls) in
        elim (Option-cases (check_identities none ordered)) [
          | inr (why, e) ↦ absurd (refused-ne-planned (failed why) q (rw (e, build_plan_set) at h))
          | inl e ↦
              combined-Covered ordered (empty_plan target (first_revision ordered) cutoff) q _ i id
                refl (rw (e, build_plan_set) at h) ((In-sort (by_key input_id) i (l ∷ ls)).1 j) r
        ]
