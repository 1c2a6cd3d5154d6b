-- ===== src/Planner/PlanSet/Checks.antt =====
-- When a set of lists has a plan: the required coverage and the rule limit.
use routevane.Common.{
  suc, false, ◌⊎◌, zero, All-of_In, ℕ, ◌≤◌, ◌<◌, ◌≡◌, refl, sym, subst, true, ◌&&◌, List, [], ◌∷◌,
  none, some, arith, ltb, if◌then◌else◌, Bool-cases, Option-cases, inl, inr, In, All, keep, length,
}
use routevane.Common.Text.{Text}
use routevane.Domain.Target.{TargetDefinition}
use routevane.Domain.Plan.{Coverage, RoutingPlan, stable_strings}
use routevane.Domain.Plan.Stable.{In-stable_strings}
use routevane.Planner.PlanSet.{
  SetResult, planned, refused, required_coverage, rule_limit, failed, is_incomplete,
  required_coverage_error, check_plan, lists_of,
}

keep-none : (cs : List Coverage) → keep is_incomplete cs ≡ [] → All (λ c. c.complete ≡ true) cs
keep-none [] h = tt
keep-none (c ∷ cs) h = ground (arith, keep-none cs)

keep-some :
    (cs ds : List Coverage) (ls : List Text)
    → required_coverage_error cs ≡ some (ds, ls)
    → (ds ≡ keep is_incomplete cs) × (ls ≡ stable_strings (lists_of ds)) × (0 < length ds)
unfolding required_coverage_error
keep-some cs ds ls h = ground arith

keep-nothing : (cs : List Coverage) → required_coverage_error cs ≡ none → keep is_incomplete cs ≡ []
unfolding required_coverage_error
keep-nothing cs h = ground arith

In-lists_of :
    (l : Text) (cs : List Coverage)
    → In l (lists_of cs)
    → (c : Coverage) × In c cs × (c.list_id ≡ l)
In-lists_of l [] h = absurd h
In-lists_of l (c ∷ cs) (inl e) = (c, inl refl, sym e)
In-lists_of l (c ∷ cs) (inr h) = let (d, i, e) = In-lists_of l cs h in (d, inr i, e)

abbrev pub WithinLimit : TargetDefinition → RoutingPlan → Type 0
WithinLimit target plan =
    (target.constraints.max_rules ≡ 0) ⊎ (length plan.rules ≤ target.constraints.max_rules)

within_bound : (n k : ℕ) → (ltb 0 n && ltb n k) ≡ false → (n ≡ 0) ⊎ (k ≤ n)
within_bound zero k h = inl refl
within_bound (suc n) k h = inr (ground arith)

-- What each answer says of the plan.
abbrev pub Checked : TargetDefinition → RoutingPlan → SetResult → Type 0
Checked target p (planned q) =
    (q ≡ p) × All (λ c. c.complete ≡ true) p.coverage × WithinLimit target p
Checked target p (refused (failed e)) = ⊥
Checked target p (refused (required_coverage q cs ls)) =
    (q ≡ p)
    × (cs ≡ keep is_incomplete p.coverage)
    × (0 < length cs)
    × All (λ l. (c : Coverage) × In c cs × (c.list_id ≡ l)) ls
Checked target p (refused (rule_limit q)) =
    (q.rules ≡ p.rules)
    × All (λ c. c.complete ≡ true) p.coverage
    × (0 < target.constraints.max_rules)
    × (target.constraints.max_rules < length p.rules)

check_limit :
    (target : TargetDefinition) (p q : RoutingPlan)
    → q.rules ≡ p.rules
    → All (λ c. c.complete ≡ true) p.coverage
    → Checked target p (
        if ltb 0 target.constraints.max_rules && ltb target.constraints.max_rules (length p.rules)
        then refused (rule_limit q)
        else planned p)
check_limit target p q same done =
    elim (Bool-cases
      (ltb 0 target.constraints.max_rules && ltb target.constraints.max_rules (length p.rules))) [
        | inl over ↦ rw over (same, done, ground arith, ground arith)
        | inr fits ↦
            rw fits (refl, done, within_bound target.constraints.max_rules (length p.rules) fits)
      ]

check_some :
    (target : TargetDefinition) (p : RoutingPlan) (cs : List Coverage) (ls : List Text)
    → required_coverage_error p.coverage ≡ some (cs, ls)
    → Checked target p (refused (required_coverage p cs ls))
check_some target p cs ls e =
    let (same, names, some_missing) = keep-some p.coverage cs ls e in
    (
      refl,
      same,
      some_missing,
      All-of_In _ ls
          (λ l i. In-lists_of l cs ((In-stable_strings l (lists_of cs)).0 (subst (In l) names i))),
    )

-- A plan is given only with all components covered and the rule limit kept; a refusal for coverage
-- names the uncovered components, of which each list it names has one; a refusal for the limit
-- leaves the rules as they are, with all components covered and more rules than the limit.
pub check_plan-Checked :
    (target : TargetDefinition) (p : RoutingPlan) → Checked target p (check_plan target p)
unfolding check_plan
check_plan-Checked target p = elim (Option-cases (required_coverage_error p.coverage)) [
  | inl e ↦
      rw (e, check_plan)
        (check_limit target p _ refl (keep-none p.coverage (keep-nothing p.coverage e)))
  | inr ((cs, ls), e) ↦ rw (e, check_plan) (check_some target p cs ls e)
]
