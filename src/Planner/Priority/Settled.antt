-- ===== src/Planner/Priority/Settled.antt =====
-- Each rule that list priority drops is excluded with the reason.
use routevane.Common.{
  ◌+◌, ◌≡◌, refl, sym, ap, Bool, not, List, [], ◌∷◌, arith, inl, inr, ◌⊎◌, In, All, All-of_In,
  In-append_right, In-keep_intro, keep, length, length-append, ltb, Bool-cases,
}
use routevane.Common.Text.{Text}
use routevane.Domain.Rule.{RouteRule}
use routevane.Domain.Plan.{RoutingPlan, Excluded}
use routevane.Planner.Reasons.{lower_priority_overlap}
use routevane.Planner.Priority.{drops, is_dropped, exclusions, split_plan, apply_list_priority}

-- A rule of the plan is kept, or excluded for a better list.
abbrev pub IsSettled : List RouteRule → List Excluded → RouteRule → Type 0
IsSettled kept excluded r =
    In r kept
    ⊎ ((e : Excluded) × In e excluded
        × (e.candidate ≡ r)
        × (e.reason_codes ≡ lower_priority_overlap ∷ []))

In-exclusions :
    (r : RouteRule) (rs : List RouteRule)
    → In r rs
    → (e : Excluded) × In e (exclusions rs)
      × (e.candidate ≡ r)
      × (e.reason_codes ≡ lower_priority_overlap ∷ [])
In-exclusions r [] h = absurd h
In-exclusions r (q ∷ rs) (inl same) = (_, inl refl, sym same, refl)
In-exclusions r (q ∷ rs) (inr i) = let (e, j, c, why) = In-exclusions r rs i in (e, inr j, c, why)

split_IsSettled :
    (plan : RoutingPlan) (dropped : List Text) (r : RouteRule)
    → In r plan.rules
    → IsSettled (split_plan plan dropped).rules (split_plan plan dropped).excluded r
split_IsSettled plan dropped r i = elim (Bool-cases (is_dropped dropped r)) [
  | inr kept ↦ inl (In-keep_intro (λ x. not (is_dropped dropped x)) r plan.rules i (ap not kept))
  | inl gone ↦
      let (e, j, c, why) =
        In-exclusions r (keep (is_dropped dropped) plan.rules)
          (In-keep_intro (is_dropped dropped) r plan.rules i gone) in
      inr (e, In-append_right e plan.excluded _ j, c, why)
]

split_count :
    (p : RouteRule → Bool) (rs : List RouteRule)
    → length (keep (λ r. not (p r)) rs) + length (exclusions (keep p rs)) ≡ length rs
split_count p [] = omega arith
split_count p (r ∷ rs) = ground (arith, split_count p rs)

-- Each rule of a plan is kept under list priority or excluded for it, and the plan that it gives has
-- as many rules and exclusions together as before.
pub priority_settles_rules :
    (plan : RoutingPlan) (priority : List Text)
    → All
        (IsSettled
          (apply_list_priority plan priority).rules
          (apply_list_priority plan priority).excluded)
        plan.rules
      × (length (apply_list_priority plan priority).rules
            + length (apply_list_priority plan priority).excluded
          ≡ length plan.rules + length plan.excluded)
unfolding apply_list_priority
priority_settles_rules plan priority = elim (Bool-cases (ltb (length plan.rules) 2)) [
  | inl few ↦ rw few (All-of_In _ plan.rules (λ r i. inl i), refl)
  | inr many ↦ rw many (
    All-of_In _ plan.rules (split_IsSettled plan (drops priority plan.rules)),
    omega (
      arith,
      split_count (is_dropped (drops priority plan.rules)) plan.rules,
      length-append plan.excluded
          (exclusions (keep (is_dropped (drops priority plan.rules)) plan.rules)),
    ),
  )
]
