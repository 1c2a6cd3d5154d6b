-- ===== src/Planner/Build/Account.antt =====
-- Nothing is dropped silently: every sighting of the list is accepted or excluded with a reason, and
-- so is every rule over the limit.
use routevane.Common.{
  All, All-of_In, zero, ℕ, suc, ◌+◌, ◌≤◌, ◌≡◌, refl, sym, ap, subst, false, ◌&&◌, not, List, [],
  ◌∷◌, arith, ltb, if◌then◌else◌, Bool-cases, inl, inr, ◌⊎◌, In, length, length-append, length-take,
  take, drop, take-append-drop, keep, In-append,
}
use routevane.Common.Text.{Text}
use routevane.Common.Sort.Laws.{In-sort, length-sort}
use routevane.Domain.Result.{Result, ok, err}
use routevane.Domain.Rule.{RouteRule}
use routevane.Domain.Observation.{Sighting}
use routevane.Domain.Plan.{Excluded}
use routevane.Planner.Externals.{Externals}
use routevane.Planner.Reasons.{rule_limit_exceeded}
use routevane.Planner.Dedupe.{sort_rules, compare_rules}
use routevane.Planner.Candidates.{sighting_rule}
use routevane.Planner.Build.Judge.{
  Policy, Verdict, accept, exclude, skip, judge_value, judge_candidate, judge_sighting, is_foreign,
  degraded_rule,
}
use routevane.Planner.Build.{Intake, record_verdict, admit_sightings, limit_rules, limit_exclusions}

abbrev counted : Verdict → ℕ
counted skip = 0
counted _ = 1

counted-judge_value :
    (p : Policy) (names : List Text) (s : Sighting) (c : RouteRule)
    → counted (judge_value p names s c) ≡ 1
unfolding judge_value
counted-judge_value p names s c = ground arith

counted-judge_candidate :
    (p : Policy) (names : List Text) (s : Sighting) (c : RouteRule)
    → counted (judge_candidate p names s c) ≡ 1
unfolding judge_candidate
counted-judge_candidate p names s c = ground (
  arith,
  counted-judge_value p names s c,
  counted-judge_value p names s (degraded_rule p.grace s c),
)

result_counted :
    (m : Result RouteRule) (f : RouteRule → Verdict) (e : Excluded)
    → ((c : RouteRule) → counted (f c) ≡ 1)
    → counted (elim m [ err _ ↦ exclude e | ok c ↦ f c ]) ≡ 1
result_counted (ok c) f e h = h c
result_counted (err d) f e h = refl

-- How many sightings belong to the list.
abbrev pub own_sightings : Policy → List Sighting → ℕ
own_sightings p ss = length (keep (λ s. not (is_foreign p s)) ss)

record_verdict_count :
    (i : Intake) (v : Verdict)
    → length (record_verdict i v).accepted + length (record_verdict i v).excluded
      ≡ length i.accepted + length i.excluded + counted v
unfolding record_verdict
record_verdict_count i (accept r) = omega (arith, length-append {0} i.accepted (r ∷ []))
record_verdict_count i (exclude e) = omega (arith, length-append {0} i.excluded (e ∷ []))
record_verdict_count i skip = omega arith

module _ (x : Externals) where
  counted-judge_sighting :
      (p : Policy) (names : List Text) (s : Sighting)
      → counted (judge_sighting x p names s) ≡ (if is_foreign p s then 0 else 1)
  unfolding judge_sighting
  counted-judge_sighting p names s = elim (Bool-cases (is_foreign p s)) [
    | inl foreign ↦ rw foreign refl
    | inr own ↦ rw own (
        result_counted (sighting_rule x s p.list_id p.components) (judge_candidate p names s) _
          (counted-judge_candidate p names s))
  ]

  -- The loop makes of each sighting of the list one accepted rule or one exclusion, and of a
  -- sighting of another list neither.
  pub sightings_accounted :
      (p : Policy) (ss : List Sighting) (i : Intake)
      → length (admit_sightings x p ss i).accepted + length (admit_sightings x p ss i).excluded
        ≡ length i.accepted + length i.excluded + own_sightings p ss
  unfolding admit_sightings
  sightings_accounted p [] i = omega arith
  sightings_accounted p (s ∷ ss) i =
      let v = judge_sighting x p i.sufficient s in
      ground (
        arith,
        sightings_accounted p ss (record_verdict i v),
        record_verdict_count i v,
        counted-judge_sighting p i.sufficient s,
      )

length-limit_exclusions : (rs : List RouteRule) → length (limit_exclusions rs) ≡ length rs
unfolding limit_exclusions
length-limit_exclusions [] = refl
length-limit_exclusions (r ∷ rs) = ap suc (length-limit_exclusions rs)

In-limit_exclusions :
    (r : RouteRule) (rs : List RouteRule)
    → In r rs
    → (e : Excluded) × In e (limit_exclusions rs)
      × (e.candidate ≡ r)
      × (e.reason_codes ≡ rule_limit_exceeded ∷ [])
unfolding limit_exclusions
In-limit_exclusions r [] h = absurd h
In-limit_exclusions r (q ∷ rs) (inl same) = (_, inl refl, sym same, refl)
In-limit_exclusions r (q ∷ rs) (inr h) =
    let (e, i, c, why) = In-limit_exclusions r rs h in (e, inr i, c, why)

-- A rule is kept, or excluded for the limit.
abbrev pub IsPlaced : List RouteRule → List Excluded → RouteRule → Type 0
IsPlaced kept over r =
    In r kept
    ⊎ ((e : Excluded) × In e over × (e.candidate ≡ r) × (e.reason_codes ≡ rule_limit_exceeded ∷ []))

-- What a rule limit gives: no more rules than it allows, and each other one excluded for it.
abbrev pub Limited : ℕ → List RouteRule → List RouteRule × List Excluded → Type 0
Limited n rules (kept, over) =
    ((n ≡ 0) ⊎ (length kept ≤ n))
    × (length kept + length over ≡ length rules)
    × All (IsPlaced kept over) rules

cut_Limited :
    (n : ℕ) (rules sorted : List RouteRule)
    → length sorted ≡ length rules
    → ((r : RouteRule) → In r rules → In r sorted)
    → Limited n rules (take n sorted, limit_exclusions (drop n sorted))
cut_Limited n rules sorted same among = (
  inr (omega (arith, length-take n sorted)),
  omega (
    arith,
    length-limit_exclusions (drop n sorted),
    length-append (take n sorted) (drop n sorted),
    ap length (take-append-drop n sorted),
    same,
  ),
  All-of_In _ rules (λ r h.
      elim (In-append r (take n sorted) (drop n sorted)
        (subst (In r) (sym (take-append-drop n sorted)) (among r h))) [
          | inl kept ↦ inl kept
          | inr over ↦ inr (In-limit_exclusions r (drop n sorted) over)
        ]),
)

within_bound : (n k : ℕ) → (ltb 0 n && ltb n k) ≡ false → (n ≡ 0) ⊎ (k ≤ n)
within_bound zero k h = inl refl
within_bound (suc n) k h = inr (ground arith)

whole_Limited :
    (n : ℕ) (rules : List RouteRule)
    → (ltb 0 n && ltb n (length rules)) ≡ false
    → Limited n rules (rules, [])
whole_Limited n rules h =
    (within_bound n (length rules) h, omega arith, All-of_In _ rules (λ r i. inl i))

-- A rule limit other than 0 is kept, and each rule is in the plan or is excluded for the limit.
pub limit_rules-Limited : (n : ℕ) (rules : List RouteRule) → Limited n rules (limit_rules n rules)
unfolding limit_rules sort_rules
limit_rules-Limited n rules = elim (Bool-cases (ltb 0 n && ltb n (length rules))) [
  | inl over ↦ rw over (
      cut_Limited n rules (sort_rules rules) (length-sort compare_rules rules)
        (λ r. (In-sort compare_rules r rules).1))
  | inr fits ↦ rw fits (whole_Limited n rules fits)
]
