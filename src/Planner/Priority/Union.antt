-- ===== src/Planner/Priority/Union.antt =====
-- List priority changes who owns a destination, and drops no destination.
use routevane.Common.{
  ℕ, zero, suc, ◌≤◌, ◌<◌, ◌≡◌, sym, ap, ◌∙◌, subst, Bool, true, false, not, List, [], ◌∷◌, arith,
  inl, inr, In, In-keep_intro, keep, length, ltb, Bool-cases, map,
}
use routevane.Common.Text.{Text}
use routevane.Domain.Rule.{RouteRule, rule_is_valid}
use routevane.Domain.Plan.{RoutingPlan}
use routevane.Planner.Overlaps.{rule_key}
use routevane.Planner.Overlaps.Around.{Covers, parents-Covers}
use routevane.Planner.Priority.{better, drops, is_dropped, apply_list_priority}
use routevane.Planner.Priority.Order.{better_trans, better_irrefl}
use routevane.Planner.Priority.Drops.{IsOutranked, dropped-IsOutranked}

-- The destination of a valid rule is covered by itself, by the suffix rule for its name or for a name
-- above, by a network that contains all that it routes, and by what covers one of these.
pub data Covering : Text → Text → Type 0 where
  itself : (k : Text) → Covering k k
  above :
      (r : RouteRule) (p k : Text)
      → rule_is_valid r ≡ true
      → Covers r p
      → Covering p k
      → Covering (rule_key r) k

keep_le :
    {A : Type 0} (p q : A → Bool) (xs : List A)
    → ((x : A) → p x ≡ true → q x ≡ true)
    → length (keep p xs) ≤ length (keep q xs)
keep_le p q [] f = omega arith
keep_le p q (x ∷ xs) f = ground (arith, keep_le p q xs f, f x)

keep_lt :
    {A : Type 0} (p q : A → Bool) (a : A) (xs : List A)
    → ((x : A) → p x ≡ true → q x ≡ true)
    → In a xs
    → p a ≡ false
    → q a ≡ true
    → length (keep p xs) < length (keep q xs)
keep_lt p q a [] f i hp hq = absurd i
keep_lt p q a (x ∷ xs) f (inl e) hp hq =
    let px : p x ≡ false = ap p (sym e) ∙ hp in
    let qx : q x ≡ true = ap q (sym e) ∙ hq in ground (arith, keep_le p q xs f, px, qx)
keep_lt p q a (x ∷ xs) f (inr i) hp hq = ground (arith, keep_lt p q a xs f i hp hq, f x)

abbrev owners : List RouteRule → List Text
owners rules = map (λ r. r.list_id) rules

In-owners : (r : RouteRule) (rules : List RouteRule) → In r rules → In r.list_id (owners rules)
In-owners r [] h = absurd h
In-owners r (q ∷ rules) (inl e) = inl (ap (λ (x : RouteRule). x.list_id) e)
In-owners r (q ∷ rules) (inr i) = inr (In-owners r rules i)

module _ (rules : List RouteRule) (priority : List Text) where
  -- How many lists of the plan are better.
  abbrev above_count : Text → ℕ
  above_count o = length (keep (λ p. better priority p o) (owners rules))

  above_count_less :
      (c o : Text)
      → In c (owners rules)
      → better priority c o ≡ true
      → above_count c < above_count o
  above_count_less c o i b =
      keep_lt (λ p. better priority p c) (λ p. better priority p o) c (owners rules)
        (λ p h. better_trans priority p c o h b) i (better_irrefl priority c) b

  -- What covers a rule and is kept.
  abbrev pub Kept : RouteRule → RouteRule → Type 0
  Kept r q =
      In q rules
      × (is_dropped (drops priority rules) q ≡ false)
      × (rule_is_valid q ≡ true)
      × Covering (rule_key r) (rule_key q)
      × (better priority r.list_id q.list_id ≡ false)

  Covering-step :
      (key owner j : Text) (o : IsOutranked rules priority key owner)
      → Covering o.place j
      → Covering key j
  Covering-step key owner j o c = elim o.reached [
    | inl same ↦ subst (λ k. Covering k j) same c
    | inr (r, e, v, i) ↦
        subst (λ k. Covering k j) e (above r o.place j v (parents-Covers r _ o.place v i) c)
  ]

  Kept-step :
      (r c q : RouteRule) (o : IsOutranked rules priority (rule_key r) r.list_id)
      → rule_key c ≡ o.place
      → c.list_id ≡ o.by
      → Kept c q
      → Kept r q
  Kept-step r c q o place owner (i, d, v, covering, least) = (
    i,
    d,
    v,
    Covering-step (rule_key r) r.list_id (rule_key q) o
        (subst (λ k. Covering k (rule_key q)) place covering),
    ground (
      arith,
      better_trans priority o.by r.list_id q.list_id o.is_better,
      subst (λ l. better priority l q.list_id ≡ false) owner least,
    ),
  )

  Kept-from :
      (n : ℕ) (r : RouteRule)
      → above_count r.list_id < n
      → In r rules
      → rule_is_valid r ≡ true
      → (q : RouteRule) × Kept r q
  Kept-from zero r h i v = absurd (omega arith)
  Kept-from (suc n) r h i v = elim (Bool-cases (is_dropped (drops priority rules) r)) [
    | inr kept ↦ (r, (i, kept, v, itself (rule_key r), better_irrefl priority r.list_id))
    | inl gone ↦
        let o = dropped-IsOutranked rules priority r v gone in
        let c = o.has_rule in
        let fewer =
          above_count_less c.rule.list_id r.list_id (In-owners c.rule rules c.present)
            (subst (λ l. better priority l r.list_id ≡ true) (sym c.owner) o.is_better) in
        let (q, k) = Kept-from n c.rule (omega arith) c.present c.valid in
        (q, Kept-step r c.rule q o c.same_key c.owner k)
  ]

-- The rule of a destination that the plan keeps: valid, in a list no worse, and for this destination
-- or for one that covers it.
abbrev pub RoutedBy : List Text → RouteRule → RouteRule → Type 0
RoutedBy priority r q =
    (rule_is_valid q ≡ true)
    × Covering (rule_key r) (rule_key q)
    × (better priority r.list_id q.list_id ≡ false)

-- Each valid rule of a plan leaves a rule in the plan that list priority gives: a valid one, in a
-- list no worse, for its destination or for one that covers it. A name is covered by the suffix rule for
-- itself or for a name that ends it after a dot, an address or a network by a network that contains each
-- address without a zone that its rule routes, and each of them by what covers what covers it.
pub priority_keeps_destinations :
    (plan : RoutingPlan) (priority : List Text) (r : RouteRule)
    → In r plan.rules
    → rule_is_valid r ≡ true
    → (q : RouteRule) × In q (apply_list_priority plan priority).rules × RoutedBy priority r q
unfolding apply_list_priority
priority_keeps_destinations plan priority r i v = elim (Bool-cases (ltb (length plan.rules) 2)) [
  | inl few ↦ (r, rw few i, (v, itself (rule_key r), better_irrefl priority r.list_id))
  | inr many ↦
      let (q, (there, kept, valid, covering, least)) =
        Kept-from plan.rules priority (suc (above_count plan.rules priority r.list_id)) r
          (omega arith) i v in
      (
        q,
        rw many (
            In-keep_intro (λ x. not (is_dropped (drops priority plan.rules) x)) q plan.rules there
              (ap not kept)),
        (valid, covering, least),
      )
]
