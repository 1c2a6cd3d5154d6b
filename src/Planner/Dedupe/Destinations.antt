-- ===== src/Planner/Dedupe/Destinations.antt =====
-- dedupeRules gives one rule for each destination, of the strongest class, with the reasons of all.
use routevane.Common.{
  ◌≡◌, ◌↔◌, refl, sym, ◌∙◌, subst, false, List, [], ◌∷◌, none, some, inl, inr, ◌⊎◌, In, All,
  All-of_In, In-keep, In-keep_intro, Bool-cases, some-injective,
}
use routevane.Common.Text.{Text}
use routevane.Common.Sort.Laws.{In-sort}
use routevane.Common.Assoc.{get, values, text_eq_sound, text_eq_complete}
use routevane.Common.Assoc.Distinct.{get-values, In-values}
use routevane.Domain.Rule.{RouteRule, candidate_key}
use routevane.Planner.Dedupe.{
  merged_with, stronger_class, add_rules, sort_rules, compare_rules, dedupe_rules,
}
use routevane.Planner.Dedupe.Merge.{has_key, merge_all, get-add_rules, add_rules-IsDistinct}
use routevane.Planner.Dedupe.Fold.{IsMerge, of_key, merged_of_key}

module _ (rules : List RouteRule) where
  In-dedupe : (q : RouteRule) → In q (dedupe_rules rules) ↔ In q (values (add_rules [] rules))
  unfolding dedupe_rules sort_rules
  In-dedupe q = In-sort compare_rules q (values (add_rules [] rules))

  In-of_key :
      (k : Text) (r : RouteRule) → In r (of_key k rules) ↔ (In r rules × (candidate_key r ≡ k))
  In-of_key k r = (
    λ h. let (i, e) = In-keep (has_key k) r rules h in (i, text_eq_sound (candidate_key r) k e),
    λ (i, e). In-keep_intro (has_key k) r rules i (text_eq_complete (candidate_key r) k e),
  )

  read_key : (k : Text) → get k (add_rules [] rules) ≡ merge_all none (of_key k rules)
  unfolding get
  read_key k = get-add_rules k [] rules

  All-of_key : (k : Text) → All (λ r. candidate_key r ≡ k) (of_key k rules)
  All-of_key k = All-of_In _ (of_key k rules) (λ r i. ((In-of_key k r).0 i).1)

  at_key :
      (k : Text) (q : RouteRule)
      → get k (add_rules [] rules) ≡ some q
      → (done : List RouteRule) × IsMerge k done q
        × ((r : RouteRule) → In r done ↔ In r (of_key k rules))
  at_key k q h = merged_of_key k (of_key k rules) q (All-of_key k) (sym (read_key k) ∙ h)

  found :
      (q : RouteRule)
      → In q (dedupe_rules rules)
      → get (candidate_key q) (add_rules [] rules) ≡ some q
  found q i =
      let (k, e) = get-values q _ (add_rules-IsDistinct rules [] tt) ((In-dedupe q).0 i) in
      let (done, m, same) = at_key k q e in
      subst (λ j. get j (add_rules [] rules) ≡ some q) (sym m.key) e

  merge_all-some :
      (q : RouteRule) (rs : List RouteRule) → (z : RouteRule) × (merge_all (some q) rs ≡ some z)
  merge_all-some q [] = (q, refl)
  merge_all-some q (r ∷ rs) = merge_all-some (merged_with (some q) r) rs

  some_of_key :
      (r : RouteRule) (rs : List RouteRule)
      → In r rs
      → (z : RouteRule) × (merge_all none rs ≡ some z)
  some_of_key r [] h = absurd h
  some_of_key r (q ∷ rs) h = merge_all-some (merged_with none q) rs

-- A rule of the destination, and one that is no stronger.
abbrev pub Same : RouteRule → RouteRule → Type 0
Same q r = candidate_key r ≡ candidate_key q

abbrev pub NotStronger : RouteRule → RouteRule → Type 0
NotStronger q r = ¬ Same q r ⊎ (stronger_class r.source_class q.source_class ≡ false)

-- A rule that dedupeRules gives has the class of a rule of its destination, none of which is
-- stronger, and its reasons are those of the rules of its destination.
pub dedupe_strongest :
    (rules : List RouteRule) (q : RouteRule)
    → In q (dedupe_rules rules)
    → ((r : RouteRule) × In r rules × Same q r × (r.source_class ≡ q.source_class))
      × All (NotStronger q) rules
      × ((t : Text)
          → In t q.reason_codes ↔ ((r : RouteRule) × In r rules × Same q r × In t r.reason_codes))
dedupe_strongest rules q i =
    let k = candidate_key q in
    let (done, m, same) = at_key rules k q (found rules q i) in
    let back : (r : RouteRule) → In r done → In r rules × Same q r =
      λ r j. (In-of_key rules k r).0 ((same r).0 j) in
    let forth : (r : RouteRule) → In r rules → Same q r → In r done =
      λ r j e. (same r).1 ((In-of_key rules k r).1 (j, e)) in
    (
      (let (r, j, e) = m.known in (r, (back r j).0, (back r j).1, e)),
      All-of_In (NotStronger q) rules (λ r j. elim (Bool-cases (has_key k r)) [
        | inl e ↦ inr (m.strongest r (forth r j (text_eq_sound (candidate_key r) k e)))
        | inr n ↦ inl (λ e. cc (n, text_eq_complete (candidate_key r) k e))
      ]),
      λ t. (
        λ h. let (r, j, there) = (m.reasons t).0 h in (r, (back r j).0, (back r j).1, there),
        λ (r, j, e, there). (m.reasons t).1 (r, forth r j e, there),
      ),
    )

-- Two rules that dedupeRules gives for one destination are the same rule.
pub dedupe_one_rule :
    (rules : List RouteRule) (q z : RouteRule)
    → In q (dedupe_rules rules)
    → In z (dedupe_rules rules)
    → candidate_key q ≡ candidate_key z
    → q ≡ z
dedupe_one_rule rules q z i j e = some-injective (
    sym (found rules q i)
    ∙ subst (λ k. get k (add_rules [] rules) ≡ some z) (sym e) (found rules z j))

-- Each rule that dedupeRules takes leaves a rule for its destination.
pub dedupe_keeps_destinations :
    (rules : List RouteRule) (r : RouteRule)
    → In r rules
    → (q : RouteRule) × In q (dedupe_rules rules) × Same q r
dedupe_keeps_destinations rules r i =
    let k = candidate_key r in
    let (z, e) = some_of_key rules r (of_key k rules) ((In-of_key rules k r).1 (i, refl)) in
    let read = read_key rules k ∙ e in
    let (done, m, same) = at_key rules k z read in
    (z, (In-dedupe rules z).1 (In-values k z (add_rules [] rules) read), sym m.key)
