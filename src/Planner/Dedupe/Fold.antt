-- ===== src/Planner/Dedupe/Fold.antt =====
-- What the merge of the rules with one key is: the strongest class, and the reasons of all.
use routevane.Common.{
  ◌≡◌, ◌↔◌, refl, sym, ap, ◌∙◌, subst, false, List, [], ◌∷◌, ◌++◌, none, some, arith, inl, inr, ◌⊎◌,
  In, All, In-append, In-append_left, In-append_right, keep, Bool-cases, some-injective,
}
use routevane.Common.Text.{Text}
use routevane.Domain.Rule.{RouteRule, candidate_key}
use routevane.Domain.Plan.Stable.{In-stable_strings}
use routevane.Planner.Dedupe.{merge_rule, first_rule, stronger_class}
use routevane.Planner.Dedupe.Classes.{
  stronger_of, no_stronger_before, no_stronger_new, stronger_irrefl,
}
use routevane.Planner.Dedupe.Merge.{has_key, merge_all, key-merge, key-first}

-- What a merge of rules with one key gives.
pub record IsMerge (k : Text) (rs : List RouteRule) (q : RouteRule) : Type 0 where
  pub key : candidate_key q ≡ k
  pub known : (r : RouteRule) × In r rs × (r.source_class ≡ q.source_class)
  pub strongest : (r : RouteRule) → In r rs → stronger_class r.source_class q.source_class ≡ false
  pub reasons : (t : Text) → In t q.reason_codes ↔ ((r : RouteRule) × In r rs × In t r.reason_codes)

first_rule-IsMerge :
    (k : Text) (r : RouteRule) → candidate_key r ≡ k → IsMerge k (r ∷ []) (first_rule r)
first_rule-IsMerge k r e = record {
  key = key-first r ∙ e;
  known = (r, inl refl, refl);
  strongest = λ s i. elim i [
    | inl same ↦
        subst (λ c. stronger_class c r.source_class ≡ false)
          (ap (λ (x : RouteRule). x.source_class) (sym same)) (stronger_irrefl r.source_class)
    | inr n ↦ absurd n
  ];
  reasons = λ t. (
    λ h. (r, inl refl, (In-stable_strings t r.reason_codes).0 h),
    λ (s, i, h). elim i [
      | inl same ↦
          (In-stable_strings t r.reason_codes).1
            (subst (λ (x : RouteRule). In t x.reason_codes) same h)
      | inr n ↦ absurd n
    ],
  );
}

reasons_merge :
    (prior r : RouteRule) (t : Text)
    → In t (merge_rule prior r).reason_codes ↔ (In t prior.reason_codes ⊎ In t r.reason_codes)
unfolding merge_rule
reasons_merge prior r t =
    let s = In-stable_strings t (prior.reason_codes ++ r.reason_codes) in
    (
      λ h. In-append t prior.reason_codes r.reason_codes (s.0 h),
      λ h. s.1 (elim h [
        | inl i ↦ In-append_left t prior.reason_codes r.reason_codes i
        | inr i ↦ In-append_right t prior.reason_codes r.reason_codes i
      ]),
    )

class_merge :
    (prior r : RouteRule)
    → (merge_rule prior r).source_class ≡ stronger_of r.source_class prior.source_class
unfolding merge_rule
class_merge prior r = refl

merge_rule-IsMerge :
    (k : Text) (rs : List RouteRule) (q r : RouteRule)
    → IsMerge k rs q
    → IsMerge k (r ∷ rs) (merge_rule q r)
merge_rule-IsMerge k rs q r m = record {
  key = key-merge q r ∙ m.key;
  known =
      let (s, i, e) = m.known in
      elim (Bool-cases (stronger_class r.source_class q.source_class)) [
        | inl new ↦ (r, inl refl, sym (class_merge q r ∙ rw new refl))
        | inr old ↦ (s, inr i, e ∙ sym (class_merge q r ∙ rw old refl))
      ];
  strongest = λ s i.
      subst (λ c. stronger_class s.source_class c ≡ false) (sym (class_merge q r))
        (elim i [
          | inl same ↦
              subst
                (λ (x : RouteRule).
                  stronger_class x.source_class (stronger_of r.source_class q.source_class) ≡ false)
                (sym same) (no_stronger_new r.source_class q.source_class)
          | inr old ↦
              no_stronger_before r.source_class q.source_class s.source_class (m.strongest s old)
        ]);
  reasons = λ t. (
    λ h. elim ((reasons_merge q r t).0 h) [
      | inl i ↦ let (s, j, there) = (m.reasons t).0 i in (s, inr j, there)
      | inr i ↦ (r, inl refl, i)
    ],
    λ (s, i, h). (reasons_merge q r t).1 (elim i [
      | inl same ↦ inr (subst (λ (x : RouteRule). In t x.reason_codes) same h)
      | inr old ↦ inl ((m.reasons t).1 (s, old, h))
    ]),
  );
}

-- The rules of a list, the last first, before those of another.
abbrev onto : List RouteRule → List RouteRule → List RouteRule
onto [] done = done
onto (r ∷ rs) done = onto rs (r ∷ done)

In-onto : (q : RouteRule) (rs done : List RouteRule) → In q (onto rs done) ↔ (In q rs ⊎ In q done)
In-onto q [] done = (λ h. inr h, λ h. elim h [ inl n ↦ absurd n | inr i ↦ i ])
In-onto q (r ∷ rs) done = ground (arith, In-onto q rs (r ∷ done))

merge_all-IsMerge :
    (k : Text) (rs done : List RouteRule) (q z : RouteRule)
    → IsMerge k done q
    → merge_all (some q) rs ≡ some z
    → IsMerge k (onto rs done) z
merge_all-IsMerge k [] done q z m h = subst (IsMerge k done) (some-injective h) m
merge_all-IsMerge k (r ∷ rs) done q z m h =
    merge_all-IsMerge k rs (r ∷ done) (merge_rule q r) z (merge_rule-IsMerge k done q r m) h

-- The rules that have a key.
abbrev pub of_key : Text → List RouteRule → List RouteRule
of_key k rules = keep (has_key k) rules

pub merged_of_key :
    (k : Text) (rs : List RouteRule) (z : RouteRule)
    → All (λ r. candidate_key r ≡ k) rs
    → merge_all none rs ≡ some z
    → (done : List RouteRule) × IsMerge k done z × ((q : RouteRule) → In q done ↔ In q rs)
merged_of_key k [] z a h = cc
merged_of_key k (r ∷ rs) z a h = (
  onto rs (r ∷ []),
  merge_all-IsMerge k rs (r ∷ []) (first_rule r) z (first_rule-IsMerge k r a.0) h,
  λ q. ground (arith, In-onto q rs (r ∷ [])),
)
