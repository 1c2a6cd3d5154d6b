-- ===== src/Planner/Priority/Groups.antt =====
-- The groups of equal destinations: their keys, and the rules that give them their lists.
use routevane.Common.{
  ◌≡◌, refl, sym, ap, ◌∙◌, subst, true, List, [], ◌∷◌, none, some, arith, inl, inr, ◌⊎◌, In,
  In-append, Bool-cases, Option,
}
use routevane.Common.Text.{Text}
use routevane.Common.Assoc.{Map, get, put, get-put, text_eq_sound}
use routevane.Common.Assoc.Distinct.{IsDistinct, put-IsDistinct}
use routevane.Domain.Rule.{RouteRule, rule_is_valid}
use routevane.Planner.Overlaps.{OverlapGroup, rule_key, grouped, group_valid}

-- The rule of a list for a destination.
pub record HasRule (rules : List RouteRule) (key list_id : Text) : Type 0 where
  pub rule : RouteRule
  pub present : In rule rules
  pub valid : rule_is_valid rule ≡ true
  pub same_key : rule_key rule ≡ key
  pub owner : rule.list_id ≡ list_id

-- Each group stands under the key of its rule, and its lists have rules for it.
pub record IsGrouped (rules : List RouteRule) (m : Map OverlapGroup) : Type 0 where
  pub distinct : IsDistinct m
  pub keyed : (k : Text) (g : OverlapGroup) → get k m ≡ some g → rule_key g.rule ≡ k
  pub sound : (k : Text) (g : OverlapGroup) → get k m ≡ some g → rule_is_valid g.rule ≡ true
  pub owned : (k o : Text) (g : OverlapGroup) → get k m ≡ some g → In o g.lists → HasRule rules k o

get-put_cases :
    (j k : Text) (v w : OverlapGroup) (m : Map OverlapGroup)
    → get j (put k v m) ≡ some w
    → ((k ≡ j) × (w ≡ v)) ⊎ (get j m ≡ some w)
get-put_cases j k v w m h = ground (arith, get-put j k v m, text_eq_sound k j)

grouped_key :
    (before : Option OverlapGroup) (r : RouteRule) (k : Text)
    → rule_key r ≡ k
    → ((g : OverlapGroup) → before ≡ some g → rule_key g.rule ≡ k)
    → rule_key (grouped before r).rule ≡ k
grouped_key none r k h f = h
grouped_key (some g) r k h f = f g refl

grouped_valid :
    (before : Option OverlapGroup) (r : RouteRule)
    → rule_is_valid r ≡ true
    → ((g : OverlapGroup) → before ≡ some g → rule_is_valid g.rule ≡ true)
    → rule_is_valid (grouped before r).rule ≡ true
grouped_valid none r v f = v
grouped_valid (some g) r v f = f g refl

grouped_lists :
    (before : Option OverlapGroup) (r : RouteRule) (o : Text)
    → In o (grouped before r).lists
    → (o ≡ r.list_id) ⊎ ((g : OverlapGroup) × (before ≡ some g) × In o g.lists)
grouped_lists none r o (inl e) = inl e
grouped_lists none r o (inr i) = absurd i
grouped_lists (some g) r o h = elim (In-append o g.lists (r.list_id ∷ []) h) [
  | inl i ↦ inr (g, refl, i)
  | inr (inl e) ↦ inl e
  | inr (inr i) ↦ absurd i
]

module _ (rules : List RouteRule) where
  put-IsGrouped :
      (r : RouteRule) (m : Map OverlapGroup)
      → In r rules
      → rule_is_valid r ≡ true
      → IsGrouped rules m
      → IsGrouped rules (put (rule_key r) (grouped (get (rule_key r) m) r) m)
  put-IsGrouped r m i v g = record {
    distinct = put-IsDistinct (rule_key r) _ m g.distinct;
    keyed = λ k h e. elim (get-put_cases k (rule_key r) _ h m e) [
      | inr old ↦ g.keyed k h old
      | inl (same, new) ↦
          ap (λ (x : OverlapGroup). rule_key x.rule) new
          ∙ grouped_key (get (rule_key r) m) r k same
              (λ x q. g.keyed k x (subst (λ j. get j m ≡ some x) same q))
    ];
    sound = λ k h e. elim (get-put_cases k (rule_key r) _ h m e) [
      | inr old ↦ g.sound k h old
      | inl (same, new) ↦
          ap (λ (x : OverlapGroup). rule_is_valid x.rule) new
          ∙ grouped_valid (get (rule_key r) m) r v
              (λ x q. g.sound k x (subst (λ j. get j m ≡ some x) same q))
    ];
    owned = λ k o h e q. elim (get-put_cases k (rule_key r) _ h m e) [
      | inr old ↦ g.owned k o h old q
      | inl (same, new) ↦
          elim (grouped_lists (get (rule_key r) m) r o
            (subst (λ (x : OverlapGroup). In o x.lists) new q)) [
              | inl own ↦ record {
                rule = r;
                present = i;
                valid = v;
                same_key = same;
                owner = sym own;
              }
              | inr (x, was, there) ↦ g.owned k o x (subst (λ j. get j m ≡ some x) same was) there
            ]
    ];
  }

  pub group_valid-IsGrouped :
      (rs : List RouteRule) (m : Map OverlapGroup)
      → ((r : RouteRule) → In r rs → In r rules)
      → IsGrouped rules m
      → IsGrouped rules (group_valid rs m)
  unfolding group_valid
  group_valid-IsGrouped [] m f g = g
  group_valid-IsGrouped (r ∷ rs) m f g = elim (Bool-cases (rule_is_valid r)) [
    | inl v ↦
        rw v
          (group_valid-IsGrouped rs _ (λ q i. f q (inr i)) (put-IsGrouped r m (f r (inl refl)) v g))
    | inr n ↦ rw n (group_valid-IsGrouped rs m (λ q i. f q (inr i)) g)
  ]
