-- ===== src/Planner/Priority/Members.antt =====
-- Each valid rule has its list in the group of its destination.
use routevane.Common.{
  ◌≡◌, refl, sym, ap, ◌∙◌, subst, true, List, [], ◌∷◌, Option, none, some, inl, inr, In,
  In-append_left, In-append_right, Bool-cases, some-injective,
}
use routevane.Common.Text.{Text, text_eq}
use routevane.Common.Assoc.{Map, get, put, get-put, text_eq_sound, text_eq_complete}
use routevane.Domain.Rule.{RouteRule, rule_is_valid}
use routevane.Planner.Overlaps.{OverlapGroup, rule_key, grouped, group_valid}

-- The group of a key has a list among its own.
abbrev pub HasList : Map OverlapGroup → Text → Text → Type 0
HasList m k o = (g : OverlapGroup) × (get k m ≡ some g) × In o g.lists

In-grouped : (before : Option OverlapGroup) (r : RouteRule) → In r.list_id (grouped before r).lists
In-grouped none r = inl refl
In-grouped (some g) r = In-append_right r.list_id g.lists (r.list_id ∷ []) (inl refl)

In-grouped_before :
    (before : Option OverlapGroup) (g : OverlapGroup) (r : RouteRule) (o : Text)
    → before ≡ some g
    → In o g.lists
    → In o (grouped before r).lists
In-grouped_before none g r o e h = cc
In-grouped_before (some f) g r o e h =
    In-append_left o f.lists (r.list_id ∷ [])
      (subst (λ (x : OverlapGroup). In o x.lists) (sym (some-injective e)) h)

put-HasList :
    (r : RouteRule) (m : Map OverlapGroup) (k o : Text)
    → HasList m k o
    → HasList (put (rule_key r) (grouped (get (rule_key r) m) r) m) k o
put-HasList r m k o (g, e, i) = elim (Bool-cases (text_eq (rule_key r) k)) [
  | inr other ↦ (g, get-put k (rule_key r) _ m ∙ rw other e, i)
  | inl same ↦
      let read = get-put k (rule_key r) (grouped (get (rule_key r) m) r) m in
      let before : get (rule_key r) m ≡ some g =
        ap (λ j. get j m) (text_eq_sound (rule_key r) k same) ∙ e in
      (grouped (get (rule_key r) m) r, read ∙ rw same refl, In-grouped_before _ g r o before i)
]

put-Holds_new :
    (r : RouteRule) (m : Map OverlapGroup)
    → HasList (put (rule_key r) (grouped (get (rule_key r) m) r) m) (rule_key r) r.list_id
put-Holds_new r m = (
  grouped (get (rule_key r) m) r,
  get-put (rule_key r) (rule_key r) _ m ∙ rw (text_eq_complete (rule_key r) (rule_key r) refl) refl,
  In-grouped (get (rule_key r) m) r,
)

group_valid-HasList :
    (rs : List RouteRule) (m : Map OverlapGroup) (k o : Text)
    → HasList m k o
    → HasList (group_valid rs m) k o
unfolding group_valid
group_valid-HasList [] m k o h = h
group_valid-HasList (r ∷ rs) m k o h = elim (Bool-cases (rule_is_valid r)) [
  | inl v ↦ rw v (group_valid-HasList rs _ k o (put-HasList r m k o h))
  | inr n ↦ rw n (group_valid-HasList rs m k o h)
]

pub group_of :
    (rs : List RouteRule) (m : Map OverlapGroup) (r : RouteRule)
    → In r rs
    → rule_is_valid r ≡ true
    → HasList (group_valid rs m) (rule_key r) r.list_id
unfolding group_valid
group_of [] m r h v = absurd h
group_of (q ∷ rs) m r (inr i) v = group_of rs _ r i v
group_of (q ∷ rs) m r (inl e) v =
    let w : rule_is_valid q ≡ true = subst (λ x. rule_is_valid x ≡ true) e v in
    rw w (
      subst
        (λ x.
          HasList (group_valid rs (put (rule_key q) (grouped (get (rule_key q) m) q) m))
            (rule_key x) x.list_id)
        (sym e) (group_valid-HasList rs _ (rule_key q) q.list_id (put-Holds_new q m)))
