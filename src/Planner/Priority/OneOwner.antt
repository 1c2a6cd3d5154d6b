-- ===== src/Planner/Priority/OneOwner.antt =====
-- A rule that list priority keeps is owned by the winner of its group.
use routevane.Common.{
  ◌≡◌, sym, ap, ◌∙◌, subst, true, false, not, List, [], ◌∷◌, ◌++◌, some, arith, inl, inr, ◌⊎◌, In,
  In-append_left, In-append_right, In-keep, In-keep_intro, any-In_intro, keep, Bool-cases,
  some-injective, ltb, length,
}
use mathlib.Core.Bool.{false≢true}
use routevane.Common.Text.{Text, text_eq}
use routevane.Common.Assoc.{Map, get, values, text_eq_sound, text_eq_complete}
use routevane.Common.Assoc.Distinct.{In-values}
use routevane.Domain.Rule.{RouteRule, rule_is_valid}
use routevane.Domain.Plan.{RoutingPlan, stable_strings}
use routevane.Domain.Plan.Stable.{In-stable_strings}
use routevane.Planner.Overlaps.{
  OverlapGroup, Widths, rule_key, group_valid, order_widths, widths_of,
}
use routevane.Planner.Priority.{
  drop_key, winner_from, losers, keys_for, group_drops, all_drops, drops, is_dropped, valid_rules,
  apply_list_priority,
}
use routevane.Planner.Priority.Drops.{groups-IsGrouped}
use routevane.Planner.Priority.Members.{group_of}

-- The owner that a group goes to.
abbrev winner_of : List Text → List Text → Text
winner_of priority [] = []
winner_of priority (o ∷ os) = winner_from priority o os

In-losers_intro :
    (priority owners : List Text) (o : Text)
    → In o owners
    → (In o (losers priority owners)) ⊎ (o ≡ winner_of priority owners)
unfolding losers
In-losers_intro priority [] o h = absurd h
In-losers_intro priority (p ∷ ps) o h = elim (Bool-cases (text_eq o (winner_from priority p ps))) [
  | inl same ↦ inr (text_eq_sound o (winner_from priority p ps) same)
  | inr other ↦
      inl (
        In-keep_intro (λ q. not (text_eq q (winner_from priority p ps))) o (p ∷ ps) h
          (ap not other))
]

In-keys_for_intro :
    (r : RouteRule) (os : List Text) (o : Text) → In o os → In (drop_key r o) (keys_for r os)
In-keys_for_intro r [] o h = absurd h
In-keys_for_intro r (p ∷ os) o (inl e) = inl (ap (drop_key r) e)
In-keys_for_intro r (p ∷ os) o (inr i) = inr (In-keys_for_intro r os o i)

In-all_drops_intro :
    (priority : List Text) (w : Widths) (m : Map OverlapGroup) (gs : List OverlapGroup)
    (g : OverlapGroup) (t : Text)
    → In g gs
    → In t (group_drops priority w m g)
    → In t (all_drops priority w m gs)
unfolding all_drops
In-all_drops_intro priority w m [] g t h i = absurd h
In-all_drops_intro priority w m (f ∷ gs) g t (inl e) i =
    In-append_left t (group_drops priority w m f) _
      (subst (λ x. In t (group_drops priority w m x)) e i)
In-all_drops_intro priority w m (f ∷ gs) g t (inr h) i =
    In-append_right t (group_drops priority w m f) _ (In-all_drops_intro priority w m gs g t h i)

In-group_drops_intro :
    (priority : List Text) (w : Widths) (m : Map OverlapGroup) (g : OverlapGroup) (o : Text)
    → In o (losers priority (stable_strings g.lists))
    → In (drop_key g.rule o) (group_drops priority w m g)
unfolding group_drops
In-group_drops_intro priority w m g o h =
    In-keys_for_intro g.rule _ o (In-append_left o (losers priority (stable_strings g.lists)) _ h)

module _ (rules : List RouteRule) (priority : List Text) where
  drop_key_same :
      (g r : RouteRule) → rule_key g ≡ rule_key r → drop_key g r.list_id ≡ drop_key r r.list_id
  unfolding drop_key
  drop_key_same g r e = ap (λ k. k ++ 0 ∷ r.list_id) e

  loser_dropped :
      (r : RouteRule) (g : OverlapGroup)
      → get (rule_key r) (group_valid rules []) ≡ some g
      → In r.list_id (losers priority (stable_strings g.lists))
      → is_dropped (drops priority rules) r ≡ true
  unfolding drops
  loser_dropped r g e h =
      let m = group_valid rules [] in
      let w = order_widths (widths_of (valid_rules rules)) in
      let key = groups-IsGrouped rules priority in
      any-In_intro (λ k. text_eq k (drop_key r r.list_id)) (drop_key g.rule r.list_id) _
        (In-all_drops_intro priority w m (values m) g _ (In-values (rule_key r) g m e)
          (In-group_drops_intro priority w m g r.list_id h))
        (text_eq_complete _ _ (drop_key_same g.rule r (key.keyed (rule_key r) g e)))

  kept_winner :
      (r : RouteRule)
      → In r rules
      → rule_is_valid r ≡ true
      → is_dropped (drops priority rules) r ≡ false
      → (g : OverlapGroup) × (get (rule_key r) (group_valid rules []) ≡ some g)
        × (r.list_id ≡ winner_of priority (stable_strings g.lists))
  kept_winner r i v kept =
      let (g, e, j) = group_of rules [] r i v in
      (
        g,
        e,
        elim (In-losers_intro priority (stable_strings g.lists) r.list_id
            ((In-stable_strings r.list_id g.lists).1 j)) [
              | inr won ↦ won
              | inl lost ↦ absurd (false≢true (sym kept ∙ loser_dropped r g e lost))
            ],
      )

-- Two valid rules for one destination that a plan of at least two rules keeps under list priority are
-- of one list.
pub priority_one_owner :
    (plan : RoutingPlan) (priority : List Text) (r s : RouteRule)
    → ltb (length plan.rules) 2 ≡ false
    → In r (apply_list_priority plan priority).rules
    → In s (apply_list_priority plan priority).rules
    → rule_is_valid r ≡ true
    → rule_is_valid s ≡ true
    → rule_key r ≡ rule_key s
    → r.list_id ≡ s.list_id
unfolding apply_list_priority
priority_one_owner plan priority r s many i j v w e =
    let (ri, rk) = of_kept r (rw many at i) in
    let (si, sk) = of_kept s (rw many at j) in
    let (g, gr, gw) = kept_winner plan.rules priority r ri v rk in
    let (h, hr, hw) = kept_winner plan.rules priority s si w sk in
    let same : g ≡ h =
      some-injective
        (sym gr ∙ subst (λ k. get k (group_valid plan.rules []) ≡ some h) (sym e) hr) in
    gw ∙ ap (λ (x : OverlapGroup). winner_of priority (stable_strings x.lists)) same ∙ sym hw
  where
    of_kept :
        (x : RouteRule)
        → In x (keep (λ y. not (is_dropped (drops priority plan.rules) y)) plan.rules)
        → In x plan.rules × (is_dropped (drops priority plan.rules) x ≡ false)
    of_kept x k =
        let (there, n) =
          In-keep (λ y. not (is_dropped (drops priority plan.rules) y)) x plan.rules k in
        (there, ground arith)
