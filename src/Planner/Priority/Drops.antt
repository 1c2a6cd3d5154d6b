-- ===== src/Planner/Priority/Drops.antt =====
-- Why a rule is dropped: a better list has its destination, or one that covers it.
use routevane.Common.{
  ◌≡◌, refl, sym, ◌∙◌, subst, true, not, List, [], ◌∷◌, ◌++◌, some, arith, inl, inr, ◌⊎◌, In,
  In-append, In-keep, any-In, keep, Option-cases,
}
use routevane.Common.Text.{Text, text_eq}
use routevane.Common.Assoc.{Map, get, values, text_eq_sound, text_eq_complete}
use routevane.Common.Assoc.Distinct.{get-values}
use routevane.Domain.Rule.{RouteRule, rule_is_valid}
use routevane.Domain.Plan.{stable_strings}
use routevane.Domain.Plan.Stable.{In-stable_strings}
use routevane.Planner.Overlaps.{
  OverlapGroup, Widths, rule_key, group_valid, overlap_parents, order_widths, widths_of,
}
use routevane.Planner.Priority.{
  better, drop_key, winner_from, losers, outranked, parent_lists, covered_owners, keys_for,
  group_drops, all_drops, drops, is_dropped, valid_rules,
}
use routevane.Planner.Priority.Keys.{no_nul, slug_of_valid, same_drop}
use routevane.Planner.Priority.Order.{In-winner, winner_least, better_total}
use routevane.Planner.Priority.Groups.{HasRule, IsGrouped, group_valid-IsGrouped}

-- A rule of a better list, for this destination or for one that covers it.
pub record IsOutranked (rules : List RouteRule) (priority : List Text) (key owner : Text)
    : Type 0 where
  pub by : Text
  pub is_better : better priority by owner ≡ true
  pub place : Text
  pub reached :
      (place ≡ key)
      ⊎ ((r : RouteRule) × (rule_key r ≡ key)
          × (rule_is_valid r ≡ true)
          × In place (overlap_parents r (order_widths (widths_of (valid_rules rules)))))
  pub has_rule : HasRule rules place by

In-losers :
    (priority owners : List Text) (o : Text)
    → In o (losers priority owners)
    → In o owners × ((w : Text) × In w owners × (better priority w o ≡ true))
unfolding losers
In-losers priority [] o h = absurd h
In-losers priority (p ∷ ps) o h =
    let w = winner_from priority p ps in
    let (there, other) = In-keep (λ q. not (text_eq q w)) o (p ∷ ps) h in
    (
      there,
      (
        w,
        In-winner priority p ps,
        elim (better_total priority o w (winner_least priority p ps o there)) [
          | inl b ↦ b
          | inr same ↦ absurd (cc (other, text_eq_complete o w same))
        ],
      ),
    )

In-covered_owners :
    (priority owners ks : List Text) (m : Map OverlapGroup) (o : Text)
    → In o (covered_owners priority owners ks m)
    → In o owners
      × ((k : Text) × In k ks
          × ((c : Text) × In c (parent_lists (get k m)) × (better priority c o ≡ true)))
unfolding covered_owners outranked
In-covered_owners priority owners [] m o h = absurd h
In-covered_owners priority owners (k ∷ ks) m o h =
    elim (In-append o (keep (λ o'. outranked priority o' (parent_lists (get k m))) owners) _ h) [
      | inr later ↦
          let (there, (j, i, rest)) = In-covered_owners priority owners ks m o later in
          (there, (j, inr i, rest))
      | inl now ↦
          let (there, out) =
            In-keep (λ o'. outranked priority o' (parent_lists (get k m))) o owners now in
          let (c, i, b) = any-In _ (parent_lists (get k m)) out in
          (there, (k, inl refl, (c, i, ground arith)))
    ]

In-keys_for :
    (r : RouteRule) (os : List Text) (t : Text)
    → In t (keys_for r os)
    → (o : Text) × In o os × (t ≡ drop_key r o)
In-keys_for r [] t h = absurd h
In-keys_for r (o ∷ os) t (inl e) = (o, inl refl, e)
In-keys_for r (o ∷ os) t (inr i) = let (p, j, e) = In-keys_for r os t i in (p, inr j, e)

In-all_drops :
    (priority : List Text) (w : Widths) (m : Map OverlapGroup) (gs : List OverlapGroup) (t : Text)
    → In t (all_drops priority w m gs)
    → (g : OverlapGroup) × In g gs × In t (group_drops priority w m g)
unfolding all_drops
In-all_drops priority w m [] t h = absurd h
In-all_drops priority w m (g ∷ gs) t h = elim (In-append t (group_drops priority w m g) _ h) [
  | inl i ↦ (g, inl refl, i)
  | inr i ↦ let (q, j, k) = In-all_drops priority w m gs t i in (q, inr j, k)
]

-- An owner of a parent group has a rule for the parent.
parent_rule :
    (rules : List RouteRule) (m : Map OverlapGroup) (k c : Text)
    → IsGrouped rules m
    → In c (parent_lists (get k m))
    → HasRule rules k c
parent_rule rules m k c g h = elim (Option-cases (get k m)) [
  | inl e ↦ absurd (rw e at h)
  | inr (x, e) ↦ g.owned k c x e ((In-stable_strings c x.lists).0 (rw e at h))
]

module _ (rules : List RouteRule) (priority : List Text) where
  abbrev all_widths : Widths
  all_widths = order_widths (widths_of (valid_rules rules))

  -- Each key that a group gives names an owner of the group that a better list outranks.
  group-IsOutranked :
      (m : Map OverlapGroup) (k : Text) (g : OverlapGroup) (o : Text)
      → IsGrouped rules m
      → get k m ≡ some g
      → In o (
          losers priority (stable_strings g.lists)
          ++ covered_owners priority (stable_strings g.lists) (overlap_parents g.rule all_widths) m)
      → HasRule rules k o × IsOutranked rules priority k o
  group-IsOutranked m k g o q e h =
      let owners = stable_strings g.lists in
      let owned : (p : Text) → In p owners → HasRule rules k p =
        λ p i. q.owned k p g e ((In-stable_strings p g.lists).0 i) in
      elim (In-append o (losers priority owners) _ h) [
        | inl lost ↦
            let (there, (w, i, b)) = In-losers priority owners o lost in
            (
              owned o there,
              record { by = w; is_better = b; place = k; reached = inl refl; has_rule = owned w i },
            )
        | inr covered ↦
            let (there, (p, i, (c, j, b))) =
              In-covered_owners priority owners (overlap_parents g.rule all_widths) m o covered in
            (
              owned o there,
              record {
                by = c;
                is_better = b;
                place = p;
                reached = inr (g.rule, q.keyed k g e, q.sound k g e, i);
                has_rule = parent_rule rules m p c q j;
              },
            )
      ]

  pub groups-IsGrouped : IsGrouped rules (group_valid rules [])
  unfolding get
  groups-IsGrouped =
      group_valid-IsGrouped rules rules [] (λ r i. i)
        (record {
          distinct = tt;
          keyed = λ k g h. cc;
          sound = λ k g h. cc;
          owned = λ k o g h i. cc;
        })

  In-group_drops :
      (w : Widths) (m : Map OverlapGroup) (g : OverlapGroup) (t : Text)
      → In t (group_drops priority w m g)
      → (o : Text) × In o (
          losers priority (stable_strings g.lists)
          ++ covered_owners priority (stable_strings g.lists) (overlap_parents g.rule w) m)
        × (t ≡ drop_key g.rule o)
  unfolding group_drops
  In-group_drops w m g t h = In-keys_for g.rule _ t h

  -- A valid rule that is dropped is outranked by a better list.
  pub dropped-IsOutranked :
      (r : RouteRule)
      → rule_is_valid r ≡ true
      → is_dropped (drops priority rules) r ≡ true
      → IsOutranked rules priority (rule_key r) r.list_id
  unfolding drops
  dropped-IsOutranked r v h =
      let m = group_valid rules [] in
      let (t, i, same) = any-In (λ k. text_eq k (drop_key r r.list_id)) _ h in
      let (g, j, d) = In-all_drops priority all_widths m (values m) t i in
      let (o, there, made) = In-group_drops all_widths m g t d in
      let (k, e) = get-values g m groups-IsGrouped.distinct j in
      let (own, out) = group-IsOutranked m k g o groups-IsGrouped e there in
      let slug : no_nul o ≡ true =
        subst (λ p. no_nul p ≡ true) own.owner (slug_of_valid own.rule own.valid) in
      let (key, owner) =
        same_drop g.rule r o slug v (sym made ∙ text_eq_sound t (drop_key r r.list_id) same) in
      subst (IsOutranked rules priority (rule_key r)) owner (
        subst (λ j'. IsOutranked rules priority j' o) (sym (groups-IsGrouped.keyed k g e) ∙ key)
          out)
