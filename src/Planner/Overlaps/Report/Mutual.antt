-- ===== src/Planner/Overlaps/Report/Mutual.antt =====
-- The summary of overlaps is mutual: two lists name each other, and no list names itself.
use routevane.Common.{
  refl, map, not, In-keep, In-append, In-append_left, In-append_right, Option, none, some, ℕ, ◌≡◌,
  ◌≢◌, ◌↔◌, sym, ap, ◌∙◌, subst, false, List, [], ◌∷◌, arith, inl, inr, ◌⊎◌, In, Bool-cases, ◌||◌,
}
use routevane.Common.Text.{Text, text_eq, text_compare}
use routevane.Common.Assoc.{Map, text_eq_sound, text_eq_complete}
use routevane.Domain.Rule.{RouteRule}
use routevane.Common.Assoc.{get, keys}
use routevane.Common.Assoc.Distinct.{In-keys}
use routevane.Common.Sort.{sort_by}
use routevane.Common.Sort.Laws.{In-sort}
use routevane.Domain.Plan.{stable_strings}
use routevane.Domain.Plan.Stable.{In-stable_strings}
use routevane.Planner.Overlaps.{
  group_valid, order_widths, widths_of, OverlapGroup, OverlapSummary, Widths, overlap_parents,
}
use routevane.Planner.Overlaps.Report.{
  Edges, is_blank, add_edge, add_edges, duplicate_edges, covered_edges, parent_edges, all_edges,
  neighbours, summarize, other_owners, present_parents, analyze_rule_overlaps, groups_in_order,
  with_stable_lists, or_nothing, owners_of, group_rules,
}

-- Each edge stands both ways round, between two lists.
abbrev IsMutual : Edges → Type 0
IsMutual es = (x y : Text) → In (x, y) es → In (y, x) es × (x ≢ y)

add_edge-IsMutual : (a b : Text) (es : Edges) → IsMutual es → IsMutual (add_edge a b es)
add_edge-IsMutual a b es m = elim (Bool-cases (is_blank a || is_blank b || text_eq a b)) [
  | inl none_made ↦ rw none_made m
  | inr made ↦ rw made (both (ground arith))
]
  where
    differ : text_eq a b ≡ false → a ≢ b
    differ n e = cc (n, text_eq_complete a b e)

    both : text_eq a b ≡ false → IsMutual ((a, b) ∷ (b, a) ∷ es)
    both n x y (inl e) = (
      inr (inl (ap (λ (t : Text × Text). (t.1, t.0)) e)),
      λ xy. differ n (sym (ap (λ (t : Text × Text). t.0) e) ∙ xy ∙ ap (λ (t : Text × Text). t.1) e),
    )
    both n x y (inr (inl e)) = (
      inl (ap (λ (t : Text × Text). (t.1, t.0)) e),
      λ xy.
          differ n
            (sym (ap (λ (t : Text × Text). t.1) e) ∙ sym xy ∙ ap (λ (t : Text × Text). t.0) e),
    )
    both n x y (inr (inr i)) = let (j, d) = m x y i in (inr (inr j), d)

add_edges-IsMutual :
    (a : Text) (bs : List Text) (es : Edges) → IsMutual es → IsMutual (add_edges a bs es)
add_edges-IsMutual a [] es m = m
add_edges-IsMutual a (b ∷ bs) es m =
    add_edge-IsMutual a b (add_edges a bs es) (add_edges-IsMutual a bs es m)

duplicate_edges-IsMutual :
    (as' : List Text) (es : Edges) → IsMutual es → IsMutual (duplicate_edges as' es)
unfolding duplicate_edges
duplicate_edges-IsMutual [] es m = m
duplicate_edges-IsMutual (a ∷ as') es m =
    add_edges-IsMutual a as' _ (duplicate_edges-IsMutual as' es m)

covered_edges-IsMutual :
    (p : OverlapGroup) (ls : List Text) (es : Edges)
    → IsMutual es
    → IsMutual (covered_edges p ls es)
unfolding covered_edges
covered_edges-IsMutual p [] es m = m
covered_edges-IsMutual p (l ∷ ls) es m =
    add_edges-IsMutual l (other_owners l p.lists) _ (covered_edges-IsMutual p ls es m)

parent_edges-IsMutual :
    (g : OverlapGroup) (ps : List OverlapGroup) (es : Edges)
    → IsMutual es
    → IsMutual (parent_edges g ps es)
parent_edges-IsMutual g [] es m = m
parent_edges-IsMutual g (p ∷ ps) es m =
    covered_edges-IsMutual p g.lists _ (parent_edges-IsMutual g ps es m)

all_edges-IsMutual :
    (gs : List OverlapGroup) (w : Widths) (m : Map OverlapGroup) → IsMutual (all_edges gs w m)
unfolding all_edges
all_edges-IsMutual [] w m = λ x y i. absurd i
all_edges-IsMutual (g ∷ gs) w m = duplicate_edges-IsMutual g.lists _ (
    parent_edges-IsMutual g (present_parents (overlap_parents g.rule w) m) _
      (all_edges-IsMutual gs w m))

In-neighbours : (a b : Text) (es : Edges) → In b (neighbours a es) → In (a, b) es
In-neighbours a b [] h = absurd h
In-neighbours a b ((x, y) ∷ es) h = elim (Bool-cases (text_eq x a)) [
  | inr other ↦ inr (In-neighbours a b es (rw other at h))
  | inl same ↦ elim (first (rw same at h)) [
    | inl e ↦ inl (pair (sym (text_eq_sound x a same)) e)
    | inr i ↦ inr (In-neighbours a b es i)
  ]
]
  where
    first : In b (y ∷ neighbours a es) → (b ≡ y) ⊎ In b (neighbours a es)
    first i = i

    pair : a ≡ x → b ≡ y → ◌≡◌ {A = Text × Text} (a, b) (x, y)
    pair e f = cc

In-neighbours_intro : (a b : Text) (es : Edges) → In (a, b) es → In b (neighbours a es)
In-neighbours_intro a b [] h = absurd h
In-neighbours_intro a b ((x, y) ∷ es) h = elim h [
  | inl e ↦
      let same = text_eq_complete x a (sym (ap (λ (t : Text × Text). t.0) e)) in
      rw same (inl (ap (λ (t : Text × Text). t.1) e))
  | inr i ↦ elim (Bool-cases (text_eq x a)) [
    | inl same ↦ rw same (inr (In-neighbours_intro a b es i))
    | inr other ↦ rw other (In-neighbours_intro a b es i)
  ]
]

In-summarize :
    (s : OverlapSummary) (ls : List Text) (es : Edges) (b : Text)
    → In s (summarize ls es)
    → In b s.overlaps ↔ In (s.list_id, b) es
unfolding summarize
In-summarize s [] es b h = absurd h
In-summarize s (l ∷ ls) es b (inr i) = In-summarize s ls es b i
In-summarize s (l ∷ ls) es b (inl e) =
    subst (λ (t : OverlapSummary). In b t.overlaps ↔ In (t.list_id, b) es) (sym e)
      (
        λ h. In-neighbours l b es ((In-stable_strings b (neighbours l es)).0 h),
        λ h. (In-stable_strings b (neighbours l es)).1 (In-neighbours_intro l b es h),
      )

-- Both ends of each edge are among these lists.
abbrev Within : List Text → Edges → Type 0
Within ls es = (x y : Text) → In (x, y) es → In x ls × In y ls

-- All of these lists are among those.
abbrev AllIn : List Text → List Text → Type 0
AllIn ls into = (l : Text) → In l ls → In l into

module _ (ls : List Text) where
  add_edge-Within :
      (a b : Text) (es : Edges) → In a ls → In b ls → Within ls es → Within ls (add_edge a b es)
  add_edge-Within a b es i j w = elim (Bool-cases (is_blank a || is_blank b || text_eq a b)) [
    | inl none_made ↦ rw none_made w
    | inr made ↦ rw made both
  ]
    where
      both : Within ls ((a, b) ∷ (b, a) ∷ es)
      both x y (inl e) = (
        subst (λ t. In t ls) (sym (ap (λ (t : Text × Text). t.0) e)) i,
        subst (λ t. In t ls) (sym (ap (λ (t : Text × Text). t.1) e)) j,
      )
      both x y (inr (inl e)) = (
        subst (λ t. In t ls) (sym (ap (λ (t : Text × Text). t.0) e)) j,
        subst (λ t. In t ls) (sym (ap (λ (t : Text × Text). t.1) e)) i,
      )
      both x y (inr (inr k)) = w x y k

  add_edges-Within :
      (a : Text) (bs : List Text) (es : Edges)
      → In a ls
      → AllIn bs ls
      → Within ls es
      → Within ls (add_edges a bs es)
  add_edges-Within a [] es i f w = w
  add_edges-Within a (b ∷ bs) es i f w =
      add_edge-Within a b (add_edges a bs es) i (f b (inl refl))
        (add_edges-Within a bs es i (λ l k. f l (inr k)) w)

  duplicate_edges-Within :
      (as' : List Text) (es : Edges)
      → AllIn as' ls
      → Within ls es
      → Within ls (duplicate_edges as' es)
  unfolding duplicate_edges
  duplicate_edges-Within [] es f w = w
  duplicate_edges-Within (a ∷ as') es f w =
      add_edges-Within a as' _ (f a (inl refl)) (λ l k. f l (inr k))
        (duplicate_edges-Within as' es (λ l k. f l (inr k)) w)

  covered_edges-Within :
      (p : OverlapGroup) (qs : List Text) (es : Edges)
      → AllIn p.lists ls
      → AllIn qs ls
      → Within ls es
      → Within ls (covered_edges p qs es)
  unfolding covered_edges
  covered_edges-Within p [] es f g w = w
  covered_edges-Within p (q ∷ qs) es f g w =
      add_edges-Within q (other_owners q p.lists) _ (g q (inl refl))
        (λ l k. f l (In-keep (λ o. not (text_eq o q)) l p.lists k).0)
        (covered_edges-Within p qs es f (λ l k. g l (inr k)) w)

  parent_edges-Within :
      (g : OverlapGroup) (ps : List OverlapGroup) (es : Edges)
      → AllIn g.lists ls
      → ((p : OverlapGroup) → In p ps → AllIn p.lists ls)
      → Within ls es
      → Within ls (parent_edges g ps es)
  parent_edges-Within g [] es f h w = w
  parent_edges-Within g (p ∷ ps) es f h w =
      covered_edges-Within p g.lists _ (h p (inl refl)) f
        (parent_edges-Within g ps es f (λ q i. h q (inr i)) w)

  all_edges-Within :
      (gs : List OverlapGroup) (ws : Widths) (m : Map OverlapGroup)
      → ((g : OverlapGroup) → In g gs → AllIn g.lists ls)
      → ((p : OverlapGroup) (ks : List Text) → In p (present_parents ks m) → AllIn p.lists ls)
      → Within ls (all_edges gs ws m)
  unfolding all_edges
  all_edges-Within [] ws m f h = λ x y i. absurd i
  all_edges-Within (g ∷ gs) ws m f h = duplicate_edges-Within g.lists _ (f g (inl refl)) (
      parent_edges-Within g (present_parents (overlap_parents g.rule ws) m) _ (f g (inl refl))
        (λ p i. h p (overlap_parents g.rule ws) i)
        (all_edges-Within gs ws m (λ q i. f q (inr i)) h))

module _ (m : Map OverlapGroup) where
  -- A group in the order of its keys is one of the map, with its lists sorted.
  In-groups_in_order :
      (ks : List Text) (p : OverlapGroup)
      → In p (groups_in_order ks m)
      → (k : Text) × (g : OverlapGroup) × (get k m ≡ some g) × (p ≡ with_stable_lists g)
  unfolding groups_in_order
  In-groups_in_order [] p h = absurd h
  In-groups_in_order (k ∷ ks) p h =
      elim (In-append p (map with_stable_lists (or_nothing (get k m))) _ h) [
        | inr i ↦ In-groups_in_order ks p i
        | inl i ↦ of_key (get k m) refl i
      ]
    where
      of_key :
          (o : Option OverlapGroup)
          → get k m ≡ o
          → In p (map with_stable_lists (or_nothing o))
          → (k : Text) × (g : OverlapGroup) × (get k m ≡ some g) × (p ≡ with_stable_lists g)
      of_key none e i = absurd i
      of_key (some g) e (inl same) = (k, g, e, same)
      of_key (some g) e (inr i) = absurd i

  In-groups_in_order_intro :
      (ks : List Text) (k : Text) (g : OverlapGroup)
      → In k ks
      → get k m ≡ some g
      → In (with_stable_lists g) (groups_in_order ks m)
  unfolding groups_in_order
  In-groups_in_order_intro [] k g i e = absurd i
  In-groups_in_order_intro (j ∷ ks) k g (inr i) e =
      In-append_right (with_stable_lists g) (map with_stable_lists (or_nothing (get j m))) _
        (In-groups_in_order_intro ks k g i e)
  In-groups_in_order_intro (j ∷ ks) k g (inl same) e =
      In-append_left (with_stable_lists g) (map with_stable_lists (or_nothing (get j m))) _ (
        subst (λ o. In (with_stable_lists g) (map with_stable_lists (or_nothing o)))
          (sym (ap (λ i. get i m) (sym same) ∙ e)) (inl refl))

  -- So a parent that is in the plan is a group of the report.
  parent-In :
      (p : OverlapGroup) (ks : List Text)
      → In p (present_parents ks m)
      → In p (groups_in_order (sort_by text_compare (keys m)) m)
  unfolding present_parents
  parent-In p ks i =
      let (k, g, e, same) = In-groups_in_order ks p i in
      subst (λ q. In q (groups_in_order (sort_by text_compare (keys m)) m)) (sym same)
        (In-groups_in_order_intro (sort_by text_compare (keys m)) k g
          ((In-sort text_compare k (keys m)).1 (In-keys k g m e)) e)

In-owners_of : (g : OverlapGroup) (gs : List OverlapGroup) → In g gs → AllIn g.lists (owners_of gs)
In-owners_of g [] i l j = absurd i
In-owners_of g (q ∷ gs) (inl e) l j =
    In-append_left l q.lists (owners_of gs) (subst (λ (x : OverlapGroup). In l x.lists) e j)
In-owners_of g (q ∷ gs) (inr i) l j =
    In-append_right l q.lists (owners_of gs) (In-owners_of g gs i l j)

In-summarize_intro :
    (l : Text) (ls : List Text) (es : Edges)
    → In l ls
    → (t : OverlapSummary) × In t (summarize ls es) × (t.list_id ≡ l)
unfolding summarize
In-summarize_intro l [] es i = absurd i
In-summarize_intro l (k ∷ ls) es (inl e) = (_, inl refl, sym e)
In-summarize_intro l (k ∷ ls) es (inr i) =
    let (t, j, e) = In-summarize_intro l ls es i in (t, inr j, e)

-- What `s` names `b` for.
abbrev pub NamesBack : List OverlapSummary → OverlapSummary → Text → Type 0
NamesBack summary s b =
    (t : OverlapSummary) × In t summary × (t.list_id ≡ b) × In s.list_id t.overlaps

-- In the summary of a report, a list that the entry of a list names is another list, and has an entry
-- there that names that list.
pub overlaps_mutual :
    (rules : List RouteRule) (limit : ℕ) (s : OverlapSummary) (b : Text)
    → In s (analyze_rule_overlaps rules limit).summary
    → In b s.overlaps
    → NamesBack (analyze_rule_overlaps rules limit).summary s b × (s.list_id ≢ b)
unfolding analyze_rule_overlaps
overlaps_mutual rules limit s b i h =
    let m = group_valid rules [] in
    let gs = groups_in_order (sort_by text_compare (keys m)) m in
    let w = order_widths (widths_of (group_rules gs)) in
    let edge = (In-summarize s _ _ b i).0 h in
    let (back, other) = all_edges-IsMutual gs w m s.list_id b edge in
    let (from, to) =
      all_edges-Within (owners_of gs) gs w m (λ g j. In-owners_of g gs j)
        (λ p ks j. In-owners_of p gs (parent-In m p ks j)) s.list_id b edge in
    let (t, j, e) =
      In-summarize_intro b (stable_strings (owners_of gs)) (all_edges gs w m)
        ((In-stable_strings b (owners_of gs)).1 to) in
    (
      (
        t,
        j,
        e,
        (In-summarize t _ _ s.list_id j).1
            (subst (λ l. In (l, s.list_id) (all_edges gs w m)) (sym e) back),
      ),
      other,
    )
