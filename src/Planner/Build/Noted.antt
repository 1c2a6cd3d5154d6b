-- ===== src/Planner/Build/Noted.antt =====
-- Every accepted name has its component among those that names cover, all through the loops.
use routevane.Common.{
  ◌≡◌, refl, sym, ap, subst, true, List, [], ◌∷◌, ◌++◌, arith, inl, inr, ◌⊎◌, In, In-append,
}
use routevane.Common.Text.{Text}
use routevane.Domain.Kind.{is_domain}
use routevane.Domain.Rule.{RouteRule}
use routevane.Domain.Observation.{Sighting}
use routevane.Domain.Catalog.{Seed}
use routevane.Planner.Externals.{Externals}
use routevane.Planner.Build.Judge.{
  Policy, Verdict, accept, exclude, skip, judge_seed, judge_sighting, note_coverage,
}
use routevane.Planner.Build.Admitted.{IsTaken, judge_sighting_accept}
use routevane.Planner.Build.{Intake, record_verdict, admit_seeds, admit_sightings}

-- What the loop has accepted after a verdict.
pub accepted_after :
    (i : Intake) (v : Verdict) (r : RouteRule)
    → In r (record_verdict i v).accepted
    → In r i.accepted ⊎ (v ≡ accept r)
unfolding record_verdict
accepted_after i (accept c) r h = elim (In-append r i.accepted (c ∷ []) h) [
  | inl old ↦ inl old
  | inr (inl e) ↦ inr (ap accept (sym e))
  | inr (inr i') ↦ absurd i'
]
accepted_after i (exclude e) r h = inl h
accepted_after i skip r h = inl h

-- Every accepted name has its component among those that names cover.
abbrev pub NamesNoted : Intake → Type 0
NamesNoted i =
    (r : RouteRule) → In r i.accepted → is_domain r.kind ≡ true → In r.component_id i.sufficient

noted_name :
    (r : RouteRule) (names : List Text)
    → is_domain r.kind ≡ true
    → In r.component_id (note_coverage r names)
unfolding note_coverage
noted_name r names h = ground arith

noted_keeps :
    (t : Text) (r : RouteRule) (names : List Text) → In t names → In t (note_coverage r names)
unfolding note_coverage
noted_keeps t r names h = ground arith

record_verdict-NamesNoted :
    (i : Intake) (v : Verdict) → NamesNoted i → NamesNoted (record_verdict i v)
unfolding record_verdict
record_verdict-NamesNoted i (accept c) n r h k = elim (In-append r i.accepted (c ∷ []) h) [
  | inl old ↦ noted_keeps r.component_id c i.sufficient (n r old k)
  | inr (inl e) ↦
      subst (λ d. In d.component_id (note_coverage c i.sufficient)) (sym e)
        (noted_name c i.sufficient (subst (λ d. is_domain d.kind ≡ true) e k))
  | inr (inr i') ↦ absurd i'
]
record_verdict-NamesNoted i (exclude e) n r h k = n r h k
record_verdict-NamesNoted i skip n r h k = n r h k

module _ (x : Externals) where
  pub admit_seeds-NamesNoted :
      (p : Policy) (ss : List Seed) (i : Intake) → NamesNoted i → NamesNoted (admit_seeds x p ss i)
  unfolding admit_seeds
  admit_seeds-NamesNoted p [] i n = n
  admit_seeds-NamesNoted p (s ∷ ss) i n =
      admit_seeds-NamesNoted p ss _ (record_verdict-NamesNoted i (judge_seed p s) n)

  pub admit_sightings-NamesNoted :
      (p : Policy) (ss : List Sighting) (i : Intake)
      → NamesNoted i
      → NamesNoted (admit_sightings x p ss i)
  unfolding admit_sightings
  admit_sightings-NamesNoted p [] i n = n
  admit_sightings-NamesNoted p (s ∷ ss) i n =
      admit_sightings-NamesNoted p ss _
        (record_verdict-NamesNoted i (judge_sighting x p i.sufficient s) n)

  pub admit_sightings-append :
      (p : Policy) (ss ts : List Sighting) (i : Intake)
      → admit_sightings x p (ss ++ ts) i ≡ admit_sightings x p ts (admit_sightings x p ss i)
  unfolding admit_sightings
  admit_sightings-append p [] ts i = refl
  admit_sightings-append p (s ∷ ss) ts i = admit_sightings-append p ss ts _

  -- Every accepted rule was there before, or is taken from a sighting at some point of the loop.
  pub IsTaken-from :
      (p : Policy) (ss : List Sighting) (i : Intake) (r : RouteRule)
      → In r (admit_sightings x p ss i).accepted
      → In r i.accepted ⊎ ((s : Sighting) × (names : List Text) × In s ss × IsTaken p names s r)
  unfolding admit_sightings
  IsTaken-from p [] i r h = inl h
  IsTaken-from p (s ∷ ss) i r h = elim (IsTaken-from p ss _ r h) [
    | inr (t, names, k, q) ↦ inr (t, names, inr k, q)
    | inl before ↦ elim (accepted_after i (judge_sighting x p i.sufficient s) r before) [
      | inl old ↦ inl old
      | inr e ↦ inr (s, i.sufficient, inl refl, judge_sighting_accept x p i.sufficient s r e)
    ]
  ]
