-- ===== src/Planner/Build/Loops.antt =====
-- The two admission loops: where the accepted rules come from, what they account for, and how the
-- names that are read first make addresses redundant.
use routevane.Common.{
  Bool-cases, ◌≡◌, ◌≢◌, refl, sym, ◌∙◌, subst, Bool, true, false, not, List, [], ◌∷◌, arith, inl,
  inr, ◌⊎◌, In, All, All-of_In, keep, In-keep, any-In_intro,
}
use mathlib.Core.Bool.{false≢true}
use routevane.Common.Text.{Text, text_eq}
use routevane.Common.Assoc.{text_eq_complete}
use routevane.Domain.Kind.{
  ResourceKind, domain_resource, ip_resource, prefix_resource, other_resource, RuleKind, is_domain,
}
use routevane.Domain.Rule.{RouteRule}
use routevane.Domain.Observation.{Sighting}
use routevane.Domain.Catalog.{Seed}
use routevane.Planner.Externals.{Externals}
use routevane.Planner.Admission.{admission_order, is_name}
use routevane.Planner.Candidates.Facts.{KindFits}
use routevane.Planner.Canonical.{canonical_sightings}
use routevane.Planner.Build.Judge.{
  Policy, Verdict, accept, exclude, skip, judge_sighting, is_redundant, redundant_under_domains,
  note_coverage, has_text,
}
use routevane.Planner.Build.Admitted.{IsTaken, judge_sighting_accept}
use routevane.Planner.Build.Noted.{
  NamesNoted, accepted_after, admit_seeds-NamesNoted, admit_sightings-NamesNoted,
  admit_sightings-append, IsTaken-from,
}
use routevane.Planner.Build.{
  ListInput, Intake, empty_intake, record_verdict, admit_seeds, admit_sightings, intake_of,
}

-- A rule of an address or a network is no name.
not_domain :
    (k : ResourceKind) (kind : RuleKind)
    → KindFits k kind
    → (elim k [ domain_resource ↦ true | _ ↦ false ]) ≡ false
    → is_domain kind ≡ false
not_domain domain_resource kind f h = cc
not_domain ip_resource kind f h = ground arith
not_domain prefix_resource kind f h = ground arith
not_domain (other_resource t) kind f h = absurd f

note-not_domain :
    (r : RouteRule) (names : List Text) → is_domain r.kind ≡ false → note_coverage r names ≡ names
unfolding note_coverage
note-not_domain r names h = rw h refl

module _ (x : Externals) where
  -- A sighting of an address or a network covers no component by name.
  no_name_noted :
      (p : Policy) (i : Intake) (s : Sighting) (v : Verdict)
      → is_name s ≡ false
      → judge_sighting x p i.sufficient s ≡ v
      → (record_verdict i v).sufficient ≡ i.sufficient
  unfolding record_verdict
  no_name_noted p i s (accept r) h e =
      let t = judge_sighting_accept x p i.sufficient s r e in
      note-not_domain r i.sufficient (not_domain s.resource.kind r.kind t.fits h)
  no_name_noted p i s (exclude d) h e = refl
  no_name_noted p i s skip h e = refl

  -- So the names stay as they are while addresses are read, and each address is judged by all of them.
  IsTaken-under :
      (p : Policy) (ss : List Sighting) (i : Intake) (r : RouteRule)
      → All (λ s. is_name s ≡ false) ss
      → In r (admit_sightings x p ss i).accepted
      → In r i.accepted ⊎ ((s : Sighting) × In s ss × IsTaken p i.sufficient s r)
  unfolding admit_sightings
  IsTaken-under p [] i r a h = inl h
  IsTaken-under p (s ∷ ss) i r a h =
      let v = judge_sighting x p i.sufficient s in
      elim (IsTaken-under p ss (record_verdict i v) r a.1 h) [
        | inr (t, k, q) ↦
            inr (t, inr k, subst (λ names. IsTaken p names t r) (no_name_noted p i s v a.0 refl) q)
        | inl before ↦ elim (accepted_after i v r before) [
          | inl old ↦ inl old
          | inr e ↦ inr (s, inl refl, judge_sighting_accept x p i.sufficient s r e)
        ]
      ]

  sufficient_under :
      (p : Policy) (ss : List Sighting) (i : Intake)
      → All (λ s. is_name s ≡ false) ss
      → (admit_sightings x p ss i).sufficient ≡ i.sufficient
  unfolding admit_sightings
  sufficient_under p [] i a = refl
  sufficient_under p (s ∷ ss) i a =
      let v = judge_sighting x p i.sufficient s in
      sufficient_under p ss (record_verdict i v) a.1 ∙ no_name_noted p i s v a.0 refl

has_text_of_In : (t : Text) (ts : List Text) → In t ts → has_text t ts ≡ true
has_text_of_In t ts h = any-In_intro (λ u. text_eq u t) t ts h (text_eq_complete t t refl)

-- A rule that is not redundant under the names, though it is one that names replace.
no_name_for :
    (p : Policy) (names : List Text) (s : Sighting) (r : RouteRule)
    → IsTaken p names s r
    → p.options.keep_addresses_beside_names ≡ false
    → redundant_under_domains s r ≡ true
    → has_text r.component_id names ≡ false
unfolding is_redundant
no_name_for p names s r t off red = ground (arith, t.needed, t.admitted.carried)

-- A name is not what names replace.
name_kept :
    (k : ResourceKind) (s : Sighting) (r : RouteRule)
    → KindFits k r.kind
    → (elim k [ domain_resource ↦ true | _ ↦ false ]) ≡ true
    → redundant_under_domains s r ≡ false
name_kept domain_resource s r f h = rw f refl
name_kept ip_resource s r f h = cc
name_kept prefix_resource s r f h = cc
name_kept (other_resource t) s r f h = absurd f

not-true : (b : Bool) → not b ≡ true → b ≡ false
not-true b h = ground arith

module _ (x : Externals) where
  loops_NamesNoted :
      (p : Policy) (seeds : List Seed) (ss ts : List Sighting)
      → NamesNoted
          (admit_sightings x p ts (admit_sightings x p ss (admit_seeds x p seeds empty_intake)))
  loops_NamesNoted p seeds ss ts = admit_sightings-NamesNoted x p ts _ (
      admit_sightings-NamesNoted x p ss _
        (admit_seeds-NamesNoted x p seeds empty_intake (λ r i k. absurd i)))

  -- An address taken while the names stay as they are has no name of its component in the end.
  no_name_beside :
      (p : Policy) (i : Intake) (ts : List Sighting) (s : Sighting) (r : RouteRule)
      → All (λ t. is_name t ≡ false) ts
      → NamesNoted (admit_sightings x p ts i)
      → IsTaken p i.sufficient s r
      → p.options.keep_addresses_beside_names ≡ false
      → redundant_under_domains s r ≡ true
      → (n : RouteRule) → In n (admit_sightings x p ts i).accepted
      → is_domain n.kind ≡ true
      → n.component_id ≢ r.component_id
  no_name_beside p i ts s r a noted t off red n k d e =
      let there : In n.component_id i.sufficient =
        subst (In n.component_id) (sufficient_under x p ts i a) (noted n k d) in
      false≢true (
        sym (no_name_for p i.sufficient s r t off red)
        ∙ has_text_of_In r.component_id i.sufficient (subst (λ c. In c i.sufficient) e there))

  IsTaken-beside_names :
      (p : Policy) (input : ListInput) (r : RouteRule)
      → In r (intake_of x p input).accepted
      → In r (admit_seeds x p input.definition.seeds empty_intake).accepted
        ⊎ ((s : Sighting) × (names : List Text) × In s
              (canonical_sightings x.sha256_hex input.sightings)
            × IsTaken p names s r
            × (p.options.keep_addresses_beside_names ≡ false
                → redundant_under_domains s r ≡ true
                → (n : RouteRule) → In n (intake_of x p input).accepted
                → is_domain n.kind ≡ true
                → n.component_id ≢ r.component_id))
  unfolding intake_of admission_order
  IsTaken-beside_names p input r h =
      let ss = canonical_sightings x.sha256_hex input.sightings in
      let others = keep (λ s. not (is_name s)) ss in
      let seeds = admit_seeds x p input.definition.seeds empty_intake in
      let named = admit_sightings x p (keep is_name ss) seeds in
      let plain =
        All-of_In (λ s. is_name s ≡ false) others
          (λ s k. not-true (is_name s) (In-keep (λ t. not (is_name t)) s ss k).1) in
      let split = admit_sightings-append x p (keep is_name ss) others seeds in
      let noted = loops_NamesNoted p input.definition.seeds (keep is_name ss) others in
      elim (IsTaken-under x p others named r plain (subst (λ i. In r i.accepted) split h)) [
        | inr (s, k, t) ↦ inr (
          s,
          named.sufficient,
          (In-keep (λ t. not (is_name t)) s ss k).0,
          t,
          λ off red n i.
              no_name_beside p named others s r plain noted t off red n
                (subst (λ j. In n j.accepted) split i),
        )
        | inl before ↦ elim (IsTaken-from x p (keep is_name ss) seeds r before) [
          | inl seed ↦ inl seed
          | inr (s, names, k, t) ↦
              let (there, name) = In-keep is_name s ss k in
              inr (
                s,
                names,
                there,
                t,
                λ off red.
                    absurd (false≢true (sym (name_kept s.resource.kind s r t.fits name) ∙ red)),
              )
        ]
      ]

  -- Unless the operator asked to keep addresses, each accepted rule comes from a seed, or is taken
  -- from a sighting and then is no value that names replace, or no name of its component is
  -- accepted, whatever order the sightings came in.
  pub names_replace_addresses :
      (p : Policy) (input : ListInput) (r : RouteRule)
      → p.options.keep_addresses_beside_names ≡ false
      → In r (intake_of x p input).accepted
      → In r (admit_seeds x p input.definition.seeds empty_intake).accepted
        ⊎ ((s : Sighting) × (names : List Text) × In s
              (canonical_sightings x.sha256_hex input.sightings)
            × IsTaken p names s r
            × ((redundant_under_domains s r ≡ false)
                ⊎ All
                    (λ n. (is_domain n.kind ≡ false) ⊎ (n.component_id ≢ r.component_id))
                    (intake_of x p input).accepted))
  names_replace_addresses p input r off h = elim (IsTaken-beside_names p input r h) [
    | inl seed ↦ inl seed
    | inr (s, names, i, t, beside) ↦ inr (
      s,
      names,
      i,
      t,
      elim (Bool-cases (redundant_under_domains s r)) [
        | inr needed ↦ inl needed
        | inl replaced ↦ inr (
            All-of_In _ (intake_of x p input).accepted (λ n k.
              elim (Bool-cases (is_domain n.kind)) [
                | inr other ↦ inl other
                | inl name ↦ inr (beside off replaced n k name)
              ]))
      ],
    )
  ]
