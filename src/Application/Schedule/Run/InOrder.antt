-- ===== src/Application/Schedule/Run/InOrder.antt =====
-- Which profiles a tick runs, and in which order.
use routevane.Common.{Bool, List, [], ◌∷◌, ◌++◌, none, some, ◌≡◌, map, keep}
use routevane.Common.Text.{Text}
use routevane.Application.Schedule.{period, RefreshInterval, Profile}
use routevane.Application.Schedule.Run.{
  known_default, scheduled_or_off, refreshed, recorded, TickCalls, error, Recorded, store_failed,
  TickServices, ScheduledRun, run_failed, Ticked, ticked, is_due, run_profile, run_profiles,
}

-- The refreshes of a tick and the results that it recorded, the first one first.
abbrev pub refreshes : TickCalls → List Text
refreshes [] = []
refreshes (refreshed id ∷ calls) = refreshes calls ++ id ∷ []
refreshes (c ∷ calls) = refreshes calls

abbrev pub recordings : TickCalls → List (Text × Bool)
recordings [] = []
recordings (recorded id failed ∷ calls) = recordings calls ++ (id, failed) ∷ []
recordings (c ∷ calls) = recordings calls

abbrev pub summary : ScheduledRun → Text × Bool
summary r = (r.profile_id, run_failed r)

-- Each run has one refresh, and one record of its outcome.
abbrev Paired : TickCalls → List ScheduledRun → Type 0
Paired calls runs =
    (refreshes calls ≡ map (λ r. r.profile_id) runs) × (recordings calls ≡ map summary runs)

module _ (s : TickServices) where
  -- What the builds of a run leave as it was.
  abbrev Same : TickCalls → ScheduledRun → TickCalls × ScheduledRun → Type 0
  Same calls r (after, q) =
      (refreshes after ≡ refreshes calls)
      × (recordings after ≡ recordings calls)
      × (q.profile_id ≡ r.profile_id)

  abbrev pub due_ids : RefreshInterval → List Profile → List Text
  due_ids fallback profiles = map (λ p. p.id) (keep (is_due fallback s.now) profiles)

  -- The runs that a tick has added, and the due profiles that it has left.
  pub record InOrder (fallback : RefreshInterval) (profiles : List Profile)
      (runs : List ScheduledRun) (t : Ticked) : Type 0 where
    pub added : List ScheduledRun
    pub left : List Text
    pub grown : t.runs ≡ runs ++ added
    pub in_order : due_ids fallback profiles ≡ map (λ r. r.profile_id) added ++ left
    pub all_run : t.error ≡ none → (left ≡ []) × Paired t.calls t.runs

  -- What a tick does once it has recorded a run.
  abbrev after_record :
      RefreshInterval → Profile → List Profile → TickCalls → List ScheduledRun → Recorded → Ticked
  after_record fallback p profiles calls runs a =
      let (after, r) = run_profile s calls p.id in
      let next = recorded p.id (run_failed r) ∷ after in
      let rest = run_profiles s fallback next (runs ++ r ∷ []) profiles in
      elim a [ store_failed e ↦ ticked next runs (some e) | _ ↦ rest ]

  abbrev pub fallback_of : RefreshInterval → RefreshInterval
  fallback_of i = scheduled_or_off (period (known_default i)) (known_default i)
