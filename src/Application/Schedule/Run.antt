-- ===== src/Application/Schedule/Run.antt =====
-- `RunDueRefreshes` of internal/application/schedule.go: one tick of the scheduler.
pub mod InOrder
use routevane.Common.{
  ℕ, Bool, true, false, ◌&&◌, ◌||◌, not, ◌==◌, List, [], ◌∷◌, ◌++◌, ◌+◌, Option, none, some,
  if◌then◌else◌,
}
use routevane.Common.Text.{Text, codes}
use routevane.Domain.Names.{is_empty}
use routevane.Application.Schedule.{
  RefreshInterval, refresh_off, valid_default, period, Profile, schedule_of, due,
}

-- What a tick has asked so far, the latest first.
pub data TickCall : Type 0 where
  refreshed : Text → TickCall
  listed : Text → TickCall
  built : Text → TickCall
  recorded : Text → (failed : Bool) → TickCall

abbrev pub TickCalls : Type 0
TickCalls = List TickCall

pub record ScheduledOutput : Type 0 where
  pub id : Text
  pub target_id : Text
  pub device_id : Text

-- The text of an error, or a value.
pub data OrError (V : Type 0) : Type 0 where
  error : Text → OrError V
  value : V → OrError V

pub data Recorded : Type 0 where
  kept : Recorded
  profile_gone : Recorded
  store_failed : Text → Recorded

-- `Refresh` and `Build` of the publication, and the store; an answer may depend on the calls before it.
pub record TickServices : Type 0 where
  pub setting : OrError RefreshInterval
  pub profiles_for_scheduling : OrError (List Profile)
  pub now : ℕ
  pub refresh : TickCalls → Text → Option Text
  pub outputs : TickCalls → Text → OrError (List ScheduledOutput)
  pub build : TickCalls → Text → OrError Text
  pub record_result : TickCalls → Text → Bool → Recorded

pub record ScheduledPublication : Type 0 where
  pub output_id : Text
  pub target_id : Text
  pub device_id : Text
  pub artifact_id : Text

pub record ScheduledOutputFailure : Type 0 where
  pub output_id : Text
  pub target_id : Text
  pub code : Text

-- The deliveries, which a later part of the program fills in, are left out.
pub record ScheduledRun : Type 0 where
  pub profile_id : Text
  pub at : ℕ
  pub built_count : ℕ
  pub publications : List ScheduledPublication
  pub failures : List ScheduledOutputFailure
  pub error : Text

abbrev pub new_run : Text → ℕ → ScheduledRun
new_run id now = record {
  profile_id = id;
  at = now;
  built_count = 0;
  publications = [];
  failures = [];
  error = [];
}

abbrev pub none_failed : List ScheduledOutputFailure → Bool
none_failed [] = true
none_failed (f ∷ fs) = false

-- `Failed`
abbrev pub run_failed : ScheduledRun → Bool
run_failed r = not (is_empty r.error) || not (none_failed r.failures)

pub record Ticked : Type 0 where
  pub calls : TickCalls
  pub runs : List ScheduledRun
  pub error : Option Text

abbrev pub ticked : TickCalls → List ScheduledRun → Option Text → Ticked
ticked calls runs e = record { calls = calls; runs = runs; error = e }

-- `DefaultRefreshInterval`; an unknown rule is off.
abbrev pub known_default : RefreshInterval → RefreshInterval
known_default i = if valid_default i then i else refresh_off

abbrev pub scheduled_or_off : Option ℕ → RefreshInterval → RefreshInterval
scheduled_or_off none i = refresh_off
scheduled_or_off (some p) i = i

-- Not archived, and due.
unfoldable pub is_due : RefreshInterval → ℕ → Profile → Bool
unfolding schedule_of due
is_due fallback now p = p.archived_at == 0 && due (schedule_of p fallback) now

module _ (s : TickServices) where
  abbrev pub note_built : ScheduledOutput → OrError Text → ScheduledRun → ScheduledRun
  note_built o (error code) r = record r {
    failures = r.failures ++ record { output_id = o.id; target_id = o.target_id; code = code } ∷ [];
  }
  note_built o (value artifact) r = record r {
    built_count = r.built_count + 1;
    publications =
        r.publications
        ++ record {
          output_id = o.id;
          target_id = o.target_id;
          device_id = o.device_id;
          artifact_id = artifact;
        }
          ∷ [];
  }

  unfoldable pub build_outputs :
      TickCalls → ScheduledRun → List ScheduledOutput → TickCalls × ScheduledRun
  build_outputs calls r [] = (calls, r)
  build_outputs calls r (o ∷ outputs) =
      build_outputs (built o.id ∷ calls) (note_built o (s.build calls o.id) r) outputs

  abbrev pub run_outputs :
      TickCalls → ScheduledRun → OrError (List ScheduledOutput) → TickCalls × ScheduledRun
  run_outputs calls r (error e) = (calls, record r { error = e })
  run_outputs calls r (value outputs) = build_outputs calls r outputs

  abbrev pub run_refreshed : TickCalls → ScheduledRun → Option Text → TickCalls × ScheduledRun
  run_refreshed calls r (some e) = (calls, record r { error = e })
  run_refreshed calls r none =
      run_outputs (listed r.profile_id ∷ calls) r (s.outputs calls r.profile_id)

  -- The refresh of one profile and the build of each of its outputs.
  unfoldable pub run_profile : TickCalls → Text → TickCalls × ScheduledRun
  unfolding build_outputs
  run_profile calls id =
      run_refreshed (refreshed id ∷ calls) (new_run id s.now) (s.refresh calls id)

  -- The runs so far come first.
  unfoldable pub run_profiles :
      RefreshInterval → TickCalls → List ScheduledRun → List Profile → Ticked
  unfolding run_profile is_due
  run_profiles fallback calls runs [] = ticked calls runs none
  run_profiles fallback calls runs (p ∷ profiles) =
      let (after, r) = run_profile calls p.id in
      let failed = run_failed r in
      let next = recorded p.id failed ∷ after in
      let rest = run_profiles fallback next (runs ++ r ∷ []) profiles in
      let skipped = run_profiles fallback calls runs profiles in
      if not (is_due fallback s.now p) then skipped else elim (s.record_result after p.id failed) [
        | store_failed e ↦ ticked next runs (some e)
        | _ ↦ rest
      ]

  abbrev pub tick_with : OrError RefreshInterval → OrError (List Profile) → Ticked
  tick_with (error e) profiles = ticked [] [] (some e)
  tick_with (value i) (error e) = ticked [] [] (some e)
  tick_with (value i) (value profiles) =
      if s.now == 0
      then ticked [] [] (some (codes "clock returned zero time"))
      else let fallback = known_default i in
        run_profiles (scheduled_or_off (period fallback) fallback) [] [] profiles

  -- `RunDueRefreshes`
  unfoldable pub run_due_refreshes : Ticked
  unfolding run_profiles valid_default period
  run_due_refreshes = tick_with s.setting s.profiles_for_scheduling
