-- ===== src/Deploy/Cleanup/Retire.antt =====
-- `RemoveOutput` and `DeleteProfile` of internal/application/device_cleanup.go: a retirement after the
-- removal of what was delivered.
pub mod Kept
use routevane.Common.{ℕ, Bool, true, false, not, ◌==◌, List, [], ◌∷◌}
use routevane.Common.Text.{Text}
use routevane.Deploy.Failure.{Chain, profile_archived, profile_not_archived}
use routevane.Deploy.Delivery.{Answered, refused, found, ◌>>=◌, guard}
use routevane.Deploy.Cleanup.{DeviceCleanupConfig, Output}
use routevane.Deploy.Cleanup.Act.{Cleanup, CleanupOutcome, cleaned, clean}

-- The fields of a profile that a retirement reads; 0 is no moment.
pub record ShelvedProfile : Type 0 where
  pub id : Text
  pub archived_at : ℕ

-- `Archived` of internal/application/archive.go
abbrev pub is_archived : ShelvedProfile → Bool
is_archived l = not (l.archived_at == 0)

-- A retirement may depend on the removals before it.
pub record CleanupPublication : Type 0 where
  pub output : Text → Answered Output
  pub profile : Text → Answered ShelvedProfile
  pub outputs : Text → Answered (List Output)
  pub remove_output : Cleanup → Text → Answered ℕ
  pub delete_profile : Cleanup → Text → Answered ℕ

pub data Retirement : Type 0 where
  refused_before : Chain → Retirement
  not_cleaned : Cleanup → Retirement
  not_retired : Cleanup → Chain → Retirement
  retired : Cleanup → ℕ → Retirement

abbrev pub after_cleaned : Cleanup → Answered ℕ → Retirement
after_cleaned c (refused e) = not_retired c e
after_cleaned c (found moment) = retired c moment

abbrev pub after_cleanup : Cleanup → CleanupOutcome → Answered ℕ → Retirement
after_cleanup c cleaned answer = after_cleaned c answer
after_cleanup c _ answer = not_cleaned c

module _ (w : DeviceCleanupConfig) (publication : CleanupPublication) where
  unfoldable pub removable_output : Text → Answered Output
  removable_output id = do
    o ← publication.output id
    l ← publication.profile o.profile_id
    writable ← guard (not (is_archived l)) (profile_archived ∷ [])
    found o

  abbrev pub remove_found : Answered Output → Retirement
  remove_found (refused e) = refused_before e
  remove_found (found o) =
      let c = clean w (o ∷ []) in after_cleanup c c.outcome (publication.remove_output c o.id)

  -- `RemoveOutput`
  unfoldable pub remove_output : Text → Retirement
  unfolding removable_output clean
  remove_output id = remove_found (removable_output id)

  unfoldable pub deletable_profile : Text → Answered (ShelvedProfile × List Output)
  deletable_profile id = do
    l ← publication.profile id
    archived ← guard (is_archived l) (profile_not_archived ∷ [])
    outputs ← publication.outputs l.id
    found (l, outputs)

  abbrev pub delete_found : Answered (ShelvedProfile × List Output) → Retirement
  delete_found (refused e) = refused_before e
  delete_found (found (l, outputs)) =
      let c = clean w outputs in after_cleanup c c.outcome (publication.delete_profile c l.id)

  -- `DeleteProfile`
  unfoldable pub delete_profile : Text → Retirement
  unfolding deletable_profile clean
  delete_profile id = delete_found (deletable_profile id)
