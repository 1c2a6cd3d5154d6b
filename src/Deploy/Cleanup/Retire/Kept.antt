-- ===== src/Deploy/Cleanup/Retire/Kept.antt =====
-- What has been removed before a retirement.
use routevane.Common.{All, In, ◌≡◌, true, false, List, [], ◌∷◌}
use routevane.Common.Text.{Text}
use routevane.Deploy.Delivery.{found}
use routevane.Deploy.Cleanup.{DeviceCleanupConfig, Output, History, DeviceCleanupAttempt}
use routevane.Deploy.Cleanup.Surfaces.{SurfaceKey, surface_key, EachLedger}
use routevane.Deploy.Progress.{Ended}
use routevane.Deploy.Cleanup.Act.{Cleanup, Planned}
use routevane.Deploy.Cleanup.Reached.{Reached}
use routevane.Deploy.Cleanup.Act.Rounds.{Done}
use routevane.Deploy.Cleanup.Act.Safe.{Safe, Ready}
use routevane.Deploy.Cleanup.Retire.{ShelvedProfile, is_archived, CleanupPublication}

-- A surface is cleaned: the removal that was planned for it ran without an error, with the connection
-- of a saved device whose deployer is at the surface, and the attempt that records it is in the cleanup.
pub record SurfaceCleaned (w : DeviceCleanupConfig) (c : Cleanup) (k : SurfaceKey) : Type 0 where
  pub history : History
  pub planned : Planned
  pub run : Ended
  pub attempt : DeviceCleanupAttempt
  pub surface : surface_key planned.entry.objects ≡ k
  pub reached : Reached w planned.entry
  pub ready : Ready w planned
  pub done : Done w history planned run attempt
  pub has_attempt : In attempt c.attempts
  pub has_run : In run c.history

-- Every surface that a ledger names for these outputs is cleaned.
abbrev pub AllRemoved : DeviceCleanupConfig → List Output → Cleanup → Type 0
AllRemoved w outputs c = All (EachLedger w (SurfaceCleaned w c)) outputs

-- The removal of one planned surface, in the cleanup.
record DoneIn (w : DeviceCleanupConfig) (k : History) (attempts : List DeviceCleanupAttempt)
    (p : Planned) : Type 0 where
  pub history : History
  pub run : Ended
  pub attempt : DeviceCleanupAttempt
  pub done : Done w history p run attempt
  pub has_attempt : In attempt attempts
  pub has_run : In run k

module _ (w : DeviceCleanupConfig) (publication : CleanupPublication) where
  abbrev pub OutputRetired : Text → Cleanup → Type 0
  OutputRetired id c =
      (o : Output) × (publication.output id ≡ found o)
      × ((l : ShelvedProfile) × (publication.profile o.profile_id ≡ found l)
          × (is_archived l ≡ false))
      × AllRemoved w (o ∷ []) c

  abbrev pub ProfileDeleted : Text → Cleanup → Type 0
  ProfileDeleted id c =
      (l : ShelvedProfile) × (outputs : List Output) × (publication.profile id ≡ found l)
      × (is_archived l ≡ true)
      × (publication.outputs l.id ≡ found outputs)
      × AllRemoved w outputs c
