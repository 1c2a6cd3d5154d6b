-- ===== src/Deploy/Service/Unattended.antt =====
-- `DeployUnattended` sends once, whatever the journal does.
use routevane.Common.{ℕ, ◌≡◌, refl, ap, ◌∙◌, false, ◌∷◌, Option, none, some}
use routevane.Common.Text.{Text}
use routevane.Common.Assoc.{get, put}
use routevane.Deploy.Failure.{Chain}
use routevane.Deploy.Attempt.{DeployCommand, DeployResult}
use routevane.Deploy.Journal.{Row, Rows, Faults, completed_row, JournalError}
use routevane.Deploy.Journal.Laws.{complete-settled, get-put_same}
use routevane.Deploy.Service.{
  Externals, World, AttemptError, deploy_unattended, UnattendedDeployment, unattended_begin,
  unattended_end, proposed, completed, journal_fault, outcome_status,
}

-- What `DeployUnattended` reports and leaves.
pub record SentOnce (x : Externals) (end : ℕ) (id : Text) (c : DeployCommand) (w : World)
    (answer : World × UnattendedDeployment) : Type 0 where
  pub sends : answer.0.sends ≡ record { attempt_id = id; command = c; attended = false } ∷ w.sends
  pub outcome :
      (answer.1.result ≡ (x.execute w.sends c).0) × (answer.1.error ≡ (x.execute w.sends c).1)
  pub recorded :
      answer.1.journal_error ≡ none
      → (r : Row) × (get id answer.0.rows ≡ some r)
        × (r.status ≡ outcome_status (x.execute w.sends c).1)
        × (r.result_json ≡ some (x.execute w.sends c).0)

module _ (x : Externals) where
  completed-row :
      (start end : ℕ) (id : Text) (c : DeployCommand) (outcome : DeployResult × Option Chain)
      (r : Row)
      → let a = completed x end (proposed x start id c) outcome in
        (a.id ≡ id)
        × ((completed_row a r).status ≡ outcome_status outcome.1)
        × ((completed_row a r).result_json ≡ some outcome.0)
  unfolding completed proposed
  completed-row start end id c outcome r = (refl, refl, refl)

  fault-none : (o : Option JournalError) → journal_fault o ≡ none → o ≡ none
  fault-none none h = refl
  fault-none (some e) h = cc

  end-recorded :
      (f : Faults) (start end : ℕ) (id : Text) (c : DeployCommand)
      (outcome : DeployResult × Option Chain) (e : Option AttemptError) (rows : Rows)
      → (unattended_end x f end (proposed x start id c) outcome e rows).1 ≡ none
      → (r : Row) × (get id (unattended_end x f end (proposed x start id c) outcome e rows).0
          ≡ some r)
        × (r.status ≡ outcome_status outcome.1)
        × (r.result_json ≡ some outcome.0)
  end-recorded f start end id c outcome (some e) rows h = cc
  end-recorded f start end id c outcome none rows h =
      let a = completed x end (proposed x start id c) outcome in
      let (r, present, same, after) = complete-settled f a rows (fault-none _ h) in
      let (named, status, result) = completed-row start end id c outcome r in
      (
        completed_row a r,
        ap (get id) after
            ∙ ap (λ k. get id (put k (completed_row a r) rows)) named
            ∙ get-put_same id (completed_row a r) rows,
        status,
        result,
      )

  -- Whatever statements of the journal fail and whoever holds the identity, `DeployUnattended`
  -- calls the deployment service once with its command and reports its own outcome; where it
  -- reports no fault of the journal, the row of the identity holds that outcome.
  pub deploy_unattended-SentOnce :
      (f : Faults) (start end : ℕ) (id : Text) (c : DeployCommand) (w : World)
      → SentOnce x end id c w (deploy_unattended x f start end id c w)
  unfolding deploy_unattended
  deploy_unattended-SentOnce f start end id c w = record {
    sends = refl;
    outcome = (refl, refl);
    recorded = λ h.
        end-recorded f start end id c (x.execute w.sends c)
          (unattended_begin x f start id c w.rows).1 (unattended_begin x f start id c w.rows).0 h;
  }
