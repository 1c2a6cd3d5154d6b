-- ===== src/Deploy/Service.antt =====
-- internal/application/deployment_attempt.go: the service of deployment attempts.
-- A call returns the rows and the sends that it leaves, and its answer. An answer without an
-- attempt stands for the zero value.
pub mod Claims
pub mod Machine
pub mod Once
pub mod Answerable
pub mod Replay
pub mod Unattended
use routevane.Common.{
  ℕ, Bool, true, false, ◌&&◌, ◌||◌, not, List, [], ◌∷◌, Option, none, some, ◌⊎◌, inl, inr,
  if◌then◌else◌,
}
use routevane.Common.Text.{Text, text_eq, Text-discrete}
use routevane.Encoding.Hex.{valid_attempt_id}
use routevane.Deploy.Failure.{Chain, failure_code}
use routevane.Deploy.Attempt.{
  DeployCommand, DeployResult, AttemptStatus, pending, succeeded, failed, is_pending,
  DeploymentAttempt, empty_result,
}
use routevane.Deploy.Journal.{
  Rows, Faults, JournalError, not_found, Begun, begun, not_begun, begin_attempt, complete_attempt,
  read_attempt,
}

-- One call of the deployment service, and whether `Deploy` made it or `DeployUnattended`.
pub record Send : Type 0 where
  pub attempt_id : Text
  pub command : DeployCommand
  pub attended : Bool

-- `execute` is the deployment service's answer to a command after earlier sends, `redacted_json`
-- the JSON of the redacted request, and `reread` what the JSON of a result reads back as.
pub record Externals : Type 0 where
  pub sha256_hex : Text → Text
  pub redacted_json : Text → Text → Text → Text → Text
  pub reread : DeployResult → DeployResult
  pub execute : List Send → DeployCommand → DeployResult × Option Chain

pub record World : Type 0 where
  pub rows : Rows
  pub sends : List Send

pub data AttemptError : Type 0 where
  attempt_invalid another_request outcome_unknown : AttemptError
  journal_failed : JournalError → AttemptError
  delivery_failed : Chain → AttemptError

pub record Answer : Type 0 where
  pub attempt : Option DeploymentAttempt
  pub error : Option AttemptError

-- What claiming the identity decides.
pub data Claim : Type 0 where
  settled : Answer → Claim
  go : DeploymentAttempt → Claim

abbrev pub answer : Option DeploymentAttempt → Option AttemptError → Answer
answer a e = record { attempt = a; error = e }

abbrev pub same_request : DeploymentAttempt → DeploymentAttempt → Bool
same_request a p =
    text_eq a.artifact_id p.artifact_id
    && text_eq a.device_id p.device_id
    && text_eq a.request_hash p.request_hash

abbrev pub judge_begun : DeploymentAttempt → Begun → Claim
judge_begun p (not_begun e) = settled (answer none (some (journal_failed e)))
judge_begun p (begun a created) =
    if not (same_request a p)
    then settled (answer none (some another_request))
    else if created
    then go p
    else if is_pending a.status
    then settled (answer (some a) (some outcome_unknown))
    else settled (answer (some a) none)

abbrev pub outcome_status : Option Chain → AttemptStatus
outcome_status none = succeeded
outcome_status (some chain) = failed

abbrev pub reported : Option Chain → Option AttemptError
reported none = none
reported (some chain) = some (delivery_failed chain)

abbrev pub recorded_answer :
    DeploymentAttempt → DeploymentAttempt → Option Chain → Option JournalError → Answer
recorded_answer p c why none = answer (some c) (reported why)
recorded_answer p c why (some e) = answer (some p) (some outcome_unknown)

abbrev pub sent : Text → DeployCommand → Bool → World → Rows → World
sent id c attended w rows = record {
  rows = rows;
  sends = record { attempt_id = id; command = c; attended = attended } ∷ w.sends;
}

pub record UnattendedDeployment : Type 0 where
  pub result : DeployResult
  pub error : Option Chain
  pub journal_error : Option AttemptError

-- Whether the send is recorded, and the fault of the journal.
abbrev pub unattended_claim : Begun → Option AttemptError
unattended_claim (not_begun e) = some (journal_failed e)
unattended_claim (begun a true) = none
unattended_claim (begun a false) = some another_request

abbrev pub journal_fault : Option JournalError → Option AttemptError
journal_fault none = none
journal_fault (some e) = some (journal_failed e)

abbrev pub attempt_answer : JournalError ⊎ DeploymentAttempt → Answer
attempt_answer (inl e) = answer none (some (journal_failed e))
attempt_answer (inr a) =
    answer (some a) (if is_pending a.status then some outcome_unknown else none)

module _ (x : Externals) where
  -- `deploymentRequestHash`
  unfoldable pub request_hash : DeployCommand → Text
  request_hash c = x.sha256_hex (
      x.redacted_json c.artifact_id c.connection.url c.connection.username
        c.connection.interface_name)

  unfoldable pub proposed : ℕ → Text → DeployCommand → DeploymentAttempt
  unfolding request_hash
  proposed now id c = record {
    id = id;
    artifact_id = c.artifact_id;
    device_id = c.saved_device_id;
    request_hash = request_hash c;
    status = pending;
    started_at = now;
    completed_at = 0;
    result = empty_result [];
    error = [];
  }

  -- `completed`
  unfoldable pub completed : ℕ → DeploymentAttempt → DeployResult × Option Chain → DeploymentAttempt
  unfolding failure_code
  completed now p (result, why) = record p {
    result = result;
    completed_at = now;
    error = failure_code why;
    status = outcome_status why;
  }

  -- `Deploy` up to the call of the deployment service.
  unfoldable pub claim : Faults → ℕ → Text → DeployCommand → Rows → Rows × Claim
  unfolding valid_attempt_id begin_attempt proposed Text-discrete
  claim f now id c rows =
      if not c.confirm || not (valid_attempt_id id)
      then (rows, settled (answer none (some attempt_invalid)))
      else let b = begin_attempt x.reread f (proposed now id c) rows in
        (b.0, judge_begun (proposed now id c) b.1)

  -- `Deploy` after the answer of the deployment service.
  unfoldable pub finish :
      Faults → ℕ → DeploymentAttempt → DeployResult × Option Chain → Rows → Rows × Answer
  unfolding complete_attempt completed
  finish f now p outcome rows =
      let u = complete_attempt f (completed now p outcome) rows in
      (u.0, recorded_answer p (completed now p outcome) outcome.1 u.1)

  abbrev pub proceed : Faults → ℕ → Text → DeployCommand → World → Rows × Claim → World × Answer
  proceed f now id c w (rows, settled a) = (record w { rows = rows }, a)
  proceed f now id c w (rows, go p) =
      let done = finish f now p (x.execute w.sends c) rows in (sent id c true w done.0, done.1)

  unfoldable pub deploy : Faults → ℕ → ℕ → Text → DeployCommand → World → World × Answer
  unfolding claim finish
  deploy f start end id c w = proceed f end id c w (claim f start id c w.rows)

  abbrev pub unattended_begin :
      Faults → ℕ → Text → DeployCommand → Rows → Rows × Option AttemptError
  unattended_begin f now id c rows =
      if not (c.confirm && valid_attempt_id id)
      then (rows, some attempt_invalid)
      else let b = begin_attempt x.reread f (proposed now id c) rows in (b.0, unattended_claim b.1)

  abbrev pub unattended_end :
      Faults
      → ℕ
      → DeploymentAttempt
      → DeployResult × Option Chain
      → Option AttemptError
      → Rows
      → Rows × Option AttemptError
  unattended_end f now p outcome (some e) rows = (rows, some e)
  unattended_end f now p outcome none rows =
      let u = complete_attempt f (completed now p outcome) rows in (u.0, journal_fault u.1)

  unfoldable pub deploy_unattended :
      Faults → ℕ → ℕ → Text → DeployCommand → World → World × UnattendedDeployment
  unfolding begin_attempt complete_attempt proposed completed valid_attempt_id
  deploy_unattended f start end id c w =
      let first = unattended_begin f start id c w.rows in
      let outcome = x.execute w.sends c in
      let last = unattended_end f end (proposed start id c) outcome first.1 first.0 in
      (
        sent id c false w last.0,
        record { result = outcome.0; error = outcome.1; journal_error = last.1 },
      )

  -- `Attempt`
  unfoldable pub attempt : Text → Rows → Answer
  unfolding valid_attempt_id read_attempt
  attempt id rows =
      if not (valid_attempt_id id)
      then answer none (some (journal_failed not_found))
      else attempt_answer (read_attempt x.reread id rows)
