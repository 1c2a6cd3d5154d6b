-- ===== src/Deploy/Journal.antt =====
-- internal/infrastructure/sqlite/deployment_attempts.go: the table of attempts.
-- The rows are a map by identity, which is the table's primary key. A statement that fails leaves
-- the rows as they are.
pub mod Laws
use routevane.Common.{
  ℕ, Bool, true, false, ◌&&◌, ◌||◌, not, List, [], ◌∷◌, Option, none, some, ◌⊎◌, inl, inr, leb, ltb,
  ◌==◌, if◌then◌else◌, length,
}
use routevane.Common.Text.{Text, text_eq, Text-discrete}
use routevane.Common.Assoc.{Map, get, put, is_key}
use routevane.Domain.Names.{is_empty}
use routevane.Encoding.Hex.{is_hex_id, valid_hash}
use routevane.Deploy.Attempt.{
  DeployResult, AttemptStatus, pending, succeeded, failed, is_pending, DeploymentAttempt,
  empty_result,
}

-- The columns; `result_json` is none for the empty text.
pub record Row : Type 0 where
  pub artifact_id : Text
  pub device_id : Text
  pub request_hash : Text
  pub status : AttemptStatus
  pub started_at : ℕ
  pub completed_at : ℕ
  pub result_json : Option DeployResult
  pub error_code : Text

abbrev pub Rows : Type 0
Rows = Map Row

pub data JournalError : Type 0 where
  invalid_attempt storage not_found attempt_mismatch : JournalError

-- Which statements of a call fail.
pub record Faults : Type 0 where
  pub insert_fails : Bool
  pub read_fails : Bool
  pub update_fails : Bool

abbrev pub no_faults : Faults
no_faults = record { insert_fails = false; read_fails = false; update_fails = false }

pub data Begun : Type 0 where
  not_begun : JournalError → Begun
  begun : DeploymentAttempt → Bool → Begun

-- The CHECK of the column `device_id` and `validAttemptDevice`
abbrev pub valid_attempt_device : Text → Bool
valid_attempt_device id = is_empty id || is_hex_id id

abbrev pub valid_identity : DeploymentAttempt → Bool
valid_identity a =
    is_hex_id a.id
    && is_hex_id a.artifact_id
    && valid_attempt_device a.device_id
    && valid_hash a.request_hash

unfoldable pub valid_pending : DeploymentAttempt → Bool
unfolding is_hex_id valid_hash
valid_pending a =
    valid_identity a
    && is_pending a.status
    && ltb 0 a.started_at
    && a.completed_at == 0
    && is_empty a.error

abbrev pub valid_outcome : DeploymentAttempt → AttemptStatus → Bool
valid_outcome a pending = false
valid_outcome a succeeded = is_empty a.error && a.result.applied
valid_outcome a failed = not (is_empty a.error) && not a.result.applied

unfoldable pub valid_completed : DeploymentAttempt → Bool
unfolding is_hex_id valid_hash
valid_completed a =
    valid_identity a
    && ltb 0 a.started_at
    && ltb 0 a.completed_at
    && leb a.started_at a.completed_at
    && leb (length a.error) 64
    && valid_outcome a a.status

abbrev pub pending_row : DeploymentAttempt → Row
pending_row a = record {
  artifact_id = a.artifact_id;
  device_id = a.device_id;
  request_hash = a.request_hash;
  status = a.status;
  started_at = a.started_at;
  completed_at = 0;
  result_json = none;
  error_code = [];
}

abbrev pub same_identity : DeploymentAttempt → Row → Bool
same_identity a r =
    text_eq r.artifact_id a.artifact_id
    && text_eq r.device_id a.device_id
    && text_eq r.request_hash a.request_hash

abbrev pub completed_row : DeploymentAttempt → Row → Row
completed_row a r = record r {
  status = a.status;
  completed_at = a.completed_at;
  result_json = some a.result;
  error_code = a.error;
}

-- `UPDATE ... WHERE id=? AND ... AND status='pending'`; none where no row changed.
abbrev pub updated : DeploymentAttempt → Rows → Option Row → Option Rows
updated a rows none = none
updated a rows (some r) =
    if same_identity a r && is_pending r.status
    then some (put a.id (completed_row a r) rows)
    else none

abbrev pub changed_or : Rows → Option Rows → Rows × Option JournalError
changed_or rows none = (rows, some attempt_mismatch)
changed_or rows (some next) = (next, none)

unfoldable pub complete_attempt : Faults → DeploymentAttempt → Rows → Rows × Option JournalError
unfolding get put valid_completed Text-discrete
complete_attempt f a rows =
    if not (valid_completed a)
    then (rows, some invalid_attempt)
    else if f.update_fails
    then (rows, some storage)
    else changed_or rows (updated a rows (get a.id rows))

-- `INSERT ... ON CONFLICT(id) DO NOTHING`
abbrev pub insert_new : DeploymentAttempt → Rows → Rows
insert_new a rows = if is_key a.id rows then rows else put a.id (pending_row a) rows

-- `reread` is what `json.Unmarshal` reads back of a result that `json.Marshal` wrote.
module _ (reread : DeployResult → DeployResult) where
  abbrev pub scanned_result : Option DeployResult → DeployResult
  scanned_result none = empty_result []
  scanned_result (some result) = reread result

  -- `scanDeploymentAttempt`
  abbrev pub scan_attempt : Text → Row → DeploymentAttempt
  scan_attempt id r = record {
    id = id;
    artifact_id = r.artifact_id;
    device_id = r.device_id;
    request_hash = r.request_hash;
    status = r.status;
    started_at = r.started_at;
    completed_at = r.completed_at;
    result = scanned_result r.result_json;
    error = r.error_code;
  }

  abbrev pub selected : Text → Bool → Option Row → Begun
  selected id created none = not_begun not_found
  selected id created (some r) = begun (scan_attempt id r) created

  unfoldable pub begin_attempt : Faults → DeploymentAttempt → Rows → Rows × Begun
  unfolding is_key get put valid_pending
  begin_attempt f a rows =
      if not (valid_pending a)
      then (rows, not_begun invalid_attempt)
      else if f.insert_fails
      then (rows, not_begun storage)
      else if f.read_fails
      then (insert_new a rows, not_begun storage)
      else (
        insert_new a rows,
        selected a.id (not (is_key a.id rows)) (get a.id (insert_new a rows)),
      )

  abbrev pub read_row : Text → Option Row → JournalError ⊎ DeploymentAttempt
  read_row id none = inl not_found
  read_row id (some r) = inr (scan_attempt id r)

  unfoldable pub read_attempt : Text → Rows → JournalError ⊎ DeploymentAttempt
  unfolding get is_hex_id
  read_attempt id rows = if not (is_hex_id id) then inl not_found else read_row id (get id rows)
