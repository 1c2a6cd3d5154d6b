-- ===== src/Deploy/Attempt.antt =====
-- internal/application: what a delivery is asked for, what it answers, and its durable attempt.
-- An instant is a number of nanoseconds, and 0 is the zero time.
use routevane.Common.{Option, ℕ, Bool, true, false, List, []}
use routevane.Common.Text.{Text}

pub record Connection : Type 0 where
  pub url : Text
  pub username : Text
  pub password : Text
  pub interface_name : Text

pub record DeviceConnectionSnapshot : Type 0 where
  pub address : Text
  pub account : Text
  pub interface_name : Text

pub record DeployCommand : Type 0 where
  pub artifact_id : Text
  pub device_id : Text
  pub expected_connection : Option DeviceConnectionSnapshot
  pub connection : Connection
  pub confirm : Bool
  pub saved_device_id : Text

pub record DeviceInfo : Type 0 where
  pub deployer_id : Text
  pub vendor : Text
  pub model : Text
  pub firmware_version : Text
  pub format_key : Text
  pub interface_name : Text

pub record BackupRef : Type 0 where
  pub id : Text
  pub path : Text
  pub hash : Text
  pub size_bytes : ℕ
  pub created_at : ℕ

-- The duration of a step is left out.
pub record DeployEvent : Type 0 where
  pub step : Text
  pub succeeded : Bool
  pub detail : Text

pub record DeployResult : Type 0 where
  pub device : DeviceInfo
  pub backup : BackupRef
  pub artifact_id : Text
  pub applied : Bool
  pub rolled_back : Bool
  pub events : List DeployEvent

abbrev pub no_device : DeviceInfo
no_device = record {
  deployer_id = [];
  vendor = [];
  model = [];
  firmware_version = [];
  format_key = [];
  interface_name = [];
}

abbrev pub no_backup : BackupRef
no_backup = record { id = []; path = []; hash = []; size_bytes = 0; created_at = 0 }

abbrev pub empty_result : Text → DeployResult
empty_result artifact_id = record {
  device = no_device;
  backup = no_backup;
  artifact_id = artifact_id;
  applied = false;
  rolled_back = false;
  events = [];
}

pub data AttemptStatus : Type 0 where
  pending succeeded failed : AttemptStatus

abbrev pub is_pending : AttemptStatus → Bool
is_pending pending = true
is_pending _ = false

pub record DeploymentAttempt : Type 0 where
  pub id : Text
  pub artifact_id : Text
  pub device_id : Text
  pub request_hash : Text
  pub status : AttemptStatus
  pub started_at : ℕ
  pub completed_at : ℕ
  pub result : DeployResult
  pub error : Text
