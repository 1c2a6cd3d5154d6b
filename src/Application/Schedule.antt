-- ===== src/Application/Schedule.antt =====
-- internal/application/schedule.go: the rule that a profile is refreshed by, and when it is due.
-- An instant is a number of nanoseconds from Go's zero time, which is 0.
pub mod Due
pub mod Run
pub mod Settings
use routevane.Common.{
  ℕ, ◌+◌, ◌*◌, Bool, true, false, not, List, Option, none, some, ltb, ◌==◌, if◌then◌else◌,
}
use routevane.Common.Text.{Text}

-- The named rules, and any other text.
pub data RefreshInterval : Type 0 where
  refresh_default refresh_off refresh_daily refresh_weekly : RefreshInterval
  other_interval : Text → RefreshInterval

abbrev pub refresh_daily_period : ℕ
refresh_daily_period = 24 * 3600 * 1000000000

abbrev pub refresh_weekly_period : ℕ
refresh_weekly_period = 7 * refresh_daily_period

unfoldable pub valid : RefreshInterval → Bool
valid (other_interval t) = false
valid _ = true

unfoldable pub valid_default : RefreshInterval → Bool
valid_default refresh_off = true
valid_default refresh_daily = true
valid_default refresh_weekly = true
valid_default _ = false

unfoldable pub period : RefreshInterval → Option ℕ
period refresh_daily = some refresh_daily_period
period refresh_weekly = some refresh_weekly_period
period _ = none

-- The fields of a profile that the scheduler reads.
pub record Profile : Type 0 where
  pub id : Text
  pub archived_at : ℕ
  pub refresh_interval : RefreshInterval
  pub last_refreshed_at : ℕ
  pub last_refresh_failed : Bool

pub record Schedule : Type 0 where
  pub interval : RefreshInterval
  pub effective : RefreshInterval
  pub follows_default : Bool
  pub last_refreshed_at : ℕ
  pub last_refresh_failed : Bool
  pub next_refresh_at : ℕ

abbrev pub is_default : RefreshInterval → Bool
is_default refresh_default = true
is_default _ = false

-- A rule that is not one of the service's counts as off.
abbrev pub effective_of : RefreshInterval → RefreshInterval → RefreshInterval
effective_of own fallback =
    let chosen = if is_default own then fallback else own in
    if valid_default chosen then chosen else refresh_off

abbrev pub next_after : ℕ → Option ℕ → ℕ
next_after last none = 0
next_after last (some p) = if last == 0 then 0 else last + p

unfoldable pub schedule_of : Profile → RefreshInterval → Schedule
schedule_of profile fallback =
    let effective = effective_of profile.refresh_interval fallback in
    record {
      interval = profile.refresh_interval;
      effective = effective;
      follows_default = is_default profile.refresh_interval;
      last_refreshed_at = profile.last_refreshed_at;
      last_refresh_failed = profile.last_refresh_failed;
      next_refresh_at = next_after profile.last_refreshed_at (period effective);
    }

abbrev pub due_by : Option ℕ → Schedule → ℕ → Bool
due_by none s now = false
due_by (some p) s now = if s.last_refreshed_at == 0 then true else not (ltb now s.next_refresh_at)

unfoldable pub due : Schedule → ℕ → Bool
due s now = due_by (period s.effective) s now

-- `RecordProfileRefreshResult`: a run moves the clock of its profile, failed or not.
unfoldable pub record_refresh : Profile → ℕ → Bool → Profile
record_refresh profile now failed = record profile {
  last_refreshed_at = now;
  last_refresh_failed = failed;
}
