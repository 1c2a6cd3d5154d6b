-- ===== src/Application/Schedule/Settings.antt =====
-- The rules that an operator sets: `DefaultRefreshInterval`, `SetDefaultRefreshInterval`,
-- `SetProfileRefreshInterval` and `ProfileSchedule` of internal/application/schedule.go.
use routevane.Common.{ℕ, not, ◌==◌, if◌then◌else◌}
use routevane.Common.Text.{codes}
use routevane.Application.Schedule.{
  RefreshInterval, valid, valid_default, Profile, Schedule, schedule_of,
}
use routevane.Application.Schedule.Run.{OrError, error, value, known_default}

-- What is put in the store.
unfoldable pub set_default_refresh_interval : ℕ → RefreshInterval → OrError RefreshInterval
unfolding valid_default
set_default_refresh_interval now i =
    if not (valid_default i)
    then error (codes "invalid refresh interval")
    else if now == 0
    then error (codes "clock returned zero time")
    else value i

-- The profile as the store is told to keep it; the moment of the edit is left out.
abbrev pub with_interval : ℕ → RefreshInterval → OrError Profile → OrError Profile
with_interval now i (error e) = error e
with_interval now i (value p) =
    if not (p.archived_at == 0)
    then error (codes "profile is archived")
    else if now == 0
    then error (codes "clock returned zero time")
    else value (record p { refresh_interval = i })

unfoldable pub set_profile_refresh_interval :
    ℕ → RefreshInterval → OrError Profile → OrError Profile
unfolding valid
set_profile_refresh_interval now i profile =
    if not (valid i) then error (codes "invalid refresh interval") else with_interval now i profile

abbrev pub schedule_with : Profile → OrError RefreshInterval → OrError Schedule
schedule_with p (error e) = error e
schedule_with p (value i) = value (schedule_of p (known_default i))

unfoldable pub profile_schedule : OrError RefreshInterval → Profile → OrError Schedule
unfolding schedule_of valid_default
profile_schedule setting p = schedule_with p setting
