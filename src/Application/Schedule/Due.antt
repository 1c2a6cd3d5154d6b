-- ===== src/Application/Schedule/Due.antt =====
-- How often a profile is refreshed.
use routevane.Common.{
  subst, ◌↔◌, ℕ, ◌+◌, ◌≤◌, ◌<◌, ◌≡◌, refl, Bool, true, false, Option, none, some, arith, Bool-cases,
  inl, inr, ◌⊎◌, ◌==◌,
}
use routevane.Application.Schedule.{
  valid_default, RefreshInterval, refresh_default, refresh_off, refresh_daily, refresh_weekly,
  other_interval, refresh_daily_period, refresh_weekly_period, period, Profile, Schedule,
  effective_of, next_after, schedule_of, due_by, due, record_refresh,
}

-- A rule that has a period has one of a day at least and of a week at most.
period_bounds :
    (i : RefreshInterval) (p : ℕ)
    → period i ≡ some p
    → (refresh_daily_period ≤ p) × (p ≤ refresh_weekly_period)
unfolding period
period_bounds refresh_daily p h = ground arith
period_bounds refresh_weekly p h = ground arith
period_bounds refresh_default p h = cc
period_bounds refresh_off p h = cc
period_bounds (other_interval t) p h = cc

due_by_early :
    (o : Option ℕ) (s : Schedule) (now : ℕ)
    → 0 < s.last_refreshed_at
    → s.next_refresh_at ≡ next_after s.last_refreshed_at o
    → ((p : ℕ) → o ≡ some p → now < s.last_refreshed_at + p)
    → due_by o s now ≡ false
due_by_early none s now h e f = refl
due_by_early (some p) s now h e f = let lt = f p refl in ground arith

-- A profile that a run has recorded, failed or not, is not due again for a day, whatever its rule
-- and the service-wide one.
pub not_due_within_day :
    (profile : Profile) (fallback : RefreshInterval) (now later : ℕ) (failed : Bool)
    → 0 < now
    → later < now + refresh_daily_period
    → due (schedule_of (record_refresh profile now failed) fallback) later ≡ false
unfolding due schedule_of record_refresh
not_due_within_day profile fallback now later failed h l =
    let i = effective_of profile.refresh_interval fallback in
    due_by_early (period i) _ later h refl
      (λ p e. let (low, high) = period_bounds i p e in omega arith)

-- The nanoseconds from the last run to the next of a profile with its own rule and the service's.
abbrev pub wait_of : RefreshInterval → RefreshInterval → Option ℕ
wait_of refresh_daily fallback = some 86400000000000
wait_of refresh_weekly fallback = some 604800000000000
wait_of refresh_default refresh_daily = some 86400000000000
wait_of refresh_default refresh_weekly = some 604800000000000
wait_of own fallback = none

effective-wait :
    (own fallback : RefreshInterval) → period (effective_of own fallback) ≡ wait_of own fallback
unfolding period valid_default
effective-wait refresh_daily fallback = refl
effective-wait refresh_weekly fallback = refl
effective-wait refresh_off fallback = refl
effective-wait (other_interval t) fallback = refl
effective-wait refresh_default refresh_daily = refl
effective-wait refresh_default refresh_weekly = refl
effective-wait refresh_default refresh_off = refl
effective-wait refresh_default refresh_default = refl
effective-wait refresh_default (other_interval t) = refl

-- There is a next run, and no run was made or the next is not after `now`.
abbrev pub IsDue : Option ℕ → ℕ → ℕ → Type 0
IsDue wait last now = (p : ℕ) × (wait ≡ some p) × ((last ≡ 0) ⊎ (last + p ≤ now))

due_by-IsDue :
    (wait : Option ℕ) (s : Schedule) (now : ℕ)
    → s.next_refresh_at ≡ next_after s.last_refreshed_at wait
    → (due_by wait s now ≡ true) ↔ IsDue wait s.last_refreshed_at now
due_by-IsDue none s now e = (λ h. cc, λ h. let (p, absent, k) = h in cc)
due_by-IsDue (some p) s now e = (
  λ h. (
    p,
    refl,
    elim (Bool-cases (s.last_refreshed_at == 0)) [
      | inl z ↦ inl (ground arith)
      | inr n ↦ inr (ground arith)
    ],
  ),
  λ h. let (q, same, k) = h in elim k [ inl z ↦ ground arith | inr l ↦ ground arith ],
)

-- A profile whose own rule is daily or weekly, or is the default and the service's is daily or
-- weekly, is due exactly when it was never refreshed or a day, or a week, has passed since its last
-- run; with any other rule it is never due.
pub due_of_rule :
    (profile : Profile) (fallback : RefreshInterval) (now : ℕ)
    → (due (schedule_of profile fallback) now ≡ true)
      ↔ IsDue (wait_of profile.refresh_interval fallback) profile.last_refreshed_at now
unfolding due schedule_of
due_of_rule profile fallback now =
    subst
      (λ w.
        (due_by (period (effective_of profile.refresh_interval fallback))
            (schedule_of profile fallback) now
          ≡ true)
        ↔ IsDue w profile.last_refreshed_at now)
      (effective-wait profile.refresh_interval fallback)
      (due_by-IsDue (period (effective_of profile.refresh_interval fallback))
        (schedule_of profile fallback) now refl)
