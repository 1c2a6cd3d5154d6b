-- ===== src/Examples/Application.antt =====
-- The theorems on schedules and the gate at concrete inputs.
use routevane.Application.Schedule.Run.{
  kept, TickServices, value, run_profiles, run_due_refreshes, run_profile, build_outputs, is_due,
}
use routevane.Application.Schedule.{valid_default, period}
use routevane.Application.Schedule.Run.InOrder.{InOrder}
use routevane.Common.{◌↔◌, map, none}
use routevane.Common.{◌≡◌, refl, false, true, [], ◌∷◌, arith, ◌+◌}
use routevane.Common.Text.{codes}
use routevane.Application.Schedule.{
  refresh_default, refresh_daily, Profile, due, schedule_of, record_refresh,
}
use routevane.Application.Schedule.Due.{wait_of, IsDue, not_due_within_day, due_of_rule}
use routevane.Application.Gate.{
  at_gate, new_delivery_gate, checking, Reachable, start, next, call, receive, waiting,
}
use routevane.Application.Gate.Exclusive.{gate_exclusive, owners}

abbrev profile : Profile
profile = record {
  id = codes "p";
  archived_at = 0;
  refresh_interval = refresh_default;
  last_refreshed_at = 7;
  last_refresh_failed = false;
}

not_due_within_day_example :
    due (schedule_of (record_refresh profile 9 true) refresh_daily) 100 ≡ false
not_due_within_day_example =
    not_due_within_day profile refresh_daily 9 100 true (omega arith) (omega arith)

due_of_rule_example :
    (due (schedule_of profile refresh_daily) 100 ≡ true)
    ↔ IsDue (wait_of refresh_default refresh_daily) 7 100
due_of_rule_example = due_of_rule profile refresh_daily 100

abbrev services : TickServices
services = record {
  setting = value refresh_daily;
  profiles_for_scheduling = value (profile ∷ []);
  now = 90000000000000 + 7;
  refresh = λ calls id. none;
  outputs =
      λ calls id. value (record { id = codes "o"; target_id = codes "raw"; device_id = [] } ∷ []);
  build = λ calls id. value (codes "a");
  record_result = λ calls id failed. kept;
}

one_run : map (λ r. r.built_count) (run_due_refreshes services).runs ≡ 1 ∷ []
unfolding run_due_refreshes run_profiles run_profile build_outputs is_due schedule_of due
    valid_default period
one_run = refl

-- One client past the `select`.
one_checking : Reachable (at_gate 0 (checking ∷ []))
one_checking =
    next (at_gate 1 (waiting ∷ [])) _ (next new_delivery_gate _ start (call 1 [])) (receive 0 [] [])

gate_exclusive_example : ((at_gate 0 []).tokens ≡ 0) × (owners [] ≡ 0) × (owners [] ≡ 0)
gate_exclusive_example = gate_exclusive 0 [] [] checking refl one_checking
