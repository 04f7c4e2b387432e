-- ===== src/Scenarios/Alerts.antt =====
-- A rule that alerts again after a minute, and a window past midnight.
use netbox_conductor.Base.{◌≤◌, true, false, ◌≡◌, ◌≢◌, some, List, [], ◌∷◌, count, refl, arith}
use netbox_conductor.Alerting.{once, re_alert, every_occurrence, AlertRule, Answers}
use netbox_conductor.Alerting.Limits.{
  Step, fired, ticked, run, is_alert, is_escalation, WithinMax, idle, run-limits,
}
use netbox_conductor.Alerting.Schedule.{
  ScheduleWindow, matches_schedule, in_windows, in_window, day_match,
}

abbrev rule : AlertRule
rule = record {
  fire_mode = re_alert;
  re_alert_mins = some 1;
  max_re_alerts = some 2;
  notify_on_clear = false;
  escalate_after_mins = some 3;
  escalate_transport_id = some 9;
  transport_ids = 4 ∷ [];
}

abbrev stored : Answers
stored = record {
  upsert_ok = true;
  mark_alerted_ok = true;
  mark_escalated_ok = true;
  resolve_ok = true;
  transport = λ t. some true;
}

-- The event, and ticks every two minutes.
abbrev steps : List Step
steps = fired stored 0 ∷ ticked stored 120 ∷ ticked stored 240 ∷ ticked stored 360 ∷ []

run-limits_example :
    let log = (run rule steps idle).log in
    WithinMax (some 2) (count is_alert log)
    × (rule.fire_mode ≡ once → count is_alert log ≤ 1)
    × (count is_escalation log ≤ 1)
run-limits_example =
    run-limits rule steps apart ((refl, refl), ((refl, refl), ((refl, refl), ((refl, refl), tt))))
  where
    apart : re_alert ≢ every_occurrence
    apart e = ground arith

-- Fridays from 22:00 to 02:00, asked on a Saturday at 01:00.
abbrev nights : List ScheduleWindow
nights = record { days = 5 ∷ []; start = "22:00"; end = "02:00" } ∷ []

no_night : matches_schedule 6 "01:00" (some nights) ≡ false
unfolding matches_schedule in_windows in_window day_match
no_night = refl
