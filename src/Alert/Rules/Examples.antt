-- ===== src/Alert/Rules/Examples.antt =====
-- Tests of the alert rules, and the theorems at one rule on the processor.
use easyserver.Base.Map.{lookup, insert, retain}
use easyserver.Base.{
  ℕ, ◌*◌, ◌≤◌, ◌≡◌, refl, true, false, none, some, List, [], ◌∷◌, arith, nat_eq, string_eq,
}
use easyserver.Alert.Rules.{
  AlertRule, AlertState, MonitorPoint, second, new_service, is_active, set_rules, judge,
  evaluate_rule, evaluate_all, evaluate,
}
use easyserver.Alert.Rules.Cooldown.{Event, evaluates, sets, alerts_for, alerts_bounded}
use easyserver.Alert.Rules.Duration.{fired, fired_after_below}

program : Unit {0}
unfolding lookup insert retain new_service is_active set_rules judge evaluate_rule evaluate_all
    evaluate alerts_for fired
program = tt

abbrev busy_rule : AlertRule
busy_rule = record {
  id = 3;
  name = "busy";
  metric = "cpu_percent";
  threshold = 90;
  duration = 10;
  enabled = true;
}

abbrev reading : ℕ → MonitorPoint
reading n = record {
  cpu_percent = some n;
  mem_percent = none;
  disk_percent = none;
  cpu_load_1m = none;
  cpu_load_5m = none;
  cpu_load_15m = none;
}

abbrev history : List Event
history =
    sets (busy_rule ∷ [])
    ∷ evaluates second (reading 95)
    ∷ evaluates (12 * second) (reading 96)
    ∷ evaluates (20 * second) (reading 97)
    ∷ evaluates (30 * second) (reading 10)
    ∷ evaluates (60 * second) (reading 95)
    ∷ evaluates (80 * second) (reading 95)
    ∷ []

fires_once : alerts_for 3 history new_service ≡ 1
unfolding program
fires_once = refl

alerts_bounded_example : alerts_for 3 history new_service ≤ 1
alerts_bounded_example = alerts_bounded 3 second history new_service (
  omega arith,
  omega arith,
  (
    omega arith,
    omega arith,
    (
      omega arith,
      omega arith,
      (omega arith, omega arith, (omega arith, omega arith, (omega arith, omega arith, tt))),
    ),
  ),
)

abbrev above_for_long : AlertState
above_for_long = record { first_above = some 0; triggered = false }

fires_when_due : fired busy_rule ((12 * second, 95, none) ∷ []) above_for_long ≡ 1
unfolding program
fires_when_due = refl

fired_after_below_example :
    fired busy_rule ((11 * second, 50, none) ∷ (12 * second, 95, none) ∷ []) above_for_long ≡ 0
fired_after_below_example =
    fired_after_below (11 * second) 50 busy_rule none above_for_long ((12 * second, 95, none) ∷ [])
      (omega arith) ((omega arith, omega arith), tt)
