-- ===== src/Alert/Rules.antt =====
-- internal/domain/alert/service.go: which alerts an evaluation of the rules sends. Readings and
-- thresholds are floats that are compared only: numbers on one scale stand for them, and `none` for
-- a negative reading. Times are in nanoseconds. Sending an alert is the list of those sent.
pub mod Cooldown
pub mod Duration
mod Examples
use easyserver.Base.Map.{Map, lookup, insert, retain}
use easyserver.Base.{
  ℕ, ◌-◌, ◌*◌, String, Bool, true, false, not, ◌&&◌, ◌||◌, Option, none, some, List, [], ◌∷◌, leb,
  if◌then◌else◌, ◌==◌, nat_eq, string_eq,
}

pub record AlertRule : Type 0 where
  pub id : ℕ
  pub name : String
  pub metric : String
  pub threshold : ℕ
  pub duration : ℕ
  pub enabled : Bool

-- `first_above` is `none` for the zero time.
pub record AlertState : Type 0 where
  pub first_above : Option ℕ
  pub triggered : Bool

pub record MonitorPoint : Type 0 where
  pub cpu_percent : Option ℕ
  pub mem_percent : Option ℕ
  pub disk_percent : Option ℕ
  pub cpu_load_1m : Option ℕ
  pub cpu_load_5m : Option ℕ
  pub cpu_load_15m : Option ℕ

pub record Service : Type 0 where
  pub rules : List AlertRule
  pub states : Map ℕ AlertState
  pub cooldowns : Map ℕ ℕ

abbrev pub second : ℕ
second = 1_000_000_000

-- Five minutes.
abbrev pub cooldown_duration : ℕ
cooldown_duration = 5 * 60 * second

unfoldable pub new_service : Service
new_service = record { rules = []; states = []; cooldowns = [] }

unfoldable pub is_active : List AlertRule → ℕ → Bool
is_active [] id = false
is_active (r ∷ rules) id = r.id == id || is_active rules id

unfoldable pub set_rules : List AlertRule → Service → Service
set_rules rules s = record s {
  rules = rules;
  states = retain (λ id _. is_active rules id) s.states;
}

abbrev pub extract_metric : MonitorPoint → String → Option ℕ
extract_metric p metric =
    if metric == "cpu_percent"
    then p.cpu_percent
    else if metric == "mem_percent"
    then p.mem_percent
    else if metric == "disk_percent"
    then p.disk_percent
    else if metric == "load_1m"
    then p.cpu_load_1m
    else if metric == "load_5m"
    then p.cpu_load_5m
    else if metric == "load_15m"
    then p.cpu_load_15m
    else none

abbrev pub state_or_new : Option AlertState → AlertState
state_or_new none = record { first_above = none; triggered = false }
state_or_new (some st) = st

-- The state that an evaluation leaves, but for the trigger, and whether the rule's time is up.
abbrev pub since : ℕ → AlertState → ℕ
since now st = elim st.first_above [ none ↦ now | some t ↦ t ]

abbrev pub is_due : ℕ → AlertRule → AlertState → Bool
is_due now rule st = not st.triggered && leb (rule.duration * second) (now - since now st)

abbrev pub has_cooled : ℕ → Option ℕ → Bool
has_cooled now none = true
has_cooled now (some last) = leb cooldown_duration (now - last)

-- The new state and whether an alert is sent, for a reading of the rule's metric.
unfoldable pub judge : ℕ → AlertRule → ℕ → Option ℕ → AlertState → AlertState × Bool
judge now rule value last st =
    if leb rule.threshold value
    then (if is_due now rule st && has_cooled now last
        then (record { first_above = some (since now st); triggered = true }, true)
        else (record st { first_above = some (since now st) }, false))
    else (record { first_above = none; triggered = false }, false)

-- One round of the loop of `Evaluate`, and whether it sends an alert.
unfoldable pub evaluate_rule : ℕ → MonitorPoint → AlertRule → Service → Service × Bool
unfolding judge
evaluate_rule now p rule s =
    if not rule.enabled then (s, false) else elim (extract_metric p rule.metric) [
      | none ↦ (s, false)
      | some value ↦
          let last = lookup rule.id s.cooldowns in
          let (st, sent) = judge now rule value last (state_or_new (lookup rule.id s.states)) in
          (
            record s {
              states = insert rule.id st s.states;
              cooldowns = (if sent then insert rule.id now s.cooldowns else s.cooldowns);
            },
            sent,
          )
    ]

-- `Evaluate`: the ids of the rules that an alert is sent for.
unfoldable pub evaluate_all : ℕ → MonitorPoint → List AlertRule → Service → Service × List ℕ
unfolding evaluate_rule
evaluate_all now p [] s = (s, [])
evaluate_all now p (rule ∷ rules) s =
    let (s', sent) = evaluate_rule now p rule s in
    let (last, ids) = evaluate_all now p rules s' in (last, (if sent then rule.id ∷ ids else ids))

unfoldable pub evaluate : ℕ → MonitorPoint → Service → Service × List ℕ
unfolding evaluate_all
evaluate now p s = evaluate_all now p s.rules s
