-- ===== src/Alert/Rules/Cooldown.antt =====
-- How often an alert is sent for one rule.
use easyserver.Base.Map.{lookup, lookup-insert}
use easyserver.Base.{
  ℕ, ◌+◌, ◌≤◌, ◌<◌, ◌≡◌, refl, inl, inr, true, ◌&&◌, Option, none, some, List, [], ◌∷◌, arith, leb,
  if◌then◌else◌, Bool-cases, Option-cases, ◌==◌, nat_eq, string_eq, nat_test_iff,
}
use easyserver.Alert.Rules.{
  AlertRule, AlertState, MonitorPoint, Service, cooldown_duration, set_rules, extract_metric,
  state_or_new, has_cooled, judge, evaluate_rule, evaluate_all, evaluate,
}

pub data Event : Type 0 where
  evaluates : ℕ → MonitorPoint → Event
  sets : List AlertRule → Event

abbrev pub count_id : ℕ → List ℕ → ℕ
count_id id [] = 0
count_id id (x ∷ ids) = (if x == id then 1 else 0) + count_id id ids

-- The alerts for a rule over a sequence of evaluations and of changes of the rules.
unfoldable pub alerts_for : ℕ → List Event → Service → ℕ
alerts_for id [] s = 0
alerts_for id (evaluates now p ∷ es) s =
    let (s', ids) = evaluate now p s in count_id id ids + alerts_for id es s'
alerts_for id (sets rules ∷ es) s = alerts_for id es (set_rules rules s)

-- The alerts still open in a window that begins at `start`.
abbrev budget : ℕ → Option ℕ → ℕ
budget start none = 1
budget start (some last) = if leb start last then 0 else 1

abbrev Within : ℕ → ℕ → Type 0
Within start now = (start ≤ now) × (now < start + cooldown_duration)

judge_cooled :
    (now value : ℕ) (rule : AlertRule) (last : Option ℕ) (st : AlertState)
    → (judge now rule value last st).1 ≡ true
    → has_cooled now last ≡ true
unfolding judge
judge_cooled now value rule last st e = ground (arith, e)

cooled_budget :
    (start now : ℕ) (o : Option ℕ) → Within start now → has_cooled now o ≡ true → budget start o ≡ 1
cooled_budget start now none w c = refl
cooled_budget start now (some last) w c = ground (arith, w, c)

rule_budget :
    (id start now : ℕ) (p : MonitorPoint) (rule : AlertRule) (s : Service)
    → Within start now
    → let (s', sent) = evaluate_rule now p rule s in
      (if sent && (rule.id == id) then 1 else 0) + budget start (lookup id s'.cooldowns)
      ≤ budget start (lookup id s.cooldowns)
unfolding evaluate_rule
rule_budget id start now p rule s w = elim (Option-cases (extract_metric p rule.metric)) [
  | inl e ↦ ground (arith, e)
  | inr (value, e) ↦
      let last = lookup rule.id s.cooldowns in
      let st = state_or_new (lookup rule.id s.states) in
      let put = lookup-insert rule.id id now s.cooldowns in
      elim (Bool-cases (judge now rule value last st).1) [
        | inr no' ↦ ground (arith, e, no')
        | inl sent ↦
            let full = cooled_budget start now last w (judge_cooled now value rule last st sent) in
            ground (arith, e, sent, put, full, w, nat_test_iff rule.id id)
      ]
]

all_budget :
    (id start now : ℕ) (p : MonitorPoint) (rules : List AlertRule) (s : Service)
    → Within start now
    → let (s', ids) = evaluate_all now p rules s in
      count_id id ids + budget start (lookup id s'.cooldowns) ≤ budget start (lookup id s.cooldowns)
unfolding evaluate_all
all_budget id start now p [] s w = omega arith
all_budget id start now p (rule ∷ rules) s w = ground (
  arith,
  rule_budget id start now p rule s w,
  all_budget id start now p rules (evaluate_rule now p rule s).0 w,
)

-- Every evaluation falls into one cooldown from `start` on.
abbrev pub IsWindow : ℕ → List Event → Type 0
IsWindow start [] = Unit
IsWindow start (evaluates now p ∷ es) =
    (start ≤ now) × (now < start + cooldown_duration) × IsWindow start es
IsWindow start (sets rules ∷ es) = IsWindow start es

alerts_le :
    (id start : ℕ) (es : List Event) (s : Service)
    → IsWindow start es
    → alerts_for id es s ≤ budget start (lookup id s.cooldowns)
unfolding alerts_for evaluate set_rules
alerts_le id start [] s w = omega arith
alerts_le id start (evaluates now p ∷ es) s w = omega (
  arith,
  all_budget id start now p s.rules s (w.0, w.1),
  alerts_le id start es (evaluate now p s).0 w.2,
)
alerts_le id start (sets rules ∷ es) s w = alerts_le id start es (set_rules rules s) w

-- In any stretch of five minutes at most one alert is sent for the rules of one id, whatever is
-- measured, and however the rules are changed in between.
pub alerts_bounded :
    (id start : ℕ) (es : List Event) (s : Service) → IsWindow start es → alerts_for id es s ≤ 1
alerts_bounded id start es s w = ground (arith, alerts_le id start es s w)
