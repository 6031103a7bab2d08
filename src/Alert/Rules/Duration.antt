-- ===== src/Alert/Rules/Duration.antt =====
-- When a rule may fire at all.
use easyserver.Base.{
  ℕ, suc, ◌+◌, ◌*◌, ◌≤◌, ◌<◌, ◌≡◌, refl, false, Option, none, some, List, [], ◌∷◌, arith,
  if◌then◌else◌, nat_eq, string_eq, All,
}
use easyserver.Alert.Rules.{AlertRule, AlertState, second, judge}

-- Readings of one rule in order, each with the time of the rule's last alert that is on record: how
-- many alerts they send.
unfoldable pub fired : AlertRule → List (ℕ × ℕ × Option ℕ) → AlertState → ℕ
fired rule [] st = 0
fired rule ((now, value, last) ∷ readings) st =
    let (st', sent) = judge now rule value last st in
    let n = fired rule readings st' in if sent then suc n else n

-- The readings lie from `start` on and before the rule's duration has passed.
abbrev pub Early : ℕ → AlertRule → ℕ × ℕ × Option ℕ → Type 0
Early start rule (now, value, last) = (start ≤ now) × (now < start + rule.duration * second)

abbrev Fresh : ℕ → AlertState → Type 0
Fresh start st = elim st.first_above [ none ↦ Unit | some t ↦ start ≤ t ]

judge_early :
    (start now value : ℕ) (rule : AlertRule) (last : Option ℕ) (st : AlertState)
    → Fresh start st
    → start ≤ now
    → now < start + rule.duration * second
    → ((judge now rule value last st).1 ≡ false) × Fresh start (judge now rule value last st).0
unfolding judge
judge_early start now value rule last st f s e = ground (arith, f, s, e)

fired_none :
    (start : ℕ) (rule : AlertRule) (readings : List (ℕ × ℕ × Option ℕ)) (st : AlertState)
    → Fresh start st
    → All (Early start rule) readings
    → fired rule readings st ≡ 0
unfolding fired
fired_none start rule [] st f w = refl
fired_none start rule ((now, value, last) ∷ readings) st f w =
    let h = judge_early start now value rule last st f w.0.0 w.0.1 in
    ground (arith, h.0, fired_none start rule readings (judge now rule value last st).0 h.1 w.1)

-- After a reading below the threshold no alert is sent before the rule's duration has passed again,
-- whatever is read.
pub fired_after_below :
    (start below : ℕ) (rule : AlertRule) (last : Option ℕ) (st : AlertState)
    (readings : List (ℕ × ℕ × Option ℕ))
    → below < rule.threshold
    → All (Early start rule) readings
    → fired rule ((start, below, last) ∷ readings) st ≡ 0
unfolding fired judge
fired_after_below start below rule last st readings b w =
    let none' =
      fired_none start rule readings (record { first_above = none; triggered = false }) tt w in
    ground (arith, b, none')
