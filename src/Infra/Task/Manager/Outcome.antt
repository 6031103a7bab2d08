-- ===== src/Infra/Task/Manager/Outcome.antt =====
-- What becomes of one task: one run per key, an outcome that stays, cancellation, and how long the
-- goroutine can go on.
use easyserver.Base.Map.{lookup}
use easyserver.Base.{
  ℕ, ◌+◌, ◌-◌, ◌*◌, ◌≤◌, ◌<◌, ◌≡◌, refl, subst, inl, inr, ◌⊎◌, true, Option, Option-cases, none,
  some, List, [], ◌∷◌, length, arith, nat_eq, string_eq,
}
use easyserver.Base.Counts.{count}
use easyserver.Infra.Task.Manager.{
  running, Phase, launched, attempting, waiting, settling, panicking, finished, clearing,
  recovering, exited, Task, Manager, new_manager, attempt_returned,
}
use easyserver.Infra.Task.Manager.Run.{
  Action, begins, returns, elapses, settles, frees, clears, recovers, act, Event, trace,
}
use easyserver.Infra.Task.Manager.Phases.{IsPhase, act-IsPhase, holds_slot}
use easyserver.Infra.Task.Manager.Invariant.{IsEntry, IsValid}
use easyserver.Infra.Task.Manager.Reachable.{trace-new_manager-IsValid}

registered :
    (m : Manager) (id : ℕ) (t : Task)
    → IsValid m
    → lookup id m.tasks ≡ some t
    → t.status ≡ running
    → lookup t.key m.by_key ≡ some id
registered m id t v e r =
    let h : IsEntry m id (some t) = subst (IsEntry m id) e (v.entry id) in
    elim h.2 [ inl ended ↦ absurd (ground (arith, r, ended)) | inr known ↦ known ]

-- In every state that a manager reaches, two tasks that run under one key are the same task.
pub running_once :
    (n : ℕ) (es : List Event) (id other : ℕ) (t u : Task)
    → lookup id (trace (new_manager n) es).tasks ≡ some t
    → lookup other (trace (new_manager n) es).tasks ≡ some u
    → t.status ≡ running
    → u.status ≡ running
    → t.key ≡ u.key
    → id ≡ other
running_once n es id other t u e f r s k =
    let v = trace-new_manager-IsValid n es in
    let m = trace (new_manager n) es in
    let a : lookup u.key m.by_key ≡ some id = rw (← k) (registered m id t v e r) in
    let b = registered m other u v f s in cc

-- In every state that a manager reaches, no more goroutines hold a slot than it was made for (one,
-- if it was made for none).
pub slots_bounded :
    (n : ℕ) (es : List Event)
    → count holds_slot (trace (new_manager n) es).tasks ≤ (trace (new_manager n) es).concurrency
slots_bounded n es =
    let v = trace-new_manager-IsValid n es in omega (arith, v.slots_used, v.slots_max)

-- How many events of its own a goroutine has left at most.
abbrev pub events_left : Phase → Task → ℕ
events_left launched t = 2 * t.opts.max_retries + 7
events_left (attempting n) t = 2 * (t.opts.max_retries - n) + 6
events_left (waiting n) t = 2 * (t.opts.max_retries - n) + 5
events_left (settling s e) t = 4
events_left (panicking why) t = 4
events_left (clearing (some why)) t = 2
events_left (recovering why) t = 1
events_left finished t = 3
events_left (clearing none) t = 2
events_left exited t = 0

ends :
    (a : Action) (p : Phase) (t t' : Task)
    → t.phase ≡ p
    → IsPhase p t
    → act a p t ≡ some t'
    → events_left t'.phase t' < events_left p t
unfolding act attempt_returned
ends a p t t' q h e = ground arith

-- Each event of a goroutine brings its end closer, retries included.
act-events_left :
    (a : Action) (t t' : Task)
    → IsPhase t.phase t
    → act a t.phase t ≡ some t'
    → events_left t'.phase t' < events_left t.phase t
act-events_left a t t' h e = ends a t.phase t t' refl h e

events_left-le : (p : Phase) (t : Task) → events_left p t ≤ 2 * t.opts.max_retries + 7
events_left-le p t = ground arith

-- The events of one goroutine, each of which happens.
unfoldable pub play : List Action → Task → Option Task
play [] t = some t
play (a ∷ acts) t = elim (act a t.phase t) [ none ↦ none | some t' ↦ play acts t' ]

-- The goroutine has ended and its task is done, or it can go on.
abbrev pub IsOver : Phase → Task → Type 0
IsOver p t = (p ≡ exited) × (t.done ≡ true)

abbrev pub CanAct : Phase → Task → Type 0
CanAct p t = (a : Action) × (t' : Task) × (act a p t ≡ some t')

IsOver-or_acts : (p : Phase) (t : Task) → IsPhase p t → IsOver p t ⊎ CanAct p t
unfolding act
IsOver-or_acts launched t h = inr (begins, _, refl)
IsOver-or_acts (attempting n) t h = inr (returns none, _, refl)
IsOver-or_acts (waiting n) t h = inr (elapses, _, refl)
IsOver-or_acts (settling s e) t h = inr (settles, _, refl)
IsOver-or_acts (panicking why) t h = inr (frees, _, refl)
IsOver-or_acts finished t h = inr (frees, _, refl)
IsOver-or_acts (clearing none) t h = inr (clears, _, refl)
IsOver-or_acts (clearing (some why)) t h = inr (clears, _, refl)
IsOver-or_acts (recovering why) t h = inr (recovers, _, refl)
IsOver-or_acts exited t h = inl (refl, h.1)

play_ends :
    (acts : List Action) (t t' : Task)
    → IsPhase t.phase t
    → play acts t ≡ some t'
    → (length acts ≤ events_left t.phase t) × (IsOver t'.phase t' ⊎ CanAct t'.phase t')
unfolding play
play_ends [] t t' h e =
    let same : t ≡ t' = ground (arith, e) in (omega arith, rw (← same) (IsOver-or_acts t.phase t h))
play_ends (a ∷ acts) t t' h e = elim (Option-cases (act a t.phase t)) [
  | inl stuck ↦ absurd (ground (arith, rw (stuck, play) at e))
  | inr (u, moved) ↦
      let rest = play_ends acts u t' (act-IsPhase a t.phase t u moved h) (rw (moved, play) at e) in
      let fewer = act-events_left a t u h moved in (omega (arith, rest.0, fewer), rest.1)
]

-- The goroutine of a task comes to an end, whatever its function returns and however often it is
-- retried: it has at most 2 * retries + 7 events of its own, and after any of them, and before the
-- first, it has another one that can happen, unless it has exited and its task is done.
pub task_ends :
    (acts : List Action) (t t' : Task)
    → IsPhase t.phase t
    → play acts t ≡ some t'
    → (length acts ≤ 2 * t.opts.max_retries + 7) × (IsOver t'.phase t' ⊎ CanAct t'.phase t')
task_ends acts t t' h e =
    let found = play_ends acts t t' h e in
    (omega (arith, found.0, events_left-le t.phase t), found.1)
