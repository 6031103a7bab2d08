-- ===== src/Infra/Task/Manager/Phases.antt =====
-- What holds of a task in each phase of its goroutine, and that every event keeps it.
use easyserver.Base.{◌≤◌, ◌<◌, ◌≡◌, ◌⊎◌, Bool, true, false, none, some, arith, nat_eq, string_eq}
use easyserver.Infra.Task.Manager.{
  running, Phase, launched, attempting, waiting, settling, panicking, finished, clearing,
  recovering, exited, Task, attempt_returned, is_running,
}
use easyserver.Infra.Task.Manager.Run.{Action, act}

-- A running task is not done, and a task that is done has a terminal status. No attempt has a
-- number beyond the retries that are allowed.
abbrev pub IsPhase : Phase → Task → Type 0
IsPhase launched t =
    (t.status ≡ running) × (t.done ≡ false) × (t.cancelable ≡ false) × (t.aborted ≡ false)
IsPhase (attempting n) t =
    (t.status ≡ running) × (t.done ≡ false) × (t.cancelable ≡ true) × (n ≤ t.opts.max_retries)
IsPhase (waiting n) t =
    (t.status ≡ running) × (t.done ≡ false) × (t.cancelable ≡ true) × (n < t.opts.max_retries)
IsPhase (settling s e) t =
    (t.status ≡ running) × (t.done ≡ false) × (t.cancelable ≡ true) × (is_running s ≡ false)
IsPhase (panicking why) t = (t.status ≡ running) × (t.done ≡ false)
IsPhase finished t = (is_running t.status ≡ false) × (t.done ≡ true)
IsPhase (clearing none) t = (is_running t.status ≡ false) × (t.done ≡ true)
IsPhase (clearing (some why)) t = (t.status ≡ running) × (t.done ≡ false)
IsPhase (recovering why) t = (t.status ≡ running) × (t.done ≡ false)
IsPhase exited t = (is_running t.status ≡ false) × (t.done ≡ true)

pub act-IsPhase :
    (a : Action) (p : Phase) (t t' : Task) → act a p t ≡ some t' → IsPhase p t → IsPhase t'.phase t'
unfolding act attempt_returned
act-IsPhase a p t t' e h = ground arith

-- The goroutine has not given its slot back.
abbrev pub holds_slot : Task → Bool
holds_slot t = elim t.phase [
  | clearing _ ↦ false
  | recovering _ ↦ false
  | exited ↦ false
  | _ ↦ true
]

-- Only the release gives a slot back; the key and the options of a task never change; and a task
-- that is not running does not run again.
pub act_keeps :
    (a : Action) (p : Phase) (t t' : Task)
    → t.phase ≡ p
    → act a p t ≡ some t'
    → IsPhase p t
    → (t'.key ≡ t.key)
      × (t'.opts ≡ t.opts)
      × ((is_running t'.status ≡ false) ⊎ (is_running t.status ≡ true))
unfolding act attempt_returned
act_keeps a p t t' q e h = ground arith
