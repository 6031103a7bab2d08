-- ===== src/Infra/Task/Manager/Run.antt =====
-- The goroutine of `run`, one event at a time, and the traces of a manager: the events of all its
-- goroutines and of its callers, interleaved in any way. An event whose goroutine is elsewhere does
-- nothing.
use easyserver.Base.Map.{lookup, insert, erase}
use easyserver.Base.{
  ℕ, ◌+◌, ◌-◌, String, Bool, true, false, ◌&&◌, Option, none, some, List, [], ◌∷◌, if◌then◌else◌,
  ◌==◌, nat_eq, string_eq,
}
use easyserver.Infra.Task.Manager.{
  Status, succeeded, failed, canceled, panicked, context_canceled, Phase, launched, attempting,
  waiting, settling, settle_on, panicking, finished, clearing, recovering, exited, Task, Manager,
  Options, Body, start, finish, attempt_returned, cancel,
}

pub data Action : Type 0 where
  begins : Action
  returns : Option String → Action
  panics : String → Action
  aborts : Action
  elapses : Action
  settles : Action
  frees : Action
  clears : Action
  recovers : Action

-- What the goroutine does to its own task.
unfoldable pub act : Action → Phase → Task → Option Task
act begins launched t = some (record t { cancelable = true; phase = attempting 0 })
act (returns e) (attempting n) t = some (attempt_returned n e t)
act (panics why) (attempting n) t = some (record t { phase = panicking why })
act aborts (waiting n) t =
    if t.aborted then some (settle_on canceled (some context_canceled) t) else none
act elapses (waiting n) t = some (record t { phase = attempting (n + 1) })
act settles (settling s e) t = some (finish s e t)
act frees finished t = some (record t { phase = clearing none })
act frees (panicking why) t = some (record t { phase = clearing (some why) })
act clears (clearing none) t = some (record t { phase = exited })
act clears (clearing (some why)) t = some (record t { phase = recovering why })
act recovers (recovering why) t =
    some (record t { status = failed; failure = some (panicked why); done = true; phase = exited })
act _ _ t = none

abbrev pub is_succeeded : Status → Bool
is_succeeded succeeded = true
is_succeeded _ = false

abbrev pub points_to : ℕ → Option ℕ → Bool
points_to id none = false
points_to id (some other) = other == id

-- What it does to the manager besides: the slot, and the record of a task that succeeded, if the
-- key still points to this task.
unfoldable pub release : Action → ℕ → Task → Manager → Manager
release frees id t m = record m { slots = m.slots - 1 }
release clears id t m =
    if is_succeeded t.status && points_to id (lookup t.key m.by_key)
    then record m { by_key = erase t.key m.by_key }
    else m
release _ id t m = m

unfoldable pub run_action : ℕ → Action → Manager → Manager
run_action id a m = elim (lookup id m.tasks) [
  | none ↦ m
  | some t ↦ elim (act a t.phase t) [
    | none ↦ m
    | some t' ↦ let m' = release a id t m in record m' { tasks = insert id t' m'.tasks }
  ]
]

pub data Event : Type 0 where
  starts : String → Options → Body → Event
  runs : ℕ → Action → Event
  cancels : String → Event

unfoldable pub step : Manager → Event → Manager
step m (starts key opts body) = (start key opts body m).0
step m (runs id a) = run_action id a m
step m (cancels key) = (cancel key m).0

unfoldable pub trace : Manager → List Event → Manager
trace m [] = m
trace m (e ∷ es) = trace (step m e) es
