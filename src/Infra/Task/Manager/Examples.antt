-- ===== src/Infra/Task/Manager/Examples.antt =====
-- Tests of the manager, and the theorems in one history: a task that fails once, is canceled, and
-- whose key is started again.
use easyserver.Base.Map.{lookup, insert, erase}
use easyserver.Base.{
  ℕ, ◌≤◌, ◌+◌, ◌*◌, length, ◌≡◌, refl, ◌⊎◌, inl, inr, true, false, Option, none, some, List, [],
  ◌∷◌, ◌++◌, arith, nat_eq, string_eq,
}
use easyserver.Base.Counts.{count}
use easyserver.Infra.Task.Log.{append_locked, retry_notice}
use easyserver.Infra.Task.Manager.{
  Status, running, succeeded, canceled, Options, Task, Manager, launched, attempting, waiting,
  plain, with_log, new_manager, start, cancel, get, attempt_returned, key_busy, too_many, Refusal,
}
use easyserver.Infra.Task.Manager.Run.{
  begins, returns, elapses, settles, frees, clears, act, release, run_action, Event, starts, runs,
  cancels, step, trace,
}
use easyserver.Infra.Task.Manager.Invariant.{IsValid}
use easyserver.Infra.Task.Manager.Reachable.{trace-new_manager-IsValid}
use easyserver.Infra.Task.Manager.Outcome.{running_once, play, IsOver, CanAct, task_ends}
use easyserver.Infra.Task.Manager.Lasting.{trace-IsDoomed, IsDoomed}

program : Unit {0}
unfolding append_locked new_manager start cancel get attempt_returned act release run_action step
    trace lookup insert erase count
program = tt

abbrev once_more : Options
once_more = record { timeout = 0; max_retries = 1; retry_interval = 5 }

abbrev manager : Manager
manager = new_manager 1

abbrev install : List Event
install = starts "go" once_more with_log ∷ runs 0 begins ∷ runs 0 (returns (some "no network")) ∷ []

abbrev rest : List Event
rest =
    runs 0 elapses
    ∷ cancels "go"
    ∷ runs 0 (returns none)
    ∷ runs 0 settles
    ∷ runs 0 frees
    ∷ runs 0 clears
    ∷ starts "go" once_more plain
    ∷ []

abbrev installing : Manager
installing = trace manager install

abbrev refusal_of : Manager × (Refusal ⊎ ℕ) → Option Refusal
refusal_of (m, inl why) = some why
refusal_of (m, inr id) = none

busy_key : refusal_of (start "go" once_more plain installing) ≡ some key_busy
unfolding program
busy_key = refl

no_slot : refusal_of (start "php" once_more plain installing) ≡ some too_many
unfolding program
no_slot = refl

abbrev task_of : ℕ → Manager → Option Task
task_of id m = lookup id m.tasks

abbrev status_of : Option Task → Option Status
status_of none = none
status_of (some t) = some t.status

retries : status_of (task_of 0 installing) ≡ some running
unfolding program
retries = refl

canceled_at_last : status_of (task_of 0 (trace installing rest)) ≡ some canceled
unfolding program
canceled_at_last = refl

started_again : status_of (get "go" (trace installing rest)) ≡ some running
unfolding program
started_again = refl

trace-new_manager-IsValid_example : IsValid (trace (new_manager 1) install)
trace-new_manager-IsValid_example = trace-new_manager-IsValid 1 install

abbrev waiting_task : Task
waiting_task = record {
  key = "go";
  status = running;
  failure = none;
  log = some (retry_notice 1 2 "no network" 5 ∷ []);
  done = false;
  cancelable = true;
  aborted = false;
  opts = once_more;
  phase = waiting 0;
}

waits : lookup 0 installing.tasks ≡ some waiting_task
unfolding program
waits = refl

running_once_example : ◌≡◌ {A = ℕ} 0 0
running_once_example =
    running_once 1 install 0 0 waiting_task waiting_task waits waits refl refl refl

abbrev second_attempt : Task
second_attempt = record waiting_task { phase = attempting 1 }

elapses_once : act elapses (waiting 0) waiting_task ≡ some second_attempt
unfolding program
elapses_once = refl

played : play (elapses ∷ []) waiting_task ≡ some second_attempt
unfolding program play
played = refl

task_ends_example :
    (length (elapses ∷ []) ≤ 2 * 1 + 7)
    × (IsOver (attempting 1) second_attempt ⊎ CanAct (attempting 1) second_attempt)
task_ends_example =
    task_ends (elapses ∷ []) waiting_task second_attempt (refl, refl, refl, omega arith) played

-- A cancellation between the decision and its writing comes too late.
too_late :
    status_of (
      task_of 0 (
        trace installing
          (runs 0 elapses ∷ runs 0 (returns none) ∷ cancels "go" ∷ runs 0 settles ∷ [])))
    ≡ some succeeded
unfolding program
too_late = refl

abbrev launching : Manager
launching = trace manager (starts "go" once_more plain ∷ [])

abbrev launched_task : Task
launched_task = record waiting_task { log = none; cancelable = false; phase = launched }

launches : lookup 0 launching.tasks ≡ some launched_task
unfolding program
launches = refl

launching_key : lookup "go" launching.by_key ≡ some 0
unfolding program
launching_key = refl

abbrev canceling : Manager
canceling = trace installing (cancels "go" ∷ [])

canceling-IsValid : IsValid canceling
unfolding trace
canceling-IsValid = trace-new_manager-IsValid 1 (install ++ (cancels "go" ∷ []))

abbrev doomed_task : Task
doomed_task = record waiting_task { aborted = true }

doomed : lookup 0 canceling.tasks ≡ some doomed_task
unfolding program
doomed = refl

trace-IsDoomed_example : (t : Task) × (lookup 0 (trace canceling rest).tasks ≡ some t) × IsDoomed t
trace-IsDoomed_example =
    trace-IsDoomed 0 rest canceling doomed_task canceling-IsValid doomed refl refl refl
