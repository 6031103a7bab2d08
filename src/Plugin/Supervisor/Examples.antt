-- ===== src/Plugin/Supervisor/Examples.antt =====
-- Concrete runs of a supervisor.
use easyserver.Base.{
  ℕ, ◌+◌, ◌*◌, ◌≡◌, refl, true, false, none, some, List, [], ◌∷◌, arith, nat_eq, string_eq, All,
}
use easyserver.Base.Map.{lookup, insert, erase}
use easyserver.Plugin.Supervisor.{
  Process, Manifest, launched, new_supervisor, second, running, in_state, ready, new_process,
  modify, set_state, degraded, delay_from, restart_with_backoff, exit_process, ensure_running,
  healthy, poll_process, fire, stop_plugin, stop_each, stop_all, running_endpoint, Event, ensure,
  poll, exit, shut_down, step, run,
}
use easyserver.Plugin.Supervisor.Invariant.{IsWrite}
use easyserver.Plugin.Supervisor.Stops.{run-IsValid, new_supervisor-IsValid}
use easyserver.Plugin.Supervisor.Breaker.{run_one_alive, run_never_disabled, crash_restarts}
use easyserver.Plugin.Supervisor.Shutdown.{run_stopping}
use easyserver.Plugin.Supervisor.Stale.{stopped_comes_back}

program : Unit {0}
unfolding lookup insert erase modify set_state delay_from restart_with_backoff exit_process
    ensure_running poll_process fire stop_plugin stop_each stop_all running_endpoint step run
program = tt

abbrev demo : Manifest
demo = record { name = "demo"; fail_threshold = 3; startup_timeout = 10 * second }

abbrev up_events : List Event
up_events = ensure demo 0 launched ∷ poll 0 1 healthy ∷ []

abbrev crash_events : List Event
crash_events = ensure demo 0 launched ∷ poll 0 1 healthy ∷ exit 0 5 ∷ ensure demo 6 launched ∷ []

abbrev demo_up : Process
demo_up = in_state running (ready (new_process demo 0))

-- The delay doubles up to a minute.
delays : delay_from 3 second ≡ 8 * second
unfolding program
delays = refl

last_delay : delay_from 6 second ≡ 60 * second
unfolding program
last_delay = refl

found_up : lookup 0 (run new_supervisor up_events).heap ≡ some demo_up
unfolding program
found_up = refl

run_one_alive_example : ◌≡◌ {A = ℕ} 0 0
run_one_alive_example = run_one_alive up_events 0 0 demo_up demo_up found_up found_up refl refl refl

run_never_disabled_example : All IsWrite (run new_supervisor crash_events).writes
run_never_disabled_example = run_never_disabled crash_events

on : (run new_supervisor up_events).stopping ≡ false
unfolding program
on = refl

crash_restarts_example :
    running_endpoint "demo"
      (fire 0 (5 + second) launched (exit_process 0 5 (run new_supervisor up_events)))
    ≡ some (run new_supervisor up_events).next_id
crash_restarts_example =
    crash_restarts 0 5 (5 + second) demo_up (run new_supervisor up_events)
      (run-IsValid up_events new_supervisor new_supervisor-IsValid) found_up refl refl refl on
      (omega arith)

off : (run new_supervisor (shut_down ∷ [])).stopping ≡ true
unfolding program
off = refl

run_stopping_example :
    ((run (run new_supervisor (shut_down ∷ [])) up_events).next_id
      ≡ (run new_supervisor (shut_down ∷ [])).next_id)
    × ((run (run new_supervisor (shut_down ∷ [])) up_events).stopping ≡ true)
run_stopping_example = run_stopping up_events (run new_supervisor (shut_down ∷ [])) off

abbrev demo_gone : Process
demo_gone = record demo_up { state = some degraded; exited = true }

known : lookup "demo" (run new_supervisor crash_events).procs ≡ some 1
unfolding program
known = refl

pending : lookup 0 (run new_supervisor crash_events).timers ≡ some (5 + second)
unfolding program
pending = refl

found_gone : lookup 0 (run new_supervisor crash_events).heap ≡ some demo_gone
unfolding program
found_gone = refl

still_on : (run new_supervisor crash_events).stopping ≡ false
unfolding program
still_on = refl

stopped_comes_back_example :
    (running_endpoint "demo" (stop_plugin "demo" (run new_supervisor crash_events)) ≡ none)
    × (running_endpoint "demo"
          (fire 0 (5 + second) launched (stop_plugin "demo" (run new_supervisor crash_events)))
        ≡ some (run new_supervisor crash_events).next_id)
stopped_comes_back_example =
    stopped_comes_back 0 1 (5 + second) (5 + second) demo_gone (run new_supervisor crash_events)
      known refl pending (omega arith) found_gone refl still_on
