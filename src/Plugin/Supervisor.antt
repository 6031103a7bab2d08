-- ===== src/Plugin/Supervisor.antt =====
-- internal/plugin/supervisor.go: the processes of plugins. A process is a number, which stands for
-- the pointer; `heap` has those that were started, also the ones that `procs` no longer has. Time is
-- in nanoseconds.
pub mod Invariant
pub mod Exits
pub mod Starts
pub mod Stops
pub mod Breaker
mod Examples
pub mod Frames
pub mod Shutdown
pub mod Stale
pub mod Interleaved
use easyserver.Base.{
  Result-cases, ℕ, zero, suc, ◌+◌, ◌-◌, ◌*◌, ◌/◌, ◌%◌, ◌≤◌, ◌<◌, min, String, ◌≡◌, refl, sym, ap,
  ◌∙◌, subst, ◌≢◌, ◌↔◌, ◌⊎◌, inl, inr, Bool, true, false, not, ◌&&◌, ◌||◌, Option, none, some, List,
  [], ◌∷◌, ◌++◌, map, arith, ltb, leb, leb→le, if◌then◌else◌, Bool-cases, Option-cases, Eq, ◌==◌,
  nat_eq, string_eq, nat_test, nat_test_iff, ℤ, pos, negsuc, codes, length, take, drop, keep, All,
  length-append, length-drop, Result, ok, err, ◌>>=◌, Kind, AppError, new_sentinel, plain_error,
  bad_request, unauthorized, forbidden, not_found, conflict, rate_limit, internal,
}
use easyserver.Base.Map.{
  Map, lookup, insert, erase, retain, map_values, values, Unique, lookup-insert, lookup-erase,
  lookup-retain, lookup-map_values, insert-Unique, erase-Unique, retain-Unique, map_values-Unique,
  mapped, guarded,
}

pub data Status : Type 0 where
  starting running degraded stopped error disabled : Status

abbrev status_code : Status → ℕ
status_code starting = 0
status_code running = 1
status_code degraded = 2
status_code stopped = 3
status_code error = 4
status_code disabled = 5

abbrev pub is_status : Option Status → Status → Bool
is_status none t = false
is_status (some u) t = nat_test (status_code u) (status_code t)

abbrev pub second : ℕ
second = 1000000000

abbrev pub window : ℕ
window = 10 * 60 * second

-- What of the manifest matters here; the timeout is that of the startup.
pub record Manifest : Type 0 where
  pub name : String
  pub fail_threshold : ℕ
  pub startup_timeout : ℕ

-- What of `pfProcess` the supervisor decides by. `waiting` and `watched` tell whether EnsureRunning
-- still waits for it and whether its healthLoop runs; `canceled`, that its context was canceled.
pub record Process : Type 0 where
  pub manifest : Manifest
  pub state : Option Status
  pub exited : Bool
  pub stopped : Bool
  pub started : Bool
  pub canceled : Bool
  pub waiting : Bool
  pub watched : Bool
  pub deadline : ℕ
  pub fails : ℕ

pub record Backoff : Type 0 where
  pub restarts : ℕ
  pub first_at : ℕ

-- `timers` has the restarts that wait, by the process that exited; `writes` the calls of
-- SetPluginStatus, the last one first.
pub record Supervisor : Type 0 where
  pub procs : Map String ℕ
  pub heap : Map ℕ Process
  pub next_id : ℕ
  pub stopping : Bool
  pub backoff : Map String Backoff
  pub timers : Map ℕ ℕ
  pub writes : List (String × Status)

abbrev pub new_supervisor : Supervisor
new_supervisor = record {
  procs = [];
  heap = [];
  next_id = 0;
  stopping = false;
  backoff = [];
  timers = [];
  writes = [];
}

unfoldable pub modify : ℕ → (Process → Process) → Supervisor → Supervisor
unfolding lookup insert
modify id f s = elim (lookup id s.heap) [
  | none ↦ s
  | some p ↦ record s { heap = insert id (f p) s.heap }
]

abbrev pub in_state : Status → Process → Process
in_state status p = record p { state = some status }

abbrev pub written : ℕ → Status → Option Process → Supervisor → Supervisor
written id status none s = s
written id status (some p) s =
    if is_status p.state status
    then s
    else record s { writes = (p.manifest.name, status) ∷ s.writes }

-- `setState`: written only when it changes.
unfoldable pub set_state : ℕ → Status → Supervisor → Supervisor
unfolding lookup modify
set_state id status s = written id status (lookup id s.heap) (modify id (in_state status) s)

-- `backoffFor`: the entry, begun anew when its window is over.
abbrev pub renewed : ℕ → Option Backoff → Backoff
renewed now none = record { restarts = 0; first_at = now }
renewed now (some b) =
    if ltb window (now - b.first_at) then record { restarts = 0; first_at = now } else b

-- The loop that doubles the delay, up to a minute.
unfoldable pub delay_from : ℕ → ℕ → ℕ
delay_from zero delay = delay
delay_from (suc k) delay =
    let rest = delay_from k (delay * 2) in
    if leb (60 * second) (delay * 2) then 60 * second else rest

unfoldable pub restart_with_backoff : ℕ → String → ℕ → Supervisor → Supervisor
unfolding lookup insert set_state delay_from
restart_with_backoff id name now s =
    let b = renewed now (lookup name s.backoff) in
    let n = b.restarts + 1 in
    let counted : Supervisor = record s {
      backoff = insert name (record b { restarts = n }) s.backoff;
    } in
    if ltb 5 n
    then set_state id disabled counted
    else record counted { timers = insert id (now + delay_from (n - 1) second) s.timers }

-- What the goroutine that waits for a process does with its exit.
abbrev pub left : Process → Process
left p = record p { exited = true }

abbrev pub monitor : ℕ → ℕ → Process → Supervisor → Supervisor
monitor id now p s =
    if p.stopped || s.stopping
    then s
    else if not p.started
    then set_state id error s
    else restart_with_backoff id p.manifest.name now (set_state id degraded s)

unfoldable pub exit_process : ℕ → ℕ → Supervisor → Supervisor
unfolding lookup modify set_state restart_with_backoff
exit_process id now s = elim (lookup id s.heap) [
  | none ↦ s
  | some p ↦ if p.exited then s else monitor id now p (modify id left s)
]

-- How far EnsureRunning gets: no directory for the sockets, no executable, `cmd.Start` fails, or
-- the process runs.
pub data Launch : Type 0 where
  no_directory no_executable start_failed launched : Launch

pub data Refusal : Type 0 where
  shutting_down launch_failed : Refusal

abbrev pub is_alive : Process → Bool
is_alive p = not p.stopped && not p.exited

abbrev pub is_live : Option Process → Bool
is_live none = false
is_live (some p) = is_alive p

abbrev pub is_up : Option ℕ → Map ℕ Process → Bool
is_up none heap = false
is_up (some id) heap = is_live (lookup id heap)

abbrev pub new_process : Manifest → ℕ → Process
new_process m now = record {
  manifest = m;
  state = some starting;
  exited = false;
  stopped = false;
  started = false;
  canceled = false;
  waiting = true;
  watched = false;
  deadline = now + m.startup_timeout;
  fails = 0;
}

abbrev pub launch : Manifest → ℕ → Launch → Supervisor → Supervisor × Option Refusal
launch m now no_directory s = (s, some launch_failed)
launch m now no_executable s = (s, some launch_failed)
launch m now start_failed s =
    (record s { writes = (m.name, error) ∷ (m.name, starting) ∷ s.writes }, some launch_failed)
launch m now launched s = (
  record s {
    procs = insert m.name s.next_id s.procs;
    heap = insert s.next_id (new_process m now) s.heap;
    next_id = suc s.next_id;
    writes = (m.name, starting) ∷ s.writes;
  },
  none,
)

-- The first half of `EnsureRunning`, under the lock: its answer, or `none` to go on.
abbrev pub check_start : Manifest → Supervisor → Option (Option Refusal)
check_start m s =
    if s.stopping
    then some (some shutting_down)
    else if is_up (lookup m.name s.procs) s.heap
    then some none
    else none

abbrev pub go_on :
    Option (Option Refusal) → Manifest → ℕ → Launch → Supervisor → Supervisor × Option Refusal
go_on none m now how s = launch m now how s
go_on (some answer) m now how s = (s, answer)

-- `EnsureRunning` up to the loop that waits for the process, when nothing else happens between its
-- check and the registration of the process; the code holds no lock in between.
unfoldable pub ensure_running : Manifest → ℕ → Launch → Supervisor → Supervisor × Option Refusal
unfolding lookup insert
ensure_running m now how s = go_on (check_start m s) m now how s

-- One round of the loop that waits for a process: what the socket and `healthOK` say, or that the
-- context of the caller is done.
pub data Poll : Type 0 where
  unready healthy done : Poll

abbrev pub given_up : Process → Process
given_up p = record p { waiting = false; canceled = true }

abbrev pub ready : Process → Process
ready p = record p { waiting = false; started = true; watched = true }

-- The round, for a process that is waited for.
abbrev pub await : ℕ → ℕ → Poll → Process → Supervisor → Supervisor
await id now poll p s =
    if leb p.deadline now || p.exited
    then set_state id error (modify id given_up s)
    else elim poll [
      | unready ↦ s
      | done ↦ modify id given_up s
      | healthy ↦
          let r = modify id ready s in
          set_state id running (record r { backoff = erase p.manifest.name r.backoff })
    ]

unfoldable pub poll_process : ℕ → ℕ → Poll → Supervisor → Supervisor
unfolding lookup modify erase set_state
poll_process id now poll s = elim (lookup id s.heap) [
  | none ↦ s
  | some p ↦ if p.waiting then await id now poll p s else s
]

-- One tick of `healthLoop`.
abbrev pub unwatched : Process → Process
unwatched p = record p { watched = false }

abbrev pub recovered : Process → Process
recovered p = record p { fails = 0 }

abbrev pub failed_once : Process → Process
failed_once p =
    if leb p.manifest.fail_threshold (p.fails + 1)
    then record p { fails = p.fails + 1; canceled = true; watched = false }
    else record p { fails = p.fails + 1 }

abbrev pub tick : ℕ → Bool → Process → Supervisor → Supervisor
tick id is_healthy p s =
    if p.exited || s.stopping
    then modify id unwatched s
    else if is_healthy
    then modify id recovered (set_state id running s)
    else modify id failed_once s

unfoldable pub health_tick : ℕ → Bool → Supervisor → Supervisor
unfolding lookup modify set_state
health_tick id is_healthy s = elim (lookup id s.heap) [
  | none ↦ s
  | some p ↦ if p.watched then tick id is_healthy p s else s
]

-- The function of `time.AfterFunc`: the timer of a process runs.
abbrev pub revive : ℕ → Launch → Option Process → Supervisor → Supervisor
revive now how none s = s
revive now how (some p) s =
    if s.stopping || p.stopped then s else (ensure_running p.manifest now how s).0

unfoldable pub fire : ℕ → ℕ → Launch → Supervisor → Supervisor
unfolding lookup erase ensure_running
fire id now how s = elim (lookup id s.timers) [
  | none ↦ s
  | some due ↦
      if ltb now due
      then s
      else revive now how (lookup id s.heap) (record s { timers = erase id s.timers })
]

-- `StopPlugin`, which returns when the process is gone.
abbrev pub killed : Process → Process
killed p = record p { stopped = true; exited = true }

unfoldable pub stop_plugin : String → Supervisor → Supervisor
unfolding lookup erase modify set_state
stop_plugin name s = elim (lookup name s.procs) [
  | none ↦ s
  | some id ↦ set_state id stopped (modify id killed (record s { procs = erase name s.procs }))
]

unfoldable pub stop_each : List (String × ℕ) → Supervisor → Supervisor
unfolding stop_plugin
stop_each [] s = s
stop_each ((name, _) ∷ names) s = stop_each names (stop_plugin name s)

unfoldable pub stop_all : Supervisor → Supervisor
unfolding stop_each
stop_all s = stop_each s.procs (record s { stopping = true })

-- `RunningEndpoint`, as the process that it finds.
unfoldable pub running_endpoint : String → Supervisor → Option ℕ
unfolding lookup
running_endpoint name s = if is_up (lookup name s.procs) s.heap then lookup name s.procs else none

-- What happens to a supervisor, one piece of code at a time. A start is one event: it is not
-- interrupted between its check and the registration of its process.
pub data Event : Type 0 where
  ensure : Manifest → ℕ → Launch → Event
  poll : ℕ → ℕ → Poll → Event
  exit : ℕ → ℕ → Event
  health : ℕ → Bool → Event
  timer : ℕ → ℕ → Launch → Event
  stop : String → Event
  shut_down : Event

unfoldable pub step : Supervisor → Event → Supervisor
unfolding ensure_running poll_process exit_process health_tick fire stop_plugin stop_all
step s (ensure m now how) = (ensure_running m now how s).0
step s (poll id now p) = poll_process id now p s
step s (exit id now) = exit_process id now s
step s (health id is_healthy) = health_tick id is_healthy s
step s (timer id now how) = fire id now how s
step s (stop name) = stop_plugin name s
step s shut_down = stop_all s

unfoldable pub run : Supervisor → List Event → Supervisor
unfolding step
run s [] = s
run s (e ∷ es) = run (step s e) es
