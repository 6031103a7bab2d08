-- ===== src/Infra/Task/Manager.antt =====
-- `Manager` and `Task` of internal/infra/task/manager.go. A goroutine of `run` is the phase its
-- task is in; one event is what the code does under one lock, or one outcome of the task's function,
-- of the timer or of the context. What the function returns is part of the event, a timeout
-- included. A negative `MaxRetries` does what 0 does.
pub mod Run
pub mod Phases
pub mod Invariant
pub mod Reachable
pub mod Cancelling
pub mod Outcome
pub mod Lasting
mod Examples
use easyserver.Base.Map.{
  Map, lookup, insert, erase, retain, map_values, values, Unique, lookup-insert, lookup-erase,
  lookup-retain, lookup-map_values, insert-Unique, erase-Unique, retain-Unique, map_values-Unique,
  mapped, guarded,
}
use easyserver.Base.{
  ℕ, zero, suc, ◌+◌, ◌-◌, ◌*◌, ◌/◌, ◌%◌, ◌≤◌, ◌<◌, min, String, ◌≡◌, refl, sym, ap, ◌∙◌, subst, ◌≢◌,
  ◌↔◌, ◌⊎◌, inl, inr, Bool, true, false, not, ◌&&◌, ◌||◌, Option, none, some, List, [], ◌∷◌, ◌++◌,
  map, arith, ltb, leb, leb→le, if◌then◌else◌, Bool-cases, Option-cases, Eq, ◌==◌, nat_eq,
  string_eq, nat_test, nat_test_iff, ℤ, pos, negsuc, length, take, drop, keep, All, length-append,
  length-drop, Result, ok, err, ◌>>=◌, Kind, AppError, new_sentinel, plain_error, bad_request,
  unauthorized, forbidden, not_found, conflict, rate_limit, internal,
}
use easyserver.Infra.Task.Log.{Line, retry_notice, TaskLog, append_locked}

pub data Status : Type 0 where
  running succeeded failed canceled : Status

pub data Failure : Type 0 where
  returned panicked : String → Failure
  context_canceled : Failure

pub record Options : Type 0 where
  pub timeout : ℕ
  pub max_retries : ℕ
  pub retry_interval : ℕ

-- Where the goroutine is: not yet begun; in attempt n of the function; waiting after attempt n
-- failed; about to write an outcome that it has decided on; unwinding a panic; at the deferred release of the slot; at the deferred clearing of the
-- record; at the deferred recovery from a panic; ended.
pub data Phase : Type 0 where
  launched : Phase
  attempting waiting : ℕ → Phase
  settling : Status → Option Failure → Phase
  panicking : String → Phase
  finished : Phase
  clearing : Option String → Phase
  recovering : String → Phase
  exited : Phase

-- `cancelable`: `cancelFn` is set. `aborted`: the context is canceled. `done`: the channel is closed.
pub record Task : Type 0 where
  pub key : String
  pub status : Status
  pub failure : Option Failure
  pub log : Option TaskLog
  pub done : Bool
  pub cancelable : Bool
  pub aborted : Bool
  pub opts : Options
  pub phase : Phase

-- `tasks` is the heap of the tasks, which `by_key` points into; `slots` is how many slots of `sem`
-- are taken.
pub record Manager : Type 0 where
  pub concurrency : ℕ
  pub slots : ℕ
  pub by_key : Map String ℕ
  pub tasks : Map ℕ Task
  pub next_id : ℕ

unfoldable pub new_manager : ℕ → Manager
new_manager n = record {
  concurrency = (if ltb n 1 then 1 else n);
  slots = 0;
  by_key = [];
  tasks = [];
  next_id = 0;
}

-- The function that a caller gives.
pub data Body : Type 0 where
  no_body plain with_log : Body

pub data Refusal : Type 0 where
  key_required fn_required key_busy too_many : Refusal

abbrev pub is_running : Status → Bool
is_running running = true
is_running _ = false

abbrev pub is_busy : Option Task → Bool
is_busy none = false
is_busy (some t) = is_running t.status

abbrev pub find_task : Option ℕ → Map ℕ Task → Option Task
find_task none m = none
find_task (some id) m = lookup id m

-- Three seconds in nanoseconds, where no interval is given.
abbrev pub with_interval : Options → Options
with_interval o =
    if nat_test o.retry_interval 0 then record o { retry_interval = 3 * 1_000_000_000 } else o

abbrev pub new_task : String → Options → Body → Task
new_task key opts body = record {
  key = key;
  status = running;
  failure = none;
  log = (elim body [ with_log ↦ some [] | _ ↦ none ]);
  done = false;
  cancelable = false;
  aborted = false;
  opts = with_interval opts;
  phase = launched;
}

abbrev pub has_body : Body → Bool
has_body no_body = false
has_body _ = true

unfoldable pub start : String → Options → Body → Manager → Manager × (Refusal ⊎ ℕ)
start key opts body m =
    if key == ""
    then (m, inl key_required)
    else if not (has_body body)
    then (m, inl fn_required)
    else if is_busy (find_task (lookup key m.by_key) m.tasks)
    then (m, inl key_busy)
    else if leb m.concurrency m.slots
    then (m, inl too_many)
    else (
      record m {
        slots = suc m.slots;
        by_key = insert key m.next_id m.by_key;
        tasks = insert m.next_id (new_task key opts body) m.tasks;
        next_id = suc m.next_id;
      },
      inr m.next_id,
    )

-- `StartWithLog`, which looks at the function before the key.
unfoldable pub start_with_log : String → Options → Bool → Manager → Manager × (Refusal ⊎ ℕ)
unfolding start
start_with_log key opts given m = if given then start key opts with_log m else (m, inl fn_required)

abbrev pub finish : Status → Option Failure → Task → Task
finish s e t = record t { status = s; failure = e; done = true; phase = finished }

abbrev pub returned_error : Option String → Option Failure
returned_error none = none
returned_error (some e) = some (returned e)

abbrev pub notice : ℕ → String → Task → Line
notice n e t = retry_notice (n + 1) (t.opts.max_retries + 1) e t.opts.retry_interval

-- What `run` decides when attempt n returns, by the context at that moment. The outcome is written
-- later, under a lock of its own.
abbrev pub settle_on : Status → Option Failure → Task → Task
settle_on s e t = record t { phase = settling s e }

unfoldable pub attempt_returned : ℕ → Option String → Task → Task
attempt_returned n e t = if t.aborted then settle_on canceled (returned_error e) t else elim e [
  | none ↦ settle_on succeeded t.failure t
  | some why ↦
      if leb (t.opts.max_retries + 1) (n + 1)
      then settle_on failed (some (returned why)) t
      else record t { log = mapped (append_locked (notice n why t)) t.log; phase = waiting n }
]

-- `Cancel`: whether it says that it canceled, and the context canceled if `run` has set `cancelFn`.
unfoldable pub cancel : String → Manager → Manager × Bool
cancel key m = elim (lookup key m.by_key) [
  | none ↦ (m, false)
  | some id ↦ elim (lookup id m.tasks) [
    | none ↦ (m, false)
    | some t ↦
        if t.done
        then (m, false)
        else if t.cancelable
        then (record m { tasks = insert id (record t { aborted = true }) m.tasks }, true)
        else (m, true)
  ]
]

unfoldable pub get : String → Manager → Option Task
get key m = find_task (lookup key m.by_key) m.tasks

-- `Tasks`: the statuses by key.
unfoldable pub statuses : Map String ℕ → Map ℕ Task → List (String × Status)
statuses [] tasks = []
statuses ((key, id) ∷ m) tasks = elim (lookup id tasks) [
  | none ↦ statuses m tasks
  | some t ↦ (key, t.status) ∷ statuses m tasks
]
