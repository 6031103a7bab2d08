-- ===== src/Plugin/Supervisor/Breaker.antt =====
-- What the invariant says of runs: one process for a plugin, restarts after a second, no cut-off.
use easyserver.Base.{
  test_refl, ℕ, ◌+◌, ◌≤◌, ◌≡◌, refl, sym, ap, ◌∙◌, subst, inl, inr, Bool, true, false, ◌||◌, none,
  some, List, arith, ltb, if◌then◌else◌, nat_eq, string_eq, All,
}
use mathlib.Core.Bool.{false≢true}
use easyserver.Base.Map.{lookup, erase, lookup-insert}
use easyserver.Plugin.Supervisor.{
  degraded, Process, Supervisor, Manifest, launched, new_supervisor, second, modify, in_state,
  set_state, is_alive, is_up, left, new_process, restart_with_backoff, exit_process, launch,
  ensure_running, revive, fire, running_endpoint, Event, run,
}
use easyserver.Plugin.Supervisor.Invariant.{IsEntry, IsWrite, IsValid, ensure_running_lem}
use easyserver.Plugin.Supervisor.Frames.{
  IsLike, IsLike-trans, modify-IsLike, set_state-IsLike, lookup-modify, lookup-set_state,
}
use easyserver.Plugin.Supervisor.Exits.{alive_known, restart_lem}
use easyserver.Plugin.Supervisor.Starts.{some-eq}
use easyserver.Plugin.Supervisor.Stops.{run-IsValid, new_supervisor-IsValid}

-- A live process is registered.
alive_registered :
    (s : Supervisor) (id : ℕ) (p : Process)
    → IsValid s
    → lookup id s.heap ≡ some p
    → is_alive p ≡ true
    → lookup p.manifest.name s.procs ≡ some id
alive_registered s id p v e up = known (subst (IsEntry s id) e (v.entry id))
  where
    known : IsEntry s id (some p) → lookup p.manifest.name s.procs ≡ some id
    known (_, inl dead) = absurd (false≢true (sym dead ∙ up))
    known (_, inr (here, _)) = here

pub run_one_alive :
    (es : List Event) (i j : ℕ) (p q : Process)
    → lookup i (run new_supervisor es).heap ≡ some p
    → lookup j (run new_supervisor es).heap ≡ some q
    → is_alive p ≡ true
    → is_alive q ≡ true
    → p.manifest.name ≡ q.manifest.name
    → i ≡ j
run_one_alive es i j p q e f hp hq same = some-eq (
    sym (alive_registered _ i p v e hp)
    ∙ ap (λ n. lookup n (run new_supervisor es).procs) same
    ∙ alive_registered _ j q v f hq)
  where
    v : IsValid (run new_supervisor es)
    v = run-IsValid es new_supervisor new_supervisor-IsValid

pub run_never_disabled : (es : List Event) → All IsWrite (run new_supervisor es).writes
run_never_disabled es = (run-IsValid es new_supervisor new_supervisor-IsValid).writes

-- The supervisor after the exit of a live process that was ready.
crashed : ℕ → ℕ → Process → Supervisor → Supervisor
crashed id now p s =
    restart_with_backoff id p.manifest.name now (set_state id degraded (modify id left s))

exit-crashed :
    (id now : ℕ) (p : Process) (s : Supervisor)
    → lookup id s.heap ≡ some p
    → p.exited ≡ false
    → p.stopped ≡ false
    → p.started ≡ true
    → s.stopping ≡ false
    → exit_process id now s ≡ crashed id now p s
unfolding exit_process crashed
exit-crashed id now p s e runs free up on =
    rw (e, exit_process, runs, free, up, (modify-IsLike id left s).stopping, on) refl

pub record IsCrashed (id now : ℕ) (p : Process) (s t : Supervisor) : Type 0 where
  pub procs : t.procs ≡ s.procs
  pub next_id : t.next_id ≡ s.next_id
  pub stopping : t.stopping ≡ s.stopping
  pub timer : lookup id t.timers ≡ some (now + second)
  pub process : lookup id t.heap ≡ some (in_state degraded (left p))

crashed-IsCrashed :
    (id now : ℕ) (p : Process) (s : Supervisor)
    → lookup id s.heap ≡ some p
    → lookup p.manifest.name s.backoff ≡ none
    → IsCrashed id now p s (crashed id now p s)
unfolding crashed
crashed-IsCrashed id now p s e quiet =
    rw
      (restart_lem id p.manifest.name now r
        (ap (λ b. lookup p.manifest.name b) like.backoff ∙ quiet))
      (record {
        procs = like.procs;
        next_id = like.next_id;
        stopping = like.stopping;
        timer = rw (lookup-insert id id (now + second) r.timers, test_refl id) refl;
        process =
            lookup-set_state id degraded (left p) (modify id left s) (lookup-modify id left p s e);
      })
  where
    r : Supervisor
    r = set_state id degraded (modify id left s)

    like : IsLike s r
    like = IsLike-trans (modify-IsLike id left s) (set_state-IsLike id degraded (modify id left s))

pass {ℓ} : {A : Type ℓ} (b : Bool) (x y : A) → b ≡ false → (if b then x else y) ≡ y
pass b x y h = rw h refl

not_early : (a b : ℕ) → b ≤ a → ltb a b ≡ false
not_early a b h = ground arith

-- A timer that is due takes itself away and starts the plugin.
fire_due :
    (id due now : ℕ) (p : Process) (t : Supervisor)
    → lookup id t.timers ≡ some due
    → due ≤ now
    → lookup id t.heap ≡ some p
    → fire id now launched t
      ≡ revive now launched (some p) (record t { timers = erase id t.timers })
unfolding fire
fire_due id due now p t timer late e = rw (fire, timer, not_early now due late, e) refl

ensure_launched :
    (m : Manifest) (now : ℕ) (t : Supervisor)
    → t.stopping ≡ false
    → is_up (lookup m.name t.procs) t.heap ≡ false
    → ensure_running m now launched t ≡ launch m now launched t
ensure_launched m now t on down =
    ensure_running_lem m now launched t
    ∙ pass t.stopping _ _ on
    ∙ pass (is_up (lookup m.name t.procs) t.heap) _ _ down

launched_endpoint :
    (m : Manifest) (now : ℕ) (t : Supervisor)
    → running_endpoint m.name (launch m now launched t).0 ≡ some t.next_id
unfolding running_endpoint
launched_endpoint m now t =
    rw
      (
        lookup-insert m.name m.name t.next_id t.procs,
        test_refl m.name,
        lookup-insert t.next_id t.next_id (new_process m now) t.heap,
        test_refl t.next_id,
      )
      refl

-- A timer that is due, of a process whose plugin is not up, starts the plugin again.
pub fire-running_endpoint :
    (id due now : ℕ) (p : Process) (t : Supervisor)
    → lookup id t.timers ≡ some due
    → due ≤ now
    → lookup id t.heap ≡ some p
    → p.stopped ≡ false
    → t.stopping ≡ false
    → is_up (lookup p.manifest.name t.procs) t.heap ≡ false
    → running_endpoint p.manifest.name (fire id now launched t) ≡ some t.next_id
fire-running_endpoint id due now p t timer late e free on down =
    ap (running_endpoint p.manifest.name) (
      fire_due id due now p t timer late e
      ∙ pass (t.stopping || p.stopped) _ _ (ground (arith, free, on))
      ∙ ap (λ r. r.0)
          (ensure_launched p.manifest now (record t { timers = erase id t.timers }) on down))
    ∙ launched_endpoint p.manifest now (record t { timers = erase id t.timers })

pub crash_restarts :
    (id now later : ℕ) (p : Process) (s : Supervisor)
    → IsValid s
    → lookup id s.heap ≡ some p
    → p.exited ≡ false
    → p.stopped ≡ false
    → p.started ≡ true
    → s.stopping ≡ false
    → now + second ≤ later
    → running_endpoint p.manifest.name (fire id later launched (exit_process id now s))
      ≡ some s.next_id
crash_restarts id now later p s v e runs free up on late =
    rw (exit-crashed id now p s e runs free up on) (
      fire-running_endpoint id (now + second) later (in_state degraded (left p))
        (crashed id now p s) c.timer late c.process free (c.stopping ∙ on) down
      ∙ ap some c.next_id)
  where
    known : (lookup p.manifest.name s.procs ≡ some id) × (lookup p.manifest.name s.backoff ≡ none)
    known = alive_known s id p runs free up (subst (IsEntry s id) e (v.entry id))

    c : IsCrashed id now p s (crashed id now p s)
    c = crashed-IsCrashed id now p s e known.1

    down :
        is_up (lookup p.manifest.name (crashed id now p s).procs) (crashed id now p s).heap ≡ false
    down = rw (c.procs, known.0, c.process, free) refl
