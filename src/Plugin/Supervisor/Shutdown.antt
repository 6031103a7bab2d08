-- ===== src/Plugin/Supervisor/Shutdown.antt =====
-- No process is started once the supervisor shuts down.
use easyserver.Base.{
  ℕ, ◌+◌, ◌-◌, String, ◌≡◌, refl, sym, ◌∙◌, subst, inl, inr, Bool, true, false, not, ◌||◌, Option,
  none, some, List, [], ◌∷◌, ltb, leb, if◌then◌else◌, Option-cases, nat_eq, string_eq,
}
use easyserver.Base.Map.{lookup, insert, erase}
use easyserver.Plugin.Supervisor.{
  Status, running, stopped, degraded, error, disabled, Process, Backoff, Supervisor, Manifest,
  Launch, second, modify, set_state, is_up, left, given_up, ready, monitor, renewed, delay_from,
  restart_with_backoff, exit_process, launch, shutting_down, ensure_running, revive, fire, Poll,
  unready, healthy, done, await, poll_process, health_tick, unwatched, recovered, failed_once,
  killed, stop_plugin, stop_each, stop_all, Event, ensure, poll, exit, health, timer, stop,
  shut_down, step, run,
}
use easyserver.Plugin.Supervisor.Invariant.{ensure_running_lem}
use easyserver.Plugin.Supervisor.Frames.{IsLike, modify-IsLike, set_state-IsLike}

-- The same processes were started, and the supervisor is shutting down or not as before.
pub record IsHalt (s t : Supervisor) : Type 0 where
  pub next_id : t.next_id ≡ s.next_id
  pub stopping : t.stopping ≡ s.stopping

halt_refl : (s : Supervisor) → IsHalt s s
halt_refl s = record { next_id = refl; stopping = refl }

like_halt : {s t : Supervisor} → IsLike s t → IsHalt s t
like_halt h = record { next_id = h.next_id; stopping = h.stopping }

halt_then : {s t u : Supervisor} → IsHalt s t → IsHalt t u → IsHalt s u
halt_then h k = record { next_id = k.next_id ∙ h.next_id; stopping = k.stopping ∙ h.stopping }

halt_if : (b : Bool) (s t u : Supervisor) → IsHalt s t → IsHalt s u → IsHalt s (if b then t else u)
halt_if true s t u h k = h
halt_if false s t u h k = k

changed : (id : ℕ) (f : Process → Process) (s : Supervisor) → IsHalt s (modify id f s)
changed id f s = like_halt (modify-IsLike id f s)

marked : (id : ℕ) (status : Status) (s : Supervisor) → IsHalt s (set_state id status s)
marked id status s = like_halt (set_state-IsLike id status s)

counted :
    (id : ℕ) (status : Status) (s t : Supervisor) → IsHalt s t → IsHalt s (set_state id status t)
counted id status s t h = halt_then h (marked id status t)

restart-IsHalt :
    (id : ℕ) (name : String) (now : ℕ) (s : Supervisor)
    → IsHalt s (restart_with_backoff id name now s)
unfolding restart_with_backoff
restart-IsHalt id name now s =
    halt_if (ltb 5 (b.restarts + 1)) s (set_state id disabled once)
      (record once { timers = insert id (now + delay_from (b.restarts + 1 - 1) second) s.timers })
      (counted id disabled s once (record { next_id = refl; stopping = refl }))
      (record { next_id = refl; stopping = refl })
  where
    b : Backoff
    b = renewed now (lookup name s.backoff)

    once : Supervisor
    once = record s { backoff = insert name (record b { restarts = b.restarts + 1 }) s.backoff }

monitor-IsHalt : (id now : ℕ) (p : Process) (s : Supervisor) → IsHalt s (monitor id now p s)
monitor-IsHalt id now p s = halt_if (p.stopped || s.stopping) s _ _ (halt_refl s) (
    halt_if (not p.started) s _ _ (marked id error s) (
      halt_then (marked id degraded s)
        (restart-IsHalt id p.manifest.name now (set_state id degraded s))))

exit_process-IsHalt : (id now : ℕ) (s : Supervisor) → IsHalt s (exit_process id now s)
unfolding exit_process
exit_process-IsHalt id now s = elim (Option-cases (lookup id s.heap)) [
  | inl e ↦ rw (e, exit_process) (halt_refl s)
  | inr (p, e) ↦
      rw (e, exit_process)
        (halt_if p.exited s _ _ (halt_refl s)
          (halt_then (changed id left s) (monitor-IsHalt id now p (modify id left s))))
]

await-IsHalt :
    (id now : ℕ) (now_is : Poll) (p : Process) (s : Supervisor) → IsHalt s (await id now now_is p s)
await-IsHalt id now now_is p s =
    halt_if (leb p.deadline now || p.exited) s _ _
      (halt_then (changed id given_up s) (marked id error (modify id given_up s))) (polled now_is)
  where
    polled :
        (now_is : Poll)
        → IsHalt s (elim now_is [
          | unready ↦ s
          | done ↦ modify id given_up s
          | healthy ↦ set_state id running (record (modify id ready s) {
            backoff = erase p.manifest.name (modify id ready s).backoff;
          })
        ])
    polled unready = (halt_refl s)
    polled done = changed id given_up s
    polled healthy =
        counted id running s _
          (halt_then (changed id ready s) (record { next_id = refl; stopping = refl }))

poll_process-IsHalt :
    (id now : ℕ) (now_is : Poll) (s : Supervisor) → IsHalt s (poll_process id now now_is s)
unfolding poll_process
poll_process-IsHalt id now now_is s = elim (Option-cases (lookup id s.heap)) [
  | inl e ↦ rw (e, poll_process) (halt_refl s)
  | inr (p, e) ↦
      rw (e, poll_process) (halt_if p.waiting s _ _ (await-IsHalt id now now_is p s) (halt_refl s))
]

health_tick-IsHalt :
    (id : ℕ) (is_healthy : Bool) (s : Supervisor) → IsHalt s (health_tick id is_healthy s)
unfolding health_tick
health_tick-IsHalt id is_healthy s = elim (Option-cases (lookup id s.heap)) [
  | inl e ↦ rw (e, health_tick) (halt_refl s)
  | inr (p, e) ↦
      rw (e, health_tick)
        (halt_if p.watched s _ _
          (halt_if (p.exited || s.stopping) s _ _ (changed id unwatched s) (
            halt_if is_healthy s _ _
              (halt_then (marked id running s) (changed id recovered (set_state id running s)))
              (changed id failed_once s)))
          (halt_refl s))
]

stop_plugin-IsHalt : (name : String) (s : Supervisor) → IsHalt s (stop_plugin name s)
unfolding stop_plugin
stop_plugin-IsHalt name s = elim (Option-cases (lookup name s.procs)) [
  | inl e ↦ rw (e, stop_plugin) (halt_refl s)
  | inr (id, e) ↦
      rw (e, stop_plugin)
        (counted id stopped s _ (
          halt_then (record { next_id = refl; stopping = refl })
            (changed id killed (record s { procs = erase name s.procs }))))
]

stop_each-IsHalt : (names : List (String × ℕ)) (s : Supervisor) → IsHalt s (stop_each names s)
unfolding stop_each
stop_each-IsHalt [] s = halt_refl s
stop_each-IsHalt ((name, _) ∷ names) s =
    halt_then (stop_plugin-IsHalt name s) (stop_each-IsHalt names (stop_plugin name s))

-- A start while the supervisor shuts down.
refused :
    (m : Manifest) (now : ℕ) (how : Launch) (s : Supervisor)
    → s.stopping ≡ true
    → IsHalt s (ensure_running m now how s).0
refused m now how s h =
    rw (ensure_running_lem m now how s) (subst (λ b. IsHalt s (first b)) (sym h) (halt_refl s))
  where
    first : Bool → Supervisor
    first b =
        (if b
          then (s, some shutting_down)
          else if is_up (lookup m.name s.procs) s.heap
          then (s, none)
          else launch m now how s).0

revive-IsHalt :
    (now : ℕ) (how : Launch) (o : Option Process) (s : Supervisor)
    → s.stopping ≡ true
    → IsHalt s (revive now how o s)
revive-IsHalt now how none s h = halt_refl s
revive-IsHalt now how (some p) s h =
    halt_if (s.stopping || p.stopped) s _ _ (halt_refl s) (refused p.manifest now how s h)

fire-IsHalt :
    (id now : ℕ) (how : Launch) (s : Supervisor) → s.stopping ≡ true → IsHalt s (fire id now how s)
unfolding fire
fire-IsHalt id now how s h = elim (Option-cases (lookup id s.timers)) [
  | inl e ↦ rw (e, fire) (halt_refl s)
  | inr (due, e) ↦
      rw (e, fire)
        (halt_if (ltb now due) s _ _ (halt_refl s) (
          halt_then (record { next_id = refl; stopping = refl })
            (revive-IsHalt now how (lookup id s.heap) (record s { timers = erase id s.timers }) h)))
]

pub step-IsHalt : (s : Supervisor) (e : Event) → s.stopping ≡ true → IsHalt s (step s e)
unfolding step stop_all
step-IsHalt s (ensure m now how) h = refused m now how s h
step-IsHalt s (poll id now p) h = poll_process-IsHalt id now p s
step-IsHalt s (exit id now) h = exit_process-IsHalt id now s
step-IsHalt s (health id is_healthy) h = health_tick-IsHalt id is_healthy s
step-IsHalt s (timer id now how) h = fire-IsHalt id now how s h
step-IsHalt s (stop name) h = stop_plugin-IsHalt name s
step-IsHalt s shut_down h = record { next_id = halted.next_id; stopping = halted.stopping ∙ sym h }
  where
    halted :
        IsHalt (record s { stopping = true }) (stop_each s.procs (record s { stopping = true }))
    halted = stop_each-IsHalt s.procs (record s { stopping = true })

-- Once a supervisor is shutting down it stays so, and no event starts a process any more, if no
-- start is past its check by then.
pub run_stopping :
    (es : List Event) (s : Supervisor)
    → s.stopping ≡ true
    → ((run s es).next_id ≡ s.next_id) × ((run s es).stopping ≡ true)
unfolding run
run_stopping [] s h = (refl, h)
run_stopping (e ∷ es) s h =
    let halt : IsHalt s (step s e) = step-IsHalt s e h in
    let later : ((run (step s e) es).next_id ≡ (step s e).next_id)
        × ((run (step s e) es).stopping ≡ true) =
      run_stopping es (step s e) (halt.stopping ∙ h) in
    (later.0 ∙ halt.next_id, later.1)
