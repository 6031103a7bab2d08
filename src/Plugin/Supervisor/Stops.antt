-- ===== src/Plugin/Supervisor/Stops.antt =====
-- Health checks, timers and stops keep the invariant, and so does every run.
use easyserver.Base.{
  ℕ, String, ◌≡◌, refl, sym, ap, ◌∙◌, subst, ◌≢◌, inl, inr, Bool, true, false, ◌||◌, Option, none,
  some, List, [], ◌∷◌, arith, ltb, if◌then◌else◌, Bool-cases, Option-cases, ◌==◌, nat_eq, string_eq,
}
use easyserver.Base.Map.{lookup, erase, lookup-erase}
use easyserver.Plugin.Supervisor.{
  running, stopped, disabled, Process, Supervisor, Launch, new_supervisor, modify, set_state,
  is_alive, unwatched, recovered, failed_once, tick, health_tick, revive, fire, killed, stop_plugin,
  stop_each, stop_all, Event, ensure, poll, exit, health, timer, stop, shut_down, step, run,
}
use easyserver.Plugin.Supervisor.Invariant.{
  IsEntry, IsValid, modify-some, modify-none, insert_entry, modify-IsValid, set_state-IsValid,
}
use easyserver.Plugin.Supervisor.Exits.{exit_process-IsValid}
use easyserver.Plugin.Supervisor.Starts.{
  some-eq, running-ne, unwatched-IsWeaker, recovered-IsWeaker, failed_once-IsWeaker,
  ensure_running-IsValid, poll_process-IsValid,
}

three_ways :
    (b c : Bool) (s t u : Supervisor)
    → IsValid s
    → IsValid t
    → IsValid u
    → IsValid (if b then s else if c then t else u)
three_ways true c s t u vs vt vu = vs
three_ways false true s t u vs vt vu = vt
three_ways false false s t u vs vt vu = vu

tick-IsValid :
    (id : ℕ) (is_healthy : Bool) (p : Process) (s : Supervisor)
    → IsValid s
    → IsValid (tick id is_healthy p s)
tick-IsValid id is_healthy p s v =
    three_ways (p.exited || s.stopping) is_healthy _ _ _
      (modify-IsValid id unwatched s unwatched-IsWeaker v)
      (modify-IsValid id recovered (set_state id running s) recovered-IsWeaker
        (set_state-IsValid id running s running-ne v))
      (modify-IsValid id failed_once s failed_once-IsWeaker v)

pub health_tick-IsValid :
    (id : ℕ) (is_healthy : Bool) (s : Supervisor)
    → IsValid s
    → IsValid (health_tick id is_healthy s)
unfolding health_tick
health_tick-IsValid id is_healthy s v = elim (Option-cases (lookup id s.heap)) [
  | inl e ↦ rw (e, health_tick) v
  | inr (p, e) ↦
      rw (e, health_tick)
        (elim (Bool-cases p.watched) [
          | inl watched ↦ rw watched (tick-IsValid id is_healthy p s v)
          | inr alone ↦ rw alone v
        ])
]

two_ways : (b : Bool) (s t : Supervisor) → IsValid s → IsValid t → IsValid (if b then s else t)
two_ways true s t vs vt = vs
two_ways false s t vs vt = vt

revive-IsValid :
    (now : ℕ) (how : Launch) (o : Option Process) (s : Supervisor)
    → IsValid s
    → IsValid (revive now how o s)
revive-IsValid now how none s v = v
revive-IsValid now how (some p) s v =
    two_ways (s.stopping || p.stopped) s _ v (ensure_running-IsValid p.manifest now how s v)

pub fire-IsValid :
    (id now : ℕ) (how : Launch) (s : Supervisor) → IsValid s → IsValid (fire id now how s)
unfolding fire
fire-IsValid id now how s v = elim (Option-cases (lookup id s.timers)) [
  | inl e ↦ rw (e, fire) v
  | inr (due, e) ↦
      rw (e, fire)
        (two_ways (ltb now due) s _ v (
          revive-IsValid now how (lookup id s.heap) (record s { timers = erase id s.timers })
            (record { entry = v.entry; charge = v.charge; writes = v.writes })))
]

-- The supervisor that has forgotten a plugin.
abbrev forgotten : String → Supervisor → Supervisor
forgotten name s = record s { procs = erase name s.procs }

forgotten-IsEntry :
    (name : String) (id : ℕ) (s : Supervisor) (j : ℕ) (o : Option Process)
    → lookup name s.procs ≡ some id
    → (id ≡ j → ⊥)
    → IsEntry s j o
    → IsEntry (forgotten name s) j o
forgotten-IsEntry name id s j none e ne h = tt
forgotten-IsEntry name id s j (some p) e ne (below, inl dead) = (below, inl dead)
forgotten-IsEntry name id s j (some p) e ne (below, inr (known, quiet)) = (
  below,
  elim (Bool-cases (name == p.manifest.name)) [
    | inl same ↦ absurd (
        ne (
          some-eq (
            sym e
            ∙ ap (λ n. lookup n s.procs) ((string_eq.test_iff name p.manifest.name).0 same)
            ∙ known)))
    | inr other ↦ inr (rw (lookup-erase name p.manifest.name s.procs, other) known, quiet)
  ],
)

dead : (p : Process) → is_alive (killed p) ≡ false
dead p = refl

killed-IsValid :
    (name : String) (id : ℕ) (s : Supervisor)
    → lookup name s.procs ≡ some id
    → IsValid s
    → IsValid (modify id killed (forgotten name s))
killed-IsValid name id s e v = elim (Option-cases (lookup id s.heap)) [
  | inl f ↦ rw (modify-none id killed (forgotten name s) f) (record {
    entry = λ j. elim (Bool-cases (id == j)) [
      | inl same ↦ rw (← (nat_eq.test_iff id j).0 same, f) tt
      | inr other ↦
          forgotten-IsEntry name id s j (lookup j s.heap) e (λ q. ground (arith, other, q))
            (v.entry j)
    ];
    charge = v.charge;
    writes = v.writes;
  })
  | inr (p, f) ↦ rw (modify-some id killed p (forgotten name s) f) (record {
    entry =
        insert_entry id (killed p) s.heap (IsEntry (forgotten name s))
          (λ j ne. forgotten-IsEntry name id s j (lookup j s.heap) e ne (v.entry j))
          ((subst (IsEntry s id) f (v.entry id)).0, inl (dead p));
    charge = v.charge;
    writes = v.writes;
  })
]

stopped-ne : stopped ≢ disabled
stopped-ne = cc

pub stop_plugin-IsValid :
    (name : String) (s : Supervisor) → IsValid s → IsValid (stop_plugin name s)
unfolding stop_plugin
stop_plugin-IsValid name s v = elim (Option-cases (lookup name s.procs)) [
  | inl e ↦ rw (e, stop_plugin) v
  | inr (id, e) ↦
      rw (e, stop_plugin)
        (set_state-IsValid id stopped (modify id killed (forgotten name s)) stopped-ne
          (killed-IsValid name id s e v))
]

stop_each-IsValid :
    (names : List (String × ℕ)) (s : Supervisor) → IsValid s → IsValid (stop_each names s)
unfolding stop_each
stop_each-IsValid [] s v = v
stop_each-IsValid ((name, _) ∷ names) s v =
    stop_each-IsValid names (stop_plugin name s) (stop_plugin-IsValid name s v)

pub step-IsValid : (s : Supervisor) (e : Event) → IsValid s → IsValid (step s e)
unfolding step stop_all
step-IsValid s (ensure m now how) v = ensure_running-IsValid m now how s v
step-IsValid s (poll id now p) v = poll_process-IsValid id now p s v
step-IsValid s (exit id now) v = exit_process-IsValid id now s v
step-IsValid s (health id is_healthy) v = health_tick-IsValid id is_healthy s v
step-IsValid s (timer id now how) v = fire-IsValid id now how s v
step-IsValid s (stop name) v = stop_plugin-IsValid name s v
step-IsValid s shut_down v =
    stop_each-IsValid s.procs (record s { stopping = true })
      (record { entry = v.entry; charge = v.charge; writes = v.writes })

-- The invariant holds at the start and along every run.
pub run-IsValid : (es : List Event) (s : Supervisor) → IsValid s → IsValid (run s es)
unfolding run
run-IsValid [] s v = v
run-IsValid (e ∷ es) s v = run-IsValid es (step s e) (step-IsValid s e v)

pub new_supervisor-IsValid : IsValid new_supervisor
unfolding lookup
new_supervisor-IsValid = record { entry = λ id. tt; charge = λ name. tt; writes = tt }
