-- ===== src/Plugin/Supervisor/Stale.antt =====
-- A plugin that is stopped may come back.
use easyserver.Base.{
  test_refl, ℕ, ◌≤◌, String, ◌≡◌, refl, ap, ◌∙◌, false, none, some, ◌==◌, nat_eq, string_eq,
}
use easyserver.Base.Map.{lookup, erase, lookup-erase}
use easyserver.Plugin.Supervisor.{
  Process, Supervisor, launched, stopped, modify, set_state, is_up, killed, fire, stop_plugin,
  running_endpoint,
}
use easyserver.Plugin.Supervisor.Frames.{
  IsLike, IsLike-trans, modify-IsLike, set_state-IsLike, modify-elsewhere, set_state-elsewhere,
}
use easyserver.Plugin.Supervisor.Breaker.{fire-running_endpoint}

-- The supervisor after a plugin was stopped.
after : String → ℕ → Supervisor → Supervisor
after name other s =
    set_state other stopped (modify other killed (record s { procs = erase name s.procs }))

stop_plugin-after :
    (name : String) (other : ℕ) (s : Supervisor)
    → lookup name s.procs ≡ some other
    → stop_plugin name s ≡ after name other s
unfolding stop_plugin after
stop_plugin-after name other s e = rw (e, stop_plugin) refl

after-IsLike :
    (name : String) (other : ℕ) (s : Supervisor)
    → IsLike (record s { procs = erase name s.procs }) (after name other s)
unfolding after
after-IsLike name other s =
    IsLike-trans (modify-IsLike other killed (record s { procs = erase name s.procs })) (
      set_state-IsLike other stopped
        (modify other killed (record s { procs = erase name s.procs })))

after-elsewhere :
    (name : String) (other id : ℕ) (s : Supervisor)
    → (other == id) ≡ false
    → lookup id (after name other s).heap ≡ lookup id s.heap
unfolding after
after-elsewhere name other id s ne =
    set_state-elsewhere other id stopped
      (modify other killed (record s { procs = erase name s.procs })) ne
    ∙ modify-elsewhere other id killed (record s { procs = erase name s.procs }) ne

unknown :
    (name : String) (other : ℕ) (s : Supervisor) → lookup name (after name other s).procs ≡ none
unknown name other s =
    ap (λ m. lookup name m) (after-IsLike name other s).procs
    ∙ rw (lookup-erase name name s.procs, test_refl name) refl

no_endpoint :
    (name : String) (t : Supervisor) → lookup name t.procs ≡ none → running_endpoint name t ≡ none
unfolding running_endpoint
no_endpoint name t e = rw e refl

-- A timer that was set before a plugin was started again and stopped is not called off: when the
-- process that set it was not the one stopped, it brings the plugin back, though the plugin was
-- stopped after that, if the supervisor is not shutting down and the program can be launched.
pub stopped_comes_back :
    (id other due now : ℕ) (p : Process) (s : Supervisor)
    → lookup p.manifest.name s.procs ≡ some other
    → ((other == id) ≡ false)
    → lookup id s.timers ≡ some due
    → due ≤ now
    → lookup id s.heap ≡ some p
    → p.stopped ≡ false
    → s.stopping ≡ false
    → (running_endpoint p.manifest.name (stop_plugin p.manifest.name s) ≡ none)
      × (running_endpoint p.manifest.name (fire id now launched (stop_plugin p.manifest.name s))
          ≡ some s.next_id)
stopped_comes_back id other due now p s known ne pending late e free on =
    rw (stop_plugin-after name other s known) (
      no_endpoint name (after name other s) (unknown name other s),
      fire-running_endpoint id due now p (after name other s)
            (ap (λ m. lookup id m) like.timers ∙ pending) late
            (after-elsewhere name other id s ne ∙ e) free (like.stopping ∙ on)
            (ap (λ o. is_up o (after name other s).heap) (unknown name other s))
          ∙ ap some like.next_id,
    )
  where
    name : String
    name = p.manifest.name

    like : IsLike (record s { procs = erase name s.procs }) (after name other s)
    like = after-IsLike name other s
