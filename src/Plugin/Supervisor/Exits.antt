-- ===== src/Plugin/Supervisor/Exits.antt =====
-- An exit keeps the invariant: it is the first that counts since the plugin was ready.
use easyserver.Base.{
  ℕ, ◌+◌, String, ◌≡◌, refl, sym, ap, ◌∙◌, subst, ◌≢◌, ◌⊎◌, inl, inr, Bool, true, false, ◌||◌,
  Option, none, some, arith, Bool-cases, Option-cases, ◌==◌, nat_eq, string_eq,
}
use mathlib.Core.Bool.{false≢true}
use easyserver.Base.Map.{lookup, insert, lookup-insert}
use easyserver.Plugin.Supervisor.{
  Status, degraded, error, disabled, Process, Supervisor, second, modify, set_state, is_alive, left,
  restart_with_backoff, monitor, exit_process,
}
use easyserver.Plugin.Supervisor.Invariant.{
  IsEntry, IsValid, IsWeaker, modify-some, insert_entry, modify-IsValid, set_state-IsValid,
  set_state_entry,
}
use easyserver.Plugin.Supervisor.Frames.{IsLike-trans, modify-IsLike, set_state-IsLike}

-- No process of the plugin is alive.
abbrev pub IsGone : String → Option Process → Type 0
IsGone name none = Unit
IsGone name (some p) = (is_alive p ≡ false) ⊎ (p.manifest.name ≢ name)

some-eq : {i k : ℕ} → some i ≡ some k → i ≡ k
some-eq h = cc

-- A process that is alive is the only one of its plugin.
other-IsGone :
    (s : Supervisor) (id j : ℕ) (name : String)
    → lookup name s.procs ≡ some id
    → (id ≡ j → ⊥)
    → IsEntry s j (lookup j s.heap)
    → IsGone name (lookup j s.heap)
other-IsGone s id j name e ne h = elim (Option-cases (lookup j s.heap)) [
  | inl f ↦ rw f tt
  | inr (p, f) ↦ rw f (only p (subst (IsEntry s j) f h))
]
  where
    only : (p : Process) → IsEntry s j (some p) → IsGone name (some p)
    only p (_, inl dead) = inl dead
    only p (_, inr (known, _)) =
        inr (λ same. ne (some-eq (sym e ∙ ap (λ n. lookup n s.procs) (sym same) ∙ known)))

pub left-IsWeaker : (p : Process) → IsWeaker p (left p)
left-IsWeaker p = (refl, inl (ground arith), inr refl)

-- After the exit of the process of a plugin none of it is alive.
left-IsGone :
    (s : Supervisor) (id : ℕ) (p : Process)
    → IsValid s
    → lookup id s.heap ≡ some p
    → lookup p.manifest.name s.procs ≡ some id
    → (j : ℕ) → IsGone p.manifest.name (lookup j (modify id left s).heap)
left-IsGone s id p v e known j = rw (modify-some id left p s e) (
    insert_entry id (left p) s.heap (λ j o. IsGone p.manifest.name o)
      (λ j ne. other-IsGone s id j p.manifest.name known ne (v.entry j)) (inl (ground arith)) j)

set_state-IsGone :
    (id : ℕ) (status : Status) (s : Supervisor) (name : String)
    → ((j : ℕ) → IsGone name (lookup j s.heap))
    → (j : ℕ) → IsGone name (lookup j (set_state id status s).heap)
set_state-IsGone id status s name h j =
    set_state_entry id status s (λ i o. IsGone name o) h (λ p g. g) j

-- The exit counts as the first one, and the restart is due after a second.
pub restart_lem :
    (id : ℕ) (name : String) (now : ℕ) (s : Supervisor)
    → lookup name s.backoff ≡ none
    → restart_with_backoff id name now s ≡ record s {
      backoff = insert name (record { restarts = 1; first_at = now }) s.backoff;
      timers = insert id (now + second) s.timers;
    }
unfolding restart_with_backoff
restart_lem id name now s e = rw e refl

abbrev recount : String → ℕ → ℕ → Supervisor → Supervisor
recount name id now s = record s {
  backoff = insert name (record { restarts = 1; first_at = now }) s.backoff;
  timers = insert id (now + second) s.timers;
}

gone_quiet :
    (name : String) (now : ℕ) (s : Supervisor) (p : Process)
    → p.manifest.name ≢ name
    → lookup p.manifest.name s.backoff ≡ none
    → lookup p.manifest.name (insert name (record { restarts = 1; first_at = now }) s.backoff)
      ≡ none
gone_quiet name now s p ne e =
    rw (lookup-insert name p.manifest.name (record { restarts = 1; first_at = now }) s.backoff)
      (elim (Bool-cases (name == p.manifest.name)) [
        | inl same ↦ absurd (ne (sym ((string_eq.test_iff name p.manifest.name).0 same)))
        | inr other ↦ rw other e
      ])

recount-IsEntry :
    (name : String) (id now : ℕ) (s : Supervisor) (j : ℕ) (o : Option Process)
    → IsGone name o
    → IsEntry s j o
    → IsEntry (recount name id now s) j o
recount-IsEntry name id now s j none g h = tt
recount-IsEntry name id now s j (some p) g (below, inl dead) = (below, inl dead)
recount-IsEntry name id now s j (some p) g (below, inr (known, inl unready)) =
    (below, inr (known, inl unready))
recount-IsEntry name id now s j (some p) (inl dead) (below, inr (known, inr quiet)) =
    (below, inl dead)
recount-IsEntry name id now s j (some p) (inr ne) (below, inr (known, inr quiet)) =
    (below, inr (known, inr (gone_quiet name now s p ne quiet)))

restart-IsValid :
    (id : ℕ) (name : String) (now : ℕ) (s : Supervisor)
    → lookup name s.backoff ≡ none
    → ((j : ℕ) → IsGone name (lookup j s.heap))
    → IsValid s
    → IsValid (restart_with_backoff id name now s)
restart-IsValid id name now s e gone v = rw (restart_lem id name now s e) (record {
  entry = λ j. recount-IsEntry name id now s j (lookup j s.heap) (gone j) (v.entry j);
  charge = λ n. elim (Bool-cases (name == n)) [
    | inl same ↦ rw (lookup-insert name n _ s.backoff, same) (omega arith)
    | inr other ↦ rw (lookup-insert name n _ s.backoff, other) (v.charge n)
  ];
  writes = v.writes;
})

degraded-ne : degraded ≢ disabled
degraded-ne = cc

error-ne : error ≢ disabled
error-ne = cc

-- A live process that is ready is the one of its plugin, and no exit of the plugin counts.
pub alive_known :
    (s : Supervisor) (id : ℕ) (p : Process)
    → p.exited ≡ false
    → p.stopped ≡ false
    → p.started ≡ true
    → IsEntry s id (some p)
    → (lookup p.manifest.name s.procs ≡ some id) × (lookup p.manifest.name s.backoff ≡ none)
alive_known s id p runs free up (_, inl dead) =
    absurd (false≢true (sym dead ∙ rw (runs, free) refl))
alive_known s id p runs free up (_, inr (known, inl unready)) =
    absurd (false≢true (sym unready ∙ up))
alive_known s id p runs free up (_, inr (known, inr quiet)) = (known, quiet)

crash-IsValid :
    (id now : ℕ) (p : Process) (s : Supervisor)
    → lookup id s.heap ≡ some p
    → (lookup p.manifest.name s.procs ≡ some id) × (lookup p.manifest.name s.backoff ≡ none)
    → IsValid s
    → IsValid
        (restart_with_backoff id p.manifest.name now (set_state id degraded (modify id left s)))
crash-IsValid id now p s e (known, quiet) v =
    restart-IsValid id p.manifest.name now (set_state id degraded (modify id left s))
      (ap (λ b. lookup p.manifest.name b)
          (IsLike-trans (modify-IsLike id left s)
            (set_state-IsLike id degraded (modify id left s))).backoff
        ∙ quiet)
      (set_state-IsGone id degraded (modify id left s) p.manifest.name
        (left-IsGone s id p v e known))
      (set_state-IsValid id degraded (modify id left s) (λ q. degraded-ne q)
        (modify-IsValid id left s left-IsWeaker v))

or-left : (p q : Bool) → (p || q) ≡ false → p ≡ false
or-left false q h = refl
or-left true q h = h

-- The three outcomes of an exit.
monitor-IsValid :
    (id now : ℕ) (p : Process) (s : Supervisor)
    → p.exited ≡ false
    → lookup id s.heap ≡ some p
    → IsValid s
    → IsValid (monitor id now p (modify id left s))
monitor-IsValid id now p s runs e v = elim (Bool-cases (p.stopped || (modify id left s).stopping)) [
  | inl g ↦ rw g (modify-IsValid id left s left-IsWeaker v)
  | inr g ↦ rw g (elim (Bool-cases p.started) [
    | inl up ↦ rw up (
        crash-IsValid id now p s e
          (alive_known s id p runs (or-left p.stopped _ g) up (subst (IsEntry s id) e (v.entry id)))
          v)
    | inr down ↦ rw down (
        set_state-IsValid id error (modify id left s) (λ q. error-ne q)
          (modify-IsValid id left s left-IsWeaker v))
  ])
]

pub exit_process-IsValid :
    (id now : ℕ) (s : Supervisor) → IsValid s → IsValid (exit_process id now s)
unfolding exit_process
exit_process-IsValid id now s v = elim (Option-cases (lookup id s.heap)) [
  | inl e ↦ rw (e, exit_process) v
  | inr (p, e) ↦
      rw (e, exit_process)
        (elim (Bool-cases p.exited) [
          | inl over ↦ rw over v
          | inr runs ↦ rw runs (monitor-IsValid id now p s runs e v)
        ])
]
