-- ===== src/Infra/Task/Manager/Lasting.antt =====
-- What lasts: the outcome of a task that is done, and a cancellation.
use easyserver.Base.Map.{lookup, insert, lookup-insert}
use easyserver.Base.{
  ℕ, String, ◌≡◌, refl, subst, ◌⊎◌, inl, inr, Bool, true, false, Option, some, List, [], ◌∷◌, arith,
  Bool-cases, Option-cases, ◌==◌, nat_eq, string_eq, nat_test_iff,
}
use easyserver.Infra.Task.Manager.{
  Status, running, failed, canceled, Failure, panicked, Phase, settling, Task, Manager, Options,
  Body, start, cancel, attempt_returned, new_task,
}
use easyserver.Infra.Task.Manager.Run.{
  Action, act, run_action, Event, starts, runs, cancels, step, trace,
}
use easyserver.Infra.Task.Manager.Phases.{IsPhase}
use easyserver.Infra.Task.Manager.Invariant.{IsEntry, IsValid, start_cases, new_id_free}
use easyserver.Infra.Task.Manager.Cancelling.{cancel_cases}
use easyserver.Infra.Task.Manager.Reachable.{step-IsValid, release_keeps}

-- The task is there and has the property.
abbrev pub Has {ℓ} : (Task → Type ℓ) → ℕ → Manager → Type ℓ
Has P id m = (t : Task) × (lookup id m.tasks ≡ some t) × P t

-- A property of a task that its goroutine and a cancellation keep.
module _ {ℓ} (P : Task → Type ℓ)
    (acts : (a : Action) (t t' : Task) → IsPhase t.phase t → act a t.phase t ≡ some t' → P t → P t')
    (aborts : (t : Task) → t.done ≡ false → P t → P (record t { aborted = true })) where
  put-Has :
      (id other : ℕ) (t t' : Task) (m : Manager)
      → lookup other m.tasks ≡ some t
      → (P t → P t')
      → Has P id m
      → (u : Task) × (lookup id (insert other t' m.tasks) ≡ some u) × P u
  put-Has id other t t' m e f (u, found, h) = elim (Bool-cases (other == id)) [
    | inr apart ↦ (u, rw (lookup-insert other id t' m.tasks, apart) found, h)
    | inl same ↦
        let here : other ≡ id = (nat_test_iff other id).0 same in
        let is : t ≡ u = ground (arith, here, found, e) in
        (t', rw (lookup-insert other id t' m.tasks, same) refl, f (rw is h))
  ]

  start-Has :
      (id : ℕ) (key : String) (opts : Options) (body : Body) (m : Manager)
      → IsValid m
      → Has P id m
      → Has P id (start key opts body m).0
  start-Has id key opts body m v (u, found, h) = elim (start_cases key opts body m) [
    | inl (why, r) ↦ rw r (u, found, h)
    | inr (free, room, r) ↦ rw r (
      u,
      ground (
        arith,
        lookup-insert m.next_id id (new_task key opts body) m.tasks,
        new_id_free m v,
        nat_test_iff m.next_id id,
        found,
      ),
      h,
    )
  ]

  cancel-Has : (id : ℕ) (key : String) (m : Manager) → Has P id m → Has P id (cancel key m).0
  cancel-Has id key m h = elim (cancel_cases key m) [
    | inl r ↦ rw r h
    | inr (inl (j, t, c, no', r)) ↦ rw r h
    | inr (inr (j, t, c, set, r)) ↦
        rw r (put-Has id j t (record t { aborted = true }) m c.found (aborts t c.live) h)
  ]

  run-Has :
      (id j : ℕ) (a : Action) (m : Manager) → IsValid m → Has P id m → Has P id (run_action j a m)
  unfolding run_action
  run-Has id j a m v h = elim (Option-cases (lookup j m.tasks)) [
    | inl e ↦ rw (e, run_action) h
    | inr (t, e) ↦ elim (Option-cases (act a t.phase t)) [
      | inl stuck ↦ rw (e, run_action, stuck) h
      | inr (t', moved) ↦
          let entry : IsEntry m j (some t) = subst (IsEntry m j) e (v.entry j) in
          rw (e, run_action, moved, (release_keeps a j t m).0)
            (put-Has id j t t' m e (acts a t t' entry.0 moved) h)
    ]
  ]

  step-Has : (id : ℕ) (m : Manager) (e : Event) → IsValid m → Has P id m → Has P id (step m e)
  unfolding step
  step-Has id m (starts key opts body) v h = start-Has id key opts body m v h
  step-Has id m (cancels key) v h = cancel-Has id key m h
  step-Has id m (runs j a) v h = run-Has id j a m v h

  pub trace-Has :
      (id : ℕ) (es : List Event) (m : Manager) → IsValid m → Has P id m → Has P id (trace m es)
  unfolding trace
  trace-Has id [] m v h = h
  trace-Has id (e ∷ es) m v h =
      trace-Has id es (step m e) (step-IsValid m e v) (step-Has id m e v h)

act_final :
    (s : Status) (f : Option Failure) (a : Action) (p : Phase) (t t' : Task)
    → t.phase ≡ p
    → IsPhase p t
    → act a p t ≡ some t'
    → (t.status ≡ s) × (t.failure ≡ f) × (t.done ≡ true)
    → (t'.status ≡ s) × (t'.failure ≡ f) × (t'.done ≡ true)
unfolding act attempt_returned
act_final s f a p t t' q h e d = ground arith

-- A task that is done keeps its status and its error, whatever happens afterwards.
pub trace_final :
    (id : ℕ) (es : List Event) (m : Manager) (t : Task)
    → IsValid m
    → lookup id m.tasks ≡ some t
    → t.done ≡ true
    → (t' : Task) × (lookup id (trace m es).tasks ≡ some t')
      × ((t'.status ≡ t.status) × (t'.failure ≡ t.failure) × (t'.done ≡ true))
trace_final id es m t v e d =
    trace-Has (λ u. (u.status ≡ t.status) × (u.failure ≡ t.failure) × (u.done ≡ true))
      (λ a u u' h moved. act_final t.status t.failure a u.phase u u' refl h moved) (λ u live k. k)
      id es m v (t, e, (refl, refl, d))

abbrev is_panic : Option Failure → Bool
is_panic (some (panicked why)) = true
is_panic _ = false

-- The goroutine is not about to write an outcome other than a cancellation.
abbrev pub is_undecided : Phase → Bool
is_undecided (settling canceled e) = true
is_undecided (settling _ e) = false
is_undecided _ = true

-- The task runs, with no other outcome decided on, or ended in one of the two ways that a task may
-- end whose context is canceled.
abbrev pub IsDoomed : Task → Type 0
IsDoomed t =
    (t.aborted ≡ true)
    × (((t.status ≡ running) × (is_undecided t.phase ≡ true))
        ⊎ (t.status ≡ canceled)
        ⊎ ((t.status ≡ failed) × (is_panic t.failure ≡ true)))

act-IsDoomed :
    (a : Action) (p : Phase) (t t' : Task)
    → t.phase ≡ p
    → IsPhase p t
    → act a p t ≡ some t'
    → IsDoomed t
    → IsDoomed t'
unfolding act attempt_returned
act-IsDoomed a p t t' q h e d = ground arith

-- Once the context of a running task is canceled, and its goroutine has not yet decided on another
-- outcome, the task never succeeds and never fails by an error of its function: whatever happens, it
-- runs on, or is canceled, or a panic ended it.
pub trace-IsDoomed :
    (id : ℕ) (es : List Event) (m : Manager) (t : Task)
    → IsValid m
    → lookup id m.tasks ≡ some t
    → t.aborted ≡ true
    → t.status ≡ running
    → is_undecided t.phase ≡ true
    → (t' : Task) × (lookup id (trace m es).tasks ≡ some t') × IsDoomed t'
trace-IsDoomed id es m t v e d r k =
    trace-Has IsDoomed (λ a u u' h moved. act-IsDoomed a u.phase u u' refl h moved)
      (λ u live kept. (refl, kept.1)) id es m v (t, e, (d, inl (r, k)))
