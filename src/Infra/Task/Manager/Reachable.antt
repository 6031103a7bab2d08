-- ===== src/Infra/Task/Manager/Reachable.antt =====
-- Every state that a manager reaches, by any interleaving, satisfies the invariant.
use easyserver.Base.Map.{lookup, insert, lookup-insert, lookup-erase}
use easyserver.Base.{
  ℕ, ◌+◌, ◌≤◌, String, ◌≡◌, refl, ap, subst, ◌⊎◌, inl, inr, true, false, Option, none, some, List,
  [], ◌∷◌, arith, Bool-cases, Option-cases, ◌==◌, nat_eq, string_eq, nat_test_iff,
}
use easyserver.Base.Counts.{count, weigh, count-insert, weigh-lookup-le}
use easyserver.Infra.Task.Manager.{
  Phase, Task, Manager, Options, Body, new_manager, start, cancel, is_running, new_task,
  attempt_returned,
}
use easyserver.Infra.Task.Manager.Run.{
  Action, act, release, run_action, Event, starts, runs, cancels, step, trace,
}
use easyserver.Infra.Task.Manager.Phases.{IsPhase, act-IsPhase, holds_slot, act_keeps}
use easyserver.Infra.Task.Manager.Cancelling.{cancel_cases}
use easyserver.Infra.Task.Manager.Invariant.{
  IsEntry, IsValid, start_cases, new_id_free, started-IsEntry,
}

aborted-IsPhase :
    (p : Phase) (t : Task)
    → t.cancelable ≡ true
    → IsPhase p t
    → IsPhase p (record t { aborted = true })
aborted-IsPhase p t set h = ground arith

slot_taken :
    (id : ℕ) (t : Task) (m : Manager)
    → lookup id m.tasks ≡ some t
    → IsValid m
    → weigh holds_slot (some t) ≤ m.slots
slot_taken id t m e v =
    let one = weigh-lookup-le holds_slot id m.tasks in ground (arith, one, e, v.slots_used)

released_slots :
    (a : Action) (p : Phase) (id : ℕ) (t t' : Task) (m : Manager)
    → t.phase ≡ p
    → act a p t ≡ some t'
    → weigh holds_slot (some t) ≤ m.slots
    → (release a id t m).slots + weigh holds_slot (some t) ≡ m.slots + weigh holds_slot (some t')
unfolding act attempt_returned release
released_slots a p id t t' m q e h = ground arith

pub release_keeps :
    (a : Action) (id : ℕ) (t : Task) (m : Manager)
    → ((release a id t m).tasks ≡ m.tasks)
      × ((release a id t m).next_id ≡ m.next_id)
      × ((release a id t m).concurrency ≡ m.concurrency)
      × ((release a id t m).slots ≤ m.slots)
unfolding release
release_keeps a id t m = ground arith

-- Clearing a record forgets no task but the one that is cleared, which has succeeded.
still_registered :
    (a : Action) (id other : ℕ) (t : Task) (m : Manager) (key : String)
    → lookup key m.by_key ≡ some other
    → ((id == other) ≡ false) ⊎ (is_running t.status ≡ true)
    → lookup key (release a id t m).by_key ≡ some other
unfolding release
still_registered a id other t m key e h =
    ground (arith, lookup-erase t.key key m.by_key, string_eq.test_iff t.key key)

acted-IsEntry :
    (a : Action) (id : ℕ) (t t' : Task) (m : Manager)
    → act a t.phase t ≡ some t'
    → IsEntry m id (some t)
    → IsEntry (release a id t m) id (some t')
acted-IsEntry a id t t' m moved h =
    let keeps = act_keeps a t.phase t t' refl moved h.0 in
    let next = (release_keeps a id t m).1 in
    (
      act-IsPhase a t.phase t t' moved h.0,
      rw next h.1,
      elim keeps.2 [
        | inl ended ↦ inl ended
        | inr runs' ↦ elim h.2 [
          | inl ended ↦ absurd (ground (arith, runs', ended))
          | inr known ↦ inr (rw keeps.0 (still_registered a id id t m t.key known (inr runs')))
        ]
      ],
    )

other-IsEntry :
    (a : Action) (id other : ℕ) (t : Task) (m : Manager) (o : Option Task)
    → (id == other) ≡ false
    → IsEntry m other o
    → IsEntry (release a id t m) other o
other-IsEntry a id other t m none d h = tt
other-IsEntry a id other t m (some u) d h = (
  h.0,
  rw (release_keeps a id t m).1 h.1,
  elim h.2 [
    | inl ended ↦ inl ended
    | inr known ↦ inr (still_registered a id other t m u.key known (inl d))
  ],
)

start-IsValid :
    (key : String) (opts : Options) (body : Body) (m : Manager)
    → IsValid m
    → IsValid (start key opts body m).0
start-IsValid key opts body m v = elim (start_cases key opts body m) [
  | inl (why, r) ↦ rw r v
  | inr (free, room, r) ↦
      let t = new_task key opts body in
      let new = new_id_free m v in
      rw r (record {
        slots_used = ground (arith, v.slots_used, new, count-insert holds_slot m.next_id t m.tasks);
        slots_max = omega (arith, room);
        entry = λ id.
            rw (lookup-insert m.next_id id t m.tasks) (elim (Bool-cases (m.next_id == id)) [
              | inl same ↦
                  let here : m.next_id ≡ id = (nat_test_iff m.next_id id).0 same in
                  rw same (
                    (refl, refl, refl, refl),
                    omega (arith, here),
                    inr (
                        rw
                          (
                            lookup-insert key key m.next_id m.by_key,
                            (string_eq.test_iff key key).1 refl,
                          )
                          (ap some here)),
                  )
              | inr other ↦ rw other (elim (Option-cases (lookup id m.tasks)) [
                | inl e ↦ rw e tt
                | inr (u, e) ↦
                    let h : IsEntry m id (some u) = subst (IsEntry m id) e (v.entry id) in
                    rw e (h.0, omega (arith, h.1), started-IsEntry key opts body m id u free e h)
              ])
            ]);
      })
]

-- Giving back a slot, and clearing a record, keep what holds of every other task.
run_action-IsValid : (id : ℕ) (a : Action) (m : Manager) → IsValid m → IsValid (run_action id a m)
unfolding run_action
run_action-IsValid id a m v = elim (Option-cases (lookup id m.tasks)) [
  | inl e ↦ rw (e, run_action) v
  | inr (t, e) ↦ elim (Option-cases (act a t.phase t)) [
    | inl stuck ↦ rw (e, run_action, stuck) v
    | inr (t', moved) ↦
        rw (e, run_action, moved)
          (record {
            slots_used = ground (
              arith,
              v.slots_used,
              e,
              (release_keeps a id t m).0,
              count-insert holds_slot id t' m.tasks,
              released_slots a t.phase id t t' m refl moved (slot_taken id t m e v),
            );
            slots_max = let k = release_keeps a id t m in rw k.2 (omega (arith, k.3, v.slots_max));
            entry = λ other.
                rw ((release_keeps a id t m).0, lookup-insert id other t' m.tasks)
                  (elim (Bool-cases (id == other)) [
                    | inl same ↦
                        let here : id ≡ other = (nat_test_iff id other).0 same in
                        let h : IsEntry m id (some t) = subst (IsEntry m id) e (v.entry id) in
                        rw same (rw (← here) (acted-IsEntry a id t t' m moved h))
                    | inr apart ↦
                        rw apart (
                          other-IsEntry a id other t m (lookup other m.tasks) apart (v.entry other))
                  ]);
          })
  ]
]

aborted-IsValid :
    (id : ℕ) (t : Task) (m : Manager)
    → lookup id m.tasks ≡ some t
    → t.cancelable ≡ true
    → IsValid m
    → IsValid (record m { tasks = insert id (record t { aborted = true }) m.tasks })
aborted-IsValid id t m e set v = record {
  slots_used =
      ground
        (arith, v.slots_used, e, count-insert holds_slot id (record t { aborted = true }) m.tasks);
  slots_max = v.slots_max;
  entry = λ other.
      rw (lookup-insert id other (record t { aborted = true }) m.tasks)
        (elim (Bool-cases (id == other)) [
          | inr apart ↦ rw apart (v.entry other)
          | inl same ↦
              let here : id ≡ other = (nat_test_iff id other).0 same in
              let h : IsEntry m id (some t) = subst (IsEntry m id) e (v.entry id) in
              rw same (rw (← here) (aborted-IsPhase t.phase t set h.0, h.1, h.2))
        ]);
}

cancel-IsValid : (key : String) (m : Manager) → IsValid m → IsValid (cancel key m).0
cancel-IsValid key m v = elim (cancel_cases key m) [
  | inl r ↦ rw r v
  | inr (inl (id, t, c, no', r)) ↦ rw r v
  | inr (inr (id, t, c, set, r)) ↦ rw r (aborted-IsValid id t m c.found set v)
]

pub step-IsValid : (m : Manager) (e : Event) → IsValid m → IsValid (step m e)
unfolding step
step-IsValid m (starts key opts body) v = start-IsValid key opts body m v
step-IsValid m (runs id a) v = run_action-IsValid id a m v
step-IsValid m (cancels key) v = cancel-IsValid key m v

pub trace-IsValid : (es : List Event) (m : Manager) → IsValid m → IsValid (trace m es)
unfolding trace
trace-IsValid [] m v = v
trace-IsValid (e ∷ es) m v = trace-IsValid es (step m e) (step-IsValid m e v)

-- From a new manager on, whatever the events and however they interleave: the slots taken are those
-- of the goroutines that have one, within the limit; every task is coherent with its phase; and a
-- task that runs is the one that its key points to.
pub trace-new_manager-IsValid : (n : ℕ) (es : List Event) → IsValid (trace (new_manager n) es)
unfolding new_manager count lookup
trace-new_manager-IsValid n es =
    trace-IsValid es (new_manager n)
      (record { slots_used = refl; slots_max = omega arith; entry = λ id. tt })
