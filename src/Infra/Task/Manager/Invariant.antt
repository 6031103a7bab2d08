-- ===== src/Infra/Task/Manager/Invariant.antt =====
-- The invariant of a manager, kept by every event of every interleaving.
use easyserver.Base.Map.{lookup, insert, lookup-insert}
use easyserver.Base.{
  ℕ, suc, ◌≤◌, ◌<◌, String, ◌≡◌, refl, subst, ◌⊎◌, inl, inr, false, Option, none, some, arith, leb,
  Bool-cases, Option-cases, ◌==◌, nat_eq, string_eq,
}
use easyserver.Base.Counts.{count}
use easyserver.Infra.Task.Manager.{
  Task, Manager, Options, Body, start, is_running, is_busy, find_task, new_task, has_body, Refusal,
  key_required, fn_required, key_busy, too_many,
}
use easyserver.Infra.Task.Manager.Phases.{IsPhase, holds_slot}

-- A task that is there is coherent, was numbered before the next one, and is the one that its key
-- points to as long as it runs.
abbrev pub IsEntry : Manager → ℕ → Option Task → Type 0
IsEntry m id none = Unit
IsEntry m id (some t) =
    IsPhase t.phase t
    × (id < m.next_id)
    × ((is_running t.status ≡ false) ⊎ (lookup t.key m.by_key ≡ some id))

-- The slots taken are those of the goroutines that hold one, and no more than the limit.
pub record IsValid (m : Manager) : Type 0 where
  pub slots_used : m.slots ≡ count holds_slot m.tasks
  pub slots_max : m.slots ≤ m.concurrency
  pub entry : (id : ℕ) → IsEntry m id (lookup id m.tasks)

-- A start is refused and changes nothing, or there was a free slot and no task of the key running.
pub start_cases :
    (key : String) (opts : Options) (body : Body) (m : Manager)
    → ((why : Refusal) × (start key opts body m ≡ (m, inl why)))
      ⊎ ((is_busy (find_task (lookup key m.by_key) m.tasks) ≡ false)
          × (m.slots < m.concurrency)
          × (start key opts body m ≡ (
            record m {
              slots = suc m.slots;
              by_key = insert key m.next_id m.by_key;
              tasks = insert m.next_id (new_task key opts body) m.tasks;
              next_id = suc m.next_id;
            },
            inr m.next_id,
          )))
unfolding start
start_cases key opts body m = elim (Bool-cases (key == "")) [
  | inl e ↦ inl (key_required, rw e refl)
  | inr k ↦ elim (Bool-cases (has_body body)) [
    | inr e ↦ inl (fn_required, rw (k, e) refl)
    | inl b ↦ elim (Bool-cases (is_busy (find_task (lookup key m.by_key) m.tasks))) [
      | inl e ↦ inl (key_busy, rw (k, b, e) refl)
      | inr free ↦ elim (Bool-cases (leb m.concurrency m.slots)) [
        | inl e ↦ inl (too_many, rw (k, b, free, e) refl)
        | inr room ↦ inr (free, ground (arith, room), rw (k, b, free, room) refl)
      ]
    ]
  ]
]

pub new_id_free : (m : Manager) → IsValid m → lookup m.next_id m.tasks ≡ none
new_id_free m v = elim (Option-cases (lookup m.next_id m.tasks)) [
  | inl e ↦ e
  | inr (t, e) ↦
      let h : IsEntry m m.next_id (some t) = subst (IsEntry m m.next_id) e (v.entry m.next_id) in
      absurd (omega (arith, h.1))
]

pub started-IsEntry :
    (key : String) (opts : Options) (body : Body) (m : Manager) (id : ℕ) (t : Task)
    → is_busy (find_task (lookup key m.by_key) m.tasks) ≡ false
    → lookup id m.tasks ≡ some t
    → IsEntry m id (some t)
    → (is_running t.status ≡ false) ⊎ (lookup t.key (insert key m.next_id m.by_key) ≡ some id)
started-IsEntry key opts body m id t free e h = elim h.2 [
  | inl ended ↦ inl ended
  | inr known ↦ elim (Bool-cases (key == t.key)) [
    | inl same ↦
        let here : key ≡ t.key = (string_eq.test_iff key t.key).0 same in
        inl (rw (here, known, e) at free)
    | inr other ↦ inr (rw (lookup-insert key t.key m.next_id m.by_key, other) known)
  ]
]
