-- ===== src/Infra/Task/Manager/Cancelling.antt =====
-- What `Cancel` answers and does.
use easyserver.Base.Map.{lookup, insert}
use easyserver.Base.{
  ℕ, String, ◌≡◌, subst, ◌⊎◌, inl, inr, true, false, some, arith, Bool-cases, Option-cases, nat_eq,
  string_eq,
}
use easyserver.Infra.Task.Manager.{Task, Manager, cancel, launched}
use easyserver.Infra.Task.Manager.Phases.{IsPhase}
use easyserver.Infra.Task.Manager.Invariant.{IsEntry, IsValid}

-- The key is known and its task is not done.
pub record Cancels (key : String) (m : Manager) (id : ℕ) (t : Task) : Type 0 where
  pub pointed : lookup key m.by_key ≡ some id
  pub found : lookup id m.tasks ≡ some t
  pub live : t.done ≡ false

pub cancel_cases :
    (key : String) (m : Manager)
    → (cancel key m ≡ (m, false))
      ⊎ ((id : ℕ) × (t : Task) × Cancels key m id t
          × (t.cancelable ≡ false)
          × (cancel key m ≡ (m, true)))
      ⊎ ((id : ℕ) × (t : Task) × Cancels key m id t
          × (t.cancelable ≡ true)
          × (cancel key m
              ≡ (record m { tasks = insert id (record t { aborted = true }) m.tasks }, true)))
unfolding cancel
cancel_cases key m = elim (Option-cases (lookup key m.by_key)) [
  | inl e ↦ inl (ground (arith, e))
  | inr (id, e) ↦ elim (Option-cases (lookup id m.tasks)) [
    | inl gone ↦ inl (ground (arith, e, gone))
    | inr (t, f) ↦ elim (Bool-cases t.done) [
      | inl ended ↦ inl (ground (arith, e, f, ended))
      | inr live ↦
          let c : Cancels key m id t = record { pointed = e; found = f; live = live } in
          elim (Bool-cases t.cancelable) [
            | inr no' ↦ inr (inl (id, t, c, no', ground (arith, e, f, live, no')))
            | inl set ↦ inr (inr (id, t, c, set, ground (arith, e, f, live, set)))
          ]
    ]
  ]
]

-- Between a start and the first step of its goroutine, `Cancel` says that it canceled the task and
-- does nothing.
pub cancel_launched :
    (key : String) (m : Manager) (id : ℕ) (t : Task)
    → IsValid m
    → lookup key m.by_key ≡ some id
    → lookup id m.tasks ≡ some t
    → t.phase ≡ launched
    → cancel key m ≡ (m, true)
unfolding cancel
cancel_launched key m id t v e f p =
    let h : IsEntry m id (some t) = subst (IsEntry m id) f (v.entry id) in
    let h' : IsPhase launched t = rw p at h.0 in ground (arith, e, f, h')
