-- ===== src/Plugin/Supervisor/Invariant.antt =====
-- The invariant of a supervisor: one live process for a plugin, and a backoff that is used up.
use easyserver.Base.{
  ℕ, ◌≤◌, ◌<◌, String, ◌≡◌, refl, ap, ◌∙◌, subst, ◌≢◌, ◌⊎◌, inl, inr, false, Option, none, some,
  arith, if◌then◌else◌, Bool-cases, Option-cases, ◌==◌, nat_eq, string_eq, All,
}
use easyserver.Base.Map.{Map, lookup, insert, lookup-insert}
use easyserver.Plugin.Supervisor.{
  Status, disabled, Process, Backoff, Supervisor, modify, is_status, in_state, written, set_state,
  is_alive, is_up, launch, Launch, Manifest, shutting_down, ensure_running,
}

-- A process that is alive is the one that `procs` has for its plugin, and once it was ready no
-- exit of the plugin counts.
abbrev pub IsEntry : Supervisor → ℕ → Option Process → Type 0
IsEntry s id none = Unit
IsEntry s id (some p) =
    (id < s.next_id)
    × ((is_alive p ≡ false)
        ⊎ ((lookup p.manifest.name s.procs ≡ some id)
            × ((p.started ≡ false) ⊎ (lookup p.manifest.name s.backoff ≡ none))))

abbrev pub IsCharge : Option Backoff → Type 0
IsCharge none = Unit
IsCharge (some b) = b.restarts ≤ 1

abbrev pub IsWrite : String × Status → Type 0
IsWrite w = w.1 ≢ disabled

pub record IsValid (s : Supervisor) : Type 0 where
  pub entry : (id : ℕ) → IsEntry s id (lookup id s.heap)
  pub charge : (name : String) → IsCharge (lookup name s.backoff)
  pub writes : All IsWrite s.writes

-- A change of a process that does not bring it to life or make it ready.
abbrev pub IsWeaker : Process → Process → Type 0
IsWeaker p q =
    (q.manifest ≡ p.manifest)
    × ((is_alive q ≡ false) ⊎ (is_alive q ≡ is_alive p))
    × ((q.started ≡ false) ⊎ (q.started ≡ p.started))

pub weaker-IsEntry :
    (s : Supervisor) (id : ℕ) (p q : Process)
    → IsWeaker p q
    → IsEntry s id (some p)
    → IsEntry s id (some q)
weaker-IsEntry s id p q w h = (
  h.0,
  elim w.1 [
    | inl dead ↦ inl dead
    | inr alike ↦ elim h.1 [
      | inl dead ↦ inl (alike ∙ dead)
      | inr (known, quiet) ↦ inr (
        ap (λ m. lookup m.name s.procs) w.0 ∙ known,
        elim w.2 [
          | inl unready ↦ inl unready
          | inr same ↦ elim quiet [
            | inl unready ↦ inl (same ∙ unready)
            | inr none_yet ↦ inr (ap (λ m. lookup m.name s.backoff) w.0 ∙ none_yet)
          ]
        ],
      )
    ]
  ],
)

pub modify-none :
    (id : ℕ) (f : Process → Process) (s : Supervisor) → lookup id s.heap ≡ none → modify id f s ≡ s
unfolding modify
modify-none id f s e = rw (e, modify) refl

pub modify-some :
    (id : ℕ) (f : Process → Process) (p : Process) (s : Supervisor)
    → lookup id s.heap ≡ some p
    → modify id f s ≡ record s { heap = insert id (f p) s.heap }
unfolding modify
modify-some id f p s e = rw (e, modify) refl

-- What `modify` leaves of what holds of every entry.
pub insert_entry :
    (id : ℕ) (q : Process) (heap : Map ℕ Process) (P : ℕ → Option Process → Type 0)
    → ((j : ℕ) → (id ≡ j → ⊥) → P j (lookup j heap))
    → P id (some q)
    → (j : ℕ) → P j (lookup j (insert id q heap))
insert_entry id q heap P h k j = elim (Bool-cases (id == j)) [
  | inl e ↦
      rw (lookup-insert id j q heap, e) (subst (λ i. P i (some q)) ((nat_eq.test_iff id j).0 e) k)
  | inr e ↦ rw (lookup-insert id j q heap, e) (h j (λ same. ground (arith, e, same)))
]

pub modify-IsValid :
    (id : ℕ) (f : Process → Process) (s : Supervisor)
    → ((p : Process) → IsWeaker p (f p))
    → IsValid s
    → IsValid (modify id f s)
modify-IsValid id f s w v = elim (Option-cases (lookup id s.heap)) [
  | inl e ↦ rw (modify-none id f s e) v
  | inr (p, e) ↦ rw (modify-some id f p s e) (record {
    entry =
        insert_entry id (f p) s.heap (IsEntry s) (λ j _. v.entry j)
          (weaker-IsEntry s id p (f p) (w p) (subst (IsEntry s id) e (v.entry id)));
    charge = v.charge;
    writes = v.writes;
  })
]

in_state-IsWeaker : (status : Status) (p : Process) → IsWeaker p (in_state status p)
in_state-IsWeaker status p = (refl, inr refl, inr refl)

written-IsValid :
    (id : ℕ) (status : Status) (o : Option Process) (s : Supervisor)
    → status ≢ disabled
    → IsValid s
    → IsValid (written id status o s)
written-IsValid id status none s ne v = v
written-IsValid id status (some p) s ne v = elim (Bool-cases (is_status p.state status)) [
  | inl e ↦ rw e v
  | inr e ↦ rw e (record { entry = v.entry; charge = v.charge; writes = (ne, v.writes) })
]

pub written-heap :
    (id : ℕ) (status : Status) (o : Option Process) (s : Supervisor)
    → (written id status o s).heap ≡ s.heap
written-heap id status none s = refl
written-heap id status (some p) s = ground arith

pub set_state_lem :
    (id : ℕ) (status : Status) (s : Supervisor)
    → set_state id status s ≡ written id status (lookup id s.heap) (modify id (in_state status) s)
unfolding set_state
set_state_lem id status s = refl

pub set_state-IsValid :
    (id : ℕ) (status : Status) (s : Supervisor)
    → status ≢ disabled
    → IsValid s
    → IsValid (set_state id status s)
set_state-IsValid id status s ne v = rw (set_state_lem id status s) (
    written-IsValid id status (lookup id s.heap) (modify id (in_state status) s) ne
      (modify-IsValid id (in_state status) s (in_state-IsWeaker status) v))

-- `setState` leaves the processes as they are, but for the cached status.
pub set_state_entry :
    (id : ℕ) (status : Status) (s : Supervisor) (P : ℕ → Option Process → Type 0)
    → ((j : ℕ) → P j (lookup j s.heap))
    → ((p : Process) → P id (some p) → P id (some (in_state status p)))
    → (j : ℕ) → P j (lookup j (set_state id status s).heap)
set_state_entry id status s P h k j =
    rw
      (
        set_state_lem id status s,
        written-heap id status (lookup id s.heap) (modify id (in_state status) s),
      )
      (elim (Option-cases (lookup id s.heap)) [
        | inl e ↦ rw (modify-none id (in_state status) s e) (h j)
        | inr (p, e) ↦ rw (modify-some id (in_state status) p s e) (
            insert_entry id (in_state status p) s.heap P (λ i _. h i) (k p (subst (P id) e (h id)))
              j)
      ])

-- A start by its three cases.
pub ensure_running_lem :
    (m : Manifest) (now : ℕ) (how : Launch) (s : Supervisor)
    → ensure_running m now how s ≡ (
        if s.stopping
        then (s, some shutting_down)
        else if is_up (lookup m.name s.procs) s.heap
        then (s, none)
        else launch m now how s)
unfolding ensure_running
ensure_running_lem m now how s = elim (Bool-cases s.stopping) [
  | inl h ↦ rw h refl
  | inr h ↦ elim (Bool-cases (is_up (lookup m.name s.procs) s.heap)) [
    | inl k ↦ rw (h, k) refl
    | inr k ↦ rw (h, k) refl
  ]
]
