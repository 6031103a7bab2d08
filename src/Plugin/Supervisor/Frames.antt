-- ===== src/Plugin/Supervisor/Frames.antt =====
-- What each operation leaves alone.
use easyserver.Base.{
  test_refl, ℕ, ◌≡◌, refl, ◌∙◌, inl, inr, false, Option, none, some, arith, Option-cases, ◌==◌,
  nat_eq, string_eq,
}
use easyserver.Base.Map.{lookup, lookup-insert}
use easyserver.Plugin.Supervisor.{Status, Process, Supervisor, modify, in_state, written, set_state}
use easyserver.Plugin.Supervisor.Invariant.{modify-some, modify-none, set_state_lem, written-heap}

-- Both supervisors start processes alike: they have the same plugins, number the next process alike
-- and are both stopping or not.
pub record IsLike (s t : Supervisor) : Type 0 where
  pub procs : t.procs ≡ s.procs
  pub next_id : t.next_id ≡ s.next_id
  pub stopping : t.stopping ≡ s.stopping
  pub backoff : t.backoff ≡ s.backoff
  pub timers : t.timers ≡ s.timers

pub IsLike-refl : (s : Supervisor) → IsLike s s
IsLike-refl s = record {
  procs = refl;
  next_id = refl;
  stopping = refl;
  backoff = refl;
  timers = refl;
}

pub IsLike-trans : {s t u : Supervisor} → IsLike s t → IsLike t u → IsLike s u
IsLike-trans h k = record {
  procs = k.procs ∙ h.procs;
  next_id = k.next_id ∙ h.next_id;
  stopping = k.stopping ∙ h.stopping;
  backoff = k.backoff ∙ h.backoff;
  timers = k.timers ∙ h.timers;
}

pub modify-IsLike : (id : ℕ) (f : Process → Process) (s : Supervisor) → IsLike s (modify id f s)
modify-IsLike id f s = elim (Option-cases (lookup id s.heap)) [
  | inl e ↦ rw (modify-none id f s e) (IsLike-refl s)
  | inr (p, e) ↦
      rw (modify-some id f p s e)
        (record { procs = refl; next_id = refl; stopping = refl; backoff = refl; timers = refl })
]

written-IsLike :
    (id : ℕ) (status : Status) (o : Option Process) (s : Supervisor)
    → IsLike s (written id status o s)
written-IsLike id status none s = IsLike-refl s
written-IsLike id status (some p) s = record {
  procs = ground arith;
  next_id = ground arith;
  stopping = ground arith;
  backoff = ground arith;
  timers = ground arith;
}

pub set_state-IsLike :
    (id : ℕ) (status : Status) (s : Supervisor) → IsLike s (set_state id status s)
set_state-IsLike id status s = rw (set_state_lem id status s) (
    IsLike-trans (modify-IsLike id (in_state status) s)
      (written-IsLike id status (lookup id s.heap) (modify id (in_state status) s)))

-- `modify` and `setState` at the process that they are given.
pub lookup-modify :
    (id : ℕ) (f : Process → Process) (p : Process) (s : Supervisor)
    → lookup id s.heap ≡ some p
    → lookup id (modify id f s).heap ≡ some (f p)
lookup-modify id f p s e =
    rw (modify-some id f p s e, lookup-insert id id (f p) s.heap, test_refl id) refl

pub lookup-set_state :
    (id : ℕ) (status : Status) (p : Process) (s : Supervisor)
    → lookup id s.heap ≡ some p
    → lookup id (set_state id status s).heap ≡ some (in_state status p)
lookup-set_state id status p s e =
    rw
      (
        set_state_lem id status s,
        written-heap id status (lookup id s.heap) (modify id (in_state status) s),
      )
      (lookup-modify id (in_state status) p s e)

-- And at any other process.
pub modify-elsewhere :
    (id j : ℕ) (f : Process → Process) (s : Supervisor)
    → (id == j) ≡ false
    → lookup j (modify id f s).heap ≡ lookup j s.heap
modify-elsewhere id j f s ne = elim (Option-cases (lookup id s.heap)) [
  | inl e ↦ rw (modify-none id f s e) refl
  | inr (p, e) ↦ rw (modify-some id f p s e, lookup-insert id j (f p) s.heap, ne) refl
]

pub set_state-elsewhere :
    (id j : ℕ) (status : Status) (s : Supervisor)
    → (id == j) ≡ false
    → lookup j (set_state id status s).heap ≡ lookup j s.heap
set_state-elsewhere id j status s ne =
    rw
      (
        set_state_lem id status s,
        written-heap id status (lookup id s.heap) (modify id (in_state status) s),
      )
      (modify-elsewhere id j (in_state status) s ne)
