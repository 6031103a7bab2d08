-- ===== src/Plugin/Supervisor/Starts.antt =====
-- Starting, polling and stopping a plugin keep the invariant.
use easyserver.Base.{
  test_refl, ℕ, suc, ◌+◌, String, ◌≡◌, refl, subst, ◌≢◌, inl, inr, Bool, true, false, ◌||◌, Option,
  none, some, ◌∷◌, arith, leb, if◌then◌else◌, Bool-cases, Option-cases, ◌==◌, nat_eq, string_eq,
}
use easyserver.Base.Map.{lookup, insert, erase, lookup-insert, lookup-erase}
use easyserver.Plugin.Supervisor.{
  starting, running, error, disabled, Process, Supervisor, Manifest, Launch, no_directory,
  no_executable, start_failed, launched, modify, set_state, is_alive, is_up, new_process, launch,
  Refusal, shutting_down, ensure_running, Poll, unready, healthy, done, given_up, ready, await,
  poll_process, unwatched, recovered, failed_once,
}
use easyserver.Plugin.Supervisor.Invariant.{
  IsEntry, IsValid, IsWeaker, modify-some, insert_entry, modify-IsValid, set_state-IsValid,
  ensure_running_lem,
}

-- A plugin that is not up has no process alive.
pub not_up_dead :
    (s : Supervisor) (id : ℕ) (p : Process)
    → is_up (lookup p.manifest.name s.procs) s.heap ≡ false
    → lookup id s.heap ≡ some p
    → IsEntry s id (some p)
    → is_alive p ≡ false
not_up_dead s id p down e (_, inl dead) = dead
not_up_dead s id p down e (_, inr (known, _)) = rw (known, e) at down

pub some-eq : {i k : ℕ} → some i ≡ some k → i ≡ k
some-eq h = cc

starting-ne : starting ≢ disabled
starting-ne = cc

-- The supervisor once a process runs.
abbrev started : Manifest → ℕ → Supervisor → Supervisor
started m now s = record s {
  procs = insert m.name s.next_id s.procs;
  heap = insert s.next_id (new_process m now) s.heap;
  next_id = suc s.next_id;
  writes = (m.name, starting) ∷ s.writes;
}

kept-IsEntry :
    (m : Manifest) (now : ℕ) (s : Supervisor) (j : ℕ) (o : Option Process)
    → is_up (lookup m.name s.procs) s.heap ≡ false
    → lookup j s.heap ≡ o
    → IsEntry s j o
    → IsEntry (started m now s) j o
kept-IsEntry m now s j none down e h = tt
kept-IsEntry m now s j (some p) down e h = (
  omega (arith, h.0),
  elim (Bool-cases (m.name == p.manifest.name)) [
    | inl same ↦
        inl (not_up_dead s j p (rw (← (string_eq.test_iff m.name p.manifest.name).0 same) down) e h)
    | inr other ↦ elim h.1 [
      | inl dead ↦ inl dead
      | inr (known, quiet) ↦
          inr (rw (lookup-insert m.name p.manifest.name s.next_id s.procs, other) known, quiet)
    ]
  ],
)

started-IsValid :
    (m : Manifest) (now : ℕ) (s : Supervisor)
    → is_up (lookup m.name s.procs) s.heap ≡ false
    → IsValid s
    → IsValid (started m now s)
started-IsValid m now s down v = record {
  entry =
      insert_entry s.next_id (new_process m now) s.heap (IsEntry (started m now s))
        (λ j _. kept-IsEntry m now s j (lookup j s.heap) down refl (v.entry j))
        (
          omega arith,
          inr (rw (lookup-insert m.name m.name s.next_id s.procs, test_refl m.name) refl, inl refl),
        );
  charge = v.charge;
  writes = (starting-ne, v.writes);
}

error-ne : error ≢ disabled
error-ne = cc

pub running-ne : running ≢ disabled
running-ne = cc

pub launch-IsValid :
    (m : Manifest) (now : ℕ) (how : Launch) (s : Supervisor)
    → is_up (lookup m.name s.procs) s.heap ≡ false
    → IsValid s
    → IsValid (launch m now how s).0
launch-IsValid m now no_directory s down v = v
launch-IsValid m now no_executable s down v = v
launch-IsValid m now start_failed s down v = record {
  entry = v.entry;
  charge = v.charge;
  writes = (error-ne, (starting-ne, v.writes));
}
launch-IsValid m now launched s down v = started-IsValid m now s down v

two_tests :
    (b c : Bool) (s : Supervisor) (r : Supervisor × Option Refusal)
    → IsValid s
    → (c ≡ false → IsValid r.0)
    → IsValid (if b then (s, some shutting_down) else if c then (s, none) else r).0
two_tests true c s r v h = v
two_tests false true s r v h = v
two_tests false false s r v h = h refl

-- A start is refused, finds the plugin up, fails, or adds a process where none was up.
pub ensure_running-IsValid :
    (m : Manifest) (now : ℕ) (how : Launch) (s : Supervisor)
    → IsValid s
    → IsValid (ensure_running m now how s).0
ensure_running-IsValid m now how s v = rw (ensure_running_lem m now how s) (
    two_tests s.stopping (is_up (lookup m.name s.procs) s.heap) s (launch m now how s) v
      (λ down. launch-IsValid m now how s down v))

given_up-IsWeaker : (p : Process) → IsWeaker p (given_up p)
given_up-IsWeaker p = (refl, inr refl, inr refl)

pub unwatched-IsWeaker : (p : Process) → IsWeaker p (unwatched p)
unwatched-IsWeaker p = (refl, inr refl, inr refl)

pub recovered-IsWeaker : (p : Process) → IsWeaker p (recovered p)
recovered-IsWeaker p = (refl, inr refl, inr refl)

pub failed_once-IsWeaker : (p : Process) → IsWeaker p (failed_once p)
failed_once-IsWeaker p = elim (Bool-cases (leb p.manifest.fail_threshold (p.fails + 1))) [
  | inl e ↦ rw e (refl, inr refl, inr refl)
  | inr e ↦ rw e (refl, inr refl, inr refl)
]

-- What `backoffReset` leaves.
abbrev forgiven : String → Supervisor → Supervisor
forgiven name s = record s { backoff = erase name s.backoff }

erase_quiet :
    (name other : String) (s : Supervisor)
    → lookup other s.backoff ≡ none
    → lookup other (erase name s.backoff) ≡ none
erase_quiet name other s e = rw (lookup-erase name other s.backoff, e) (ground arith)

forgiven-IsEntry :
    (name : String) (s : Supervisor) (j : ℕ) (o : Option Process)
    → IsEntry s j o
    → IsEntry (forgiven name s) j o
forgiven-IsEntry name s j none h = tt
forgiven-IsEntry name s j (some p) (below, inl dead) = (below, inl dead)
forgiven-IsEntry name s j (some p) (below, inr (known, inl waits)) = (below, inr (known, inl waits))
forgiven-IsEntry name s j (some p) (below, inr (known, inr quiet)) =
    (below, inr (known, inr (erase_quiet name p.manifest.name s quiet)))

erased_quiet : (name : String) (s : Supervisor) → lookup name (erase name s.backoff) ≡ none
erased_quiet name s = rw (lookup-erase name name s.backoff, test_refl name) refl

ready-IsEntry :
    (s : Supervisor) (id : ℕ) (p : Process)
    → IsEntry s id (some p)
    → IsEntry (forgiven p.manifest.name s) id (some (ready p))
ready-IsEntry s id p (below, inl dead) = (below, inl dead)
ready-IsEntry s id p (below, inr (known, _)) =
    (below, inr (known, inr (erased_quiet p.manifest.name s)))

-- A process that gets ready: its plugin's exits do not count any more.
ready-IsValid :
    (id : ℕ) (p : Process) (s : Supervisor)
    → lookup id s.heap ≡ some p
    → IsValid s
    → IsValid (forgiven p.manifest.name (modify id ready s))
ready-IsValid id p s e v = rw (modify-some id ready p s e) (record {
  entry =
      insert_entry id (ready p) s.heap (IsEntry (forgiven p.manifest.name s))
        (λ j _. forgiven-IsEntry p.manifest.name s j (lookup j s.heap) (v.entry j))
        (ready-IsEntry s id p (subst (IsEntry s id) e (v.entry id)));
  charge = λ n. elim (Bool-cases (p.manifest.name == n)) [
    | inl same ↦ rw (lookup-erase p.manifest.name n s.backoff, same) tt
    | inr other ↦ rw (lookup-erase p.manifest.name n s.backoff, other) (v.charge n)
  ];
  writes = v.writes;
})

await-IsValid :
    (id now : ℕ) (poll : Poll) (p : Process) (s : Supervisor)
    → lookup id s.heap ≡ some p
    → IsValid s
    → IsValid (await id now poll p s)
await-IsValid id now poll p s e v = elim (Bool-cases (leb p.deadline now || p.exited)) [
  | inl over ↦ rw over (
      set_state-IsValid id error (modify id given_up s) error-ne
        (modify-IsValid id given_up s given_up-IsWeaker v))
  | inr waits ↦ rw waits (polled poll)
]
  where
    polled :
        (poll : Poll)
        → IsValid (elim poll [
          | unready ↦ s
          | done ↦ modify id given_up s
          | healthy ↦ set_state id running (forgiven p.manifest.name (modify id ready s))
        ])
    polled unready = v
    polled done = modify-IsValid id given_up s given_up-IsWeaker v
    polled healthy =
        set_state-IsValid id running (forgiven p.manifest.name (modify id ready s)) running-ne
          (ready-IsValid id p s e v)

pub poll_process-IsValid :
    (id now : ℕ) (poll : Poll) (s : Supervisor) → IsValid s → IsValid (poll_process id now poll s)
unfolding poll_process
poll_process-IsValid id now poll s v = elim (Option-cases (lookup id s.heap)) [
  | inl e ↦ rw (e, poll_process) v
  | inr (p, e) ↦
      rw (e, poll_process)
        (elim (Bool-cases p.waiting) [
          | inl waits ↦ rw waits (await-IsValid id now poll p s e v)
          | inr ended ↦ rw ended v
        ])
]
