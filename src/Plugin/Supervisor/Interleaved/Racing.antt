-- ===== src/Plugin/Supervisor/Interleaved/Racing.antt =====
-- What starts that overlap can do: start late, and start a plugin twice.
use easyserver.Base.{
  test_refl, ℕ, zero, suc, ◌+◌, ◌≤◌, ◌≡◌, refl, sym, ap, ◌∙◌, subst, inl, inr, Bool, true, false,
  ◌||◌, Option, none, some, List, [], ◌∷◌, length, arith, ltb, if◌then◌else◌, Bool-cases,
  Option-cases, ◌==◌, nat_eq, string_eq,
}
use easyserver.Base.Map.{lookup, insert, erase, lookup-insert}
use easyserver.Plugin.Supervisor.{
  Process, Supervisor, Manifest, Launch, no_directory, no_executable, start_failed, launched,
  launch, Refusal, shutting_down, check_start, is_up, is_alive, new_process,
}
use easyserver.Plugin.Supervisor.Shutdown.{step-IsHalt}
use easyserver.Plugin.Supervisor.Interleaved.{
  Concurrent, queue, begin_start, register_start, begin_revival, fire_timer, Piece, whole, begins,
  fires, registers, step_piece, run_pieces,
}

-- Shutting down, with no more starts done or to come than before.
pub record IsClosing (c d : Concurrent) : Type 0 where
  pub stopping : d.sup.stopping ≡ true
  pub starts : d.sup.next_id + length d.pending ≤ c.sup.next_id + length c.pending

IsClosing-refl : (c : Concurrent) → c.sup.stopping ≡ true → IsClosing c c
IsClosing-refl c h = record { stopping = h; starts = omega arith }

launch_stopping :
    (m : Manifest) (now : ℕ) (how : Launch) (s : Supervisor)
    → ((launch m now how s).0.stopping ≡ s.stopping)
      × ((launch m now how s).0.next_id ≤ suc s.next_id)
launch_stopping m now no_directory s = (refl, omega arith)
launch_stopping m now no_executable s = (refl, omega arith)
launch_stopping m now start_failed s = (refl, omega arith)
launch_stopping m now launched s = (refl, omega arith)

register-IsClosing :
    (k now : ℕ) (how : Launch) (ms : List Manifest) (s : Supervisor)
    → s.stopping ≡ true
    → IsClosing (record { sup = s; pending = ms }) (register_start k now how ms s)
unfolding register_start
register-IsClosing k now how [] s h = IsClosing-refl (record { sup = s; pending = [] }) h
register-IsClosing zero now how (m ∷ ms) s h =
    let made = launch_stopping m now how s in
    record { stopping = made.0 ∙ h; starts = omega (arith, made.1) }
register-IsClosing (suc k) now how (m ∷ ms) s h =
    let rest = register-IsClosing k now how ms s h in
    record { stopping = rest.stopping; starts = omega (arith, rest.starts) }

refused-IsClosing :
    (b : Bool) (o : Option (Option Refusal)) (m : Manifest) (c : Concurrent)
    → b ≡ true
    → c.sup.stopping ≡ true
    → IsClosing c (queue (if b then some (some shutting_down) else o) m c)
refused-IsClosing true o m c e h = IsClosing-refl c h
refused-IsClosing false o m c e h = absurd (ground (arith, e))

begin-IsClosing :
    (m : Manifest) (c : Concurrent) → c.sup.stopping ≡ true → IsClosing c (begin_start m c)
begin-IsClosing m c h = refused-IsClosing c.sup.stopping _ m c h h

passed-IsClosing :
    (b : Bool) (c d : Concurrent)
    → b ≡ true
    → c.sup.stopping ≡ true
    → IsClosing c (if b then c else d)
passed-IsClosing true c d e h = IsClosing-refl c h
passed-IsClosing false c d e h = absurd (ground (arith, e))

revival-IsClosing :
    (o : Option Process) (c : Concurrent) → c.sup.stopping ≡ true → IsClosing c (begin_revival o c)
revival-IsClosing none c h = IsClosing-refl c h
revival-IsClosing (some p) c h =
    passed-IsClosing (c.sup.stopping || p.stopped) c _ (ground (arith, h)) h

fire-IsClosing :
    (id now : ℕ) (c : Concurrent) → c.sup.stopping ≡ true → IsClosing c (fire_timer id now c)
unfolding fire_timer
fire-IsClosing id now c h = elim (Option-cases (lookup id c.sup.timers)) [
  | inl e ↦ rw (e, fire_timer) (IsClosing-refl c h)
  | inr (due, e) ↦ elim (Bool-cases (ltb now due)) [
    | inl early ↦ rw (e, fire_timer, early) (IsClosing-refl c h)
    | inr late ↦
        let d : Concurrent = record c { sup = record c.sup { timers = erase id c.sup.timers } } in
        let closed = revival-IsClosing (lookup id c.sup.heap) d h in
        rw (e, fire_timer, late) (record { stopping = closed.stopping; starts = closed.starts })
  ]
]

step_piece-IsClosing :
    (x : Piece) (c : Concurrent) → c.sup.stopping ≡ true → IsClosing c (step_piece c x)
unfolding step_piece
step_piece-IsClosing (whole e) c h =
    let halt = step-IsHalt c.sup e h in
    record { stopping = halt.stopping ∙ h; starts = omega (arith, halt.next_id) }
step_piece-IsClosing (begins m) c h = begin-IsClosing m c h
step_piece-IsClosing (fires id now) c h = fire-IsClosing id now c h
step_piece-IsClosing (registers k now how) c h = register-IsClosing k now how c.pending c.sup h

-- Once a supervisor is shutting down it stays so, and however starts and everything else interleave,
-- it starts no more processes than there are starts that were past their check by then: with none of
-- them under way no process is started any more.
pub run_pieces_stopping :
    (xs : List Piece) (c : Concurrent)
    → c.sup.stopping ≡ true
    → ((run_pieces c xs).sup.next_id + length (run_pieces c xs).pending
        ≤ c.sup.next_id + length c.pending)
      × ((run_pieces c xs).sup.stopping ≡ true)
unfolding run_pieces
run_pieces_stopping [] c h = (omega arith, h)
run_pieces_stopping (x ∷ xs) c h =
    let first = step_piece-IsClosing x c h in
    let rest = run_pieces_stopping xs (step_piece c x) first.stopping in
    (omega (arith, first.starts, rest.0), rest.1)

-- A live process of a plugin under a number.
abbrev pub Runs : Manifest → ℕ → Supervisor → Type 0
Runs m id s = (p : Process) × (lookup id s.heap ≡ some p) × (p.manifest ≡ m) × (is_alive p ≡ true)

abbrev Twice : Manifest → ℕ → ℕ → Concurrent → Supervisor → Type 0
Twice m now later c s =
    let d = run_pieces c (registers 0 now launched ∷ registers 0 later launched ∷ []) in
    Runs m s.next_id d.sup × Runs m (suc s.next_id) d.sup

next_apart : (n : ℕ) → (suc n == n) ≡ false
next_apart n = ground arith

twice :
    (m : Manifest) (now later : ℕ) (s : Supervisor)
    → Twice m now later (record { sup = s; pending = m ∷ m ∷ [] }) s
unfolding run_pieces step_piece register_start
twice m now later s = (
  (
    new_process m now,
    rw
        (
          lookup-insert (suc s.next_id) s.next_id (new_process m later)
              (insert s.next_id (new_process m now) s.heap),
          next_apart s.next_id,
          lookup-insert s.next_id s.next_id (new_process m now) s.heap,
          test_refl s.next_id,
        )
        refl,
    refl,
    refl,
  ),
  (
    new_process m later,
    rw
        (
          lookup-insert (suc s.next_id) (suc s.next_id) (new_process m later)
              (insert s.next_id (new_process m now) s.heap),
          test_refl (suc s.next_id),
        )
        refl,
    refl,
    refl,
  ),
)

-- Two calls of `EnsureRunning` for a plugin that is not up, each of which checks before the other
-- registers its process, start it twice: both processes are alive.
pub racing_starts :
    (m : Manifest) (now later : ℕ) (s : Supervisor)
    → s.stopping ≡ false
    → is_up (lookup m.name s.procs) s.heap ≡ false
    → let c =
        run_pieces
          (record { sup = s; pending = [] })
          (begins m ∷ begins m ∷ registers 0 now launched ∷ registers 0 later launched ∷ []) in
      Runs m s.next_id c.sup × Runs m (suc s.next_id) c.sup
unfolding run_pieces step_piece register_start
racing_starts m now later s on down = subst (λ c. Twice m now later c s) both (twice m now later s)
  where
    free : check_start m s ≡ none
    free = rw (on, down) refl

    both :
        record { sup = s; pending = m ∷ m ∷ [] }
        ≡ begin_start m (begin_start m (record { sup = s; pending = [] }))
    both = sym (
        ap (λ o. begin_start m (queue o m (record { sup = s; pending = [] }))) free
        ∙ ap (λ o. queue o m (record { sup = s; pending = m ∷ [] })) free)
