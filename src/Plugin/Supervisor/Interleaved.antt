-- ===== src/Plugin/Supervisor/Interleaved.antt =====
-- internal/plugin/supervisor.go with starts that overlap: `EnsureRunning` checks under the lock,
-- releases it, launches the process and takes the lock again to register it. In between anything may
-- happen.
pub mod Racing
mod Examples
use easyserver.Base.{
  test_refl, ℕ, zero, suc, ◌+◌, ◌≤◌, String, ◌≡◌, refl, sym, ap, ◌∙◌, subst, ◌⊎◌, inl, inr, Bool,
  true, false, ◌||◌, Option, none, some, List, [], ◌∷◌, length, arith, ltb, if◌then◌else◌,
  Bool-cases, Option-cases, ◌==◌, nat_eq, string_eq,
}
use easyserver.Base.Map.{lookup, insert, erase, lookup-insert}
use easyserver.Plugin.Supervisor.{
  Process, Supervisor, Manifest, Launch, Refusal, launch, check_start, Event, step,
}

-- The supervisor, and the starts that are past their check and have not registered a process.
pub record Concurrent : Type 0 where
  pub sup : Supervisor
  pub pending : List Manifest

abbrev pub queue : Option (Option Refusal) → Manifest → Concurrent → Concurrent
queue none m c = record c { pending = m ∷ c.pending }
queue (some answer) m c = c

-- The first half of `EnsureRunning`.
abbrev pub begin_start : Manifest → Concurrent → Concurrent
begin_start m c = queue (check_start m c.sup) m c

-- The second half, for the start at a place of the list.
unfoldable pub register_start : ℕ → ℕ → Launch → List Manifest → Supervisor → Concurrent
register_start k now how [] s = record { sup = s; pending = [] }
register_start zero now how (m ∷ ms) s = record { sup = (launch m now how s).0; pending = ms }
register_start (suc k) now how (m ∷ ms) s =
    let c = register_start k now how ms s in record c { pending = m ∷ c.pending }

-- The function of `time.AfterFunc`, up to the check of its start.
abbrev pub begin_revival : Option Process → Concurrent → Concurrent
begin_revival none c = c
begin_revival (some p) c = if c.sup.stopping || p.stopped then c else begin_start p.manifest c

unfoldable pub fire_timer : ℕ → ℕ → Concurrent → Concurrent
unfolding lookup erase
fire_timer id now c = elim (lookup id c.sup.timers) [
  | none ↦ c
  | some due ↦
      if ltb now due
      then c
      else begin_revival (lookup id c.sup.heap)
          (record c { sup = record c.sup { timers = erase id c.sup.timers } })
]

-- An event of the supervisor as a whole, or one half of a start.
pub data Piece : Type 0 where
  whole : Event → Piece
  begins : Manifest → Piece
  fires : ℕ → ℕ → Piece
  registers : ℕ → ℕ → Launch → Piece

unfoldable pub step_piece : Concurrent → Piece → Concurrent
unfolding step fire_timer register_start
step_piece c (whole e) = record c { sup = step c.sup e }
step_piece c (begins m) = begin_start m c
step_piece c (fires id now) = fire_timer id now c
step_piece c (registers k now how) = register_start k now how c.pending c.sup

unfoldable pub run_pieces : Concurrent → List Piece → Concurrent
unfolding step_piece
run_pieces c [] = c
run_pieces c (x ∷ xs) = run_pieces (step_piece c x) xs
