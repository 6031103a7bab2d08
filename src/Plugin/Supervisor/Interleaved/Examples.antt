-- ===== src/Plugin/Supervisor/Interleaved/Examples.antt =====
-- Two starts of one plugin that overlap, one of them with a shutdown.
use easyserver.Base.{◌+◌, ◌≤◌, ◌≡◌, refl, true, List, [], ◌∷◌, length, nat_eq, string_eq}
use easyserver.Base.Map.{lookup}
use easyserver.Plugin.Supervisor.{Manifest, launched, new_supervisor}
use easyserver.Plugin.Supervisor.Interleaved.{
  Concurrent, Piece, begins, registers, register_start, step_piece, run_pieces,
}
use easyserver.Plugin.Supervisor.Interleaved.Racing.{Runs, racing_starts, run_pieces_stopping}

abbrev demo : Manifest
demo = record { name = "demo"; fail_threshold = 3; startup_timeout = 10 }

abbrev overlapping : List Piece
overlapping = begins demo ∷ begins demo ∷ registers 0 5 launched ∷ registers 0 6 launched ∷ []

racing_starts_example :
    Runs demo 0 (run_pieces (record { sup = new_supervisor; pending = [] }) overlapping).sup
    × Runs demo 1 (run_pieces (record { sup = new_supervisor; pending = [] }) overlapping).sup
unfolding lookup
racing_starts_example = racing_starts demo 5 6 new_supervisor refl refl

-- A start that is past its check when the supervisor begins to shut down.
abbrev closing : Concurrent
closing = record { sup = record new_supervisor { stopping = true }; pending = demo ∷ [] }

abbrev late : List Piece
late = begins demo ∷ registers 0 7 launched ∷ registers 0 8 launched ∷ []

started_late : (run_pieces closing late).sup.next_id ≡ 1
unfolding run_pieces step_piece register_start
started_late = refl

run_pieces_stopping_example :
    ((run_pieces closing late).sup.next_id + length (run_pieces closing late).pending ≤ 0 + 1)
    × ((run_pieces closing late).sup.stopping ≡ true)
run_pieces_stopping_example = run_pieces_stopping late closing refl
