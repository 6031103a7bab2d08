-- ===== src/Infra/Logger/Flood/Examples.antt =====
-- Concrete inputs of the guard against floods.
use easyserver.Base.{ℕ, ◌≡◌, refl, ◌≤◌, ◌*◌, List, [], ◌∷◌, codes, arith}
use easyserver.Base.Bytes.{same}
use easyserver.Database.Statements.{Text}
use easyserver.Infra.Logger.Flood.{flood_max, line, sig, new_flood_guard, write_all}
use easyserver.Infra.Logger.Flood.Bounded.{lines_of, summaries, lines_bounded}
use easyserver.Infra.Logger.Flood.Summaries.{summary_once}

-- Two failed handshakes from different addresses, and an empty line.
abbrev calls : List (ℕ × Text)
calls =
    (100, codes "tls 10.0.0.7:443") ∷ (101, codes " tls 9.8.7.6:50123 ") ∷ (102, codes "  ") ∷ []

abbrev key : Text
key = codes "tls #.#.#.#:#"

calls_pass :
    write_all calls new_flood_guard
    ≡ line (codes "tls 10.0.0.7:443") ∷ line (codes "tls 9.8.7.6:50123") ∷ []
unfolding write_all same
calls_pass = refl

one_signature : sig (codes "tls 10.0.0.7:443") ≡ key
unfolding sig
one_signature = refl

lines_bounded_example : lines_of key (write_all calls new_flood_guard) ≤ 2 * flood_max
lines_bounded_example = lines_bounded 100 calls key new_flood_guard (ground arith)

summary_once_example : summaries (write_all calls new_flood_guard) ≤ 1
summary_once_example = summary_once 100 calls new_flood_guard (ground arith)
