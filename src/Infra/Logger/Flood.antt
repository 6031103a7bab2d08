-- ===== src/Infra/Logger/Flood.antt =====
-- internal/infra/logger/flood.go: `FloodGuard`. A line is the list of its bytes; what is emitted is a
-- value.
pub mod Bounded
pub mod Summaries
mod Examples
use easyserver.Base.{
  Result-cases, test_refl, ℕ, zero, suc, ◌+◌, ◌-◌, ◌*◌, ◌/◌, ◌%◌, ◌≤◌, ◌<◌, min, String, ◌≡◌, refl,
  sym, ap, ◌∙◌, subst, ◌≢◌, ◌↔◌, ◌⊎◌, inl, inr, Bool, true, false, not, ◌&&◌, ◌||◌, Option, none,
  some, List, [], ◌∷◌, ◌++◌, map, arith, ltb, leb, leb→le, if◌then◌else◌, Bool-cases, Option-cases,
  Eq, ◌==◌, nat_eq, string_eq, nat_test, nat_test_iff, ℤ, pos, negsuc, codes, length, take, drop,
  keep, All, length-append, length-drop, Result, ok, err, ◌>>=◌, Kind, AppError, new_sentinel,
  plain_error, bad_request, unauthorized, forbidden, not_found, conflict, rate_limit, internal,
}
use easyserver.Base.Map.{
  Map, lookup, insert, erase, retain, map_values, values, Unique, lookup-insert, lookup-erase,
  lookup-retain, lookup-map_values, insert-Unique, erase-Unique, retain-Unique, map_values-Unique,
  mapped, guarded,
}
use easyserver.Base.Bytes.{bytes_eq}
use easyserver.Database.Statements.{Text, trim_space}

abbrev pub flood_window : ℕ
flood_window = 60 * 1000000000

abbrev pub flood_max : ℕ
flood_max = 50

pub record FloodEntry : Type 0 where
  pub first : ℕ
  pub count : ℕ
  pub suppressed : ℕ
  pub sample : Text

-- `last_log` is `none` before the first summary.
pub record FloodGuard : Type 0 where
  pub counts : Map Text FloodEntry
  pub last_log : Option ℕ

abbrev pub new_flood_guard : FloodGuard
new_flood_guard = record { counts = []; last_log = none }

abbrev pub is_digit : ℕ → Bool
is_digit c = leb 48 c && leb c 57

-- The loop of `Sig`; the flag tells whether the byte before was a digit.
unfoldable pub sig_from : Bool → Text → Text
sig_from in_run [] = []
sig_from in_run (c ∷ s) =
    let after_digit = sig_from true s in
    let after_other = sig_from false s in
    if is_digit c then (if in_run then after_digit else 35 ∷ after_digit) else c ∷ after_other

unfoldable pub sig : Text → Text
unfolding sig_from
sig line = sig_from false line

abbrev pub truncate : Text → ℕ → Text
truncate s n = if leb (length s) n then s else take n s ++ codes "..."

-- What is emitted: a line as it is, or a summary with the number of lines that were suppressed.
pub data Emitted : Type 0 where
  line : Text → Emitted
  summary : ℕ → Text → Emitted

abbrev pub is_over : Option ℕ → ℕ → Bool
is_over none now = true
is_over (some t) now = ltb flood_window (now - t)

-- A line that is suppressed; the flag tells whether a summary is due.
abbrev pub suppress : Bool → Text → ℕ → FloodEntry → FloodGuard → FloodGuard × List Emitted
suppress true key now e g = (
  record { counts = insert key e g.counts; last_log = some now },
  summary e.suppressed (truncate e.sample 120) ∷ [],
)
suppress false key now e g = (record g { counts = insert key e g.counts }, [])

-- A line whose signature has an entry in its window; the flag tells whether it is one too many.
abbrev pub count_line : Bool → Text → Text → ℕ → FloodEntry → FloodGuard → FloodGuard × List Emitted
count_line true text key now e g =
    suppress (is_over g.last_log now) key now
      (record e { count = e.count + 1; suppressed = e.suppressed + 1 }) g
count_line false text key now e g =
    (record g { counts = insert key (record e { count = e.count + 1 }) g.counts }, line text ∷ [])

abbrev pub begin_line : Text → Text → ℕ → FloodGuard → FloodGuard × List Emitted
begin_line text key now g = (
  record g {
    counts = insert key (record { first = now; count = 1; suppressed = 0; sample = text }) g.counts;
  },
  line text ∷ [],
)

-- A line that is not empty.
unfoldable pub write_line : Text → ℕ → FloodGuard → FloodGuard × List Emitted
unfolding sig lookup insert
write_line text now g = elim (lookup (sig text) g.counts) [
  | none ↦ begin_line text (sig text) now g
  | some e ↦
      if ltb flood_window (now - e.first)
      then begin_line text (sig text) now g
      else count_line (ltb flood_max (e.count + 1)) text (sig text) now e g
]

-- `Write`.
unfoldable pub write : Text → ℕ → FloodGuard → FloodGuard × List Emitted
unfolding trim_space write_line
write p now g = if trim_space p == [] then (g, []) else write_line (trim_space p) now g

-- Several calls, each with its time.
unfoldable pub write_all : List (ℕ × Text) → FloodGuard → List Emitted
unfolding write
write_all [] g = []
write_all ((now, p) ∷ calls) g = (write p now g).1 ++ write_all calls (write p now g).0
