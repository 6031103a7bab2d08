-- ===== src/Infra/Task/Log.antt =====
-- `TaskLog` of internal/infra/task/manager.go: a buffer of lines, of which the oldest quarter goes
-- when it is full, read by cursors. Text written is a list of bytes; the line that a retry appends
-- is kept as the values it is formatted from.
pub mod Following
mod Examples
use easyserver.Base.{
  ℕ, zero, suc, ◌+◌, ◌-◌, ◌*◌, ◌/◌, ◌%◌, ◌≤◌, ◌<◌, min, String, ◌≡◌, refl, sym, ap, ◌∙◌, subst, ◌≢◌,
  ◌↔◌, ◌⊎◌, inl, inr, Bool, true, false, not, ◌&&◌, ◌||◌, Option, none, some, List, [], ◌∷◌, ◌++◌,
  map, arith, ltb, leb, leb→le, if◌then◌else◌, Bool-cases, Option-cases, Eq, ◌==◌, nat_eq,
  string_eq, nat_test, nat_test_iff, ℤ, pos, negsuc, length, take, drop, keep, All, length-append,
  length-drop, Result, ok, err, ◌>>=◌, Kind, AppError, new_sentinel, plain_error, bad_request,
  unauthorized, forbidden, not_found, conflict, rate_limit, internal,
}

pub data Line : Type 0 where
  text : List ℕ → Line
  retry_notice : ℕ → ℕ → String → ℕ → Line

abbrev pub TaskLog : Type 0
TaskLog = List Line

abbrev pub max_log_lines : ℕ
max_log_lines = 5000

unfoldable pub append_locked : Line → TaskLog → TaskLog
append_locked line l =
    if leb max_log_lines (length l)
    then drop (length l - max_log_lines * 3 / 4) l ++ (line ∷ [])
    else l ++ (line ∷ [])

abbrev pub newline : ℕ
newline = 10

-- The loop of `writeLocked`: `seg` is `p[start:i]`, `rest` is `p[i:]`.
unfoldable pub write_from : List ℕ → List ℕ → TaskLog → TaskLog
write_from [] [] l = l
write_from (b ∷ seg) [] l = append_locked (text (b ∷ seg)) l
write_from seg (b ∷ rest) l =
    if nat_test b newline
    then write_from [] rest (append_locked (text seg) l)
    else write_from (seg ++ (b ∷ [])) rest l

unfoldable pub write_locked : List ℕ → TaskLog → TaskLog
unfolding write_from
write_locked p l = write_from [] p l

-- The lines from a cursor on, and the next cursor. A cursor out of range reads nothing.
unfoldable pub tail : ℤ → TaskLog → List Line × ℕ
tail (negsuc n) l = ([], length l)
tail (pos n) l = if leb (length l) n then ([], length l) else (drop n l, length l)
