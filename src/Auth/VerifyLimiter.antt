-- ===== src/Auth/VerifyLimiter.antt =====
-- internal/domain/auth/verify_limiter.go: failed second factors of each user, with a lock after
-- `max` of them, and the guard that both handlers of internal/domain/auth/http/handler.go
-- (`VerifyTOTP`, `VerifyBackupCode`) put round a check. The zero time is 0.
pub mod Guessing
mod Examples
use easyserver.Base.{
  ℕ, zero, suc, ◌+◌, ◌-◌, ◌*◌, ◌/◌, ◌%◌, ◌≤◌, ◌<◌, min, String, ◌≡◌, refl, sym, ap, ◌∙◌, subst, ◌≢◌,
  ◌↔◌, ◌⊎◌, inl, inr, Bool, true, false, not, ◌&&◌, ◌||◌, Option, none, some, List, [], ◌∷◌, ◌++◌,
  map, arith, ltb, leb, leb→le, if◌then◌else◌, Bool-cases, Option-cases, Eq, ◌==◌, nat_eq,
  string_eq, nat_test, nat_test_iff, ℤ, pos, negsuc, length, take, drop, keep, All, length-append,
  length-drop, Result, ok, err, ◌>>=◌, Kind, AppError, new_sentinel, plain_error, bad_request,
  unauthorized, forbidden, not_found, conflict, rate_limit, internal,
}
use easyserver.Base.Map.{
  Map, lookup, insert, erase, retain, map_values, values, Unique, lookup-insert, lookup-erase,
  lookup-retain, lookup-map_values, insert-Unique, erase-Unique, retain-Unique, map_values-Unique,
  mapped, guarded,
}

pub record VerifyAttempt : Type 0 where
  pub count : ℕ
  pub locked_until : ℕ

pub record VerifyAttemptLimiter : Type 0 where
  pub failed : Map ℕ VerifyAttempt
  pub max : ℕ
  pub cool_down : ℕ

-- Go's `a := l.failed[key]`: the zero value where the key is missing.
abbrev pub attempt_of : Option VerifyAttempt → VerifyAttempt
attempt_of none = record { count = 0; locked_until = 0 }
attempt_of (some a) = a

unfoldable pub new_limiter : ℕ → ℕ → VerifyAttemptLimiter
new_limiter max cool_down = record { failed = []; max = max; cool_down = cool_down }

unfoldable pub allowed : ℕ → ℕ → VerifyAttemptLimiter → Bool
allowed now key l = elim (lookup key l.failed) [
  | none ↦ true
  | some a ↦ not (ltb now a.locked_until)
]

-- The entry after a failure outside the lock.
abbrev pub failed_once : ℕ → ℕ → ℕ → VerifyAttempt → VerifyAttempt
failed_once now max cool_down a =
    if leb max (a.count + 1)
    then record { count = 0; locked_until = now + cool_down }
    else record a { count = a.count + 1 }

unfoldable pub record_failure : ℕ → ℕ → VerifyAttemptLimiter → VerifyAttemptLimiter
record_failure now key l =
    let a = attempt_of (lookup key l.failed) in
    if ltb now a.locked_until
    then l
    else record l { failed = insert key (failed_once now l.max l.cool_down a) l.failed }

unfoldable pub reset : ℕ → VerifyAttemptLimiter → VerifyAttemptLimiter
reset key l = record l { failed = erase key l.failed }

-- One request for the user: `checked` is the outcome of the check, or the error of reading what it
-- checks against, and counts only if the limiter allows the request.
unfoldable pub guarded_verify :
    ℕ → ℕ → Result Bool → VerifyAttemptLimiter → VerifyAttemptLimiter × Result (Unit {0})
unfolding allowed record_failure reset
guarded_verify now key checked l =
    if not (allowed now key l) then (l, err (plain_error forbidden)) else elim checked [
      | err e ↦ (l, err e)
      | ok false ↦ (record_failure now key l, err (plain_error unauthorized))
      | ok true ↦ (reset key l, ok tt)
    ]
