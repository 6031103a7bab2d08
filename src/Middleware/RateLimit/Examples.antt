-- ===== src/Middleware/RateLimit/Examples.antt =====
-- Tests of the limiter of requests, and the theorem at a limit of two requests in ten units of time.
-- The share of tokens is computed exactly.
use easyserver.Base.{ℕ, ◌+◌, ◌*◌, ◌/◌, ◌-◌, ◌≡◌, ◌≤◌, refl, arith, [], ◌∷◌, string_eq, List}
use easyserver.Base.Map.{lookup, insert, retain}
use native.Mathlib.Nat.{mul-div-le, mul_comm}
use easyserver.Middleware.RateLimit.{
  IsScale, RateLimiter, new_rate_limiter, is_allowed, visit, cleanup,
}
use easyserver.Middleware.RateLimit.Bound.{Event, request, sweep, passed, passed_bounded}

abbrev exact : ℕ → ℕ → ℕ → ℕ
exact e i r = e * r / i

exact-IsScale : (i r : ℕ) → IsScale exact i r
exact-IsScale i r e = omega (arith, mul-div-le (e * r) i, mul_comm i (e * r / i))

abbrev two_per_ten : RateLimiter
two_per_ten = new_rate_limiter 2 10

abbrev burst : List Event
burst =
    request 1 "a"
    ∷ request 1 "a"
    ∷ request 2 "a"
    ∷ request 3 "b"
    ∷ request 7 "a"
    ∷ sweep 40 10
    ∷ request 41 "a"
    ∷ []

burst-passed : (passed exact "a" burst two_per_ten).0 ≡ 4
unfolding passed is_allowed visit cleanup lookup insert retain new_rate_limiter
burst-passed = refl

passed_bounded_example : (passed exact "a" burst two_per_ten).0 * 10 ≤ 2 * 10 + (41 - 1) * 2
unfolding new_rate_limiter lookup
passed_bounded_example =
    passed_bounded exact "a" 1 41 burst two_per_ten (exact-IsScale 10 2) (omega arith) tt refl (
      omega arith,
      (
        omega arith,
        (
          omega arith,
          (omega arith, (omega arith, (omega arith, omega arith, (omega arith, omega arith)))),
        ),
      ),
    )
