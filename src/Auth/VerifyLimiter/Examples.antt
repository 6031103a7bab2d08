-- ===== src/Auth/VerifyLimiter/Examples.antt =====
-- Tests of the limiter of second factors, and the theorems at a limit of three.
use easyserver.Base.{◌≤◌, ◌≡◌, refl, [], ◌∷◌, arith, nat_eq, string_eq}
use easyserver.Base.Map.{lookup, insert, erase}
use easyserver.Auth.VerifyLimiter.{
  VerifyAttemptLimiter, new_limiter, allowed, record_failure, guarded_verify,
}
use easyserver.Auth.VerifyLimiter.Guessing.{wrong_guesses, IsCounting, wrong_guesses_bounded}

abbrev three_tries : VerifyAttemptLimiter
three_tries = new_limiter 3 100

three_tries-IsCounting : IsCounting 7 three_tries
unfolding new_limiter lookup
three_tries-IsCounting = omega arith

fourth_guess_refused : (wrong_guesses 7 (1 ∷ 2 ∷ 3 ∷ 4 ∷ []) three_tries).0 ≡ 3
unfolding new_limiter lookup insert erase wrong_guesses guarded_verify allowed record_failure
fourth_guess_refused = refl

checked_after_cool_down : (wrong_guesses 7 (1 ∷ 2 ∷ 3 ∷ 104 ∷ []) three_tries).0 ≡ 4
unfolding new_limiter lookup insert erase wrong_guesses guarded_verify allowed record_failure
checked_after_cool_down = refl

wrong_guesses_bounded_example : (wrong_guesses 7 (1 ∷ 2 ∷ 3 ∷ 4 ∷ []) three_tries).0 ≤ 3
unfolding new_limiter
wrong_guesses_bounded_example =
    wrong_guesses_bounded 0 7 (1 ∷ 2 ∷ 3 ∷ 4 ∷ []) three_tries three_tries-IsCounting (
      (omega arith, omega arith),
      ((omega arith, omega arith), ((omega arith, omega arith), ((omega arith, omega arith), tt))),
    )
