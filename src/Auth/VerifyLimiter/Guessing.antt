-- ===== src/Auth/VerifyLimiter/Guessing.antt =====
-- How many second factors of one account can be tried.
use easyserver.Base.{
  ℕ, suc, ◌+◌, ◌-◌, ◌≤◌, ◌<◌, ◌≡◌, refl, ◌∙◌, ◌⊎◌, inl, inr, Bool, false, not, List, [], ◌∷◌, arith,
  ltb, leb, if◌then◌else◌, Bool-cases, Option-cases, nat_eq, string_eq, All, Result, ok,
}
use easyserver.Base.Map.{lookup, lookup-insert, lookup-erase}
use easyserver.Auth.VerifyLimiter.{
  VerifyAttempt, VerifyAttemptLimiter, attempt_of, allowed, failed_once, guarded_verify,
}

-- Wrong guesses at the times given, one after the other: how many were checked, and the limiter
-- after them.
unfoldable pub wrong_guesses : ℕ → List ℕ → VerifyAttemptLimiter → ℕ × VerifyAttemptLimiter
wrong_guesses key [] l = (0, l)
wrong_guesses key (now ∷ times) l =
    let (n, l') = wrong_guesses key times (guarded_verify now key (ok false) l).0 in
    (if allowed now key l then suc n else n, l')

-- The entry of the key counts fewer failures than the limit.
abbrev pub IsCounting : ℕ → VerifyAttemptLimiter → Type 0
IsCounting key l = (attempt_of (lookup key l.failed)).count < l.max

allowed_lem :
    (now key : ℕ) (l : VerifyAttemptLimiter)
    → allowed now key l ≡ not (ltb now (attempt_of (lookup key l.failed)).locked_until)
unfolding allowed
allowed_lem now key l = elim (Option-cases (lookup key l.failed)) [
  | inl e ↦ ground (arith, e)
  | inr (a, e) ↦ ground (arith, e)
]

-- What one wrong guess does to the entry of the key.
wrong_guess_entry :
    (now key : ℕ) (l : VerifyAttemptLimiter)
    → let a = attempt_of (lookup key l.failed) in
      attempt_of (lookup key (guarded_verify now key (ok false) l).0.failed)
      ≡ (if ltb now a.locked_until then a else failed_once now l.max l.cool_down a)
unfolding guarded_verify
wrong_guess_entry now key l =
    let a = attempt_of (lookup key l.failed) in
    let gate = allowed_lem now key l in
    ground (arith, gate, lookup-insert key key (failed_once now l.max l.cool_down a) l.failed)

wrong_guess_config :
    (now key : ℕ) (l : VerifyAttemptLimiter)
    → ((guarded_verify now key (ok false) l).0.max ≡ l.max)
      × ((guarded_verify now key (ok false) l).0.cool_down ≡ l.cool_down)
unfolding guarded_verify
wrong_guess_config now key l = ground arith

-- The checks still open in a window that ends at `end`.
abbrev left_until : ℕ → ℕ → VerifyAttempt → ℕ
left_until end max a = if leb end a.locked_until then 0 else max - a.count

abbrev Within : ℕ → ℕ → ℕ → Type 0
Within start span now = (start ≤ now) × (now < start + span)

failed_once_left :
    (start now max cool_down : ℕ) (a : VerifyAttempt)
    → a.count < max
    → start ≤ now
    → (left_until (start + cool_down) max a ≡ 0)
      ⊎ (suc (left_until (start + cool_down) max (failed_once now max cool_down a))
          ≤ left_until (start + cool_down) max a)
failed_once_left start now max cool_down a c s = ground arith

failed_once_count :
    (now max cool_down : ℕ) (a : VerifyAttempt)
    → a.count < max
    → (failed_once now max cool_down a).count < max
failed_once_count now max cool_down a c = ground arith

checked_le :
    (start max cool_down key : ℕ) (times : List ℕ) (l : VerifyAttemptLimiter)
    → l.max ≡ max
    → l.cool_down ≡ cool_down
    → (attempt_of (lookup key l.failed)).count < max
    → All (Within start cool_down) times
    → (wrong_guesses key times l).0
      ≤ left_until (start + cool_down) max (attempt_of (lookup key l.failed))
unfolding wrong_guesses
checked_le start max cool_down key [] l m d c w = omega arith
checked_le start max cool_down key (now ∷ times) l m d c w =
    let a = attempt_of (lookup key l.failed) in
    let l' = (guarded_verify now key (ok false) l).0 in
    let entry = wrong_guess_entry now key l in
    let config = wrong_guess_config now key l in
    let gate = allowed_lem now key l in
    elim (Bool-cases (ltb now a.locked_until)) [
      | inl locked ↦
          let same : attempt_of (lookup key l'.failed) ≡ a = ground (arith, entry, locked) in
          let rest =
            checked_le start max cool_down key times l' (config.0 ∙ m) (config.1 ∙ d) (rw same c)
              w.1 in
          ground (arith, gate, locked, same, rest)
      | inr free ↦
          let next = failed_once now max cool_down a in
          let moved : attempt_of (lookup key l'.failed) ≡ next =
            ground (arith, entry, free, m, d) in
          let rest =
            checked_le start max cool_down key times l' (config.0 ∙ m) (config.1 ∙ d)
              (rw moved (failed_once_count now max cool_down a c)) w.1 in
          ground
            (arith, gate, free, moved, rest, failed_once_left start now max cool_down a c w.0.0, w)
    ]

-- Of the wrong second factors of an account that come one after the other, at most `max` are checked
-- in any stretch of time no longer than the cool-down, from any state whose count is below `max`.
pub wrong_guesses_bounded :
    (start key : ℕ) (times : List ℕ) (l : VerifyAttemptLimiter)
    → IsCounting key l
    → All (Within start l.cool_down) times
    → (wrong_guesses key times l).0 ≤ l.max
wrong_guesses_bounded start key times l c w =
    let h = checked_le start l.max l.cool_down key times l refl refl c w in ground (arith, h)

-- Requests for another account, and for this one, keep the count below the limit.
pub guarded_verify-IsCounting :
    (now key other : ℕ) (checked : Result Bool) (l : VerifyAttemptLimiter)
    → 0 < l.max
    → IsCounting key l
    → IsCounting key (guarded_verify now other checked l).0
unfolding guarded_verify
guarded_verify-IsCounting now key other checked l positive c =
    let a = attempt_of (lookup other l.failed) in
    ground (
      arith,
      lookup-insert other key (failed_once now l.max l.cool_down a) l.failed,
      lookup-erase other key l.failed,
      nat_eq.test_iff other key,
    )
