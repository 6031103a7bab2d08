-- ===== src/Base/Errors.antt =====
-- internal/infra/errx/error.go: the semantic kinds of an error, and results that carry one. An
-- error's message is text for the user and is left out, except where two errors of one kind must
-- be told apart: there `code` is the business code of a sentinel, and 0 the default.
use Prim.Native.Nat.{ℕ}
use mathlib.Core.Path.{◌≡◌, refl}
use mathlib.Core.Logic.{◌⊎◌, inl, inr}

pub data Kind : Type 0 where
  bad_request unauthorized forbidden not_found conflict rate_limit : Kind
  internal unavailable timeout not_implemented : Kind

pub record AppError : Type 0 where
  pub kind : Kind
  pub code : ℕ

-- `NewSentinel`, and the factories `BadRequest`, `Unauthorized`, ... without a business code.
abbrev pub new_sentinel : Kind → ℕ → AppError
new_sentinel k c = record { kind = k; code = c }

abbrev pub plain_error : Kind → AppError
plain_error k = record { kind = k; code = 0 }

pub data Result {ℓ} (A : Type ℓ) : Type ℓ where
  ok : A → Result A
  err : AppError → Result A

infixl 5 ◌>>=◌
abbrev pub ◌>>=◌ {ℓ κ} : {A : Type ℓ} {B : Type κ} → Result A → (A → Result B) → Result B
ok a >>= f = f a
err e >>= f = err e

pub Result-cases {ℓ} :
    {A : Type ℓ} (r : Result A) → ((a : A) × (r ≡ ok a)) ⊎ ((e : AppError) × (r ≡ err e))
Result-cases (ok a) = inl (a, refl)
Result-cases (err e) = inr (e, refl)
