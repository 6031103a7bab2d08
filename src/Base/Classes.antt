-- ===== src/Base/Classes.antt =====
-- Equality as an interface, for keys of maps and for the code's `==`.
use Prim.Native.Nat.{ℕ}
use Prim.Native.String.{String}
use mathlib.Core.Path.{◌≡◌, refl}
use mathlib.Core.Logic.{◌↔◌}
use mathlib.Core.Bool.{Bool, true}
use text.Mathlib.Text.{◌==◌ as str_eq}
use text.Mathlib.TextEquality.{eq_iff}
use package.easyserver.Base.Tests.{nat_test, nat_test_iff}

-- A decidable equality: the test that the code runs, and that it tells equal values.
pub record Eq {ℓ} (T : Type ℓ) : Type ℓ where
  pub test : T → T → Bool
  pub test_iff : (s t : T) → (test s t ≡ true) ↔ (s ≡ t)

-- Go's `==` on integers and on strings.
instance abbrev pub nat_eq : Eq ℕ
nat_eq = record { test = nat_test; test_iff = nat_test_iff }

instance abbrev pub string_eq : Eq String
string_eq = record { test = str_eq; test_iff = eq_iff }

infix 50 ◌==◌
abbrev pub ◌==◌ {ℓ} : {T : Type ℓ} ⦃eq : Eq T⦄ → T → T → Bool
◌==◌ ⦃eq⦄ = eq.test

pub test_refl {ℓ} : {T : Type ℓ} ⦃eq : Eq T⦄ (t : T) → (t == t) ≡ true
test_refl ⦃eq⦄ t = (eq.test_iff t t).1 refl
