-- ===== src/Base/Counts.antt =====
-- How many values of a map pass a test.
use Prim.Native.Nat.{◌≤◌, ℕ, ◌+◌}
use mathlib.Core.Path.{◌≡◌}
use mathlib.Core.Logic.{inl, inr}
use mathlib.Core.Bool.{Bool}
use mathlib.Core.Option.{Option, none, some}
use mathlib.Core.List.{[], ◌∷◌}
use native.Mathlib.Omega.{arith}
use package.easyserver.Base.Tests.{if◌then◌else◌, Bool-cases}
use package.easyserver.Base.Classes.{Eq, ◌==◌}
use package.easyserver.Base.Map.{Map, lookup, insert}

abbrev pub weigh {ℓ} : {V : Type ℓ} → (V → Bool) → Option V → ℕ
weigh p none = 0
weigh p (some v) = if p v then 1 else 0

unfoldable pub count {ℓ κ} : {K : Type ℓ} {V : Type κ} → (V → Bool) → Map K V → ℕ
count p [] = 0
count p ((k, v) ∷ m) = weigh p (some v) + count p m

pub count-insert {ℓ κ} :
    {K : Type ℓ} {V : Type κ} ⦃e : Eq K⦄ (p : V → Bool) (k : K) (v : V) (m : Map K V)
    → count p (insert k v m) + weigh p (lookup k m) ≡ count p m + weigh p (some v)
unfolding count insert lookup
count-insert p k v [] = ground arith
count-insert p k v ((i, w) ∷ m) = elim (Bool-cases (i == k)) [
  | inl same ↦ ground (arith, same)
  | inr other ↦ ground (arith, other, count-insert p k v m)
]

pub weigh-lookup-le {ℓ κ} :
    {K : Type ℓ} {V : Type κ} ⦃e : Eq K⦄ (p : V → Bool) (k : K) (m : Map K V)
    → weigh p (lookup k m) ≤ count p m
unfolding count lookup
weigh-lookup-le p k [] = omega arith
weigh-lookup-le p k ((i, w) ∷ m) = ground (arith, weigh-lookup-le p k m)
