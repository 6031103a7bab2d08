-- ===== src/Base/Map.antt =====
-- A Go map as an association list: its order is the order of iteration, and each operation that
-- writes keeps the keys distinct. `erase` is Go's `delete`, `retain` a loop that deletes the
-- entries which fail a test, `map_values` a loop that updates each entry through its pointer.
use mathlib.Core.Path.{◌≡◌, refl}
use mathlib.Core.Logic.{inl, inr}
use mathlib.Core.Bool.{Bool}
use mathlib.Core.Option.{Option, none, some}
use mathlib.Core.List.{List, [], ◌∷◌}
use native.Mathlib.Omega.{arith}
use package.easyserver.Base.Tests.{if◌then◌else◌, Bool-cases}
use package.easyserver.Base.Classes.{Eq, ◌==◌}

abbrev pub Map {ℓ κ} : Type ℓ → Type κ → Type (ℓ ⊔ κ)
Map K V = List (K × V)

-- The value where a test passes.
abbrev pub guarded {ℓ} : {A : Type ℓ} → (A → Bool) → Option A → Option A
guarded p none = none
guarded p (some a) = if p a then some a else none

abbrev pub mapped {ℓ κ} : {A : Type ℓ} {B : Type κ} → (A → B) → Option A → Option B
mapped f none = none
mapped f (some a) = some (f a)

module _ {ℓ κ} {K : Type ℓ} {V : Type κ} where
  unfoldable pub retain : (K → V → Bool) → Map K V → Map K V
  retain p [] = []
  retain p ((k, v) ∷ m) = if p k v then (k, v) ∷ retain p m else retain p m

  unfoldable pub map_values : (V → V) → Map K V → Map K V
  map_values f [] = []
  map_values f ((k, v) ∷ m) = (k, f v) ∷ map_values f m

  abbrev pub values : Map K V → List V
  values [] = []
  values ((k, v) ∷ m) = v ∷ values m

module _ {ℓ κ} {K : Type ℓ} {V : Type κ} ⦃e : Eq K⦄ where
  unfoldable pub lookup : K → Map K V → Option V
  lookup key [] = none
  lookup key ((k, v) ∷ m) = if k == key then some v else lookup key m

  unfoldable pub insert : K → V → Map K V → Map K V
  insert key new [] = (key, new) ∷ []
  insert key new ((k, v) ∷ m) = if k == key then (k, new) ∷ m else (k, v) ∷ insert key new m

  unfoldable pub erase : K → Map K V → Map K V
  erase key [] = []
  erase key ((k, v) ∷ m) = if k == key then erase key m else (k, v) ∷ erase key m

  -- No key stands twice.
  abbrev pub Unique : Map K V → Type κ
  Unique [] = Unit
  Unique ((k, v) ∷ m) = (lookup k m ≡ none) × Unique m

  pub lookup-insert :
      (key j : K) (new : V) (m : Map K V)
      → lookup j (insert key new m) ≡ (if key == j then some new else lookup j m)
  unfolding lookup insert
  lookup-insert key j new [] = refl
  lookup-insert key j new ((k, v) ∷ m) =
      let rest = lookup-insert key j new m in
      ground (arith, rest, e.test_iff k key, e.test_iff key j, e.test_iff k j)

  pub lookup-erase :
      (k j : K) (m : Map K V) → lookup j (erase k m) ≡ (if k == j then none else lookup j m)
  unfolding lookup erase
  lookup-erase k j [] = ground arith
  lookup-erase k j ((i, w) ∷ m) =
      ground (arith, e.test_iff k j, e.test_iff i k, e.test_iff i j, lookup-erase k j m)

  pub lookup-map_values :
      (f : V → V) (j : K) (m : Map K V) → lookup j (map_values f m) ≡ mapped f (lookup j m)
  unfolding lookup map_values
  lookup-map_values f j [] = refl
  lookup-map_values f j ((i, w) ∷ m) = ground (arith, lookup-map_values f j m)

  lookup-retain-none :
      (p : K → V → Bool) (j : K) (m : Map K V) → lookup j m ≡ none → lookup j (retain p m) ≡ none
  unfolding lookup retain
  lookup-retain-none p j [] h = refl
  lookup-retain-none p j ((i, w) ∷ m) h = ground (arith, lookup-retain-none p j m)

  pub lookup-retain :
      (p : K → V → Bool) (j : K) (m : Map K V)
      → Unique m
      → lookup j (retain p m) ≡ guarded (p j) (lookup j m)
  unfolding lookup retain
  lookup-retain p j [] u = refl
  lookup-retain p j ((i, w) ∷ m) u = elim (Bool-cases (i == j)) [
    | inl same ↦
        let here : i ≡ j = (e.test_iff i j).0 same in
        ground (arith, here, lookup-retain-none p j m, lookup-retain p j m u.1)
    | inr other ↦ ground (arith, lookup-retain p j m u.1)
  ]

  pub insert-Unique : (k : K) (v : V) (m : Map K V) → Unique m → Unique (insert k v m)
  unfolding insert lookup
  insert-Unique k v [] u = (refl, tt)
  insert-Unique k v ((i, w) ∷ m) u =
      ground (arith, lookup-insert k i v m, insert-Unique k v m u.1, e.test_iff i k, e.test_iff k i)

  pub erase-Unique : (k : K) (m : Map K V) → Unique m → Unique (erase k m)
  unfolding erase
  erase-Unique k [] u = tt
  erase-Unique k ((i, w) ∷ m) u = ground (arith, lookup-erase k i m, erase-Unique k m u.1)

  pub retain-Unique : (p : K → V → Bool) (m : Map K V) → Unique m → Unique (retain p m)
  unfolding retain
  retain-Unique p [] u = tt
  retain-Unique p ((i, w) ∷ m) u =
      ground (arith, lookup-retain-none p i m u.0, retain-Unique p m u.1)

  pub map_values-Unique : (f : V → V) (m : Map K V) → Unique m → Unique (map_values f m)
  unfolding map_values
  map_values-Unique f [] u = tt
  map_values-Unique f ((i, w) ∷ m) u =
      ground (arith, lookup-map_values f i m, map_values-Unique f m u.1)
