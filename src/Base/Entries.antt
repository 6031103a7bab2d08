-- ===== src/Base/Entries.antt =====
-- A property of every entry of a map, kept by each operation on maps.
use mathlib.Core.Path.{◌≡◌, subst}
use mathlib.Core.Bool.{Bool}
use mathlib.Core.Logic.{inl, inr}
use mathlib.Core.Option.{some}
use mathlib.Core.List.{[], ◌∷◌}
use native.Mathlib.Omega.{arith}
use package.easyserver.Base.Tests.{Bool-cases}
use package.easyserver.Base.Classes.{Eq, ◌==◌}
use package.easyserver.Base.Map.{Map, lookup, insert, erase, retain, map_values}

abbrev pub Entries {ℓ κ μ} : {K : Type ℓ} {V : Type κ} → (K → V → Type μ) → Map K V → Type μ
Entries P [] = Unit
Entries P ((k, v) ∷ m) = P k v × Entries P m

module _ {ℓ κ μ} {K : Type ℓ} {V : Type κ} (P : K → V → Type μ) where
  pub retain-Entries : (p : K → V → Bool) (m : Map K V) → Entries P m → Entries P (retain p m)
  unfolding retain
  retain-Entries p [] h = tt
  retain-Entries p ((i, w) ∷ m) h = elim (Bool-cases (p i w)) [
    | inl yes' ↦ rw yes' (h.0, retain-Entries p m h.1)
    | inr no' ↦ rw no' (retain-Entries p m h.1)
  ]

  pub map_values-Entries :
      (f : V → V) (m : Map K V)
      → ((k : K) (v : V) → P k v → P k (f v))
      → Entries P m
      → Entries P (map_values f m)
  unfolding map_values
  map_values-Entries f [] g h = tt
  map_values-Entries f ((i, w) ∷ m) g h = (g i w h.0, map_values-Entries f m g h.1)

module _ {ℓ κ μ} {K : Type ℓ} {V : Type κ} ⦃e : Eq K⦄ (P : K → V → Type μ) where
  pub insert-Entries :
      (k : K) (v : V) (m : Map K V) → P k v → Entries P m → Entries P (insert k v m)
  unfolding insert
  insert-Entries k v [] p h = (p, tt)
  insert-Entries k v ((i, w) ∷ m) p h = elim (Bool-cases (i == k)) [
    | inl same ↦ rw same (rw ((e.test_iff i k).0 same) p, h.1)
    | inr other ↦ rw other (h.0, insert-Entries k v m p h.1)
  ]

  pub erase-Entries : (k : K) (m : Map K V) → Entries P m → Entries P (erase k m)
  unfolding erase
  erase-Entries k [] h = tt
  erase-Entries k ((i, w) ∷ m) h = elim (Bool-cases (i == k)) [
    | inl same ↦ rw same (erase-Entries k m h.1)
    | inr other ↦ rw other (h.0, erase-Entries k m h.1)
  ]

  pub lookup-Entries : (k : K) {v : V} (m : Map K V) → Entries P m → lookup k m ≡ some v → P k v
  unfolding lookup
  lookup-Entries k [] h f = absurd (cc)
  lookup-Entries k {v} ((i, w) ∷ m) h f = elim (Bool-cases (i == k)) [
    | inl same ↦
        let f' : some w ≡ some v = rw same at f in
        rw (← ((e.test_iff i k).0 same)) (subst (P i) (ground arith) h.0)
    | inr other ↦ lookup-Entries k m h.1 (rw other at f)
  ]

pub map-Entries {ℓ κ μ ν} :
    {K : Type ℓ} {V : Type κ} (P : K → V → Type μ) (Q : K → V → Type ν) (m : Map K V)
    → ((k : K) (v : V) → P k v → Q k v)
    → Entries P m
    → Entries Q m
map-Entries P Q [] f h = tt
map-Entries P Q ((k, v) ∷ m) f h = (f k v h.0, map-Entries P Q m f h.1)
