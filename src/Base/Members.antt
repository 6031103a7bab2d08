-- ===== src/Base/Members.antt =====
-- Membership in the lists and maps of the program.
use Prim.Native.String.{String}
use package.easyserver.Base.Classes.{Eq, ◌==◌, string_eq}
use mathlib.Core.Path.{sym, ◌∙◌, ◌≡◌}
use mathlib.Core.Bool.{false≢true, Bool, true, false, ◌||◌}
use mathlib.Core.Logic.{◌↔◌, inl, inr}
use mathlib.Core.Logic.Or
use mathlib.Core.HLevel.{hedberg, ×_prop}
use mathlib.Core.List.{
  List, [], ◌∷◌, Mem, not-mem-nil, mem-cons_self, mem-cons_of_mem, eq-or-mem_of_mem-cons,
}
use package.easyserver.Base.Tests.{Bool-cases}
use package.easyserver.Base.Lists.{keep}

true_prop : (b : Bool) → IsProp (b ≡ true)
true_prop b = hlevel

Mem-prop {ℓ} : {A : Type ℓ} (a : A) (xs : List A) → IsProp (Mem a xs)
Mem-prop a xs = squash₁

module _ {ℓ} {A : Type ℓ} (p : A → Bool) (a : A) where
  keep-mem : (xs : List A) → Mem a (keep p xs) → Mem a xs × (p a ≡ true)
  unfolding keep
  keep-mem [] m = absurd (not-mem-nil m)
  keep-mem (x ∷ xs) m = elim (Bool-cases (p x)) [
    | inl good ↦
        Or.elim (×_prop (Mem-prop a (x ∷ xs)) (true_prop (p a)))
          (eq-or-mem_of_mem-cons (rw good at m)) (λ e. (rw e mem-cons_self, rw e good))
          (λ r. let h = keep-mem xs r in (mem-cons_of_mem x h.0, h.1))
    | inr bad ↦ let h = keep-mem xs (rw bad at m) in (mem-cons_of_mem x h.0, h.1)
  ]

  mem-keep_of_mem : (xs : List A) → Mem a xs → p a ≡ true → Mem a (keep p xs)
  unfolding keep
  mem-keep_of_mem [] m h = absurd (not-mem-nil m)
  mem-keep_of_mem (x ∷ xs) m h =
      Or.elim (Mem-prop a (keep p (x ∷ xs))) (eq-or-mem_of_mem-cons m)
        (λ e. rw (← e) (rw h mem-cons_self))
        (λ r. elim (Bool-cases (p x)) [
          | inl good ↦ rw good (mem-cons_of_mem x (mem-keep_of_mem xs r h))
          | inr bad ↦ rw bad (mem-keep_of_mem xs r h)
        ])

  -- What a filter keeps.
  pub mem-keep : (xs : List A) → Mem a (keep p xs) ↔ (Mem a xs × (p a ≡ true))
  mem-keep xs = (keep-mem xs, λ h. mem-keep_of_mem xs h.0 h.1)

-- A type with a test for equality is a set.
pub Eq-set {ℓ} : {A : Type ℓ} → Eq A → IsSet A
Eq-set {A} e = hedberg decide
  where
    decide : (a b : A) → Dec (a ≡ b)
    decide a b = elim (Bool-cases (e.test a b)) [
      | inl same ↦ yes ((e.test_iff a b).0 same)
      | inr other ↦ no (λ h. false≢true (sym other ∙ (e.test_iff a b).1 h))
    ]

pub String-set : IsSet String
String-set = Eq-set string_eq

-- Whether a list has an element that is equal to a given one.
abbrev pub contains {ℓ} : {A : Type ℓ} ⦃e : Eq A⦄ → A → List A → Bool
contains x [] = false
contains x (y ∷ ys) = y == x || contains x ys

-- No element stands twice.
abbrev pub Distinct {ℓ} : {A : Type ℓ} ⦃e : Eq A⦄ → List A → Type 0
Distinct [] = Unit
Distinct (x ∷ xs) = (contains x xs ≡ false) × Distinct xs
