-- ===== src/Base/Bytes.antt =====
-- Go's operations on strings, over lists of bytes.
use Prim.Native.Nat.{ℕ}
use mathlib.Core.Path.{◌≡◌, refl, sym, ap, ◌∙◌}
use mathlib.Core.Logic.{◌≢◌, inl, inr}
use mathlib.Core.Bool.{false≢true, Bool, true, false, ◌&&◌, ◌||◌}
use mathlib.Core.List.{List, [], ◌∷◌, ◌++◌}
use native.Mathlib.Omega.{arith}
use package.easyserver.Base.Tests.{nat_test, nat_test_iff, Bool-cases}
use package.easyserver.Base.Lists.{All}
use package.easyserver.Base.Classes.{Eq}

-- `strings.HasPrefix`.
unfoldable pub has_prefix : List ℕ → List ℕ → Bool
has_prefix s [] = true
has_prefix [] (d ∷ word) = false
has_prefix (c ∷ s) (d ∷ word) = nat_test c d && has_prefix s word

-- `strings.Contains`.
unfoldable pub has_word : List ℕ → List ℕ → Bool
has_word [] word = has_prefix [] word
has_word (c ∷ s) word = has_prefix (c ∷ s) word || has_word s word

unfoldable pub same : List ℕ → List ℕ → Bool
same [] [] = true
same (a ∷ s) (b ∷ t) = nat_test a b && same s t
same _ _ = false

pub same_refl : (s : List ℕ) → same s s ≡ true
unfolding same
same_refl [] = refl
same_refl (a ∷ s) = ground (arith, same_refl s)

pub same-eq : (s t : List ℕ) → same s t ≡ true → s ≡ t
unfolding same
same-eq [] [] h = refl
same-eq [] (b ∷ t) h = ground arith
same-eq (a ∷ s) [] h = ground arith
same-eq (a ∷ s) (b ∷ t) h = grind (arith, same-eq s t, nat_test_iff a b)

pub same-ne : (s t : List ℕ) → s ≢ t → same s t ≡ false
same-ne s t h = elim (Bool-cases (same s t)) [ inl e ↦ absurd (h (same-eq s t e)) | inr e ↦ e ]

pub ne-same : (s t : List ℕ) → same s t ≡ false → s ≢ t
ne-same s t h e = false≢true (sym h ∙ ap (λ u. same s u) (sym e) ∙ same_refl s)

instance abbrev pub bytes_eq : Eq (List ℕ)
bytes_eq = record { test = same; test_iff = λ s t. (same-eq s t, λ e. subst_same s t e) }
  where
    subst_same : (s t : List ℕ) → s ≡ t → same s t ≡ true
    subst_same s t e = rw (← e) (same_refl s)

-- The text does not hold the byte.
abbrev pub Lacks : ℕ → List ℕ → Type 0
Lacks b = All (λ c. c ≢ b)

-- A text that goes on to a byte is no prefix of the empty text.
pub has_prefix-nil : (s u : List ℕ) (b : ℕ) → has_prefix [] (s ++ b ∷ u) ≡ false
unfolding has_prefix
has_prefix-nil [] u b = refl
has_prefix-nil (c ∷ s) u b = refl

-- A prefix that ends at a byte neither side holds before it is settled piece by piece.
pub has_prefix-until :
    (b : ℕ) (s t u v : List ℕ)
    → Lacks b s
    → Lacks b t
    → has_prefix (t ++ b ∷ v) (s ++ b ∷ u) ≡ (same t s && has_prefix v u)
unfolding has_prefix same
has_prefix-until b [] [] u v hs ht = ground arith
has_prefix-until b [] (c ∷ t) u v hs ht = ground arith
has_prefix-until b (c ∷ s) [] u v hs ht = ground arith
has_prefix-until b (c ∷ s) (d ∷ t) u v (hc, hs) (hd, ht) =
    ground (arith, has_prefix-until b s t u v hs ht)

-- Whether a text is another, or begins with it and a byte, as one test.
pub has_prefix-closed :
    (b : ℕ) (s t : List ℕ)
    → (same t s || has_prefix t (s ++ b ∷ [])) ≡ has_prefix (t ++ b ∷ []) (s ++ b ∷ [])
unfolding has_prefix same
has_prefix-closed b [] [] = ground arith
has_prefix-closed b [] (d ∷ t) = ground arith
has_prefix-closed b (c ∷ s) [] = ground (arith, has_prefix-nil s [] b)
has_prefix-closed b (c ∷ s) (d ∷ t) = ground (arith, has_prefix-closed b s t)
