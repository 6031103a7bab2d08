-- ===== src/Infra/Task/Log/Examples.antt =====
-- Tests of the log, and the theorems about it at a short buffer and at a full one.
use easyserver.Base.{
  ℕ, zero, suc, ◌≡◌, refl, [], ◌∷◌, arith, nat_eq, string_eq, pos, negsuc, length,
}
use easyserver.Infra.Task.Log.{text, TaskLog, append_locked, write_locked, write_from, tail}
use easyserver.Infra.Task.Log.Following.{tail-append_locked_full}

abbrev two_lines : TaskLog
two_lines = text (65 ∷ []) ∷ text [] ∷ []

written :
    write_locked (66 ∷ 10 ∷ 10 ∷ 67 ∷ []) two_lines
    ≡ text (65 ∷ []) ∷ text [] ∷ text (66 ∷ []) ∷ text [] ∷ text (67 ∷ []) ∷ []
unfolding write_locked write_from append_locked
written = refl

read_negative : tail (negsuc 0) two_lines ≡ ([], 2)
unfolding tail
read_negative = refl

blank_lines : ℕ → TaskLog
blank_lines zero = []
blank_lines (suc n) = text [] ∷ blank_lines n

length-blank_lines : (n : ℕ) → length (blank_lines n) ≡ n
unfolding blank_lines
length-blank_lines zero = refl
length-blank_lines (suc n) = omega (arith, length-blank_lines n)

tail-append_locked_full_example :
    tail (pos (length (blank_lines 5000))) (append_locked (text []) (blank_lines 5000)) ≡ ([], 3751)
tail-append_locked_full_example =
    tail-append_locked_full (text []) (blank_lines 5000) (length-blank_lines 5000)
