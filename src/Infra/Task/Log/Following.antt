-- ===== src/Infra/Task/Log/Following.antt =====
-- What a reader with a cursor sees, and how the bytes written come back as lines.
use easyserver.Base.{
  ℕ, ◌+◌, ◌-◌, ◌*◌, ◌/◌, ◌≤◌, ◌<◌, ◌≡◌, refl, sym, ◌∙◌, ◌⊎◌, inl, inr, List, [], ◌∷◌, ◌++◌, arith,
  leb, leb→le, if◌then◌else◌, Bool-cases, nat_eq, string_eq, nat_test, nat_test_iff, pos, length,
  drop, length-append, length-drop,
}
use mathlib.Core.List.{append-nil, append_assoc}
use easyserver.Infra.Task.Log.{
  Line, text, TaskLog, max_log_lines, append_locked, newline, write_from, write_locked, tail,
}

pub append_locked_room :
    (line : Line) (l : TaskLog) → length l < max_log_lines → append_locked line l ≡ l ++ (line ∷ [])
unfolding append_locked
append_locked_room line l h = ground arith

length-append_locked_full :
    (line : Line) (l : TaskLog) → max_log_lines ≤ length l → length (append_locked line l) ≡ 3751
unfolding append_locked
length-append_locked_full line l h =
    let kept = length-drop (length l - max_log_lines * 3 / 4) l in
    let whole = length-append (drop (length l - max_log_lines * 3 / 4) l) (line ∷ []) in
    ground (arith, h, kept, whole)

-- The buffer never holds more than its limit.
pub length-append_locked_le :
    (line : Line) (l : TaskLog)
    → length l ≤ max_log_lines
    → length (append_locked line l) ≤ max_log_lines
length-append_locked_le line l h = elim (Bool-cases (leb max_log_lines (length l))) [
  | inl full ↦
      let n = length-append_locked_full line l (leb→le max_log_lines (length l) full) in
      omega (arith, n)
  | inr room ↦
      let n = length-append l (line ∷ []) in
      rw (append_locked_room line l (ground (arith, room))) (ground (arith, n, room))
]

unfoldable pub append_all : List Line → TaskLog → TaskLog
append_all [] l = l
append_all (line ∷ lines) l = append_all lines (append_locked line l)

append_all_room :
    (lines : List Line) (l : TaskLog)
    → length l + length lines ≤ max_log_lines
    → append_all lines l ≡ l ++ lines
unfolding append_all
append_all_room [] l h = sym (append-nil l)
append_all_room (line ∷ lines) l h =
    let here = append_locked_room line l (omega (arith, h)) in
    let grown = length-append l (line ∷ []) in
    rw here (
      append_all_room lines (l ++ (line ∷ [])) (omega (arith, h, grown))
      ∙ append_assoc l (line ∷ []) lines)

drop_append : (xs ys : List Line) → drop (length xs) (xs ++ ys) ≡ ys
drop_append [] ys = refl
drop_append (x ∷ xs) ys = drop_append xs ys

-- While the buffer has room, a reader whose cursor is at the end is given exactly the lines
-- appended since, in order, and a cursor at the new end.
pub tail-append_all :
    (lines : List Line) (l : TaskLog)
    → length l + length lines ≤ max_log_lines
    → tail (pos (length l)) (append_all lines l) ≡ (lines, length l + length lines)
unfolding tail
tail-append_all lines l h =
    let all = append_all_room lines l h in
    rw (all, length-append l lines, drop_append l lines)
      (elim lines [ [] ↦ ground arith | x ∷ xs ↦ ground arith ])

-- Once the buffer is full, a reader that has seen everything is not given the next line: its cursor
-- lies beyond what the buffer keeps, and it goes on from the end.
pub tail-append_locked_full :
    (line : Line) (l : TaskLog)
    → length l ≡ max_log_lines
    → tail (pos (length l)) (append_locked line l) ≡ ([], 3751)
unfolding tail
tail-append_locked_full line l h =
    let n = length-append_locked_full line l (omega (arith, h)) in ground (arith, h, n)

-- The bytes that lines of text were cut from, each line with its newline.
abbrev pub unlines : List Line → List ℕ
unlines [] = []
unlines (text p ∷ lines) = p ++ (newline ∷ unlines lines)
unlines (_ ∷ lines) = unlines lines

-- The lines that `writeLocked` cuts, independently of the buffer.
unfoldable pub lines_from : List ℕ → List ℕ → List Line
lines_from [] [] = []
lines_from (b ∷ seg) [] = text (b ∷ seg) ∷ []
lines_from seg (b ∷ rest) =
    if nat_test b newline then text seg ∷ lines_from [] rest else lines_from (seg ++ (b ∷ [])) rest

write_from_lem :
    (seg rest : List ℕ) (l : TaskLog) → write_from seg rest l ≡ append_all (lines_from seg rest) l
unfolding write_from lines_from append_all
write_from_lem [] [] l = refl
write_from_lem (b ∷ seg) [] l = refl
write_from_lem seg (b ∷ rest) l = elim (Bool-cases (nat_test b newline)) [
  | inl cut ↦ rw cut (write_from_lem [] rest (append_locked (text seg) l))
  | inr more ↦ rw more (write_from_lem (seg ++ (b ∷ [])) rest l)
]

-- The lines are the bytes cut at each newline: put together again they are the bytes, but for the
-- newline that a last line may lack.
unlines-lines_from :
    (seg rest : List ℕ)
    → (unlines (lines_from seg rest) ≡ seg ++ rest)
      ⊎ (unlines (lines_from seg rest) ≡ seg ++ (rest ++ (newline ∷ [])))
unfolding lines_from
unlines-lines_from [] [] = inl refl
unlines-lines_from (b ∷ seg) [] = inr refl
unlines-lines_from seg (b ∷ rest) = elim (Bool-cases (nat_test b newline)) [
  | inl cut ↦
      let here : b ≡ newline = (nat_test_iff b newline).0 cut in
      rw (cut, here)
        (elim (unlines-lines_from [] rest) [ inl e ↦ inl (rw e refl) | inr e ↦ inr (rw e refl) ])
  | inr more ↦ rw more (elim (unlines-lines_from (seg ++ (b ∷ [])) rest) [
    | inl e ↦ inl (e ∙ append_assoc seg (b ∷ []) rest)
    | inr e ↦ inr (e ∙ append_assoc seg (b ∷ []) (rest ++ (newline ∷ [])))
  ])
]

length-lines_from_le : (seg rest : List ℕ) → length (lines_from seg rest) ≤ length seg + length rest
unfolding lines_from
length-lines_from_le [] [] = omega arith
length-lines_from_le (b ∷ seg) [] = omega arith
length-lines_from_le seg (b ∷ rest) = ground (
  arith,
  length-lines_from_le [] rest,
  length-lines_from_le (seg ++ (b ∷ [])) rest,
  length-append seg (b ∷ []),
)

-- What is written to a buffer with room for it is appended as lines which, each with its newline,
-- are the bytes written: to the byte, but for the newline that the last line may have lacked.
pub write_locked_lines :
    (p : List ℕ) (l : TaskLog)
    → length l + length p ≤ max_log_lines
    → (lines : List Line) × (write_locked p l ≡ l ++ lines)
      × ((unlines lines ≡ p) ⊎ (unlines lines ≡ p ++ (newline ∷ [])))
unfolding write_locked
write_locked_lines p l h =
    let few = length-lines_from_le [] p in
    (
      lines_from [] p,
      write_from_lem [] p l ∙ append_all_room (lines_from [] p) l (omega (arith, h, few)),
      unlines-lines_from [] p,
    )
