-- ===== src/Util/Filepath/Absolute.antt =====
-- Cleaning a path leaves it absolute or relative.
use easyserver.Base.{
  ◌≡◌, refl, ◌≢◌, inl, inr, Bool, true, false, List, [], ◌∷◌, arith, Bool-cases, nat_eq, string_eq,
  All,
}
use mathlib.Core.List.{reverse}
use easyserver.Base.Bytes.{bytes_eq, Lacks, same, ne-same}
use easyserver.Util.Filepath.{
  Text, slash, dot, dots, split, join, is_abs, go_up, enter, walk, pieces, spell, clean,
}
use easyserver.Util.Filepath.Pieces.{split-Lacks}
use easyserver.Util.Filepath.Names.{All-reverse}

-- A piece of any clean path, names and ".." both.
abbrev IsPiece : Text → Type 0
IsPiece p = (p ≢ []) × Lacks slash p

dots-IsPiece : IsPiece dots
dots-IsPiece = (cc, (omega arith, (omega arith, tt)))

go_up-Pieces : (r : Bool) (st : List Text) → All IsPiece st → All IsPiece (go_up r st)
go_up-Pieces true [] h = tt
go_up-Pieces false [] h = (dots-IsPiece, tt)
go_up-Pieces r (p ∷ st) (h, hs) = elim (Bool-cases (same p dots)) [
  | inl e ↦ rw e (dots-IsPiece, (h, hs))
  | inr e ↦ rw e hs
]

enter-Pieces :
    (r : Bool) (st : List Text) (p : Text)
    → All IsPiece st
    → Lacks slash p
    → All IsPiece (enter r st p)
enter-Pieces r st p h k = elim (Bool-cases (same p [])) [
  | inl e ↦ rw e h
  | inr e ↦ elim (Bool-cases (same p dot)) [
    | inl e' ↦ rw (e, e') h
    | inr e' ↦ elim (Bool-cases (same p dots)) [
      | inl e'' ↦ rw (e, e', e'') (go_up-Pieces r st h)
      | inr e'' ↦ rw (e, e', e'') ((ne-same p [] e, k), h)
    ]
  ]
]

walk-Pieces :
    (r : Bool) (st ps : List Text)
    → All IsPiece st
    → All (Lacks slash) ps
    → All IsPiece (walk r st ps)
unfolding walk
walk-Pieces r st [] h _ = h
walk-Pieces r st (p ∷ ps) h (k, ks) = walk-Pieces r (enter r st p) ps (enter-Pieces r st p h k) ks

spell_not_abs : (ps : List Text) → All IsPiece ps → is_abs (spell false ps) ≡ false
unfolding join
spell_not_abs [] h = refl
spell_not_abs ([] ∷ ps) (h, _) = absurd (h.0 refl)
spell_not_abs ((c ∷ p) ∷ []) (h, _) = ground (arith, h.1)
spell_not_abs ((c ∷ p) ∷ q ∷ ps) (h, _) = ground (arith, h.1)

-- A path is absolute when it is so after cleaning.
pub is_abs-clean : (path : Text) → is_abs (clean path) ≡ is_abs path
unfolding clean pieces
is_abs-clean path = elim (Bool-cases (is_abs path)) [
  | inl e ↦ rw e refl
  | inr e ↦ rw e (
      spell_not_abs (reverse (walk false [] (split path)))
        (All-reverse IsPiece _ (walk-Pieces false [] (split path) tt (split-Lacks path))))
]
