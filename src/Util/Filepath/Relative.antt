-- ===== src/Util/Filepath/Relative.antt =====
-- A clean relative path is spelled by names, or begins with "..".
use easyserver.Base.{
  ◌≡◌, refl, subst, ◌⊎◌, inl, inr, Bool, true, false, List, [], ◌∷◌, ◌++◌, Bool-cases, nat_eq,
  string_eq, All,
}
use mathlib.Core.Bool.{false≢true}
use mathlib.Core.List.{reverse}
use easyserver.Base.Bytes.{bytes_eq, Lacks, same, same-ne, ne-same, has_prefix}
use easyserver.Util.Filepath.{Text, slash, dot, dots, split, is_abs, enter, go_up, walk, pieces}
use easyserver.Util.Filepath.Pieces.{split-Lacks}
use easyserver.Util.Filepath.Names.{IsName, reverse_cons, All-reverse}

-- A name that begins with two dots stops the check of `filepath.Rel`.
abbrev pub is_hidden : List Text → Bool
is_hidden [] = false
is_hidden (t ∷ _) = has_prefix t dots

abbrev IsShape : List Text → Type 0
IsShape st = All IsName st ⊎ (is_hidden (reverse st) ≡ true)

hidden-append : (ps qs : List Text) → is_hidden ps ≡ true → is_hidden (ps ++ qs) ≡ true
hidden-append [] qs h = absurd (false≢true h)
hidden-append (p ∷ ps) qs h = h

hidden_cons :
    (p : Text) (st : List Text)
    → is_hidden (reverse st) ≡ true
    → is_hidden (reverse (p ∷ st)) ≡ true
hidden_cons p st h = rw (reverse_cons p st) (hidden-append (reverse st) (p ∷ []) h)

hidden-front :
    (xs : List Text) (y : Text) (zs : List Text)
    → is_hidden ((xs ++ y ∷ []) ++ zs) ≡ true
    → is_hidden (xs ++ y ∷ []) ≡ true
hidden-front [] y zs h = h
hidden-front (x ∷ xs) y zs h = h

-- Leaving a piece out in front of others.
hidden_below :
    (p q : Text) (st : List Text)
    → is_hidden (reverse (p ∷ q ∷ st)) ≡ true
    → is_hidden (reverse (q ∷ st)) ≡ true
hidden_below p q st h =
    rw (reverse_cons q st)
      (hidden-front (reverse st) q (p ∷ []) (subst (λ us. is_hidden us ≡ true) split_twice h))
  where
    split_twice : reverse (p ∷ q ∷ st) ≡ (reverse st ++ q ∷ []) ++ p ∷ []
    split_twice = rw (reverse_cons p (q ∷ st), reverse_cons q st) refl

go_up-Shape : (r : Bool) (st : List Text) → IsShape st → IsShape (go_up r st)
go_up-Shape true [] h = h
go_up-Shape false [] h = inr (unfold has_prefix in refl)
go_up-Shape r (p ∷ st) (inl (h, hs)) = rw (same-ne p dots h.2) (inl hs)
go_up-Shape r (p ∷ []) (inr h) = elim (Bool-cases (same p dots)) [
  | inl e ↦ rw e (inr (hidden_cons dots (p ∷ []) h))
  | inr e ↦ rw e (inl tt)
]
go_up-Shape r (p ∷ q ∷ st) (inr h) = elim (Bool-cases (same p dots)) [
  | inl e ↦ rw e (inr (hidden_cons dots (p ∷ q ∷ st) h))
  | inr e ↦ rw e (inr (hidden_below p q st h))
]

enter-Shape :
    (r : Bool) (st : List Text) (p : Text) → IsShape st → Lacks slash p → IsShape (enter r st p)
enter-Shape r st p h k = elim (Bool-cases (same p [])) [
  | inl e ↦ rw e h
  | inr e ↦ elim (Bool-cases (same p dot)) [
    | inl e' ↦ rw (e, e') h
    | inr e' ↦ elim (Bool-cases (same p dots)) [
      | inl e'' ↦ rw (e, e', e'') (go_up-Shape r st h)
      | inr e'' ↦ rw (e, e', e'') (grow h (ne-same p [] e, ne-same p dot e', ne-same p dots e'', k))
    ]
  ]
]
  where
    grow : IsShape st → IsName p → IsShape (p ∷ st)
    grow (inl hs) hp = inl (hp, hs)
    grow (inr hs) hp = inr (hidden_cons p st hs)

walk-Shape :
    (r : Bool) (st ps : List Text) → IsShape st → All (Lacks slash) ps → IsShape (walk r st ps)
unfolding walk
walk-Shape r st [] h _ = h
walk-Shape r st (p ∷ ps) h (k, ks) = walk-Shape r (enter r st p) ps (enter-Shape r st p h k) ks

pub pieces-Shape : (path : Text) → All IsName (pieces path) ⊎ (is_hidden (pieces path) ≡ true)
unfolding pieces
pieces-Shape path = told _ (walk-Shape (is_abs path) [] (split path) (inl tt) (split-Lacks path))
  where
    told : (st : List Text) → IsShape st → All IsName (reverse st) ⊎ (is_hidden (reverse st) ≡ true)
    told st (inl h) = inl (All-reverse IsName st h)
    told st (inr h) = inr h
