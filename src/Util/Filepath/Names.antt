-- ===== src/Util/Filepath/Names.antt =====
-- Clean absolute paths are spelled by names, and cleaning gives the names back.
use easyserver.Base.{
  ◌≡◌, refl, ◌≢◌, inl, inr, Bool, true, List, [], ◌∷◌, ◌++◌, Bool-cases, nat_eq, string_eq, All,
}
use mathlib.Core.List.{reverse, reverse-append, append_assoc, append-nil}
use easyserver.Base.Bytes.{bytes_eq, Lacks, same, same-ne, ne-same}
use easyserver.Util.Filepath.{
  Text, slash, dot, dots, split, join, is_abs, go_up, enter, walk, pieces, spell, clean,
}
use easyserver.Util.Filepath.Pieces.{split-Lacks, split-join}

-- A name is one step down.
abbrev pub IsName : Text → Type 0
IsName p = (p ≢ []) × (p ≢ dot) × (p ≢ dots) × Lacks slash p

pub Names-Lacks : (ps : List Text) → All IsName ps → All (Lacks slash) ps
Names-Lacks [] h = tt
Names-Lacks (p ∷ ps) (h, hs) = (h.3, Names-Lacks ps hs)

pub All-append {ℓ κ} :
    {A : Type ℓ} (P : A → Type κ) (xs ys : List A) → All P xs → All P ys → All P (xs ++ ys)
All-append P [] ys h k = k
All-append P (x ∷ xs) ys (h, hs) k = (h, All-append P xs ys hs k)

pub reverse_cons {ℓ} : {A : Type ℓ} (x : A) (xs : List A) → reverse (x ∷ xs) ≡ reverse xs ++ x ∷ []
reverse_cons x xs = reverse-append (x ∷ []) xs

pub All-reverse {ℓ κ} : {A : Type ℓ} (P : A → Type κ) (xs : List A) → All P xs → All P (reverse xs)
All-reverse P [] h = h
All-reverse P (x ∷ xs) (h, hs) =
    rw (reverse_cons x xs) (All-append P (reverse xs) (x ∷ []) (All-reverse P xs hs) (h, tt))

enter-name : (r : Bool) (st : List Text) (p : Text) → IsName p → enter r st p ≡ p ∷ st
enter-name r st p h = rw (same-ne p [] h.0, same-ne p dot h.1, same-ne p dots h.2) refl

pub walk-append :
    (r : Bool) (st ps qs : List Text) → walk r st (ps ++ qs) ≡ walk r (walk r st ps) qs
unfolding walk
walk-append r st [] qs = refl
walk-append r st (p ∷ ps) qs = walk-append r (enter r st p) ps qs

-- Names are walked down one by one.
pub walk-names :
    (r : Bool) (st ps : List Text) → All IsName ps → reverse (walk r st ps) ≡ reverse st ++ ps
unfolding walk
walk-names r st [] h = rw append-nil
walk-names r st (p ∷ ps) (h, hs) =
    rw (enter-name r st p h, walk-names r (p ∷ st) ps hs, reverse_cons, append_assoc)

go_up-Names : (st : List Text) → All IsName st → All IsName (go_up true st)
go_up-Names [] h = tt
go_up-Names (p ∷ st) (h, hs) = rw (same-ne p dots h.2) hs

pub enter-Names :
    (st : List Text) (p : Text) → All IsName st → Lacks slash p → All IsName (enter true st p)
enter-Names st p h k = elim (Bool-cases (same p [])) [
  | inl e ↦ rw e h
  | inr e ↦ elim (Bool-cases (same p dot)) [
    | inl e' ↦ rw (e, e') h
    | inr e' ↦ elim (Bool-cases (same p dots)) [
      | inl e'' ↦ rw (e, e', e'') (go_up-Names st h)
      | inr e'' ↦ rw (e, e', e'') ((ne-same p [] e, ne-same p dot e', ne-same p dots e'', k), h)
    ]
  ]
]

pub walk-Names :
    (st ps : List Text) → All IsName st → All (Lacks slash) ps → All IsName (walk true st ps)
unfolding walk
walk-Names st [] h _ = h
walk-Names st (p ∷ ps) h (k, ks) = walk-Names (enter true st p) ps (enter-Names st p h k) ks

-- The pieces of an absolute path are names.
pub pieces-Names : (path : Text) → is_abs path ≡ true → All IsName (pieces path)
unfolding pieces
pieces-Names path h = rw h (All-reverse IsName _ (walk-Names [] (split path) tt (split-Lacks path)))

pub pieces-slash : (s : Text) → pieces (slash ∷ s) ≡ reverse (walk true [] (split s))
unfolding pieces split walk same
pieces-slash s = refl

-- The path that names spell has these names.
pub pieces-spell : (ps : List Text) → All IsName ps → pieces (spell true ps) ≡ ps
unfolding split join walk same
pieces-spell [] h = rw (pieces-slash []) refl
pieces-spell (p ∷ ps) h =
    rw (pieces-slash (join (p ∷ ps)), split-join p ps (Names-Lacks (p ∷ ps) h))
      (walk-names true [] (p ∷ ps) h)

pub clean_abs : (path : Text) → is_abs path ≡ true → clean path ≡ spell true (pieces path)
unfolding clean
clean_abs path h = rw h

pub pieces-clean : (path : Text) → is_abs path ≡ true → pieces (clean path) ≡ pieces path
pieces-clean path h = rw (clean_abs path h) (pieces-spell (pieces path) (pieces-Names path h))

pub clean-spell : (ps : List Text) → All IsName ps → clean (spell true ps) ≡ spell true ps
clean-spell ps h = rw (clean_abs (spell true ps) refl, pieces-spell ps h)
