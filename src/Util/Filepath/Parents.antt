-- ===== src/Util/Filepath/Parents.antt =====
-- The parent of a path, and the pieces of a relative path.
use easyserver.Base.{
  ◌≡◌, refl, ap, ◌∙◌, ◌≢◌, true, false, List, [], ◌∷◌, ◌++◌, arith, nat_eq, string_eq, All,
}
use mathlib.Core.List.{append_assoc}
use easyserver.Base.Bytes.{bytes_eq, Lacks, same, same-ne}
use easyserver.Util.Filepath.{Text, slash, split, join, walk, spell, clean, up_to_slash, dir}
use easyserver.Util.Filepath.Pieces.{split-join, split-append}
use easyserver.Util.Filepath.Names.{
  IsName, Names-Lacks, pieces-slash, clean_abs, clean-spell, walk-append, walk-names,
}

up_to_slash-Lacks : (s : Text) → Lacks slash s → up_to_slash s ≡ []
unfolding up_to_slash same
up_to_slash-Lacks [] h = refl
up_to_slash-Lacks (c ∷ s) (hc, h) = ground (arith, up_to_slash-Lacks s h)

same-nil-append : (s t : Text) → t ≢ [] → same (s ++ t) [] ≡ false
unfolding same
same-nil-append [] t h = same-ne t [] h
same-nil-append (c ∷ s) t h = refl

up_to_slash-append : (s t : Text) → Lacks slash t → up_to_slash (s ++ slash ∷ t) ≡ s ++ slash ∷ []
unfolding up_to_slash
up_to_slash-append [] t h = rw (up_to_slash-Lacks t h) refl
up_to_slash-append (c ∷ s) t h =
    rw (up_to_slash-append s t h, same-nil-append s (slash ∷ []) (cc)) (ground arith)

pub join-snoc :
    (p : Text) (ps : List Text) (q : Text) → join ((p ∷ ps) ++ q ∷ []) ≡ join (p ∷ ps) ++ slash ∷ q
unfolding join
join-snoc p [] q = refl
join-snoc p (r ∷ ps) q = rw (append_assoc, join-snoc r ps q) refl

walk_stay : (st : List Text) → walk true st (split []) ≡ st
unfolding walk split same
walk_stay st = refl

-- A slash at the end does not change what a path names.
clean-closed :
    (p : Text) (ps : List Text)
    → All IsName (p ∷ ps)
    → clean (slash ∷ join (p ∷ ps) ++ slash ∷ []) ≡ spell true (p ∷ ps)
clean-closed p ps h =
    clean_abs (slash ∷ join (p ∷ ps) ++ slash ∷ []) refl
    ∙ ap (spell true) (
        rw
          (
            pieces-slash (join (p ∷ ps) ++ slash ∷ []),
            split-append (join (p ∷ ps)) [],
            split-join p ps (Names-Lacks (p ∷ ps) h),
            walk-append true [] (p ∷ ps) (split []),
            walk_stay (walk true [] (p ∷ ps)),
          )
          (walk-names true [] (p ∷ ps) h))

pub All-first : (xs ys : List Text) → All IsName (xs ++ ys) → All IsName xs
All-first [] ys h = tt
All-first (x ∷ xs) ys (h, hs) = (h, All-first xs ys hs)

All-last : (xs : List Text) (y : Text) → All IsName (xs ++ y ∷ []) → IsName y
All-last [] y h = h.0
All-last (x ∷ xs) y (_, h) = All-last xs y h

dir_lem : (s : Text) → dir s ≡ clean (up_to_slash s)
unfolding dir
dir_lem s = refl

clean_root : clean (slash ∷ []) ≡ spell true []
unfolding join
clean_root = clean-spell [] tt

-- The parent of a spelled path leaves its last name out; the root is its own parent.
pub dir-spell :
    (ps : List Text) (q : Text)
    → All IsName (ps ++ q ∷ [])
    → dir (spell true (ps ++ q ∷ [])) ≡ spell true ps
unfolding join
dir-spell [] q (h, _) = dir_lem (slash ∷ q) ∙ ap clean (up_to_slash-append [] q h.3) ∙ clean_root
dir-spell (p ∷ ps) q h =
    dir_lem (slash ∷ join ((p ∷ ps) ++ q ∷ []))
    ∙ ap (λ s. clean (up_to_slash (slash ∷ s))) (join-snoc p ps q)
    ∙ ap clean (up_to_slash-append (slash ∷ join (p ∷ ps)) q (All-last (p ∷ ps) q h).3)
    ∙ clean-closed p ps (All-first (p ∷ ps) (q ∷ []) h)

pub dir_root : dir (spell true []) ≡ spell true []
unfolding join
dir_root = dir_lem (slash ∷ []) ∙ ap clean (up_to_slash-append [] [] tt) ∙ clean_root
