-- ===== src/Util/Path/Inside.antt =====
-- `filepath.Rel` on clean absolute paths, and what `IsSubPath` and the shared guard decide.
use easyserver.Base.{
  ◌≡◌, refl, sym, ap, ◌∙◌, subst, ◌≢◌, inl, inr, Bool, true, false, not, ◌&&◌, Option, none, some,
  List, [], ◌∷◌, ◌++◌, arith, Bool-cases, Option-cases, nat_eq, string_eq, length, All,
  length-append,
}
use mathlib.Core.Path.{ap₂}
use mathlib.Core.List.{append-nil}
use easyserver.Base.Bytes.{bytes_eq, same, same_refl, same-eq, same-ne, has_prefix}
use easyserver.Util.Filepath.{
  Text, slash, dot, dots, split, join, is_abs, pieces, spell, clean, words, part_ways, relate, rel,
}
use easyserver.Util.Filepath.Pieces.{split-join}
use easyserver.Util.Filepath.Relative.{is_hidden}
use easyserver.Util.Filepath.Names.{
  IsName, Names-Lacks, pieces-Names, pieces-spell, clean_abs, clean-spell, All-append,
}
use easyserver.Util.Path.{has_path_prefix, is_under, is_sub_path, is_guarded, leaves}
use easyserver.Util.Path.Within.{below, is_some, stays, join-ne-nil, has_path_prefix-below}

-- What is below is what follows the names of the directory.
pub below-append : (bs ts rest : List Text) → below bs ts ≡ some rest → ts ≡ bs ++ rest
unfolding below
below-append [] ts rest h = ground arith
below-append (b ∷ bs) [] rest h = ground arith
below-append (b ∷ bs) (t ∷ ts) rest h = grind (arith, below-append bs ts rest, same-eq b t)

pub append-below : (bs rest : List Text) → below bs (bs ++ rest) ≡ some rest
unfolding below
append-below [] rest = refl
append-below (b ∷ bs) rest = rw (same_refl b) (append-below bs rest)

abbrev pub rel_text : List Text → Text
rel_text [] = dot
rel_text (r ∷ rs) = join (r ∷ rs)

words-nonempty : (s : Text) → s ≢ [] → words s ≡ split s
words-nonempty [] h = absurd (h refl)
words-nonempty (c ∷ s) h = refl

words-join : (ps : List Text) → All IsName ps → words (join ps) ≡ ps
unfolding join
words-join [] h = refl
words-join (p ∷ ps) h =
    words-nonempty (join (p ∷ ps)) (join-ne-nil p ps h.0.0)
    ∙ split-join p ps (Names-Lacks (p ∷ ps) h)

part_ways-append : (bs rest : List Text) → part_ways bs (bs ++ rest) ≡ ([], rest)
unfolding part_ways
part_ways-append [] [] = refl
part_ways-append [] (r ∷ rs) = refl
part_ways-append (b ∷ bs) rest = rw (same_refl b) (part_ways-append bs rest)

spell-ne :
    (bs : List Text) (r : Text) (rs : List Text)
    → All IsName bs
    → All IsName (r ∷ rs)
    → same (spell true bs) (spell true (bs ++ r ∷ rs)) ≡ false
spell-ne bs r rs h k =
    same-ne (spell true bs) (spell true (bs ++ r ∷ rs))
      (λ e. omega (arith, length-append bs (r ∷ rs), ap length (same_names e)))
  where
    same_names : spell true bs ≡ spell true (bs ++ r ∷ rs) → bs ≡ bs ++ r ∷ rs
    same_names e =
        sym (pieces-spell bs h)
        ∙ ap pieces e
        ∙ pieces-spell (bs ++ r ∷ rs) (All-append IsName bs (r ∷ rs) h k)

relate-append :
    (bs rest : List Text)
    → All IsName bs
    → All IsName rest
    → relate (spell true bs) (spell true (bs ++ rest)) ≡ some (rel_text rest)
unfolding relate same
relate-append bs [] h k = rw (append-nil, same_refl (spell true bs)) refl
relate-append bs (r ∷ rs) h k =
    rw
      (
        spell-ne bs r rs h k,
        words-join bs h,
        words-join (bs ++ r ∷ rs) (All-append IsName bs (r ∷ rs) h k),
        part_ways-append bs (r ∷ rs),
      )
      refl

pub rel-append :
    (bs rest : List Text)
    → All IsName bs
    → All IsName rest
    → rel (spell true bs) (spell true (bs ++ rest)) ≡ some (rel_text rest)
unfolding rel
rel-append bs rest h k =
    ap₂ relate (clean-spell bs h) (clean-spell (bs ++ rest) (All-append IsName bs rest h k))
    ∙ relate-append bs rest h k

has_prefix-dots : (r u : Text) → has_prefix (r ++ slash ∷ u) dots ≡ has_prefix r dots
unfolding has_prefix
has_prefix-dots [] u = ground arith
has_prefix-dots (c ∷ []) u = ground arith
has_prefix-dots (c ∷ d ∷ r) u = refl

pub leaves-prefix : (s : Text) → leaves (some s) ≡ has_prefix s dots
unfolding has_prefix same
leaves-prefix [] = ground arith
leaves-prefix (c ∷ []) = ground arith
leaves-prefix (c ∷ d ∷ []) = ground arith
leaves-prefix (c ∷ d ∷ e ∷ s) = ground arith

pub leaves-hidden : (rest : List Text) → leaves (some (rel_text rest)) ≡ is_hidden rest
unfolding join has_prefix same
leaves-hidden [] = ground arith
leaves-hidden (r ∷ []) = leaves-prefix r
leaves-hidden (r ∷ q ∷ rs) =
    leaves-prefix (r ++ slash ∷ join (q ∷ rs)) ∙ has_prefix-dots r (join (q ∷ rs))

has_path_prefix-spell :
    (bs ts : List Text)
    → All IsName bs
    → All IsName ts
    → has_path_prefix (spell true ts) (spell true bs) ≡ is_some (below bs ts)
has_path_prefix-spell bs ts h k =
    has_path_prefix-below (spell true ts) (spell true bs) refl
    ∙ ap₂ (λ us vs. is_some (below us vs)) (pieces-spell bs h) (pieces-spell ts k)

is_under-below :
    (bs rest : List Text)
    → All IsName bs
    → All IsName rest
    → is_under (spell true bs) (spell true (bs ++ rest)) ≡ not (is_hidden rest)
unfolding is_under
is_under-below bs [] h k = rw (append-nil, same_refl (spell true bs)) refl
is_under-below bs (r ∷ rs) h k =
    rw
      (
        spell-ne bs r rs h k,
        has_path_prefix-spell bs (bs ++ r ∷ rs) h (All-append IsName bs (r ∷ rs) h k),
        append-below bs (r ∷ rs),
        rel-append bs (r ∷ rs) h k,
      )
      (ap not (leaves-hidden (r ∷ rs)))

is_under-apart :
    (bs ts : List Text)
    → All IsName bs
    → All IsName ts
    → below bs ts ≡ none
    → is_under (spell true bs) (spell true ts) ≡ false
unfolding is_under
is_under-apart bs ts h k e = rw (apart, has_path_prefix-spell bs ts h k, e) refl
  where
    none_some : ◌≡◌ {A = Option (List Text)} none (some []) → ⊥
    none_some q = ground arith

    same_names : spell true bs ≡ spell true ts → bs ≡ ts
    same_names p = sym (pieces-spell bs h) ∙ ap pieces p ∙ pieces-spell ts k

    below_self : below bs bs ≡ some []
    below_self = ap (λ us. below bs us) (sym (append-nil bs)) ∙ append-below bs []

    apart : same (spell true bs) (spell true ts) ≡ false
    apart =
        same-ne (spell true bs) (spell true ts) (λ p.
          absurd (none_some (sym e ∙ ap (λ us. below bs us) (sym (same_names p)) ∙ below_self)))

pub All-drop : (bs rest : List Text) → All IsName (bs ++ rest) → All IsName rest
All-drop [] rest h = h
All-drop (b ∷ bs) rest (_, h) = All-drop bs rest h

-- `IsSubPath` of two spelled paths.
is_under-spell :
    (bs ts : List Text)
    → All IsName bs
    → All IsName ts
    → is_under (spell true bs) (spell true ts) ≡ stays (below bs ts)
is_under-spell bs ts h k = elim (Option-cases (below bs ts)) [
  | inl e ↦ rw e (is_under-apart bs ts h k e)
  | inr (rest, e) ↦
      rw (e, below-append bs ts rest e)
        (is_under-below bs rest h
          (All-drop bs rest (subst (All IsName) (below-append bs ts rest e) k)))
]

both_guards : (q : Bool) (o : Option (List Text)) → ((q && is_some o) && stays o) ≡ (q && stays o)
both_guards false o = refl
both_guards true none = refl
both_guards true (some rest) = refl

is_sub_path-clean : (p c : Text) → is_sub_path p c ≡ is_under (clean p) (clean c)
unfolding is_sub_path
is_sub_path-clean p c = refl

is_sub_path-stays :
    (base path : Text)
    → is_abs base ≡ true
    → is_abs path ≡ true
    → is_sub_path base path ≡ stays (below (pieces base) (pieces path))
is_sub_path-stays base path hb hp =
    rw (is_sub_path-clean, clean_abs base hb, clean_abs path hp)
      (is_under-spell (pieces base) (pieces path) (pieces-Names base hb) (pieces-Names path hp))

-- The guard on an absolute base lets a path pass that is absolute and stays below the base.
pub is_guarded-stays :
    (base path : Text)
    → is_abs base ≡ true
    → is_guarded base path ≡ (is_abs path && stays (below (pieces base) (pieces path)))
is_guarded-stays base path hb = elim (Bool-cases (is_abs path)) [
  | inl hp ↦
      rw (has_path_prefix-below path base hb, is_sub_path-stays base path hb hp)
        (both_guards (is_abs path) (below (pieces base) (pieces path)))
  | inr hp ↦ rw (has_path_prefix-below path base hb, hp) refl
]
