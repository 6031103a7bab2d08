-- ===== src/Util/Path/Climb.antt =====
-- The loop of `ResolveInSandbox` over the parents of a path.
use easyserver.Base.{
  ℕ, zero, suc, ◌<◌, ◌≡◌, refl, ap, ◌∙◌, subst, ◌≢◌, ◌⊎◌, inl, inr, Bool, true, false, Option, none,
  some, List, [], ◌∷◌, ◌++◌, arith, ◌==◌, nat_eq, string_eq, length, All,
}
use mathlib.Core.Bool.{false≢true}
use mathlib.Core.List.{reverse, append_assoc, append-nil}
use easyserver.Base.Bytes.{bytes_eq, same, same_refl, same-ne}
use easyserver.Util.Filepath.{Text, dot, dots, split, spell, clean, join_paths, rel, dir}
use easyserver.Util.Filepath.Pieces.{split-join, split_all}
use easyserver.Util.Filepath.Names.{IsName, Names-Lacks, clean-spell, reverse_cons}
use easyserver.Util.Filepath.Parents.{dir-spell, dir_root, All-first}
use easyserver.Util.Path.{Refusal, spent, Answer, real, missing, failed, choose, climb_from}
use easyserver.Util.Path.Inside.{rel_text, rel-append, All-drop}
use easyserver.Util.Path.Joining.{follow, lead, join_paths-lead}

follow-name : (at : List Text) (p : Text) → IsName p → follow at p ≡ at ++ p ∷ []
follow-name at p h = rw (same-ne p [] h.0, same-ne p dot h.1, same-ne p dots h.2) refl

-- Names lead down one after the other.
pub lead-names : (at ps : List Text) → All IsName ps → lead at ps ≡ at ++ ps
unfolding lead
lead-names at [] h = rw append-nil
lead-names at (p ∷ ps) (h, hs) =
    rw (follow-name at p h, lead-names (at ++ p ∷ []) ps hs, append_assoc) refl

pub lead-rel :
    (at rest : List Text) → All IsName rest → lead at (split_all (rel_text rest ∷ [])) ≡ at ++ rest
lead-rel at [] h = unfold lead split same in rw append-nil
lead-rel at (r ∷ rs) h =
    rw (append-nil, split-join r rs (Names-Lacks (r ∷ rs) h)) (lead-names at (r ∷ rs) h)

-- The parent of the path that `p ∷ st` spells, the last name at the head.
names_snoc :
    (p : Text) (st : List Text) → All IsName (reverse (p ∷ st)) → All IsName (reverse st ++ p ∷ [])
names_snoc p st h = subst (All IsName) (reverse_cons p st) h

dir-reverse :
    (p : Text) (st : List Text)
    → All IsName (reverse (p ∷ st))
    → dir (spell true (reverse (p ∷ st))) ≡ spell true (reverse st)
dir-reverse p st h =
    ap (λ us. dir (spell true us)) (reverse_cons p st)
    ∙ dir-spell (reverse st) p (names_snoc p st h)

choose-missing :
    (sub : Option Text) (is_top : Bool) (path : Text) (further : Refusal ⊎ Text)
    → further ≡ inr path
    → choose missing sub is_top path further ≡ inr path
unfolding choose
choose-missing sub true path further h = refl
choose-missing sub false path further h = h

choose-real :
    (resolved sub : Text) (is_top : Bool) (path : Text) (further : Refusal ⊎ Text)
    → choose (real resolved) (some sub) is_top path further ≡ inr (join_paths (resolved ∷ sub ∷ []))
unfolding choose
choose-real resolved sub is_top path further = refl

module _ (eval : Text → Answer) where
  climb_round :
      (fuel : ℕ) (path check : Text)
      → climb_from eval (suc fuel) path check
        ≡ choose
            (eval check)
            (rel check path)
            (dir check == check)
            (clean path)
            (climb_from eval fuel path (dir check))
  unfolding climb_from
  climb_round fuel path check = refl

  choose-not_spent :
      (a : Answer) (sub : Option Text) (is_top : Bool) (path : Text) (further : Refusal ⊎ Text)
      → (is_top ≡ true) ⊎ (further ≢ inl spent)
      → choose a sub is_top path further ≢ inl spent
  unfolding choose
  choose-not_spent (real r) none is_top path further h = cc
  choose-not_spent (real r) (some sub) is_top path further h = cc
  choose-not_spent failed sub is_top path further h = cc
  choose-not_spent missing sub true path further h = cc
  choose-not_spent missing sub false path further (inl h) = absurd (false≢true h)
  choose-not_spent missing sub false path further (inr h) = h

  -- The round at a path that is spelled by the names of `st`, the last of them at the head.
  pub climb-not_spent :
      (st : List Text) (fuel : ℕ) (path : Text)
      → All IsName (reverse st)
      → length st < fuel
      → climb_from eval fuel path (spell true (reverse st)) ≢ inl spent
  climb-not_spent st zero path h few = absurd (omega (arith, few))
  climb-not_spent [] (suc fuel) path h few =
      rw (climb_round fuel path (spell true []), dir_root)
        (choose-not_spent _ _ _ _ _ (inl (same_refl (spell true []))))
  climb-not_spent (p ∷ st) (suc fuel) path h few =
      rw (climb_round fuel path (spell true (reverse (p ∷ st)))) (
        choose-not_spent _ _ _ _ _ (
          inr (
            rw (dir-reverse p st h) (
              climb-not_spent st fuel path (All-first (reverse st) (p ∷ []) (names_snoc p st h))
                (omega (arith, few))))))

  -- A tree in which nothing is a symlink: a clean absolute path that is there is where it seems to
  -- be, and any other is not there, rather than below a file or out of reach.
  abbrev pub IsPlain : Type 0
  IsPlain =
      (qs : List Text)
      → All IsName qs
      → (eval (spell true qs) ≡ real (spell true qs)) ⊎ (eval (spell true qs) ≡ missing)

  -- A path that is there, under names that are: the loop puts them behind it.
  climb-real :
      (qs rest : List Text) (fuel : ℕ)
      → eval (spell true qs) ≡ real (spell true qs)
      → All IsName (qs ++ rest)
      → climb_from eval (suc fuel) (spell true (qs ++ rest)) (spell true qs)
        ≡ inr (spell true (qs ++ rest))
  climb-real qs rest fuel e h =
      climb_round fuel (spell true (qs ++ rest)) (spell true qs)
      ∙ rw (e, rel-append qs rest (All-first qs rest h) (All-drop qs rest h))
          (choose-real _ _ _ _ _)
      ∙ ap inr (
          join_paths-lead qs (rel_text rest ∷ []) (All-first qs rest h)
          ∙ ap (spell true) (lead-rel qs rest (All-drop qs rest h)))

  shift : (p : Text) (st rest : List Text) → reverse (p ∷ st) ++ rest ≡ reverse st ++ p ∷ rest
  shift p st rest =
      ap (λ us. us ++ rest) (reverse_cons p st) ∙ append_assoc (reverse st) (p ∷ []) rest

  climb-missing :
      (p : Text) (st rest : List Text) (fuel : ℕ)
      → eval (spell true (reverse (p ∷ st))) ≡ missing
      → All IsName (reverse (p ∷ st) ++ rest)
      → climb_from eval fuel (spell true (reverse st ++ p ∷ rest)) (spell true (reverse st))
        ≡ inr (spell true (reverse st ++ p ∷ rest))
      → climb_from eval
          (suc fuel)
          (spell true (reverse (p ∷ st) ++ rest))
          (spell true (reverse (p ∷ st)))
        ≡ inr (spell true (reverse (p ∷ st) ++ rest))
  climb-missing p st rest fuel e h further =
      climb_round fuel (spell true (reverse (p ∷ st) ++ rest)) (spell true (reverse (p ∷ st)))
      ∙ rw
          (
            e,
            clean-spell (reverse (p ∷ st) ++ rest) h,
            shift p st rest,
            dir-reverse p st (All-first (reverse (p ∷ st)) rest h),
          )
          (choose-missing _ _ (spell true (reverse st ++ p ∷ rest)) _ further)

  -- In a plain tree the loop gives the path back that it began with.
  pub climb-plain :
      (st rest : List Text) (fuel : ℕ)
      → IsPlain
      → All IsName (reverse st ++ rest)
      → length st < fuel
      → climb_from eval fuel (spell true (reverse st ++ rest)) (spell true (reverse st))
        ≡ inr (spell true (reverse st ++ rest))
  climb-plain st rest zero plain h few = absurd (omega (arith, few))
  climb-plain [] rest (suc fuel) plain h few = elim (plain [] tt) [
    | inl e ↦ climb-real [] rest fuel e h
    | inr e ↦
        climb_round fuel (spell true rest) (spell true [])
        ∙ rw (e, dir_root, same_refl (spell true []), clean-spell rest h) (unfold choose in refl)
  ]
  climb-plain (p ∷ st) rest (suc fuel) plain h few =
      elim (plain (reverse (p ∷ st)) (All-first (reverse (p ∷ st)) rest h)) [
        | inl e ↦ climb-real (reverse (p ∷ st)) rest fuel e h
        | inr e ↦ climb-missing p st rest fuel e h (
            climb-plain st (p ∷ rest) fuel plain (subst (All IsName) (shift p st rest) h)
              (omega (arith, few)))
      ]
