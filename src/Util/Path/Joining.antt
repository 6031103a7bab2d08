-- ===== src/Util/Path/Joining.antt =====
-- `JoinSafe` walks down a tree of names and answers when the walk ends below its base.
use easyserver.Base.{
  ◌≡◌, refl, ap, ◌∙◌, ◌⊎◌, inl, inr, true, ◌||◌, Option, none, some, List, [], ◌∷◌, ◌++◌,
  if◌then◌else◌, Bool-cases, ◌==◌, nat_eq, string_eq, All,
}
use mathlib.Core.List.{reverse, drop_last}
use easyserver.Base.Bytes.{bytes_eq, Lacks, same, same-ne}
use easyserver.Util.Filepath.{
  Text, slash, dot, dots, split, join, is_abs, enter, go_up, walk, pieces, spell, clean, drop_empty,
  join_paths,
}
use easyserver.Util.Filepath.Pieces.{split-join_all, split_all, split-Lacks}
use easyserver.Util.Filepath.Absolute.{is_abs-clean}
use easyserver.Util.Filepath.Names.{
  pieces-clean, walk-Names, IsName, pieces-Names, pieces-spell, clean_abs, reverse_cons,
  walk-append, All-append, enter-Names,
}
use easyserver.Util.Path.{Refusal, null_byte, escapes_base, has_null, within_base, join_safe}
use easyserver.Util.Path.Within.{below, stays}
use easyserver.Util.Path.Inside.{is_guarded-stays}

-- The specification: a walk in a tree whose nodes are lists of names, the root being the empty one.
abbrev pub follow : List Text → Text → List Text
follow at step =
    if step == [] || step == dot then at else if step == dots then drop_last at else at ++ step ∷ []

unfoldable pub lead : List Text → List Text → List Text
lead at [] = at
lead at (step ∷ steps) = lead (follow at step) steps

-- Where the steps lead from a directory, if that is below it and not behind a name like "..x".
unfoldable pub allowed : List Text → List Text → Option (List Text)
unfolding lead below
allowed base steps = if stays (below base (lead base steps)) then some (lead base steps) else none

abbrev pub answer : Option (List Text) → Refusal ⊎ Text
answer none = inl escapes_base
answer (some at) = inr (spell true at)

drop_last-append : (ps : List Text) (p : Text) → drop_last (ps ++ p ∷ []) ≡ ps
drop_last-append [] p = refl
drop_last-append (q ∷ []) p = refl
drop_last-append (q ∷ r ∷ ps) p = ap (λ us. q ∷ us) (drop_last-append (r ∷ ps) p)

follow-enter :
    (st : List Text) (step : Text)
    → All IsName st
    → reverse (enter true st step) ≡ follow (reverse st) step
follow-enter st step h = elim (Bool-cases (same step [])) [
  | inl e ↦ rw e refl
  | inr e ↦ elim (Bool-cases (same step dot)) [
    | inl e' ↦ rw (e, e') refl
    | inr e' ↦ elim (Bool-cases (same step dots)) [
      | inl e'' ↦ rw (e, e', e'') (up st h)
      | inr e'' ↦ rw (e, e', e'') (reverse_cons step st)
    ]
  ]
]
  where
    up : (st : List Text) → All IsName st → reverse (go_up true st) ≡ drop_last (reverse st)
    up [] _ = refl
    up (p ∷ st) (h, _) =
        rw (same-ne p dots h.2, reverse_cons p st, drop_last-append (reverse st) p) refl

lead-walk :
    (st steps : List Text)
    → All IsName st
    → All (Lacks slash) steps
    → reverse (walk true st steps) ≡ lead (reverse st) steps
unfolding walk lead
lead-walk st [] h _ = refl
lead-walk st (p ∷ ps) h (k, ks) =
    rw (← follow-enter st p h) (lead-walk (enter true st p) ps (enter-Names st p h k) ks)

split_all-Lacks : (ss : List Text) → All (Lacks slash) (split_all ss)
split_all-Lacks [] = tt
split_all-Lacks (s ∷ ss) =
    All-append (Lacks slash) (split s) (split_all ss) (split-Lacks s) (split_all-Lacks ss)

pieces-abs : (p : Text) → is_abs p ≡ true → pieces p ≡ reverse (walk true [] (split p))
unfolding pieces
pieces-abs p h = rw h refl

join-abs : (s : Text) (subs : List Text) → is_abs (join ((slash ∷ s) ∷ subs)) ≡ true
unfolding join
join-abs s [] = refl
join-abs s (t ∷ subs) = refl

-- The pieces of what is joined to a clean absolute path are where they lead.
pub pieces-join :
    (bs subs : List Text)
    → All IsName bs
    → pieces (join (spell true bs ∷ subs)) ≡ lead bs (split_all subs)
pieces-join bs subs h =
    rw
      (
        pieces-abs (join (spell true bs ∷ subs)) (join-abs (join bs) subs),
        split-join_all (spell true bs) subs,
        walk-append true [] (split (spell true bs)) (split_all subs),
        lead-walk (walk true [] (split (spell true bs))) (split_all subs)
            (walk-Names [] (split (spell true bs)) tt (split-Lacks (spell true bs)))
            (split_all-Lacks subs),
        ← pieces-abs (spell true bs) refl,
        pieces-spell bs h,
      )
      refl

pub join_paths-lead :
    (bs subs : List Text)
    → All IsName bs
    → join_paths (spell true bs ∷ subs) ≡ spell true (lead bs (split_all subs))
unfolding join_paths drop_empty same
join_paths-lead bs subs h =
    clean_abs (join (spell true bs ∷ subs)) (join-abs (join bs) subs)
    ∙ ap (spell true) (pieces-join bs subs h)

pub lead-Names : (bs subs : List Text) → All IsName bs → All IsName (lead bs (split_all subs))
lead-Names bs subs h =
    rw (← pieces-join bs subs h)
      (pieces-Names (join (spell true bs ∷ subs)) (join-abs (join bs) subs))

-- The guard under a clean base.
pub within_base-stays :
    (base : Text) (at : List Text)
    → is_abs base ≡ true
    → All IsName at
    → within_base (clean base) (spell true at)
      ≡ (if stays (below (pieces base) at) then inr (spell true at) else inl escapes_base)
within_base-stays base at hb h =
    rw
      (
        is_guarded-stays (clean base) (spell true at) (is_abs-clean base ∙ hb),
        pieces-clean base hb,
        pieces-spell at h,
      )
      refl

stays-answer :
    (bs at : List Text)
    → (if stays (below bs at) then inr (spell true at) else inl escapes_base)
      ≡ answer (if stays (below bs at) then some at else none)
stays-answer bs at = elim (Bool-cases (stays (below bs at))) [
  | inl e ↦ rw e refl
  | inr e ↦ rw e refl
]

pub within_base-allowed :
    (base : Text) (subs : List Text)
    → is_abs base ≡ true
    → within_base (clean base) (join_paths (spell true (pieces base) ∷ subs))
      ≡ answer (allowed (pieces base) (split_all subs))
unfolding allowed
within_base-allowed base subs hb =
    ap (within_base (clean base)) (join_paths-lead (pieces base) subs (pieces-Names base hb))
    ∙ within_base-stays base (lead (pieces base) (split_all subs)) hb
        (lead-Names (pieces base) subs (pieces-Names base hb))
    ∙ stays-answer (pieces base) (lead (pieces base) (split_all subs))

join_safe-verdict :
    (base : Text) (subs : List Text)
    → join_safe base subs ≡ (
        if has_null subs
        then inl null_byte
        else within_base (clean base) (join_paths (clean base ∷ subs)))
unfolding join_safe
join_safe-verdict base subs = refl

-- Under an absolute base, `JoinSafe` refuses a null byte; else it answers with the path that the
-- steps of all its arguments lead to in the tree of names, if that lies below the base and not
-- behind a name that begins with two dots, and refuses any other.
pub join_safe_refines :
    (base : Text) (subs : List Text)
    → is_abs base ≡ true
    → join_safe base subs
      ≡ (if has_null subs then inl null_byte else answer (allowed (pieces base) (split_all subs)))
join_safe_refines base subs hb =
    join_safe-verdict base subs
    ∙ ap (λ r. if has_null subs then inl null_byte else r)
        (ap (λ b. within_base (clean base) (join_paths (b ∷ subs))) (clean_abs base hb)
          ∙ within_base-allowed base subs hb)
