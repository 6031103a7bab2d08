-- ===== src/Util/Path/Sandbox.antt =====
-- `ResolveInSandbox`: it ends, stays under its base, and follows the tree of names.
use easyserver.Base.{
  suc, ◌≤◌, ◌≡◌, refl, sym, ap, ◌∙◌, subst, ◌≢◌, ◌⊎◌, inl, inr, Bool, true, ◌&&◌, ◌||◌, some, List,
  [], ◌∷◌, ◌++◌, arith, if◌then◌else◌, Bool-cases, ◌==◌, nat_eq, string_eq, length, All,
  length-append,
}
use mathlib.Core.List.{reverse, append-nil, reverse-reverse}
use easyserver.Base.Bytes.{bytes_eq, has_prefix, has_word}
use easyserver.Util.Filepath.{
  Text, slash, dot, dots, join, is_abs, pieces, spell, clean, unrooted, join_paths, rel,
}
use easyserver.Util.Filepath.Pieces.{split_all}
use easyserver.Util.Filepath.Absolute.{is_abs-clean}
use easyserver.Util.Filepath.Names.{IsName, pieces-Names, pieces-clean, clean_abs, reverse_cons}
use easyserver.Util.Path.{
  Refusal, null_byte, escapes_base, spent, Answer, null, leaves, is_guarded, within_base, settle,
  climb_from, resolve_below, resolve_in_sandbox,
}
use easyserver.Util.Path.Within.{below, stays}
use easyserver.Util.Path.Inside.{append-below, is_guarded-stays}
use easyserver.Util.Path.Joining.{lead, lead-Names, join_paths-lead}
use easyserver.Util.Path.Climb.{climb-not_spent, IsPlain, climb-plain}

-- The path lies in the directory: it is absolute, its names begin with those of the directory, and
-- the next one does not begin with two dots.
abbrev pub IsInside : Text → Text → Type 0
IsInside base path = (is_abs path && stays (below (pieces base) (pieces path))) ≡ true

length-reverse {ℓ} : {A : Type ℓ} (xs : List A) → length (reverse xs) ≡ length xs
length-reverse [] = refl
length-reverse (x ∷ xs) =
    rw (reverse_cons x xs) (omega (arith, length-append (reverse xs) (x ∷ []), length-reverse xs))

length-join : (ps : List Text) → All IsName ps → length ps ≤ suc (length (join ps))
unfolding join
length-join [] h = omega arith
length-join ([] ∷ ps) (h, _) = absurd (h.0 refl)
length-join ((c ∷ p) ∷ []) h = omega arith
length-join ((c ∷ p) ∷ q ∷ ps) (_, h) =
    omega (arith, length-join (q ∷ ps) h, length-append p (slash ∷ join (q ∷ ps)))

pub guarded-IsInside :
    (base path : Text)
    → is_abs base ≡ true
    → is_guarded (clean base) path ≡ true
    → IsInside base path
guarded-IsInside base path hb h =
    subst (λ ps. (is_abs path && stays (below ps (pieces path))) ≡ true) (pieces-clean base hb)
      (sym (is_guarded-stays (clean base) path (is_abs-clean base ∙ hb)) ∙ h)

pub inr-eq : {p q : Text} → ◌≡◌ {A = Refusal ⊎ Text} (inr p) (inr q) → p ≡ q
inr-eq h = cc

pub inl-ne : {e : Refusal} {q : Text} → ◌≡◌ {A = Refusal ⊎ Text} (inl e) (inr q) → ⊥
inl-ne h = cc

within_base-IsInside :
    (base c path : Text)
    → is_abs base ≡ true
    → within_base (clean base) c ≡ inr path
    → IsInside base path
within_base-IsInside base c path hb h = elim (Bool-cases (is_guarded (clean base) c)) [
  | inl e ↦ subst (IsInside base) (inr-eq (rw (e) at h)) (guarded-IsInside base c hb e)
  | inr e ↦ absurd (inl-ne (rw (e) at h))
]

below_self : (bs : List Text) → below bs bs ≡ some []
below_self bs = ap (λ us. below bs us) (sym (append-nil bs)) ∙ append-below bs []

clean-IsInside : (base : Text) → is_abs base ≡ true → IsInside base (clean base)
clean-IsInside base hb =
    rw (is_abs-clean base, hb, pieces-clean base hb, below_self (pieces base)) refl

settle-IsInside :
    (base path : Text) (r : Refusal ⊎ Text)
    → is_abs base ≡ true
    → settle (clean base) r ≡ inr path
    → IsInside base path
settle-IsInside base path (inl e) hb h = cc
settle-IsInside base path (inr p) hb h = within_base-IsInside base (clean p) path hb h

settle-not_spent : (base : Text) (r : Refusal ⊎ Text) → r ≢ inl spent → settle base r ≢ inl spent
settle-not_spent base (inl e) h = h
settle-not_spent base (inr path) h = elim (Bool-cases (is_guarded base (clean path))) [
  | inl e ↦ rw e (cc)
  | inr e ↦ rw e (cc)
]

-- The three tests of `ResolveInSandbox` on what the user asks for.
abbrev pub is_base : Text → Bool
is_base path = path == [] || path == dot || path == slash ∷ []

-- The path that is looked for.
abbrev pub wanted : Text → Text → Text
wanted base user = join_paths (clean base ∷ unrooted (clean user) ∷ [])

pub wanted-lead :
    (base user : Text)
    → is_abs base ≡ true
    → wanted base user ≡ spell true (lead (pieces base) (split_all (unrooted (clean user) ∷ [])))
wanted-lead base user hb =
    ap (λ b. join_paths (b ∷ unrooted (clean user) ∷ [])) (clean_abs base hb)
    ∙ join_paths-lead (pieces base) (unrooted (clean user) ∷ []) (pieces-Names base hb)

module _ (eval : Text → Answer) where
  -- The loop from a path that names spell.
  climb_enough :
      (at : List Text)
      → All IsName at
      → climb_from eval (suc (length (spell true at))) (spell true at) (spell true at) ≢ inl spent
  climb_enough at h =
      subst
        (λ ps.
          climb_from eval (suc (length (spell true at))) (spell true at) (spell true ps)
          ≢ inl spent)
        (reverse-reverse at)
        (climb-not_spent eval (reverse at) (suc (length (spell true at))) (spell true at)
          (rw (reverse-reverse at) h) (omega (arith, length-reverse at, length-join at h)))

  pub climb_plain :
      (at : List Text)
      → IsPlain eval
      → All IsName at
      → climb_from eval (suc (length (spell true at))) (spell true at) (spell true at)
        ≡ inr (spell true at)
  climb_plain at plain h =
      subst
        (λ ps.
          climb_from eval (suc (length (spell true at))) (spell true ps) (spell true at)
          ≡ inr (spell true ps))
        (append-nil at)
        (subst
          (λ ps.
            climb_from eval (suc (length (spell true at))) (spell true (ps ++ [])) (spell true ps)
            ≡ inr (spell true (ps ++ [])))
          (reverse-reverse at)
          (climb-plain eval (reverse at) [] (suc (length (spell true at))) plain
            (rw (append-nil, reverse-reverse at) h)
            (omega (arith, length-reverse at, length-join at h))))

  -- `ResolveInSandbox` from its `filepath.Rel` on, for a path that names spell.
  resolve_below-not_spent :
      (base : Text) (at : List Text)
      → All IsName at
      → resolve_below eval base (spell true at) ≢ inl spent
  unfolding resolve_below
  resolve_below-not_spent base at h = elim (Bool-cases (leaves (rel base (spell true at)))) [
    | inl e ↦ rw e (cc)
    | inr e ↦ rw e (settle-not_spent base _ (climb_enough at h))
  ]

  resolve_below-IsInside :
      (base abs_path path : Text)
      → is_abs base ≡ true
      → resolve_below eval (clean base) abs_path ≡ inr path
      → IsInside base path
  unfolding resolve_below
  resolve_below-IsInside base abs_path path hb h =
      elim (Bool-cases (leaves (rel (clean base) abs_path))) [
        | inl e ↦ absurd (inl-ne (rw (e) at h))
        | inr e ↦ settle-IsInside base path _ hb (rw (e) at h)
      ]

  pub resolve_in_sandbox_lem :
      (base user : Text)
      → resolve_in_sandbox eval base user ≡ (
          if has_word user null
          then inl null_byte
          else if is_base user
          then inr (clean base)
          else if has_prefix (clean user) dots
          then inl escapes_base
          else resolve_below eval (clean base) (wanted base user))
  unfolding resolve_in_sandbox
  resolve_in_sandbox_lem base user = refl

  -- Under an absolute base the loop over the parents ends, whatever `filepath.EvalSymlinks` says.
  pub resolve_in_sandbox_ends :
      (base user : Text) → is_abs base ≡ true → resolve_in_sandbox eval base user ≢ inl spent
  resolve_in_sandbox_ends base user hb =
      rw (resolve_in_sandbox_lem base user, wanted-lead base user hb)
        (elim (Bool-cases (has_word user null)) [
          | inl e ↦ rw e (cc)
          | inr e ↦ elim (Bool-cases (is_base user)) [
            | inl e' ↦ rw (e, e') (cc)
            | inr e' ↦ elim (Bool-cases (has_prefix (clean user) dots)) [
              | inl e'' ↦ rw (e, e', e'') (cc)
              | inr e'' ↦
                  rw (e, e', e'')
                    (resolve_below-not_spent (clean base) _ (
                      lead-Names (pieces base) (unrooted (clean user) ∷ []) (pieces-Names base hb)))
            ]
          ]
        ])

  -- Whatever `filepath.EvalSymlinks` says, a path that `ResolveInSandbox` answers under an absolute
  -- base lies in the base: it is absolute, its names begin with those of the base, and the next
  -- one, if any, does not begin with two dots.
  pub resolve_in_sandbox-IsInside :
      (base user path : Text)
      → is_abs base ≡ true
      → resolve_in_sandbox eval base user ≡ inr path
      → IsInside base path
  resolve_in_sandbox-IsInside base user path hb h = elim (Bool-cases (has_word user null)) [
    | inl e ↦ absurd (inl-ne (rw (resolve_in_sandbox_lem base user, e) at h))
    | inr e ↦ elim (Bool-cases (is_base user)) [
      | inl e' ↦
          subst (IsInside base) (inr-eq (rw (resolve_in_sandbox_lem base user, e, e') at h))
            (clean-IsInside base hb)
      | inr e' ↦ elim (Bool-cases (has_prefix (clean user) dots)) [
        | inl e'' ↦ absurd (inl-ne (rw (resolve_in_sandbox_lem base user, e, e', e'') at h))
        | inr e'' ↦
            resolve_below-IsInside base (wanted base user) path hb
              (rw (resolve_in_sandbox_lem base user, e, e', e'') at h)
      ]
    ]
  ]
