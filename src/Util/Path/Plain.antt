-- ===== src/Util/Path/Plain.antt =====
-- `ResolveInSandbox` in a tree without symlinks is a function of the names alone.
use easyserver.Base.{
  suc, ◌≡◌, refl, sym, ap, ◌∙◌, inl, inr, Bool, true, false, not, ◌&&◌, List, [], ◌∷◌, ◌++◌,
  if◌then◌else◌, Bool-cases, nat_eq, string_eq, length, All,
}
use mathlib.Core.Bool.{false≢true}
use mathlib.Core.List.{append-nil, reverse}
use easyserver.Base.Bytes.{bytes_eq, same, same-eq, has_prefix, has_word}
use easyserver.Util.Filepath.{
  Text, slash, dot, dots, split, join, is_abs, walk, pieces, spell, clean, unrooted, rel,
}
use easyserver.Util.Filepath.Pieces.{split_all}
use easyserver.Util.Filepath.Absolute.{is_abs-clean}
use easyserver.Util.Filepath.Relative.{is_hidden, pieces-Shape}
use easyserver.Util.Filepath.Names.{IsName, pieces-Names, clean_abs, clean-spell, All-append}
use easyserver.Util.Path.{
  null_byte, escapes_base, Answer, null, leaves, within_base, settle, climb_from, resolve_below,
  resolve_in_sandbox,
}
use easyserver.Util.Path.Inside.{rel_text, rel-append, append-below, leaves-hidden, leaves-prefix}
use easyserver.Util.Path.Joining.{lead, within_base-stays}
use easyserver.Util.Path.Climb.{lead-rel, IsPlain}
use easyserver.Util.Path.Sandbox.{is_base, wanted-lead, climb_plain, resolve_in_sandbox_lem}

clean_rel : (user : Text) → is_abs user ≡ false → clean user ≡ rel_text (pieces user)
unfolding clean
clean_rel user h = rw h (spell_rel (walked user))
  where
    walked : Text → List Text
    walked s = reverse (walk false [] (split s))

    spell_rel : (ps : List Text) → spell false ps ≡ rel_text ps
    spell_rel [] = refl
    spell_rel (p ∷ ps) = refl

-- Cleaning shows whether the names of a path begin with two dots, when it is relative.
clean-hidden :
    (user : Text) → has_prefix (clean user) dots ≡ (not (is_abs user) && is_hidden (pieces user))
clean-hidden user = elim (Bool-cases (is_abs user)) [
  | inl e ↦ rw (clean_abs user e, e) (unfold has_prefix in refl)
  | inr e ↦
      rw (clean_rel user e, e)
        (sym (leaves-prefix (rel_text (pieces user))) ∙ leaves-hidden (pieces user))
]

lead-join : (at us : List Text) → All IsName us → lead at (split_all (join us ∷ [])) ≡ at ++ us
lead-join at [] h = unfold lead split same join in rw append-nil
lead-join at (u ∷ us) h = lead-rel at (u ∷ us) h

unrooted_rel : (s : Text) → is_abs s ≡ false → unrooted s ≡ s
unrooted_rel [] h = refl
unrooted_rel (c ∷ s) h = rw h refl

-- The names that the user asks for lead down from where one is.
unrooted-lead :
    (user : Text) (at : List Text)
    → All IsName (pieces user)
    → lead at (split_all (unrooted (clean user) ∷ [])) ≡ at ++ pieces user
unrooted-lead user at h = elim (Bool-cases (is_abs user)) [
  | inl e ↦ rw (clean_abs user e) (lead-join at (pieces user) h)
  | inr e ↦
      ap (λ s. lead at (split_all (s ∷ [])))
        (unrooted_rel (clean user) (is_abs-clean user ∙ e) ∙ clean_rel user e)
      ∙ lead-rel at (pieces user) h
]

base_is_root : (user : Text) → is_base user ≡ true → pieces user ≡ []
unfolding pieces split walk same
base_is_root user h = elim (Bool-cases (same user [])) [
  | inl e ↦ rw (same-eq user [] e) refl
  | inr e ↦ elim (Bool-cases (same user dot)) [
    | inl e' ↦ rw (same-eq user dot e') refl
    | inr e' ↦ rw (same-eq user (slash ∷ []) (rw (e, e') at h)) refl
  ]
]

and-right : (p q : Bool) → (p && q) ≡ true → q ≡ true
and-right true q h = h
and-right false q h = absurd (false≢true h)

down_only : (user : Text) → has_prefix (clean user) dots ≡ false → All IsName (pieces user)
down_only user h = elim (Bool-cases (is_abs user)) [
  | inl e ↦ pieces-Names user e
  | inr e ↦ elim (pieces-Shape user) [
    | inl names ↦ names
    | inr q ↦ absurd (false≢true (sym h ∙ clean-hidden user ∙ rw (e, q) refl))
  ]
]

module _ (eval : Text → Answer) where
  resolve_below_lem :
      (base path : Text)
      → resolve_below eval base path ≡ (
          if leaves (rel base path)
          then inl escapes_base
          else settle base (climb_from eval (suc (length path)) path path))
  unfolding resolve_below
  resolve_below_lem base path = refl

  settle-below :
      (base : Text) (us : List Text)
      → is_abs base ≡ true
      → All IsName (pieces base ++ us)
      → is_hidden us ≡ false
      → settle (clean base) (inr (spell true (pieces base ++ us)))
        ≡ inr (spell true (pieces base ++ us))
  settle-below base us hb h e =
      ap (within_base (clean base)) (clean-spell (pieces base ++ us) h)
      ∙ within_base-stays base (pieces base ++ us) hb h
      ∙ rw (append-below (pieces base) us, e) refl

  resolve_below-plain :
      (base : Text) (us : List Text)
      → IsPlain eval
      → is_abs base ≡ true
      → All IsName us
      → resolve_below eval (clean base) (spell true (pieces base ++ us))
        ≡ (if is_hidden us then inl escapes_base else inr (spell true (pieces base ++ us)))
  resolve_below-plain base us plain hb h =
      resolve_below_lem (clean base) (spell true (pieces base ++ us))
      ∙ rw (leaves_hidden, climb_plain eval (pieces base ++ us) plain names)
          (elim (Bool-cases (is_hidden us)) [
            | inl e ↦ rw e refl
            | inr e ↦ rw e (settle-below base us hb names e)
          ])
    where
      names : All IsName (pieces base ++ us)
      names = All-append IsName (pieces base) us (pieces-Names base hb) h

      leaves_hidden : leaves (rel (clean base) (spell true (pieces base ++ us))) ≡ is_hidden us
      leaves_hidden =
          ap (λ b. leaves (rel b (spell true (pieces base ++ us)))) (clean_abs base hb)
          ∙ ap leaves (rel-append (pieces base) us (pieces-Names base hb) h)
          ∙ leaves-hidden us

  pub resolve_in_sandbox_plain :
      (base user : Text)
      → IsPlain eval
      → is_abs base ≡ true
      → resolve_in_sandbox eval base user ≡ (
          if has_word user null
          then inl null_byte
          else if is_hidden (pieces user)
          then inl escapes_base
          else inr (spell true (pieces base ++ pieces user)))
  resolve_in_sandbox_plain base user plain hb =
      resolve_in_sandbox_lem eval base user ∙ elim (Bool-cases (has_word user null)) [
        | inl e ↦ rw e refl
        | inr e ↦ elim (Bool-cases (is_base user)) [
          | inl e' ↦ rw (e, e', base_is_root user e', append-nil) (ap inr (clean_abs base hb))
          | inr e' ↦ elim (Bool-cases (has_prefix (clean user) dots)) [
            | inl e'' ↦
                rw
                  (
                    e,
                    e',
                    e'',
                    and-right (not (is_abs user)) (is_hidden (pieces user))
                        (sym (clean-hidden user) ∙ e''),
                  )
                  refl
            | inr e'' ↦
                rw
                  (
                    e,
                    e',
                    e'',
                    wanted-lead base user hb,
                    unrooted-lead user (pieces base) (down_only user e''),
                  )
                  (resolve_below-plain base (pieces user) plain hb (down_only user e''))
          ]
        ]
      ]
