-- ===== src/Util/Path/Names.antt =====
-- Names of files that are accepted, and paths below a share.
use easyserver.Base.{
  ℕ, ◌≡◌, refl, sym, ap, ◌∙◌, subst, inl, inr, Bool, true, false, ◌&&◌, ◌||◌, Option, none, some,
  List, [], ◌∷◌, ◌++◌, arith, if◌then◌else◌, Bool-cases, nat_eq, string_eq, nat_test,
}
use mathlib.Core.Bool.{false≢true}
use mathlib.Core.List.{append-nil}
use easyserver.Base.Bytes.{bytes_eq, Lacks, same, ne-same, has_prefix, has_word}
use easyserver.Util.Filepath.{
  Text, slash, dot, dots, split, is_abs, walk, pieces, spell, clean, join,
}
use easyserver.Util.Filepath.Pieces.{split-last, split_all}
use easyserver.Util.Filepath.Names.{IsName}
use easyserver.Util.Path.{
  empty_name, bad_name, parent_reference, share_answer, Refusal, Answer, real, missing, failed,
  null, is_guarded, join_safe, has_null, validate_filename, resolve_share_subpath, share_target,
  is_traversal, last_word,
}
use easyserver.Util.Path.Inside.{append-below}
use easyserver.Util.Path.Joining.{allowed, join_safe_refines}
use easyserver.Util.Path.Climb.{lead-names}
use easyserver.Util.Path.Sandbox.{IsInside, guarded-IsInside, inl-ne, inr-eq}

or-none : (p q : Bool) → (p || q) ≡ false → (p ≡ false) × (q ≡ false)
or-none p q h = ground arith

-- A text without the one-byte text lacks the byte.
has_word-Lacks : (b : ℕ) (s : Text) → has_word s (b ∷ []) ≡ false → Lacks b s
unfolding has_word has_prefix
has_word-Lacks b [] h = tt
has_word-Lacks b (c ∷ s) h = (
  λ e.
      false≢true
        (sym (or-none (has_prefix (c ∷ s) (b ∷ [])) (has_word s (b ∷ [])) h).0 ∙ found c b s e),
  has_word-Lacks b s (or-none (has_prefix (c ∷ s) (b ∷ [])) (has_word s (b ∷ [])) h).1,
)
  where
    found : (c b : ℕ) (s : Text) → c ≡ b → (nat_test c b && true) ≡ true
    found c b s e = ground arith

tests_passed :
    (p q r s t : Bool) (c : Option Refusal)
    → (if p then some empty_name else if q || r || s || t then some bad_name else c) ≡ none
    → (p ≡ false) × (q ≡ false) × (r ≡ false) × (t ≡ false)
tests_passed p q r s t c h = ground arith

filename_tests :
    (name : Text)
    → validate_filename name ≡ none
    → (same name [] ≡ false)
      × (has_word name null ≡ false)
      × (has_word name (slash ∷ []) ≡ false)
      × (has_word name dots ≡ false)
unfolding validate_filename
filename_tests name h = tests_passed _ _ _ _ _ _ h

dot_refused : validate_filename dot ≡ some bad_name
unfolding validate_filename has_word has_prefix same clean pieces split walk join last_word
dot_refused = refl

dots_found : has_word dots dots ≡ true
unfolding has_word has_prefix
dots_found = refl

-- What `ValidateFilename` accepts is one step down, in which no two dots follow each other and no
-- null byte stands.
pub validate_filename-IsName :
    (name : Text)
    → validate_filename name ≡ none
    → IsName name × (has_word name dots ≡ false) × (has_word name null ≡ false)
validate_filename-IsName name h = (
  (
    ne-same name [] tests.0,
    λ e. some-ne (sym dot_refused ∙ subst (λ s. validate_filename s ≡ none) e h),
    λ e. false≢true (sym tests.3 ∙ rw e dots_found),
    has_word-Lacks slash name tests.2,
  ),
  tests.3,
  tests.1,
)
  where
    tests :
        (same name [] ≡ false)
        × (has_word name null ≡ false)
        × (has_word name (slash ∷ []) ≡ false)
        × (has_word name dots ≡ false)
    tests = filename_tests name h

    some-ne : {e : Refusal} → ◌≡◌ {A = Option Refusal} (some e) none → ⊥
    some-ne h = cc

hidden-word : (s : Text) → has_word s dots ≡ false → has_prefix s dots ≡ false
unfolding has_word
hidden-word [] h = h
hidden-word (c ∷ s) h = (or-none _ _ h).0

join_null : (name : Text) → has_word name null ≡ false → has_null (name ∷ []) ≡ false
unfolding has_null
join_null name h = rw h refl

allowed-name :
    (at : List Text) (name : Text)
    → IsName name
    → has_word name dots ≡ false
    → allowed at (split_all (name ∷ [])) ≡ some (at ++ name ∷ [])
unfolding allowed
allowed-name at name hn h =
    rw
      (
        append-nil,
        split-last name hn.3,
        lead-names at (name ∷ []) (hn, tt),
        append-below at (name ∷ []),
        hidden-word name h,
      )
      refl

-- A name that `ValidateFilename` accepts is joined to an absolute base by `JoinSafe` as its last
-- name: the two checks agree.
pub join_safe-validate_filename :
    (base name : Text)
    → is_abs base ≡ true
    → validate_filename name ≡ none
    → join_safe base (name ∷ []) ≡ inr (spell true (pieces base ++ name ∷ []))
join_safe-validate_filename base name hb h =
    join_safe_refines base (name ∷ []) hb
    ∙ rw
        (
          join_null name (validate_filename-IsName name h).2,
          allowed-name (pieces base) name (validate_filename-IsName name h).0
              (validate_filename-IsName name h).1,
        )
        refl

share_answer-inr :
    (base share target : Text) (a : Answer) (path : Text)
    → is_abs base ≡ true
    → is_abs share ≡ true
    → share_answer base share target a ≡ inr path
    → (resolved : Text) × (a ≡ real resolved)
      × (target ≡ path)
      × IsInside base (clean resolved)
      × IsInside share (clean resolved)
unfolding share_answer
share_answer-inr base share target missing path hb hs h = absurd (inl-ne h)
share_answer-inr base share target failed path hb hs h = absurd (inl-ne h)
share_answer-inr base share target (real r) path hb hs h =
    elim (Bool-cases (is_guarded (clean base) (clean r))) [
      | inr e ↦ absurd (inl-ne (rw (e) at h))
      | inl e ↦ elim (Bool-cases (is_guarded (clean share) (clean r))) [
        | inr e' ↦ absurd (inl-ne (rw (e, e') at h))
        | inl e' ↦ (
          r,
          refl,
          inr-eq (rw (e, e') at h),
          guarded-IsInside base (clean r) hb e,
          guarded-IsInside share (clean r) hs e',
        )
      ]
    ]

module _ (eval : Text → Answer) where
  resolve_share_subpath_lem :
      (base share subpath : Text)
      → resolve_share_subpath eval base share subpath ≡ (
          if is_traversal subpath
          then inl parent_reference
          else share_answer base share
              (share_target share subpath)
              (eval (share_target share subpath)))
  unfolding resolve_share_subpath
  resolve_share_subpath_lem base share subpath = refl

  -- What a share hands out under absolute roots leads, by `filepath.EvalSymlinks`, into the base
  -- directory and into the share, and is asked for without two dots in a row or a null byte.
  pub resolve_share_subpath-IsInside :
      (base share subpath path : Text)
      → is_abs base ≡ true
      → is_abs share ≡ true
      → resolve_share_subpath eval base share subpath ≡ inr path
      → (resolved : Text) × (eval path ≡ real resolved)
        × IsInside base (clean resolved)
        × IsInside share (clean resolved)
        × (is_traversal subpath ≡ false)
  resolve_share_subpath-IsInside base share subpath path hb hs h =
      elim (Bool-cases (is_traversal subpath)) [
        | inl e ↦ absurd (inl-ne (rw (resolve_share_subpath_lem base share subpath, e) at h))
        | inr e ↦
            let (r, answered, same_path, in_base, in_share) =
              share_answer-inr base share (share_target share subpath)
                (eval (share_target share subpath)) path hb hs
                (rw (resolve_share_subpath_lem base share subpath, e) at h) in
            (r, ap eval (sym same_path) ∙ answered, in_base, in_share, e)
      ]
