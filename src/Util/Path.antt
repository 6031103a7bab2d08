-- ===== src/Util/Path.antt =====
-- internal/util/path.go. `filepath.EvalSymlinks` is the argument `eval`.
pub mod Within
pub mod Sandbox
mod Examples
pub mod Inside
pub mod Joining
pub mod Climb
pub mod Plain
pub mod Names
use easyserver.Base.{
  Result-cases, ℕ, zero, suc, ◌+◌, ◌-◌, ◌*◌, ◌/◌, ◌%◌, ◌≤◌, ◌<◌, min, String, ◌≡◌, refl, sym, ap,
  ◌∙◌, subst, ◌≢◌, ◌↔◌, ◌⊎◌, inl, inr, Bool, true, false, not, ◌&&◌, ◌||◌, Option, none, some, List,
  [], ◌∷◌, ◌++◌, map, arith, ltb, leb, leb→le, if◌then◌else◌, Bool-cases, Option-cases, Eq, ◌==◌,
  nat_eq, string_eq, nat_test, nat_test_iff, ℤ, pos, negsuc, codes, length, take, drop, keep, All,
  length-append, length-drop, Result, ok, err, ◌>>=◌, Kind, AppError, new_sentinel, plain_error,
  bad_request, unauthorized, forbidden, not_found, conflict, rate_limit, internal,
}
use easyserver.Base.Bytes.{bytes_eq, has_prefix, has_word}
use easyserver.Util.Filepath.{
  Text, slash, dot, dots, split, join, is_abs, pieces, clean, join_paths, unrooted, rel, dir,
}

-- The errors; those of `errx.Forbidden` are `escapes_base`, `escapes_share` and `denied`. The last
-- one is not of the code: fuel has run out.
pub data Refusal : Type 0 where
  empty_name bad_name null_byte parent_reference escapes_base escapes_share : Refusal
  denied unresolved no_relative spent : Refusal

-- What `filepath.EvalSymlinks` answers: a path, an error of `os.IsNotExist`, another error.
pub data Answer : Type 0 where
  real : Text → Answer
  missing failed : Answer

abbrev pub null : Text
null = 0 ∷ []

unfoldable pub is_traversal : Text → Bool
unfolding has_word
is_traversal path = has_word path null || has_word path dots

-- `filepath.Base`, of a clean path that is not empty.
unfoldable pub last_word : List Text → Text
last_word [] = []
last_word (w ∷ []) = w
last_word (w ∷ v ∷ ws) = last_word (v ∷ ws)

abbrev pub base_name : Text → Text
base_name path = let w = last_word (split path) in if w == [] then slash ∷ [] else w

unfoldable pub validate_filename : Text → Option Refusal
unfolding has_word clean split last_word
validate_filename name =
    if name == []
    then some empty_name
    else if has_word name null
        || has_word name (slash ∷ [])
        || has_word name (92 ∷ [])
        || has_word name dots
    then some bad_name
    else (let c = clean name in
        if not (base_name c == c) || c == dot || c == dots then some bad_name else none)

abbrev pub ends_with_slash : Text → Bool
ends_with_slash [] = false
ends_with_slash (c ∷ []) = nat_test c slash
ends_with_slash (c ∷ d ∷ s) = ends_with_slash (d ∷ s)

abbrev pub with_sep : Text → Text
with_sep path = if ends_with_slash path then path else path ++ slash ∷ []

unfoldable pub has_path_prefix : Text → Text → Bool
unfolding clean has_prefix
has_path_prefix target base_dir =
    let t = clean target in let b = clean base_dir in t == b || has_prefix t (with_sep b)

abbrev pub leaves : Option Text → Bool
leaves none = true
leaves (some r) = has_prefix r dots || r == dots

-- `IsSubPath` of two clean paths.
unfoldable pub is_under : Text → Text → Bool
unfolding has_path_prefix rel has_prefix
is_under p c =
    if p == c then true else if not (has_path_prefix c p) then false else not (leaves (rel p c))

unfoldable pub is_sub_path : Text → Text → Bool
unfolding clean is_under
is_sub_path parent child = is_under (clean parent) (clean child)

-- The guard that `JoinSafe`, `ResolveInSandbox`, `ValidateRealPath` and `ResolveShareSubpath` share.
abbrev pub is_guarded : Text → Text → Bool
is_guarded base path = has_path_prefix path base && is_sub_path base path

abbrev pub within_base : Text → Text → Refusal ⊎ Text
within_base base path = if is_guarded base path then inr path else inl escapes_base

unfoldable pub has_null : List Text → Bool
unfolding has_word
has_null [] = false
has_null (sub ∷ subs) = has_word sub null || has_null subs

unfoldable pub join_safe : Text → List Text → Refusal ⊎ Text
unfolding has_null clean join_paths has_path_prefix is_sub_path
join_safe base_dir subs =
    if has_null subs
    then inl null_byte
    else within_base (clean base_dir) (join_paths (clean base_dir ∷ subs))

-- The last check, on what the symlinks lead to.
abbrev pub settle : Text → Refusal ⊎ Text → Refusal ⊎ Text
settle base (inl e) = inl e
settle base (inr path) = within_base base (clean path)

-- One round of the loop over the parents: what `eval` says of the path looked at, its `filepath.Rel`
-- to the whole path, whether it is its own parent, the whole path, and what the next rounds give.
unfoldable pub choose : Answer → Option Text → Bool → Text → Refusal ⊎ Text → Refusal ⊎ Text
unfolding join_paths
choose (real resolved) none is_top path further = inl no_relative
choose (real resolved) (some sub) is_top path further = inr (join_paths (resolved ∷ sub ∷ []))
choose missing sub is_top path further = if is_top then inr path else further
choose failed sub is_top path further = inl denied

-- The path under the share, before symlinks.
abbrev pub share_target : Text → Text → Text
share_target share_root subpath =
    let c = clean (join_paths ((slash ∷ []) ∷ subpath ∷ [])) in
    if c == slash ∷ [] || unrooted c == []
    then share_root
    else join_paths (share_root ∷ unrooted c ∷ [])

-- The answer, from what `eval` says of that path.
unfoldable pub share_answer : Text → Text → Text → Answer → Refusal ⊎ Text
unfolding clean has_path_prefix is_sub_path
share_answer base share target missing = inl unresolved
share_answer base share target failed = inl unresolved
share_answer base share target (real resolved) =
    if not (is_guarded (clean base) (clean resolved))
    then inl escapes_base
    else if not (is_guarded (clean share) (clean resolved))
    then inl escapes_share
    else inr target

module _ (eval : Text → Answer) where
  -- The loop over the parents, on fuel.
  unfoldable pub climb_from : ℕ → Text → Text → Refusal ⊎ Text
  unfolding rel dir clean choose
  climb_from zero abs_path check = inl spent
  climb_from (suc fuel) abs_path check =
      let further = climb_from fuel abs_path (dir check) in
      choose (eval check) (rel check abs_path) (dir check == check) (clean abs_path) further

  -- `ResolveInSandbox` from its `filepath.Rel` on.
  unfoldable pub resolve_below : Text → Text → Refusal ⊎ Text
  unfolding clean rel climb_from has_prefix has_path_prefix is_sub_path
  resolve_below base abs_path =
      if leaves (rel base abs_path)
      then inl escapes_base
      else settle base (climb_from (suc (length abs_path)) abs_path abs_path)

  unfoldable pub resolve_in_sandbox : Text → Text → Refusal ⊎ Text
  unfolding has_word clean has_prefix join_paths resolve_below
  resolve_in_sandbox base_path user_path =
      if has_word user_path null
      then inl null_byte
      else if user_path == [] || user_path == dot || user_path == slash ∷ []
      then inr (clean base_path)
      else if has_prefix (clean user_path) dots
      then inl escapes_base
      else resolve_below (clean base_path)
          (join_paths (clean base_path ∷ unrooted (clean user_path) ∷ []))

  unfoldable pub validate_real_path : Text → Text → Option Refusal
  unfolding has_word clean has_path_prefix is_sub_path
  validate_real_path base_path real_path =
      if has_word real_path null then some null_byte else elim (eval real_path) [
        | missing ↦ some unresolved
        | failed ↦ some unresolved
        | real resolved ↦
            if is_guarded (clean base_path) (clean resolved) then none else some escapes_base
      ]

  unfoldable pub resolve_share_subpath : Text → Text → Text → Refusal ⊎ Text
  unfolding is_traversal clean join_paths share_answer
  resolve_share_subpath base_path share_root subpath =
      if is_traversal subpath
      then inl parent_reference
      else (let target = share_target share_root subpath in
          share_answer base_path share_root target (eval target))
