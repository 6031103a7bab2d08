-- ===== src/Util/Path/Examples.antt =====
-- Concrete runs of the checks on paths.
use easyserver.Base.{
  ◌≡◌, refl, ap, ◌≢◌, inl, inr, true, false, none, some, [], ◌∷◌, ◌++◌, if◌then◌else◌, nat_eq,
  string_eq, codes,
}
use easyserver.Base.Bytes.{bytes_eq, same, has_prefix, has_word}
use easyserver.Util.Filepath.{
  Text, split, join, walk, pieces, spell, clean, drop_empty, join_paths, part_ways, relate, rel,
  up_to_slash, dir,
}
use easyserver.Util.Filepath.Pieces.{split_all}
use easyserver.Util.Filepath.Relative.{is_hidden}
use easyserver.Util.Filepath.Names.{clean-spell}
use easyserver.Util.Path.{
  null_byte, escapes_base, Answer, real, missing, null, has_null, join_safe, is_under, is_sub_path,
  has_path_prefix, validate_filename, resolve_in_sandbox, resolve_below, climb_from, choose,
  resolve_share_subpath, is_traversal, last_word, spent, share_answer,
}
use easyserver.Util.Path.Joining.{allowed, answer, join_safe_refines}
use easyserver.Util.Path.Climb.{IsPlain}
use easyserver.Util.Path.Sandbox.{IsInside, resolve_in_sandbox-IsInside, resolve_in_sandbox_ends}
use easyserver.Util.Path.Plain.{resolve_in_sandbox_plain}
use easyserver.Util.Path.Names.{resolve_share_subpath-IsInside}

-- Every path is there once it is clean, and nothing is a symlink.
abbrev as_is : Text → Answer
as_is path = real (clean path)

as_is-IsPlain : IsPlain as_is
as_is-IsPlain qs h = inl (ap real (clean-spell qs h))

abbrev srv : Text
srv = codes "/srv"

clean_up : clean (codes "/srv//a/./b/../c") ≡ codes "/srv/a/c"
unfolding clean pieces split walk join same
clean_up = refl

clean_relative : clean (codes "a/../../b") ≡ codes "../b"
unfolding clean pieces split walk join same
clean_relative = refl

rel_up : rel (codes "/a/b") (codes "/a/c/d") ≡ some (codes "../c/d")
unfolding rel relate clean pieces split walk join same part_ways
rel_up = refl

joined : join_safe srv (codes "a" ∷ codes "../b" ∷ []) ≡ inr (codes "/srv/b")
unfolding join_safe has_null has_word has_prefix join_paths drop_empty clean pieces split walk join
    same has_path_prefix is_sub_path is_under rel relate part_ways
joined = refl

join_safe_refines_example : join_safe srv (codes ".." ∷ codes "etc" ∷ []) ≡ (
    if has_null (codes ".." ∷ codes "etc" ∷ [])
    then inl null_byte
    else answer (allowed (pieces srv) (split_all (codes ".." ∷ codes "etc" ∷ []))))
join_safe_refines_example = join_safe_refines srv (codes ".." ∷ codes "etc" ∷ []) refl

found : resolve_in_sandbox as_is srv (codes "x") ≡ inr (codes "/srv/x")
unfolding resolve_in_sandbox resolve_below climb_from choose has_word has_prefix join_paths
    drop_empty clean pieces split walk join same has_path_prefix is_sub_path is_under rel relate
    part_ways dir up_to_slash
found = refl

resolve_in_sandbox-IsInside_example : IsInside srv (codes "/srv/x")
resolve_in_sandbox-IsInside_example =
    resolve_in_sandbox-IsInside as_is srv (codes "x") (codes "/srv/x") refl found

resolve_in_sandbox_ends_example : resolve_in_sandbox (λ _. missing) srv (codes "x") ≢ inl spent
resolve_in_sandbox_ends_example = resolve_in_sandbox_ends (λ _. missing) srv (codes "x") refl

resolve_in_sandbox_plain_example : resolve_in_sandbox as_is srv (codes "/..a") ≡ (
    if has_word (codes "/..a") null
    then inl null_byte
    else if is_hidden (pieces (codes "/..a"))
    then inl escapes_base
    else inr (spell true (pieces srv ++ pieces (codes "/..a"))))
resolve_in_sandbox_plain_example =
    resolve_in_sandbox_plain as_is srv (codes "/..a") as_is-IsPlain refl

valid_name : validate_filename (codes "x") ≡ none
unfolding validate_filename has_word has_prefix same clean pieces split walk join last_word
valid_name = refl

shared : resolve_share_subpath as_is srv (codes "/srv/s") (codes "x") ≡ inr (codes "/srv/s/x")
unfolding resolve_share_subpath share_answer is_traversal has_word has_prefix join_paths drop_empty
    clean pieces split walk join same has_path_prefix is_sub_path is_under rel relate part_ways
shared = refl

resolve_share_subpath-IsInside_example :
    (resolved : Text) × (real (codes "/srv/s/x") ≡ real resolved)
    × IsInside srv (clean resolved)
    × IsInside (codes "/srv/s") (clean resolved)
    × (is_traversal (codes "x") ≡ false)
unfolding clean same
resolve_share_subpath-IsInside_example =
    resolve_share_subpath-IsInside as_is srv (codes "/srv/s") (codes "x") (codes "/srv/s/x") refl
      refl shared
