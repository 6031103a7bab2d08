-- ===== src/Util/Filepath.antt =====
-- The operations of Go's path/filepath that internal/util/path.go uses, on Unix: a path is the list
-- of its bytes. Each cuts a path at its slashes, as the library's documentation does.
pub mod Pieces
pub mod Names
pub mod Absolute
pub mod Parents
pub mod Relative
use easyserver.Base.{
  Result-cases, ℕ, zero, suc, ◌+◌, ◌-◌, ◌*◌, ◌/◌, ◌%◌, ◌≤◌, ◌<◌, min, String, ◌≡◌, refl, sym, ap,
  ◌∙◌, subst, ◌≢◌, ◌↔◌, ◌⊎◌, inl, inr, Bool, true, false, not, ◌&&◌, ◌||◌, Option, none, some, List,
  [], ◌∷◌, ◌++◌, map, arith, ltb, leb, leb→le, if◌then◌else◌, Bool-cases, Option-cases, Eq, ◌==◌,
  nat_eq, string_eq, nat_test, nat_test_iff, ℤ, pos, negsuc, codes, length, take, drop, keep, All,
  length-append, length-drop, Result, ok, err, ◌>>=◌, Kind, AppError, new_sentinel, plain_error,
  bad_request, unauthorized, forbidden, not_found, conflict, rate_limit, internal,
}
use mathlib.Core.List.{reverse}
use easyserver.Base.Bytes.{bytes_eq, has_prefix}

abbrev pub Text : Type 0
Text = List ℕ

abbrev pub slash : ℕ
slash = 47

abbrev pub dot : Text
dot = 46 ∷ []

abbrev pub dots : Text
dots = 46 ∷ 46 ∷ []

abbrev pub push_byte : ℕ → List Text → List Text
push_byte c [] = (c ∷ []) ∷ []
push_byte c (piece ∷ more) = (c ∷ piece) ∷ more

-- `strings.Split` at slashes: never empty.
unfoldable pub split : Text → List Text
split [] = [] ∷ []
split (c ∷ s) = let rest = split s in if nat_test c slash then [] ∷ rest else push_byte c rest

-- `strings.Join` with slashes.
unfoldable pub join : List Text → Text
join [] = []
join (piece ∷ []) = piece
join (piece ∷ next ∷ more) = piece ++ slash ∷ join (next ∷ more)

-- `filepath.IsAbs`.
abbrev pub is_abs : Text → Bool
is_abs [] = false
is_abs (c ∷ _) = nat_test c slash

-- What ".." does to the pieces kept so far, the last of them at the head.
abbrev pub go_up : Bool → List Text → List Text
go_up rooted [] = if rooted then [] else dots ∷ []
go_up rooted (top ∷ below) = if top == dots then dots ∷ top ∷ below else below

abbrev pub enter : Bool → List Text → Text → List Text
enter rooted stack piece =
    if piece == [] || piece == dot
    then stack
    else if piece == dots
    then go_up rooted stack
    else piece ∷ stack

unfoldable pub walk : Bool → List Text → List Text → List Text
walk rooted stack [] = stack
walk rooted stack (piece ∷ more) = walk rooted (enter rooted stack piece) more

-- The pieces of a clean path, from its first to its last.
unfoldable pub pieces : Text → List Text
unfolding split walk
pieces path = reverse (walk (is_abs path) [] (split path))

abbrev pub spell : Bool → List Text → Text
spell true ps = slash ∷ join ps
spell false [] = dot
spell false (p ∷ ps) = join (p ∷ ps)

-- `filepath.Clean`.
unfoldable pub clean : Text → Text
unfolding pieces join
clean path = spell (is_abs path) (pieces path)

unfoldable pub drop_empty : List Text → List Text
drop_empty [] = []
drop_empty (p ∷ ps) = if p == [] then drop_empty ps else p ∷ ps

-- `filepath.Join`: "" when there is nothing to join.
unfoldable pub join_paths : List Text → Text
unfolding drop_empty clean join
join_paths elems = elim (drop_empty elems) [ [] ↦ [] | p ∷ ps ↦ clean (join (p ∷ ps)) ]

-- The words of a clean path that `filepath.Rel` compares; those of "/" and "" are none.
abbrev pub words : Text → List Text
words [] = []
words (c ∷ s) = split (c ∷ s)

abbrev pub unrooted : Text → Text
unrooted [] = []
unrooted (c ∷ s) = if nat_test c slash then s else c ∷ s

-- Both lists of words behind the first ones that they have in common.
unfoldable pub part_ways : List Text → List Text → List Text × List Text
part_ways (b ∷ bs) (t ∷ ts) =
    let rest = part_ways bs ts in if b == t then rest else (b ∷ bs, t ∷ ts)
part_ways bs ts = (bs, ts)

abbrev pub climb : List Text → List Text → Option Text
climb [] down = some (join down)
climb (b ∷ up) down = if b == dots then none else some (join (map (λ _. dots) (b ∷ up) ++ down))

abbrev pub empty_dot : Text → Text
empty_dot path = if path == dot then [] else path

-- `filepath.Rel` of two clean paths.
unfoldable pub relate : Text → Text → Option Text
unfolding split part_ways join
relate b t =
    if b == t
    then some dot
    else if is_abs (empty_dot b) && is_abs t || not (is_abs (empty_dot b)) && not (is_abs t)
    then (let (up, down) = part_ways (words (unrooted (empty_dot b))) (words (unrooted t)) in
        climb up down)
    else none

-- `filepath.Rel`; `none` is its error.
unfoldable pub rel : Text → Text → Option Text
unfolding clean relate
rel base target = relate (clean base) (clean target)

-- `filepath.Dir`: the path up to its last slash, clean.
unfoldable pub up_to_slash : Text → Text
up_to_slash [] = []
up_to_slash (c ∷ s) =
    let rest = up_to_slash s in if nat_test c slash || not (rest == []) then c ∷ rest else []

unfoldable pub dir : Text → Text
unfolding up_to_slash clean
dir path = clean (up_to_slash path)
