-- ===== src/Util/Path/Within.antt =====
-- What the guards of internal/util/path.go mean for the names of absolute paths.
use easyserver.Base.{
  ◌≡◌, refl, ap, ◌∙◌, ◌≢◌, inl, inr, Bool, true, false, not, ◌&&◌, ◌||◌, Option, none, some, List,
  [], ◌∷◌, ◌++◌, arith, if◌then◌else◌, Bool-cases, ◌==◌, nat_eq, string_eq, All,
}
use mathlib.Core.List.{append_assoc}
use easyserver.Base.Bytes.{
  bytes_eq, Lacks, same, same-ne, has_prefix, has_prefix-until, has_prefix-closed, has_prefix-nil,
}
use easyserver.Util.Filepath.{Text, slash, join, is_abs, pieces, spell, clean}
use easyserver.Util.Filepath.Absolute.{is_abs-clean}
use easyserver.Util.Filepath.Relative.{is_hidden}
use easyserver.Util.Filepath.Names.{IsName, Names-Lacks, pieces-Names, clean_abs}
use easyserver.Util.Path.{ends_with_slash, with_sep, has_path_prefix}

-- The names of a path below those of a directory, if it lies in there.
unfoldable pub below : List Text → List Text → Option (List Text)
below [] ts = some ts
below (b ∷ bs) [] = none
below (b ∷ bs) (t ∷ ts) = let rest = below bs ts in if b == t then rest else none

abbrev pub is_some {ℓ} : {A : Type ℓ} → Option A → Bool
is_some none = false
is_some (some _) = true

abbrev pub stays : Option (List Text) → Bool
stays none = false
stays (some rest) = not (is_hidden rest)

-- The pieces, each with a slash behind.
abbrev closed : List Text → Text
closed [] = []
closed (p ∷ ps) = p ++ slash ∷ closed ps

same_comm : (s t : Text) → same s t ≡ same t s
unfolding same
same_comm [] [] = refl
same_comm [] (d ∷ t) = refl
same_comm (c ∷ s) [] = refl
same_comm (c ∷ s) (d ∷ t) = ground (arith, same_comm s t)

join-closed : (p : Text) (ps : List Text) → join (p ∷ ps) ++ slash ∷ [] ≡ closed (p ∷ ps)
unfolding join
join-closed p [] = refl
join-closed p (q ∷ ps) = rw (append_assoc, join-closed q ps) refl

has_prefix_closed :
    (bs ts : List Text)
    → All (Lacks slash) bs
    → All (Lacks slash) ts
    → has_prefix (closed ts) (closed bs) ≡ is_some (below bs ts)
unfolding has_prefix below
has_prefix_closed [] ts h k = refl
has_prefix_closed (b ∷ bs) [] h k = has_prefix-nil b (closed bs) slash
has_prefix_closed (b ∷ bs) (t ∷ ts) (h, hs) (k, ks) =
    rw (has_prefix-until slash b t (closed bs) (closed ts) h k) (elim (Bool-cases (same b t)) [
      | inl e ↦ rw (same_comm t b, e) (has_prefix_closed bs ts hs ks)
      | inr e ↦ rw (same_comm t b, e) refl
    ])

ends_with_slash-append : (s t : Text) → t ≢ [] → ends_with_slash (s ++ t) ≡ ends_with_slash t
ends_with_slash-append [] t h = refl
ends_with_slash-append (c ∷ []) [] h = absurd (h refl)
ends_with_slash-append (c ∷ []) (d ∷ t) h = refl
ends_with_slash-append (c ∷ d ∷ s) t h = ends_with_slash-append (d ∷ s) t h

ends_with_slash-Lacks : (s : Text) → Lacks slash s → ends_with_slash s ≡ false
ends_with_slash-Lacks [] h = refl
ends_with_slash-Lacks (c ∷ []) (h, _) = ground (arith, h)
ends_with_slash-Lacks (c ∷ d ∷ s) (_, h) = ends_with_slash-Lacks (d ∷ s) h

pub join-ne-nil : (p : Text) (ps : List Text) → p ≢ [] → join (p ∷ ps) ≢ []
unfolding join
join-ne-nil [] ps h = absurd (h refl)
join-ne-nil (c ∷ p) [] h = cc
join-ne-nil (c ∷ p) (q ∷ ps) h = cc

ends_with_slash-join :
    (p : Text) (ps : List Text) → All IsName (p ∷ ps) → ends_with_slash (join (p ∷ ps)) ≡ false
unfolding join
ends_with_slash-join p [] (h, _) = ends_with_slash-Lacks p h.3
ends_with_slash-join p (q ∷ ps) (_, (h, hs)) =
    rw
      (
        ends_with_slash-append p (slash ∷ join (q ∷ ps)) (cc),
        ends_with_slash-append (slash ∷ []) (join (q ∷ ps)) (join-ne-nil q ps h.0),
      )
      (ends_with_slash-join q ps (h, hs))

with_sep-spell :
    (p : Text) (ps : List Text)
    → All IsName (p ∷ ps)
    → with_sep (slash ∷ join (p ∷ ps)) ≡ slash ∷ join (p ∷ ps) ++ slash ∷ []
with_sep-spell p ps (h, hs) =
    rw
      (
        ends_with_slash-append (slash ∷ []) (join (p ∷ ps)) (join-ne-nil p ps h.0),
        ends_with_slash-join p ps (h, hs),
      )
      refl

-- The test of `HasPathPrefix` on two clean absolute paths.
abbrev begins : Text → Text → Bool
begins t b = same t b || has_prefix t (with_sep b)

begins-closed :
    (b : Text) (bs : List Text) (t : Text)
    → All IsName (b ∷ bs)
    → begins t (slash ∷ join (b ∷ bs)) ≡ has_prefix (t ++ slash ∷ []) (slash ∷ closed (b ∷ bs))
begins-closed b bs t h =
    rw (with_sep-spell b bs h, has_prefix-closed slash (slash ∷ join (b ∷ bs)) t)
      (ap (λ u. has_prefix (t ++ slash ∷ []) (slash ∷ u)) (join-closed b bs))

begins-spell :
    (bs ts : List Text)
    → All IsName bs
    → All IsName ts
    → begins (spell true ts) (spell true bs) ≡ is_some (below bs ts)
unfolding below has_prefix join same
begins-spell [] ts h k = ground arith
begins-spell (b ∷ bs) [] h k =
    rw
      (
        begins-closed b bs (slash ∷ []) h,
        has_prefix-until slash b [] (closed bs) [] h.0.3 tt,
        same_comm [] b,
        same-ne b [] h.0.0,
      )
      refl
begins-spell (b ∷ bs) (t ∷ ts) h k =
    rw (begins-closed b bs (slash ∷ join (t ∷ ts)) h, join-closed t ts)
      (has_prefix_closed (b ∷ bs) (t ∷ ts) (Names-Lacks (b ∷ bs) h) (Names-Lacks (t ∷ ts) k))

by_first :
    (b u v : Text) → is_abs b ≡ false → (same b (slash ∷ u) || has_prefix b (slash ∷ v)) ≡ false
unfolding same has_prefix
by_first [] u v h = refl
by_first (c ∷ b) u v h = rw h refl

begins_slash : (b : Text) (ps : List Text) → is_abs b ≡ false → begins b (spell true ps) ≡ false
begins_slash b ps h = elim (Bool-cases (ends_with_slash (slash ∷ join ps))) [
  | inl e ↦ rw e (by_first b (join ps) (join ps) h)
  | inr e ↦ rw e (by_first b (join ps) (join ps ++ slash ∷ []) h)
]

pub has_path_prefix-begins : (t b : Text) → has_path_prefix t b ≡ begins (clean t) (clean b)
unfolding has_path_prefix
has_path_prefix-begins t b = refl

-- `HasPathPrefix` tells whether the names of the directory come first.
pub has_path_prefix-below :
    (t b : Text)
    → is_abs b ≡ true
    → has_path_prefix t b ≡ (is_abs t && is_some (below (pieces b) (pieces t)))
has_path_prefix-below t b hb = elim (Bool-cases (is_abs t)) [
  | inl ht ↦
      rw (has_path_prefix-begins, clean_abs t ht, clean_abs b hb, ht)
        (begins-spell (pieces b) (pieces t) (pieces-Names b hb) (pieces-Names t ht))
  | inr ht ↦
      rw (has_path_prefix-begins, clean_abs b hb, ht)
        (begins_slash (clean t) (pieces b) (is_abs-clean t ∙ ht))
]
