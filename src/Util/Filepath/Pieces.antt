-- ===== src/Util/Filepath/Pieces.antt =====
-- Cutting at slashes and joining again.
use easyserver.Base.{
  ℕ, ◌≡◌, refl, ◌≢◌, inl, inr, List, [], ◌∷◌, ◌++◌, arith, Bool-cases, nat_eq, string_eq, nat_test,
  All,
}
use mathlib.Core.List.{append-nil}
use easyserver.Base.Bytes.{bytes_eq, Lacks}
use easyserver.Util.Filepath.{Text, slash, push_byte, split, join}

pub split-slash : (s : Text) → split (slash ∷ s) ≡ [] ∷ split s
unfolding split
split-slash s = ground arith

push_byte-Lacks :
    (c : ℕ) (ps : List Text) → c ≢ slash → All (Lacks slash) ps → All (Lacks slash) (push_byte c ps)
push_byte-Lacks c [] h _ = ((h, tt), tt)
push_byte-Lacks c (p ∷ ps) h (hp, hps) = ((h, hp), hps)

pub split-Lacks : (s : Text) → All (Lacks slash) (split s)
unfolding split
split-Lacks [] = (tt, tt)
split-Lacks (c ∷ s) = elim (Bool-cases (nat_test c slash)) [
  | inl e ↦ rw e (tt, split-Lacks s)
  | inr e ↦ rw e (push_byte-Lacks c (split s) (ground arith) (split-Lacks s))
]

-- A piece in front of a slash is cut off.
pub split-piece : (p s : Text) → Lacks slash p → split (p ++ slash ∷ s) ≡ p ∷ split s
unfolding split
split-piece [] s h = ground arith
split-piece (c ∷ p) s (hc, h) = ground (arith, split-piece p s h)

pub split-last : (p : Text) → Lacks slash p → split p ≡ p ∷ []
unfolding split
split-last [] h = refl
split-last (c ∷ p) (hc, h) = ground (arith, split-last p h)

-- Pieces without a slash are given back by cutting what joins them.
pub split-join :
    (p : Text) (ps : List Text) → All (Lacks slash) (p ∷ ps) → split (join (p ∷ ps)) ≡ p ∷ ps
unfolding join
split-join p [] (h, _) = split-last p h
split-join p (q ∷ ps) (h, hs) = rw (split-piece p (join (q ∷ ps)) h, split-join q ps hs)

push_byte-append :
    (c : ℕ) (ps qs : List Text) → ps ≢ [] → push_byte c (ps ++ qs) ≡ push_byte c ps ++ qs
push_byte-append c [] qs h = absurd (h refl)
push_byte-append c (p ∷ ps) qs h = refl

push_byte-ne-nil : (c : ℕ) (ps : List Text) → push_byte c ps ≢ []
push_byte-ne-nil c [] = cc
push_byte-ne-nil c (p ∷ ps) = cc

pub split-ne-nil : (s : Text) → split s ≢ []
unfolding split
split-ne-nil [] = cc
split-ne-nil (c ∷ s) = ground (arith, push_byte-ne-nil c (split s))

pub split-append : (s t : Text) → split (s ++ slash ∷ t) ≡ split s ++ split t
unfolding split
split-append [] t = ground arith
split-append (c ∷ s) t =
    ground (arith, split-append s t, push_byte-append c (split s) (split t) (split-ne-nil s))

-- The pieces of several texts, one after the other.
abbrev pub split_all : List Text → List Text
split_all [] = []
split_all (s ∷ ss) = split s ++ split_all ss

pub split-join_all : (s : Text) (ss : List Text) → split (join (s ∷ ss)) ≡ split_all (s ∷ ss)
unfolding join
split-join_all s [] = rw append-nil
split-join_all s (t ∷ ss) = rw (split-append s (join (t ∷ ss)), split-join_all t ss)
