-- ===== src/Database/Statements/Comments.antt =====
-- What is left when the comments at the head of a statement are stripped.
use easyserver.Base.{
  ℕ, zero, suc, ◌≤◌, ◌<◌, ◌≡◌, refl, inl, inr, false, some, [], ◌∷◌, arith, Bool-cases,
  Option-cases, nat_eq, string_eq, length,
}
use easyserver.Database.Statements.{
  Text, is_nil, space_behind, trim_from, trim_end, trim_space, after_newline, after_close,
  starts_with, strip_rounds, strip_leading_comments,
}

length-after_newline : (s t : Text) → after_newline s ≡ some t → length t < length s
unfolding after_newline
length-after_newline [] t h = absurd (cc)
length-after_newline (c ∷ s) t h = ground (arith, h, length-after_newline s t)

length-after_close : (s t : Text) → after_close s ≡ some t → length t < length s
unfolding after_close
length-after_close [] t h = absurd (cc)
length-after_close (c ∷ []) t h = absurd (cc)
length-after_close (c ∷ d ∷ s) t h = ground (arith, h, length-after_close (d ∷ s) t)

length-trim_from : (k : ℕ) (s : Text) → length (trim_from k s) ≤ length s
unfolding trim_from
length-trim_from k [] = omega arith
length-trim_from zero (c ∷ s) = elim (Option-cases (space_behind c s)) [
  | inl plain ↦ rw (plain, trim_from) (omega arith)
  | inr (k, space) ↦ rw (space, trim_from) (omega (arith, length-trim_from k s))
]
length-trim_from (suc k) (c ∷ s) = omega (arith, length-trim_from k s)

length-trim_end : (s : Text) → length (trim_end s) ≤ length s
unfolding trim_end
length-trim_end [] = omega arith
length-trim_end (c ∷ s) = elim (Bool-cases (is_nil (trim_from 0 (c ∷ s)))) [
  | inl over ↦ rw over (omega arith)
  | inr more ↦ rw more (omega (arith, length-trim_end s))
]

length-trim_space : (s : Text) → length (trim_space s) ≤ length s
unfolding trim_space
length-trim_space s = omega (arith, length-trim_from 0 s, length-trim_end (trim_from 0 s))

-- No comment at the head.
abbrev pub IsStripped : Text → Type 0
IsStripped s = (starts_with 45 45 s ≡ false) × (starts_with 47 42 s ≡ false)

strip_rounds-IsStripped :
    (fuel : ℕ) (sql : Text) → length sql < fuel → IsStripped (strip_rounds fuel sql)
unfolding strip_rounds
strip_rounds-IsStripped zero sql h = absurd (omega (arith, h))
strip_rounds-IsStripped (suc fuel) sql h =
    let s = trim_space sql in
    let shorter = length-trim_space sql in
    elim (Bool-cases (starts_with 45 45 s)) [
      | inl dashes ↦ elim (Option-cases (after_newline s)) [
        | inl e ↦ rw (dashes, e) (refl, refl)
        | inr (t, e) ↦
            rw (dashes, e)
              (strip_rounds-IsStripped fuel t
                (omega (arith, h, shorter, length-after_newline s t e)))
      ]
      | inr no' ↦ elim (Bool-cases (starts_with 47 42 s)) [
        | inl stars ↦ elim (Option-cases (after_close s)) [
          | inl e ↦ rw (no', stars, e) (refl, refl)
          | inr (t, e) ↦
              rw (no', stars, e)
                (strip_rounds-IsStripped fuel t
                  (omega (arith, h, shorter, length-after_close s t e)))
        ]
        | inr plain ↦ rw (no', plain) (no', plain)
      ]
    ]

-- The loop over the comments at the head of a statement ends, and leaves a text with no comment at
-- its head.
pub strip_leading_comments-IsStripped : (sql : Text) → IsStripped (strip_leading_comments sql)
unfolding strip_leading_comments
strip_leading_comments-IsStripped sql = strip_rounds-IsStripped (suc (length sql)) sql (omega arith)
