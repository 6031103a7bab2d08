-- ===== src/Database/Gate/Accepted.antt =====
-- What a statement that the gate accepts cannot do.
use easyserver.Base.{
  ◌≡◌, refl, sym, ap, ◌∙◌, subst, ◌≢◌, ◌++◌, ◌||◌, ◌==◌, nat_test_iff, inl, inr, Bool, true, false,
  none, List, [], ◌∷◌, map, arith, Bool-cases, Option-cases, nat_eq, string_eq, codes, All,
}
use easyserver.Base.Bytes.{bytes_eq, has_prefix, has_word}
use mathlib.Core.Bool.{false≢true}
use easyserver.Database.Statements.{
  Text, is_nil, trim_space, count_statements, strip_leading_comments,
}
use easyserver.Database.Gate.{upper, lacks_where, validate_single_statement, validate_sql}

-- The words that no accepted statement has, in capital letters.
abbrev pub forbidden_words : List Text
forbidden_words =
    codes "SET PASSWORD"
    ∷ codes "IDENTIFIED BY"
    ∷ codes "IDENTIFIED WITH"
    ∷ codes "SLEEP("
    ∷ codes "BENCHMARK("
    ∷ codes "INTO OUTFILE"
    ∷ codes "INTO DUMPFILE"
    ∷ codes "INFORMATION_SCHEMA"
    ∷ codes "MYSQL."
    ∷ codes "PG_"
    ∷ codes "PGCATALOG"
    ∷ []

abbrev pub Lacks : Text → Text → Type 0
Lacks up word = has_word up word ≡ false

-- Of the statement behind its comments, `s`.
pub record IsSafe (copies : Text → Bool) (s : Text) : Type 0 where
  pub deletes_some : lacks_where (codes "DELETE") (map upper s) ≡ false
  pub updates_some : lacks_where (codes "UPDATE") (map upper s) ≡ false
  pub words : All (Lacks (map upper s)) forbidden_words
  pub no_program : copies (map upper s) ≡ false
  pub no_comment : (has_word s (codes "/*") ≡ false) × (has_word s (codes "*/") ≡ false)

single-IsSafe :
    (copies : Text → Bool) (s : Text) → validate_single_statement copies s ≡ none → IsSafe copies s
unfolding validate_single_statement
single-IsSafe copies s e = record {
  deletes_some = ground (arith, e);
  updates_some = ground (arith, e);
  words = ground (arith, e);
  no_program = ground (arith, e);
  no_comment = ground (arith, e);
}

-- A text that the gate accepts has passed each of its tests.
validate_sql-IsSafe :
    (copies : Text → Bool) (raw sql : Text)
    → validate_sql copies raw ≡ inr sql
    → (sql ≡ trim_space raw)
      × (count_statements sql ≡ true)
      × (is_nil (strip_leading_comments sql) ≡ false)
      × IsSafe copies (strip_leading_comments sql)
unfolding validate_sql
validate_sql-IsSafe copies raw sql e =
    let s = trim_space raw in
    let inner = strip_leading_comments s in
    elim (Bool-cases (is_nil s)) [
      | inl none' ↦ absurd (ground (arith, e, none'))
      | inr some' ↦ elim (Bool-cases (count_statements s)) [
        | inr many ↦ absurd (ground (arith, e, some', many))
        | inl one ↦ elim (Bool-cases (is_nil inner)) [
          | inl bare ↦ absurd (ground (arith, e, some', one, bare))
          | inr rest ↦ elim (Option-cases (validate_single_statement copies inner)) [
            | inr (why, r) ↦ absurd (ground (arith, e, some', one, rest, r))
            | inl safe ↦
                let same : s ≡ sql = ground (arith, e, some', one, rest, safe) in
                rw (← same) (refl, one, rest, single-IsSafe copies inner safe)
          ]
        ]
      ]
    ]

has_prefix-append : (w b : Text) → has_prefix (w ++ b) w ≡ true
unfolding has_prefix
has_prefix-append [] [] = refl
has_prefix-append [] (c ∷ b) = refl
has_prefix-append (c ∷ w) b = rw ((nat_test_iff c c).1 refl) (has_prefix-append w b)

has_word-prefix : (s word : Text) → has_prefix s word ≡ true → has_word s word ≡ true
unfolding has_word
has_word-prefix [] word h = h
has_word-prefix (c ∷ s) word h = rw h refl

or-right : (a b : Bool) → b ≡ true → (a || b) ≡ true
or-right true b h = refl
or-right false b h = h

-- A word that stands somewhere in a text is found there.
has_word-append : (a w b : Text) → has_word (a ++ w ++ b) w ≡ true
unfolding has_word
has_word-append [] w b = has_word-prefix (w ++ b) w (has_prefix-append w b)
has_word-append (c ∷ a) w b = or-right (has_prefix (c ∷ a ++ w ++ b) w) _ (has_word-append a w b)

map-upper : (a b : Text) → map upper (a ++ b) ≡ map upper a ++ map upper b
map-upper [] b = refl
map-upper (c ∷ a) b = ap (λ s. upper c ∷ s) (map-upper a b)

abbrev pub is_listed : Text → List Text → Bool
is_listed word [] = false
is_listed word (w ∷ words) = w == word || is_listed word words

listed :
    (up word : Text) (words : List Text)
    → All (Lacks up) words
    → is_listed word words ≡ true
    → Lacks up word
listed up word [] h k = absurd (ground (arith, k))
listed up word (w ∷ words) h k = elim (Bool-cases (w == word)) [
  | inl same ↦ subst (Lacks up) ((bytes_eq.test_iff w word).0 same) h.0
  | inr other ↦ listed up word words h.1 (rw other at k)
]

pub accepted_lacks :
    (copies : Text → Bool) (raw sql before word written behind : Text)
    → validate_sql copies raw ≡ inr sql
    → is_listed word forbidden_words ≡ true
    → map upper written ≡ word
    → strip_leading_comments sql ≢ before ++ written ++ behind
accepted_lacks copies raw sql before word written behind e listed' spelled here =
    let safe = (validate_sql-IsSafe copies raw sql e).3 in
    let up = map upper (strip_leading_comments sql) in
    let split : up ≡ map upper before ++ word ++ map upper behind =
      ap (map upper) here
      ∙ map-upper (before ++ written) behind
      ∙ ap (λ s. s ++ map upper behind) (map-upper before written)
      ∙ ap (λ w. map upper before ++ w ++ map upper behind) spelled in
    false≢true (
      sym (listed up word forbidden_words safe.words listed')
      ∙ ap (λ s. has_word s word) split
      ∙ has_word-append (map upper before) word (map upper behind))
