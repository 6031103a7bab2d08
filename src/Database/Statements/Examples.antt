-- ===== src/Database/Statements/Examples.antt =====
-- Tests of the gate, and the theorems at short statements, in bytes.
use easyserver.Base.{◌≡◌, refl, true, false, not, [], ◌∷◌, nat_eq, string_eq}
use easyserver.Base.Members.{contains}
use easyserver.Database.Statements.{
  Text, trim_from, trim_end, trim_right, trim_space, scan_byte, scan_step, scan, count_statements,
  strip_rounds, strip_leading_comments, after_newline, after_close,
}
use easyserver.Database.Statements.Quoting.{
  outside, read, has_separator, body, count_statements-has_separator,
}
use easyserver.Database.Statements.Escapes.{escaped_backslash, count_statements-escaped_backslash}

program : Unit {0}
unfolding trim_from trim_end trim_right trim_space scan_byte scan_step scan count_statements
    strip_rounds strip_leading_comments after_newline after_close read has_separator
program = tt

-- a;b; and 'a;b';
abbrev two_statements : Text
two_statements = 97 ∷ 59 ∷ 98 ∷ 59 ∷ []

abbrev quoted_semicolon : Text
quoted_semicolon = 39 ∷ 97 ∷ 59 ∷ 98 ∷ 39 ∷ 59 ∷ []

two_refused : count_statements two_statements ≡ false
unfolding program
two_refused = refl

quoted_passes : count_statements quoted_semicolon ≡ true
unfolding program
quoted_passes = refl

stripped :
    strip_leading_comments (32 ∷ 45 ∷ 45 ∷ 120 ∷ 10 ∷ 47 ∷ 42 ∷ 42 ∷ 47 ∷ 97 ∷ 32 ∷ []) ≡ 97 ∷ []
unfolding program
stripped = refl

-- A no-break space, an "a", an ideographic space and a tab.
wide_trimmed : trim_space (194 ∷ 160 ∷ 97 ∷ 227 ∷ 128 ∷ 128 ∷ 9 ∷ []) ≡ 97 ∷ []
unfolding program
wide_trimmed = refl

-- A space within is kept, and so is "é" at the end.
inner_kept : trim_space (32 ∷ 97 ∷ 32 ∷ 195 ∷ 169 ∷ []) ≡ 97 ∷ 32 ∷ 195 ∷ 169 ∷ []
unfolding program
inner_kept = refl

no_backslash : contains 92 (body two_statements) ≡ false
unfolding program
no_backslash = refl

count_statements-has_separator_example :
    count_statements two_statements ≡ not (has_separator outside (body two_statements))
count_statements-has_separator_example = count_statements-has_separator two_statements no_backslash

count_statements-escaped_backslash_example :
    count_statements (escaped_backslash (59 ∷ 98 ∷ [])) ≡ true
count_statements-escaped_backslash_example = count_statements-escaped_backslash (59 ∷ 98 ∷ []) refl
