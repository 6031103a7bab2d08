-- ===== src/Database/Statements.antt =====
-- internal/domain/database/validation.go: the gate for free-form SQL. A text is the list of its
-- bytes. The regular expression for COPY ... PROGRAM is an argument.
pub mod Quoting
pub mod Escapes
pub mod Comments
mod Examples
use easyserver.Base.{
  ℕ, zero, suc, Bool, true, false, not, ◌&&◌, ◌||◌, Option, none, some, List, [], ◌∷◌, leb, ltb,
  if◌then◌else◌, nat_eq, string_eq, nat_test, length,
}

abbrev pub Text : Type 0
Text = List ℕ

abbrev pub is_space : ℕ → Bool
is_space c = nat_test c 32 || (leb 9 c && leb c 13)

-- The other white space of `unicode.IsSpace`, encoded in two bytes and in three.
abbrev pub is_space_of_two : ℕ → ℕ → Bool
is_space_of_two c d = nat_test c 194 && (nat_test d 133 || nat_test d 160)

abbrev pub is_space_of_three : ℕ → ℕ → ℕ → Bool
is_space_of_three c d e =
    nat_test c 225 && nat_test d 154 && nat_test e 128
    || nat_test c 226
      && nat_test d 128
      && ((leb 128 e && leb e 138) || nat_test e 168 || nat_test e 169 || nat_test e 175)
    || nat_test c 226 && nat_test d 129 && nat_test e 159
    || nat_test c 227 && nat_test d 128 && nat_test e 128

abbrev pub encoded_space : ℕ → Text → Option ℕ
encoded_space c [] = none
encoded_space c (d ∷ []) = if is_space_of_two c d then some 1 else none
encoded_space c (d ∷ e ∷ _) =
    if is_space_of_two c d then some 1 else if is_space_of_three c d e then some 2 else none

-- Where the text begins with white space, how many bytes of that follow the first.
abbrev pub space_behind : ℕ → Text → Option ℕ
space_behind c s = if is_space c then some 0 else if ltb c 128 then none else encoded_space c s

-- The cut set "; \t\r\n".
abbrev pub is_ending : ℕ → Bool
is_ending c = nat_test c 59 || nat_test c 32 || nat_test c 9 || nat_test c 13 || nat_test c 10

abbrev pub is_nil : Text → Bool
is_nil [] = true
is_nil (_ ∷ _) = false

unfoldable pub trim_right : (ℕ → Bool) → Text → Text
trim_right p [] = []
trim_right p (c ∷ s) = let rest = trim_right p s in if is_nil rest && p c then [] else c ∷ rest

-- Without the first `k` bytes and the white space behind them.
unfoldable pub trim_from : ℕ → Text → Text
trim_from k [] = []
trim_from zero (c ∷ s) = elim (space_behind c s) [ none ↦ c ∷ s | some k ↦ trim_from k s ]
trim_from (suc k) (c ∷ s) = trim_from k s

-- Up to where there is only white space left.
unfoldable pub trim_end : Text → Text
unfolding trim_from
trim_end [] = []
trim_end (c ∷ s) = let rest = trim_end s in if is_nil (trim_from 0 (c ∷ s)) then [] else c ∷ rest

-- `strings.TrimSpace`.
unfoldable pub trim_space : Text → Text
unfolding trim_from trim_end
trim_space s = trim_end (trim_from 0 s)

-- Where the loop of `countStatements` is: the byte before, the three flags, whether the next byte
-- is skipped (`i++`), and whether it has returned the error.
pub record Scan : Type 0 where
  pub prev : ℕ
  pub in_single : Bool
  pub in_double : Bool
  pub in_backtick : Bool
  pub skip : Bool
  pub refused : Bool

abbrev pub scan_start : Scan
scan_start = record {
  prev = 0;
  in_single = false;
  in_double = false;
  in_backtick = false;
  skip = false;
  refused = false;
}

abbrev pub starts_with_quote : Text → Bool
starts_with_quote [] = false
starts_with_quote (c ∷ _) = nat_test c 39

-- The cases of the switch, for a byte that is not skipped.
unfoldable pub scan_byte : Scan → ℕ → Text → Scan
scan_byte s c rest =
    if nat_test c 39 && not s.in_double && not s.in_backtick
    then (if s.in_single && starts_with_quote rest
        then record s { skip = true }
        else if s.in_single && nat_test s.prev 92
        then s
        else record s { in_single = not s.in_single })
    else if nat_test c 34 && not s.in_single && not s.in_backtick
    then record s { in_double = not s.in_double }
    else if nat_test c 96 && not s.in_single && not s.in_double
    then record s { in_backtick = not s.in_backtick }
    else if nat_test c 92 && (s.in_single || s.in_double)
    then record s { skip = true }
    else if nat_test c 59 && not s.in_single && not s.in_double && not s.in_backtick
    then record s { refused = true }
    else s

-- One round of the loop, or a byte that is passed over.
unfoldable pub scan_step : Scan → ℕ → Text → Scan
unfolding scan_byte
scan_step s c rest =
    if s.refused
    then s
    else if s.skip
    then record s { skip = false; prev = c }
    else record (scan_byte s c rest) { prev = c }

unfoldable pub scan : Scan → Text → Scan
scan s [] = s
scan s (c ∷ rest) = scan (scan_step s c rest) rest

-- Whether `countStatements` finds no more than one statement.
unfoldable pub count_statements : Text → Bool
unfolding scan trim_right
count_statements sql = not (scan scan_start (trim_right is_ending (trim_space sql))).refused

-- The text behind the first newline, and behind the first "*/".
unfoldable pub after_newline : Text → Option Text
after_newline [] = none
after_newline (c ∷ s) = if nat_test c 10 then some s else after_newline s

unfoldable pub after_close : Text → Option Text
after_close [] = none
after_close (c ∷ []) = none
after_close (c ∷ d ∷ s) = if nat_test c 42 && nat_test d 47 then some s else after_close (d ∷ s)

abbrev pub starts_with : ℕ → ℕ → Text → Bool
starts_with a b [] = false
starts_with a b (c ∷ []) = false
starts_with a b (c ∷ d ∷ _) = nat_test c a && nat_test d b

-- The loop of `stripLeadingComments`, on fuel; an empty text is where it returns "".
unfoldable pub strip_rounds : ℕ → Text → Text
unfolding trim_space after_newline after_close
strip_rounds zero sql = sql
strip_rounds (suc fuel) sql =
    let s = trim_space sql in
    if starts_with 45 45 s
    then elim (after_newline s) [ none ↦ [] | some rest ↦ strip_rounds fuel rest ]
    else if starts_with 47 42 s
    then elim (after_close s) [ none ↦ [] | some rest ↦ strip_rounds fuel rest ]
    else s

unfoldable pub strip_leading_comments : Text → Text
unfolding strip_rounds
strip_leading_comments sql = strip_rounds (suc (length sql)) sql
