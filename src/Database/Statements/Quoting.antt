-- ===== src/Database/Statements/Quoting.antt =====
-- The scan for a second statement against the quoting rules of SQL without backslash escapes.
use easyserver.Base.{
  ℕ, ◌≡◌, refl, ap, ◌⊎◌, inl, inr, Bool, true, false, not, ◌&&◌, ◌||◌, [], ◌∷◌, arith,
  if◌then◌else◌, nat_eq, string_eq, nat_test,
}
use easyserver.Base.Members.{contains}
use easyserver.Database.Statements.{
  Text, is_ending, trim_right, trim_space, Scan, scan_start, starts_with_quote, scan_byte,
  scan_step, scan, count_statements,
}

-- A text is read outside of quotes, or inside of one of three kinds; the kind's own mark ends it,
-- so that a doubled mark ends it and begins it again.
pub data Quote : Type 0 where
  outside single double backtick : Quote

unfoldable pub read : Quote → ℕ → Quote
read outside c =
    if nat_test c 39
    then single
    else if nat_test c 34
    then double
    else if nat_test c 96
    then backtick
    else outside
read single c = if nat_test c 39 then outside else single
read double c = if nat_test c 34 then outside else double
read backtick c = if nat_test c 96 then outside else backtick

abbrev pub is_outside : Quote → Bool
is_outside outside = true
is_outside _ = false

-- A semicolon stands outside of quotes.
unfoldable pub has_separator : Quote → Text → Bool
has_separator q [] = false
has_separator q (c ∷ s) = (is_outside q && nat_test c 59) || has_separator (read q c) s

abbrev Flags : Quote → Scan → Type 0
Flags outside s = (s.in_single ≡ false) × (s.in_double ≡ false) × (s.in_backtick ≡ false)
Flags single s = (s.in_single ≡ true) × (s.in_double ≡ false) × (s.in_backtick ≡ false)
Flags double s = (s.in_single ≡ false) × (s.in_double ≡ true) × (s.in_backtick ≡ false)
Flags backtick s = (s.in_single ≡ false) × (s.in_double ≡ false) × (s.in_backtick ≡ true)

-- The scan and the reader are at the same place; the scan passes over a doubled quote at once.
abbrev Agrees : Scan → Quote → Text → Type 0
Agrees s q rest =
    (s.refused ≡ false)
    × (nat_test s.prev 92 ≡ false)
    × (((s.skip ≡ false) × Flags q s)
        ⊎ ((s.skip ≡ true) × (q ≡ outside) × (starts_with_quote rest ≡ true) × Flags single s))

step-Agrees :
    (s : Scan) (q : Quote) (c : ℕ) (rest : Text)
    → Agrees s q (c ∷ rest)
    → nat_test c 92 ≡ false
    → ((is_outside q && nat_test c 59 ≡ true) × ((scan_step s c rest).refused ≡ true))
      ⊎ ((is_outside q && nat_test c 59 ≡ false) × Agrees (scan_step s c rest) (read q c) rest)
unfolding scan_step scan_byte read
step-Agrees s q c rest a n = ground (arith, a, n)

scan-refused : (s : Scan) (t : Text) → s.refused ≡ true → (scan s t).refused ≡ true
unfolding scan scan_step
scan-refused s [] h = h
scan-refused s (c ∷ t) h = scan-refused (scan_step s c t) t (ground (arith, h))

scan-has_separator :
    (s : Scan) (q : Quote) (t : Text)
    → Agrees s q t
    → contains 92 t ≡ false
    → (scan s t).refused ≡ has_separator q t
unfolding scan has_separator
scan-has_separator s q [] a n = a.0
scan-has_separator s q (c ∷ t) a n = elim (step-Agrees s q c t a (ground (arith, n))) [
  | inl (sep, stop) ↦ ground (arith, sep, scan-refused (scan_step s c t) t stop)
  | inr (plain, next) ↦
      ground
        (arith, plain, scan-has_separator (scan_step s c t) (read q c) t next (ground (arith, n)))
]

-- The text that is scanned: without white space around it and without the semicolons at its end.
abbrev pub body : Text → Text
body sql = trim_right is_ending (trim_space sql)

-- A text without a backslash passes for one statement if and only if no semicolon stands outside of
-- its quotes, but for those at its end.
pub count_statements-has_separator :
    (sql : Text)
    → contains 92 (body sql) ≡ false
    → count_statements sql ≡ not (has_separator outside (body sql))
unfolding count_statements
count_statements-has_separator sql n = ap not (
    scan-has_separator scan_start outside (body sql) (refl, refl, inl (refl, (refl, refl, refl))) n)
