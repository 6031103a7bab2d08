-- ===== src/Database/Statements/Escapes.antt =====
-- What the scan for a second statement makes of an escaped backslash.
use easyserver.Base.{
  ℕ, ◌≡◌, refl, inl, inr, none, ap, ◌∙◌, Bool, Bool-cases, true, false, not, [], ◌∷◌, arith, nat_eq,
  string_eq,
}
use easyserver.Base.Members.{contains}
use easyserver.Database.Statements.{
  Text, is_nil, is_ending, space_behind, trim_right, trim_from, trim_end, trim_space, Scan,
  scan_start, scan_byte, scan_step, scan, count_statements,
}

stays_single :
    (s : Scan) (t : Text)
    → (s.in_single ≡ true) × (s.in_double ≡ false) × (s.in_backtick ≡ false) × (s.refused ≡ false)
    → contains 39 t ≡ false
    → (scan s t).refused ≡ false
unfolding scan scan_step scan_byte
stays_single s [] h n = h.3
stays_single s (c ∷ t) h n =
    stays_single (scan_step s c t) t (ground (arith, h, n)) (ground (arith, n))

trim_right-keep :
    (p : ℕ → Bool) (c : ℕ) (s : Text) → p c ≡ false → trim_right p (c ∷ s) ≡ c ∷ trim_right p s
unfolding trim_right
trim_right-keep p c s h = ground (arith, h)

contains-trim_right :
    (p : ℕ → Bool) (x : ℕ) (s : Text) → contains x s ≡ false → contains x (trim_right p s) ≡ false
unfolding trim_right
contains-trim_right p x [] h = refl
contains-trim_right p x (c ∷ s) h = ground (arith, h, contains-trim_right p x s)

trim_end-keep : (c : ℕ) (s : Text) → space_behind c s ≡ none → trim_end (c ∷ s) ≡ c ∷ trim_end s
unfolding trim_end trim_from
trim_end-keep c s plain = rw (trim_end, trim_from, plain) refl

contains-trim_end : (x : ℕ) (s : Text) → contains x s ≡ false → contains x (trim_end s) ≡ false
unfolding trim_end
contains-trim_end x [] h = refl
contains-trim_end x (c ∷ s) h = elim (Bool-cases (is_nil (trim_from 0 (c ∷ s)))) [
  | inl over ↦ rw over refl
  | inr more ↦ rw more (ground (arith, h, contains-trim_end x s))
]

-- '\\' and a text behind it.
abbrev pub escaped_backslash : Text → Text
escaped_backslash t = 39 ∷ 92 ∷ 92 ∷ 39 ∷ t

trim-escaped_backslash :
    (p : ℕ → Bool) (t : Text)
    → (p 39 ≡ false) × (p 92 ≡ false)
    → trim_right p (escaped_backslash t) ≡ escaped_backslash (trim_right p t)
trim-escaped_backslash p t h =
    let last = trim_right-keep p 39 t h.0 in
    let third = trim_right-keep p 92 (39 ∷ t) h.1 in
    let second = trim_right-keep p 92 (92 ∷ 39 ∷ t) h.1 in
    let first = trim_right-keep p 39 (92 ∷ 92 ∷ 39 ∷ t) h.0 in rw (first, second, third, last) refl

trim_space-escaped_backslash :
    (t : Text) → trim_space (escaped_backslash t) ≡ escaped_backslash (trim_end t)
unfolding trim_space trim_from
trim_space-escaped_backslash t =
    let last = trim_end-keep 39 t refl in
    let third = trim_end-keep 92 (39 ∷ t) refl in
    let second = trim_end-keep 92 (92 ∷ 39 ∷ t) refl in
    let first = trim_end-keep 39 (92 ∷ 92 ∷ 39 ∷ t) refl in rw (first, second, third, last) refl

scan-escaped_backslash :
    (u : Text) → contains 39 u ≡ false → (scan scan_start (escaped_backslash u)).refused ≡ false
unfolding scan scan_step scan_byte
scan-escaped_backslash [] n = refl
scan-escaped_backslash (c ∷ u) n =
    let opened : Scan =
      scan_step (scan_step (scan_step scan_start 39 (92 ∷ 92 ∷ 39 ∷ c ∷ u)) 92 (92 ∷ 39 ∷ c ∷ u)) 92
        (39 ∷ c ∷ u) in
    stays_single (scan_step opened 39 (c ∷ u)) (c ∷ u) (ground (arith, n)) n

-- After the quoted text '\\' the scan takes itself to be inside of quotes still: whatever follows
-- passes, semicolons included, unless it has another single quote.
pub count_statements-escaped_backslash :
    (t : Text) → contains 39 t ≡ false → count_statements (escaped_backslash t) ≡ true
unfolding count_statements
count_statements-escaped_backslash t n =
    let u = trim_right is_ending (trim_end t) in
    let outer = trim-escaped_backslash is_ending (trim_end t) (refl, refl) in
    let clean : contains 39 u ≡ false =
      contains-trim_right is_ending 39 (trim_end t) (contains-trim_end 39 t n) in
    let whole : trim_right is_ending (trim_space (escaped_backslash t)) ≡ escaped_backslash u =
      ap (trim_right is_ending) (trim_space-escaped_backslash t) ∙ outer in
    ap (λ x. not (scan scan_start x).refused) whole ∙ ap not (scan-escaped_backslash u clean)
