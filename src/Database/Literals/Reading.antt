-- ===== src/Database/Literals/Reading.antt =====
-- Reading a quoted text back: a quote that is doubled stands for itself, and where a backslash
-- escapes it does so as MySQL documents.
use easyserver.Base.{
  test_refl, ℕ, ◌≡◌, refl, sym, ap, ◌∙◌, subst, ◌≢◌, inl, inr, Bool, true, false, not, ◌&&◌, ◌||◌,
  Option, none, some, List, [], ◌∷◌, ◌++◌, nat_test_iff, if◌then◌else◌, Bool-cases, ◌==◌, nat_eq,
  All,
}
use easyserver.Base.Bytes.{bytes_eq}
use mathlib.Core.List.{append_assoc}
use easyserver.Database.Statements.{Text}
use easyserver.Database.Literals.{replace_all, replace_each, mysql_escapes}

-- Where the reader is, once it is behind the opening quote.
pub data Place : Type 0 where
  inside behind_backslash behind_quote : Place

-- A byte behind a backslash.
abbrev pub unescaped : ℕ → Text
unescaped c =
    if c == 48
    then 0 ∷ []
    else if c == 98
    then 8 ∷ []
    else if c == 110
    then 10 ∷ []
    else if c == 114
    then 13 ∷ []
    else if c == 116
    then 9 ∷ []
    else if c == 90
    then 26 ∷ []
    else if c == 37 || c == 95
    then 92 ∷ c ∷ []
    else c ∷ []

-- `slash` tells whether a backslash escapes; `q` is the quote, which stands for itself when doubled.
module _ (slash : Bool) (q : ℕ) where
  abbrev pub next : Place → ℕ → Place
  next inside c =
      if c == q then behind_quote else if slash && c == 92 then behind_backslash else inside
  next behind_backslash c = inside
  next behind_quote c = inside

  abbrev pub read_byte : Place → ℕ → Text
  read_byte inside c = if c == q || slash && c == 92 then [] else c ∷ []
  read_byte behind_backslash c = unescaped c
  read_byte behind_quote c = c ∷ []

  abbrev pub ends : Place → ℕ → Bool
  ends inside c = false
  ends behind_backslash c = false
  ends behind_quote c = not (c == q)

  abbrev pub prepend : Text → Option (Text × Text) → Option (Text × Text)
  prepend s none = none
  prepend s (some (t, rest)) = some (s ++ t, rest)

  abbrev pub close : Place → Option (Text × Text)
  close inside = none
  close behind_backslash = none
  close behind_quote = some ([], [])

  -- The text that is read, and what stands behind the closing quote.
  abbrev pub read : Place → Text → Option (Text × Text)
  read place [] = close place
  read place (c ∷ s) =
      let rest = read (next place c) s in
      if ends place c then some ([], c ∷ s) else prepend (read_byte place c) rest

-- What follows a quoted text does not go on with a quote.
abbrev pub IsApart : ℕ → Text → Type 0
IsApart q [] = Unit
IsApart q (c ∷ s) = c ≢ q

replace_all-append :
    (old : ℕ) (new s t : Text)
    → replace_all old new (s ++ t) ≡ replace_all old new s ++ replace_all old new t
replace_all-append old new [] t = refl
replace_all-append old new (c ∷ s) t =
    let rest = replace_all-append old new s t in
    elim (Bool-cases (c == old)) [
      | inl h ↦
          rw (h, rest) (sym (append_assoc new (replace_all old new s) (replace_all old new t)))
      | inr h ↦ rw (h, rest) refl
    ]

replace_each-append :
    (ps : List (ℕ × Text)) (s t : Text)
    → replace_each ps (s ++ t) ≡ replace_each ps s ++ replace_each ps t
replace_each-append [] s t = refl
replace_each-append ((old, new) ∷ ps) s t =
    ap (replace_each ps) (replace_all-append old new s t)
    ∙ replace_each-append ps (replace_all old new s) (replace_all old new t)

replace_each-other :
    (ps : List (ℕ × Text)) (c : ℕ)
    → All (λ p. (c == p.0) ≡ false) ps
    → replace_each ps (c ∷ []) ≡ c ∷ []
replace_each-other [] c h = refl
replace_each-other ((old, new) ∷ ps) c h = rw h.0 (replace_each-other ps c h.1)

read_end :
    (slash : Bool) (q : ℕ) (t : Text) → IsApart q t → read slash q behind_quote t ≡ some ([], t)
read_end slash q [] h = refl
read_end slash q (c ∷ t) h = elim (Bool-cases (c == q)) [
  | inl e ↦ absurd (h ((nat_test_iff c q).0 e))
  | inr n ↦ rw n refl
]

read_close :
    (slash : Bool) (q : ℕ) (t : Text) → IsApart q t → read slash q inside (q ∷ t) ≡ some ([], t)
read_close slash q t h = rw (test_refl q, read_end slash q t h) refl

prepend_nil :
    (slash : Bool) (q : ℕ) (s : Text) (o : Option (Text × Text))
    → prepend slash q [] (prepend slash q s o) ≡ prepend slash q s o
prepend_nil slash q s none = refl
prepend_nil slash q s (some r) = refl

-- What is written for one byte is read as that byte.
abbrev pub IsRead : Bool → ℕ → List (ℕ × Text) → ℕ → Type 0
IsRead slash q ps c =
    (u : Text)
    → read slash q inside (replace_each ps (c ∷ []) ++ u)
      ≡ prepend slash q (c ∷ []) (read slash q inside u)

pub reads_all :
    (slash : Bool) (q : ℕ) (ps : List (ℕ × Text))
    → ((c : ℕ) → IsRead slash q ps c)
    → (s t : Text) → IsApart q t
    → replace_each ps [] ≡ []
    → read slash q inside (replace_each ps s ++ q ∷ t) ≡ some (s, t)
reads_all slash q ps each [] t h e = rw e (read_close slash q t h)
reads_all slash q ps each (c ∷ s) t h e =
    rw
      (
        replace_each-append ps (c ∷ []) s,
        append_assoc (replace_each ps (c ∷ [])) (replace_each ps s) (q ∷ t),
        each c (replace_each ps s ++ q ∷ t),
        reads_all slash q ps each s t h e,
      )
      refl

special : (P : ℕ → Type 0) (c a : ℕ) → (c == a) ≡ true → P a → P c
special P c a h p = subst P (sym ((nat_test_iff c a).0 h)) p

plain-IsRead :
    (slash : Bool) (q c : ℕ) (ps : List (ℕ × Text))
    → All (λ p. (c == p.0) ≡ false) ps
    → (c == q) ≡ false
    → (slash && c == 92) ≡ false
    → IsRead slash q ps c
plain-IsRead slash q c ps h n k u = rw (replace_each-other ps c h, n, k) refl

-- A quote that is doubled.
pub doubled-IsRead : (q c : ℕ) → IsRead false q ((q, q ∷ q ∷ []) ∷ []) c
doubled-IsRead q c = elim (Bool-cases (c == q)) [
  | inl h ↦ special (IsRead false q ((q, q ∷ q ∷ []) ∷ [])) c q h (λ u.
      rw (test_refl q) (
        rw (test_refl q) (rw (test_refl q) (prepend_nil false q (q ∷ []) (read false q inside u)))))
  | inr h ↦ plain-IsRead false q c ((q, q ∷ q ∷ []) ∷ []) (h, tt) h refl
]

pub mysql-IsRead : (c : ℕ) → IsRead true 39 mysql_escapes c
mysql-IsRead c =
    let escaped = special (IsRead true 39 mysql_escapes) c in
    let seen = λ (w : Text) (u : Text). prepend_nil true 39 w (read true 39 inside u) in
    elim (Bool-cases (c == 92)) [
      | inl h ↦ escaped 92 h (seen (92 ∷ []))
      | inr a ↦ elim (Bool-cases (c == 39)) [
        | inl h ↦ escaped 39 h (seen (39 ∷ []))
        | inr b ↦ elim (Bool-cases (c == 34)) [
          | inl h ↦ escaped 34 h (seen (34 ∷ []))
          | inr d ↦ elim (Bool-cases (c == 10)) [
            | inl h ↦ escaped 10 h (seen (10 ∷ []))
            | inr e ↦ elim (Bool-cases (c == 13)) [
              | inl h ↦ escaped 13 h (seen (13 ∷ []))
              | inr f ↦ elim (Bool-cases (c == 9)) [
                | inl h ↦ escaped 9 h (seen (9 ∷ []))
                | inr g ↦ elim (Bool-cases (c == 0)) [
                  | inl h ↦ escaped 0 h (seen (0 ∷ []))
                  | inr z ↦
                      plain-IsRead true 39 c mysql_escapes (a, (b, (d, (e, (f, (g, (z, tt))))))) b a
                ]
              ]
            ]
          ]
        ]
      ]
    ]
