-- ===== src/Infra/Logger/Flood/Bounded.antt =====
-- How much a guard lets through in a minute.
use easyserver.Base.{
  ℕ, suc, ◌+◌, ◌-◌, ◌*◌, ◌≤◌, ◌≡◌, refl, subst, inl, inr, Bool, true, false, Option, none, some,
  List, [], ◌∷◌, ◌++◌, arith, ltb, leb, if◌then◌else◌, Bool-cases, Option-cases, ◌==◌, nat_eq,
  string_eq, All,
}
use easyserver.Base.Map.{Map, lookup, insert, lookup-insert}
use easyserver.Base.Bytes.{bytes_eq}
use easyserver.Database.Statements.{Text, trim_space}
use easyserver.Infra.Logger.Flood.{
  flood_window, flood_max, FloodEntry, FloodGuard, sig, truncate, Emitted, line, summary, is_over,
  suppress, count_line, begin_line, write_line, write, write_all,
}

-- The lines with a signature among what was emitted, and the summaries.
abbrev pub lines_of : Text → List Emitted → ℕ
lines_of key [] = 0
lines_of key (line t ∷ out) = (if sig t == key then 1 else 0) + lines_of key out
lines_of key (summary n t ∷ out) = lines_of key out

abbrev pub summaries : List Emitted → ℕ
summaries [] = 0
summaries (line t ∷ out) = summaries out
summaries (summary n t ∷ out) = suc (summaries out)

lines_of-append :
    (key : Text) (xs ys : List Emitted)
    → lines_of key (xs ++ ys) ≡ lines_of key xs + lines_of key ys
lines_of-append key [] ys = omega arith
lines_of-append key (line t ∷ xs) ys = omega (arith, lines_of-append key xs ys)
lines_of-append key (summary n t ∷ xs) ys = lines_of-append key xs ys

pub summaries-append : (xs ys : List Emitted) → summaries (xs ++ ys) ≡ summaries xs + summaries ys
summaries-append [] ys = omega arith
summaries-append (line t ∷ xs) ys = summaries-append xs ys
summaries-append (summary n t ∷ xs) ys = omega (arith, summaries-append xs ys)

-- The calls happen within a minute of `a`.
abbrev pub IsMinute : ℕ → List (ℕ × Text) → Type 0
IsMinute a = All (λ call. (a ≤ call.0) × (call.0 ≤ a + flood_window))

-- The lines that may still pass from `a` on, with the entry as it is.
abbrev pub left : ℕ → Option FloodEntry → ℕ
left a none = flood_max
left a (some e) = if leb a e.first then flood_max - e.count else flood_max - e.count + flood_max

-- Writing the entry of one signature, with what was emitted for it.
spent :
    (a : ℕ) (out : List Emitted) (mine key : Text) (e : FloodEntry) (counts : Map Text FloodEntry)
    → ((mine == key) ≡ true → lines_of key out + left a (some e) ≤ left a (lookup key counts))
    → ((mine == key) ≡ false → lines_of key out ≡ 0)
    → lines_of key out + left a (lookup key (insert mine e counts)) ≤ left a (lookup key counts)
spent a out mine key e counts equal other = elim (Bool-cases (mine == key)) [
  | inl h ↦ rw (lookup-insert mine key e counts, h) (equal h)
  | inr h ↦ rw (lookup-insert mine key e counts, h, other h) (omega arith)
]

found_at :
    (mine key : Text) (o : Option FloodEntry) (counts : Map Text FloodEntry)
    → lookup mine counts ≡ o
    → (mine == key) ≡ true
    → lookup key counts ≡ o
found_at mine key o counts f h =
    subst (λ k. lookup k counts ≡ o) ((bytes_eq.test_iff mine key).0 h) f

one_line : (key t : Text) → (sig t == key) ≡ true → lines_of key (line t ∷ []) ≡ 1
one_line key t h = rw h refl

no_line : (key t : Text) → (sig t == key) ≡ false → lines_of key (line t ∷ []) ≡ 0
no_line key t h = rw h refl

left_first :
    (a now : ℕ) (t : Text)
    → a ≤ now
    → left a (some (record { first = now; count = 1; suppressed = 0; sample = t })) ≡ 49
left_first a now t late = ground (arith, late)

begin_le :
    (a now : ℕ) (text key : Text) (o : Option FloodEntry) (g : FloodGuard)
    → a ≤ now
    → lookup (sig text) g.counts ≡ o
    → 50 ≤ left a o
    → lines_of key (begin_line text (sig text) now g).1
        + left a (lookup key (begin_line text (sig text) now g).0.counts)
      ≤ left a (lookup key g.counts)
begin_le a now text key o g late f room =
    spent a (line text ∷ []) (sig text) key
      (record { first = now; count = 1; suppressed = 0; sample = text }) g.counts
      (λ h.
        rw (one_line key text h, left_first a now text late, found_at (sig text) key o g.counts f h)
          room)
      (no_line key text)

suppress_le :
    (b : Bool) (a now : ℕ) (mine key : Text) (e : FloodEntry) (g : FloodGuard)
    → ((mine == key) ≡ true → left a (some e) ≤ left a (lookup key g.counts))
    → lines_of key (suppress b mine now e g).1
        + left a (lookup key (suppress b mine now e g).0.counts)
      ≤ left a (lookup key g.counts)
suppress_le true a now mine key e g equal =
    spent a (summary e.suppressed (truncate e.sample 120) ∷ []) mine key e g.counts
      (λ h. omega (arith, equal h)) (λ h. refl)
suppress_le false a now mine key e g equal =
    spent a [] mine key e g.counts (λ h. omega (arith, equal h)) (λ h. refl)

-- One more line of an entry.
left_more :
    (a first count suppressed more : ℕ) (t : Text)
    → left a (some (record { first = first; count = count + 1; suppressed = more; sample = t }))
      ≤ left a (some (record { first = first; count = count; suppressed = suppressed; sample = t }))
left_more a first count suppressed more t = ground arith

left_one :
    (a first count suppressed : ℕ) (t : Text)
    → ltb flood_max (count + 1) ≡ false
    → 1
        + left a (
            some (record { first = first; count = count + 1; suppressed = suppressed; sample = t }))
      ≤ left a (some (record { first = first; count = count; suppressed = suppressed; sample = t }))
left_one a first count suppressed t h = ground (arith, h)

count_le :
    (b : Bool) (a now : ℕ) (text key : Text) (e : FloodEntry) (g : FloodGuard)
    → ltb flood_max (e.count + 1) ≡ b
    → lookup (sig text) g.counts ≡ some e
    → lines_of key (count_line b text (sig text) now e g).1
        + left a (lookup key (count_line b text (sig text) now e g).0.counts)
      ≤ left a (lookup key g.counts)
count_le true a now text key e g is f =
    suppress_le (is_over g.last_log now) a now (sig text) key
      (record e { count = e.count + 1; suppressed = e.suppressed + 1 }) g
      (λ h.
        rw (found_at (sig text) key (some e) g.counts f h)
          (left_more a e.first e.count e.suppressed (e.suppressed + 1) e.sample))
count_le false a now text key e g is f =
    spent a (line text ∷ []) (sig text) key (record e { count = e.count + 1 }) g.counts
      (λ h.
        rw (found_at (sig text) key (some e) g.counts f h, one_line key text h)
          (left_one a e.first e.count e.suppressed e.sample is))
      (no_line key text)

left_expired :
    (a now first count suppressed : ℕ) (t : Text)
    → now ≤ a + flood_window
    → ltb flood_window (now - first) ≡ true
    → 50
      ≤ left a (some (record { first = first; count = count; suppressed = suppressed; sample = t }))
left_expired a now first count suppressed t early h = ground (arith, early, h)

-- What `write_line` does, by the entry that it finds.
pub write_line-none :
    (text : Text) (now : ℕ) (g : FloodGuard)
    → lookup (sig text) g.counts ≡ none
    → write_line text now g ≡ begin_line text (sig text) now g
unfolding write_line
write_line-none text now g f = rw (f, write_line) refl

pub write_line-some :
    (text : Text) (now : ℕ) (g : FloodGuard) (e : FloodEntry)
    → lookup (sig text) g.counts ≡ some e
    → write_line text now g ≡ (
        if ltb flood_window (now - e.first)
        then begin_line text (sig text) now g
        else count_line (ltb flood_max (e.count + 1)) text (sig text) now e g)
unfolding write_line
write_line-some text now g e f = rw (f, write_line) refl

pub write_line_le :
    (a now : ℕ) (text key : Text) (g : FloodGuard)
    → a ≤ now
    → now ≤ a + flood_window
    → lines_of key (write_line text now g).1 + left a (lookup key (write_line text now g).0.counts)
      ≤ left a (lookup key g.counts)
write_line_le a now text key g late early = elim (Option-cases (lookup (sig text) g.counts)) [
  | inl f ↦ rw (write_line-none text now g f) (begin_le a now text key none g late f (omega arith))
  | inr (e, f) ↦ elim (Bool-cases (ltb flood_window (now - e.first))) [
    | inl h ↦
        rw (write_line-some text now g e f, h)
          (begin_le a now text key (some e) g late f
            (left_expired a now e.first e.count e.suppressed e.sample early h))
    | inr h ↦
        rw (write_line-some text now g e f, h)
          (count_le (ltb flood_max (e.count + 1)) a now text key e g refl f)
  ]
]

write_le :
    (a now : ℕ) (p key : Text) (g : FloodGuard)
    → a ≤ now
    → now ≤ a + flood_window
    → lines_of key (write p now g).1 + left a (lookup key (write p now g).0.counts)
      ≤ left a (lookup key g.counts)
unfolding write
write_le a now p key g late early = elim (Bool-cases (trim_space p == [])) [
  | inl h ↦ rw h (omega arith)
  | inr h ↦ rw h (write_line_le a now (trim_space p) key g late early)
]

pub lines_le :
    (a : ℕ) (calls : List (ℕ × Text)) (key : Text) (g : FloodGuard)
    → IsMinute a calls
    → lines_of key (write_all calls g) ≤ left a (lookup key g.counts)
unfolding write_all
lines_le a [] key g m = omega arith
lines_le a ((now, p) ∷ calls) key g m = omega (
  arith,
  lines_of-append key (write p now g).1 (write_all calls (write p now g).0),
  write_le a now p key g m.0.0 m.0.1,
  lines_le a calls key (write p now g).0 m.1,
)

left_le : (a : ℕ) (o : Option FloodEntry) → left a o ≤ 2 * flood_max
left_le a none = omega arith
left_le a (some e) = ground arith

-- Whatever a guard has counted before: among calls that all happen within one minute, it writes at
-- most a hundred lines with any one signature.
pub lines_bounded :
    (a : ℕ) (calls : List (ℕ × Text)) (key : Text) (g : FloodGuard)
    → IsMinute a calls
    → lines_of key (write_all calls g) ≤ 2 * flood_max
lines_bounded a calls key g m =
    omega (arith, lines_le a calls key g m, left_le a (lookup key g.counts))
