-- ===== src/Infra/Logger/Flood/Summaries.antt =====
-- How often a guard sums up what it suppressed.
use easyserver.Base.{
  ℕ, ◌+◌, ◌-◌, ◌≤◌, ◌≡◌, refl, inl, inr, Bool, true, false, Option, none, some, List, [], ◌∷◌,
  arith, ltb, leb, if◌then◌else◌, Bool-cases, Option-cases, ◌==◌, nat_eq, string_eq,
}
use easyserver.Base.Map.{lookup}
use easyserver.Base.Bytes.{bytes_eq}
use easyserver.Database.Statements.{Text, trim_space}
use easyserver.Infra.Logger.Flood.{
  flood_window, flood_max, FloodEntry, FloodGuard, sig, is_over, suppress, count_line, begin_line,
  write_line, write, write_all,
}
use easyserver.Infra.Logger.Flood.Bounded.{
  summaries, summaries-append, IsMinute, write_line-none, write_line-some,
}

-- The summaries that may still be written from `a` on.
abbrev pub due : ℕ → Option ℕ → ℕ
due a none = 1
due a (some t) = if leb a t then 0 else 1

due_le : (a : ℕ) (o : Option ℕ) → due a o ≤ 1
due_le a none = omega arith
due_le a (some t) = ground arith

over_due :
    (a now : ℕ) (o : Option ℕ)
    → a ≤ now
    → now ≤ a + flood_window
    → is_over o now ≡ true
    → 1 + due a (some now) ≤ due a o
over_due a now none late early h = ground (arith, late)
over_due a now (some t) late early h = ground (arith, late, early, h)

suppress-due :
    (b : Bool) (a now : ℕ) (mine : Text) (e : FloodEntry) (g : FloodGuard)
    → a ≤ now
    → now ≤ a + flood_window
    → is_over g.last_log now ≡ b
    → summaries (suppress b mine now e g).1 + due a (suppress b mine now e g).0.last_log
      ≤ due a g.last_log
suppress-due true a now mine e g late early is = over_due a now g.last_log late early is
suppress-due false a now mine e g late early is = omega arith

count_due :
    (b : Bool) (a now : ℕ) (text : Text) (e : FloodEntry) (g : FloodGuard)
    → a ≤ now
    → now ≤ a + flood_window
    → summaries (count_line b text (sig text) now e g).1
        + due a (count_line b text (sig text) now e g).0.last_log
      ≤ due a g.last_log
count_due true a now text e g late early =
    suppress-due (is_over g.last_log now) a now (sig text)
      (record e { count = e.count + 1; suppressed = e.suppressed + 1 }) g late early refl
count_due false a now text e g late early = omega arith

begin_due :
    (a now : ℕ) (text : Text) (g : FloodGuard)
    → summaries (begin_line text (sig text) now g).1
        + due a (begin_line text (sig text) now g).0.last_log
      ≤ due a g.last_log
begin_due a now text g = omega arith

write_line-due :
    (a now : ℕ) (text : Text) (g : FloodGuard)
    → a ≤ now
    → now ≤ a + flood_window
    → summaries (write_line text now g).1 + due a (write_line text now g).0.last_log
      ≤ due a g.last_log
write_line-due a now text g late early = elim (Option-cases (lookup (sig text) g.counts)) [
  | inl f ↦ rw (write_line-none text now g f) (begin_due a now text g)
  | inr (e, f) ↦ elim (Bool-cases (ltb flood_window (now - e.first))) [
    | inl h ↦ rw (write_line-some text now g e f, h) (begin_due a now text g)
    | inr h ↦
        rw (write_line-some text now g e f, h)
          (count_due (ltb flood_max (e.count + 1)) a now text e g late early)
  ]
]

write-due :
    (a now : ℕ) (p : Text) (g : FloodGuard)
    → a ≤ now
    → now ≤ a + flood_window
    → summaries (write p now g).1 + due a (write p now g).0.last_log ≤ due a g.last_log
unfolding write
write-due a now p g late early = elim (Bool-cases (trim_space p == [])) [
  | inl h ↦ rw h (omega arith)
  | inr h ↦ rw h (write_line-due a now (trim_space p) g late early)
]

summaries_le :
    (a : ℕ) (calls : List (ℕ × Text)) (g : FloodGuard)
    → IsMinute a calls
    → summaries (write_all calls g) ≤ due a g.last_log
unfolding write_all
summaries_le a [] g m = omega arith
summaries_le a ((now, p) ∷ calls) g m = omega (
  arith,
  summaries-append (write p now g).1 (write_all calls (write p now g).0),
  write-due a now p g m.0.0 m.0.1,
  summaries_le a calls (write p now g).0 m.1,
)

-- Whatever a guard has suppressed before, and of how many signatures: among calls that all happen
-- within one minute, it writes at most one summary.
pub summary_once :
    (a : ℕ) (calls : List (ℕ × Text)) (g : FloodGuard)
    → IsMinute a calls
    → summaries (write_all calls g) ≤ 1
summary_once a calls g m = omega (arith, summaries_le a calls g m, due_le a g.last_log)
