-- ===== src/Infra/Config/Passing.antt =====
-- Which configurations pass each of the checks.
use easyserver.Base.{
  ℕ, ◌≤◌, ◌<◌, ◌≡◌, refl, ◌≢◌, ◌↔◌, ◌⊎◌, inl, inr, Bool, true, false, not, ◌&&◌, Option, none, some,
  List, [], ◌∷◌, arith, ltb, leb, Bool-cases, ◌==◌, nat_eq, ℤ, pos, negsuc, codes, length, All,
}
use easyserver.Base.Bytes.{bytes_eq, same-eq, ne-same}
use easyserver.Database.Statements.{Text}
use easyserver.Infra.Config.{LogsConfig}
use easyserver.Infra.Config.Merging.{is_empty}
use easyserver.Infra.Config.Checks.{
  Problem, weak_jwt, Outcome, reject_or_warn, after, run_checks, check_weak, uniform_string, out_of,
  valid_log_level, valid_log_format, check_log, require, check_root, check_cert,
}

abbrev pub Passes : Outcome → Type 0
Passes o = o.refused ≡ none

-- A rule that only holds outside of development mode.
abbrev pub Unless : Bool → Type 0 → Type 0
Unless dev P = (dev ≡ true) ⊎ P

abbrev pub IsBetween : ℕ → ℕ → ℤ → Type 0
IsBetween lo hi (pos n) = (lo ≤ n) × (n ≤ hi)
IsBetween lo hi (negsuc n) = ⊥

pub after-Passes :
    (w : List Problem) (r : Option Problem) (rest : Outcome)
    → Passes (after w r rest) ↔ ((r ≡ none) × Passes rest)
after-Passes w none rest = (λ h. (refl, h), λ h. h.1)
after-Passes w (some p) rest = (λ h. absurd (ground (arith, h)), λ h. h.0)

pub run_checks-Passes : (os : List Outcome) → Passes (run_checks os) ↔ All Passes os
run_checks-Passes [] = (λ h. tt, λ h. refl)
run_checks-Passes (o ∷ os) =
    let rest = run_checks-Passes os in
    let both = after-Passes o.warned o.refused (run_checks os) in
    (λ h. ((both.0 h).0, rest.0 (both.0 h).1), λ h. both.1 (h.0, rest.1 h.1))

pub reject-Passes :
    (dev fail : Bool) (p : Problem) → Passes (reject_or_warn dev fail p) ↔ Unless dev (fail ≡ false)
reject-Passes dev false p = (λ h. inr refl, λ h. refl)
reject-Passes true true p = (λ h. inl refl, λ h. refl)
reject-Passes false true p = (λ h. absurd (ground (arith, h)), λ h. absurd (ground (arith, h)))

pub require-Passes : (b : Bool) (p : Problem) → Passes (require b p) ↔ (b ≡ true)
require-Passes true p = (λ h. refl, λ h. refl)
require-Passes false p = (λ h. absurd (ground (arith, h)), λ h. absurd (ground (arith, h)))

out_of-IsBetween : (lo hi : ℕ) (x : ℤ) → (out_of lo hi x ≡ false) ↔ IsBetween lo hi x
out_of-IsBetween lo hi (pos n) = (λ h. ground (arith, h), λ h. ground (arith, h))
out_of-IsBetween lo hi (negsuc n) = (λ h. absurd (ground (arith, h)), λ h. absurd h)

pub both : {A B C D : Type 0} → A ↔ B → C ↔ D → (A × C) ↔ (B × D)
both f g = (λ h. (f.0 h.0, g.0 h.1), λ h. (f.1 h.0, g.1 h.1))

pub through : {A B C : Type 0} → A ↔ B → B ↔ C → A ↔ C
through f g = (λ h. g.0 (f.0 h), λ h. f.1 (g.1 h))

pub unless : {dev : Bool} {P Q : Type 0} → P ↔ Q → Unless dev P ↔ Unless dev Q
unless f = (
  λ h. elim h [ inl d ↦ inl d | inr p ↦ inr (f.0 p) ],
  λ h. elim h [ inl d ↦ inl d | inr q ↦ inr (f.1 q) ],
)

not-true : (b : Bool) → (not b ≡ true) ↔ (b ≡ false)
not-true true = (λ h. absurd (ground (arith, h)), λ h. absurd (ground (arith, h)))
not-true false = (λ h. refl, λ h. refl)

-- The rules, each as what it asks of the configuration.
abbrev pub IsUnknown : Text → List Text → Type 0
IsUnknown jwt = All (λ weak. jwt ≢ weak)

pub range-Passes :
    (dev : Bool) (lo hi : ℕ) (x : ℤ) (p : Problem)
    → Passes (reject_or_warn dev (out_of lo hi x) p) ↔ Unless dev (IsBetween lo hi x)
range-Passes dev lo hi x p =
    through (reject-Passes dev (out_of lo hi x) p) (unless (out_of-IsBetween lo hi x))

pub filled-Passes :
    (s : Text) (p : Problem) → Passes (require (not (is_empty s)) p) ↔ (is_empty s ≡ false)
filled-Passes s p = through (require-Passes (not (is_empty s)) p) (not-true (is_empty s))

pub length-Passes :
    (dev : Bool) (s : Text) (p : Problem)
    → Passes (reject_or_warn dev (ltb (length s) 32) p) ↔ Unless dev (32 ≤ length s)
length-Passes dev s p =
    through (reject-Passes dev (ltb (length s) 32) p)
      (unless (λ h. ground (arith, h), λ h. ground (arith, h)))

pub uniform-Passes :
    (dev : Bool) (s : Text) (p : Problem)
    → Passes (reject_or_warn dev (leb 32 (length s) && uniform_string s) p)
      ↔ Unless dev ((length s < 32) ⊎ (uniform_string s ≡ false))
uniform-Passes dev s p =
    through (reject-Passes dev (leb 32 (length s) && uniform_string s) p)
      (unless (λ h. ground (arith, h), λ h. ground (arith, h)))

pub weak-Passes :
    (dev : Bool) (jwt : Text) (ws : List Text)
    → Passes (check_weak dev jwt ws) ↔ Unless dev (IsUnknown jwt ws)
weak-Passes dev jwt [] = (λ h. inr tt, λ h. refl)
weak-Passes dev jwt (w ∷ ws) =
    let rest = weak-Passes dev jwt ws in
    elim (Bool-cases (jwt == w)) [
      | inl h ↦ rw h (
          through (reject-Passes dev true weak_jwt)
            (unless (λ e. absurd (ground (arith, e)), λ e. absurd (e.0 (same-eq jwt w h)))))
      | inr h ↦ rw h (through rest (unless (λ e. (ne-same jwt w h, e), λ e. e.1)))
    ]

pub root-Passes : (path : Text) → Passes (check_root path)
root-Passes path = elim (Bool-cases (path == codes "/")) [ inl h ↦ rw h refl | inr h ↦ rw h refl ]

pub log-Passes :
    (c : LogsConfig)
    → Passes (check_log c) ↔ ((valid_log_level c.level ≡ true) × (valid_log_format c.format ≡ true))
log-Passes c = elim (Bool-cases (valid_log_level c.level)) [
  | inl h ↦ elim (Bool-cases (valid_log_format c.format)) [
    | inl k ↦ rw (h, k) (λ e. (refl, refl), λ e. refl)
    | inr k ↦ rw (h, k) (λ e. absurd (ground (arith, e)), λ e. absurd (ground (arith, e)))
  ]
  | inr h ↦ rw h (λ e. absurd (ground (arith, e)), λ e. absurd (ground (arith, e)))
]

pub cert-Passes : (dev : Bool) (e : Option Text) → Passes (check_cert dev e) ↔ Unless dev (e ≡ none)
cert-Passes dev none = (λ h. inr refl, λ h. refl)
cert-Passes true (some e) = (λ h. inl refl, λ h. refl)
cert-Passes false (some e) = (λ h. absurd (ground (arith, h)), λ h. absurd (ground (arith, h)))
