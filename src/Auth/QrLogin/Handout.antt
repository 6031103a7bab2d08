-- ===== src/Auth/QrLogin/Handout.antt =====
-- How often a code's web token is handed out, over any interleaving of the four calls, those that
-- create a code in their two halves.
use easyserver.Base.{
  ℕ, ◌+◌, ◌≤◌, String, ◌≡◌, inl, inr, Bool, true, false, Bool-cases, Option, none, some,
  Option-cases, arith, if◌then◌else◌, ◌==◌, Result, ok, err, string_eq, List, [], ◌∷◌, ◌&&◌,
}
use easyserver.Base.Map.{
  lookup, lookup-insert, lookup-erase, lookup-retain, Unique, insert-Unique, erase-Unique,
  retain-Unique,
}
use easyserver.Auth.QrLogin.{
  QrSession, QrSessions, State, Confirmation, confirm, confirm_pending, pending_only, register_code,
  cleanup_expired_locked, outlives, cancel, pending, confirmed, get_status, poll, told_confirmed,
  Reported,
}
use easyserver.Auth.QrLogin.Confirm.{confirm_pending_cases}

pub data Call : Type 0 where
  cleans : ℕ → Call
  registers : ℕ → Result String → String → String → Call
  polls : ℕ → String → Call
  confirms : ℕ → String → Confirmation → Call
  cancels : String → Call

unfoldable pub step : State → Call → State
step s (cleans now) = record s { codes = cleanup_expired_locked now s.codes }
step s (registers now drawn ua ip) = record s { codes = (register_code now drawn ua ip s.codes).0 }
step s (polls now qr_token) = record s { codes = (get_status now qr_token s.codes).0 }
step s (confirms now qr_token c) = (confirm now qr_token c s).0
step s (cancels qr_token) = record s { codes = cancel qr_token s.codes }

abbrev is_confirmed : Reported → Bool
is_confirmed told_confirmed = true
is_confirmed _ = false

-- The call hands the web token of the code to a client.
abbrev pub hands : String → State → Call → ℕ
hands t s (polls now qr_token) =
    if qr_token == t && is_confirmed (get_status now qr_token s.codes).1.status then 1 else 0
hands t s _ = 0

-- The call draws the code.
abbrev pub draws : String → Call → ℕ
draws t (registers now (ok qr_token) ua ip) = if qr_token == t then 1 else 0
draws t _ = 0

unfoldable pub handed : String → State → List Call → ℕ
handed t s [] = 0
handed t s (c ∷ cs) = hands t s c + handed t (step s c) cs

unfoldable pub drawn : String → List Call → ℕ
drawn t [] = 0
drawn t (c ∷ cs) = draws t c + drawn t cs

-- Whether the code can still be handed out.
abbrev pub open_status : Option QrSession → ℕ
open_status none = 0
open_status (some q) = elim q.status [ pending ↦ 1 | confirmed ↦ 1 | _ ↦ 0 ]

open_status_le : (o : Option QrSession) → open_status o ≤ 1
open_status_le none = omega arith
open_status_le (some q) = ground arith

cleaned_le :
    (now : ℕ) (t : String) (m : QrSessions)
    → Unique m
    → open_status (lookup t (cleanup_expired_locked now m)) ≤ open_status (lookup t m)
unfolding cleanup_expired_locked
cleaned_le now t m u = ground (arith, lookup-retain (λ _ q. outlives now q) t m u)

registers_le :
    (now : ℕ) (r : Result String) (ua ip t : String) (m : QrSessions)
    → open_status (lookup t (register_code now r ua ip m).0)
      ≤ open_status (lookup t m) + draws t (registers now r ua ip)
unfolding register_code
registers_le now (err e) ua ip t m = omega arith
registers_le now (ok qr_token) ua ip t m = elim (Bool-cases (qr_token == t)) [
  | inl same ↦ rw (lookup-insert qr_token t _ m) (ground (arith, same))
  | inr other ↦ rw (lookup-insert qr_token t _ m) (ground (arith, other))
]

polls_le :
    (now : ℕ) (qr_token t : String) (s : State)
    → hands t s (polls now qr_token) + open_status (lookup t (get_status now qr_token s.codes).0)
      ≤ open_status (lookup t s.codes)
unfolding get_status poll
polls_le now qr_token t s = elim (Option-cases (lookup qr_token s.codes)) [
  | inl e ↦ ground (arith, e)
  | inr (q, e) ↦
      let put = lookup-insert qr_token t (poll now q q.status).0 s.codes in
      elim (Bool-cases (qr_token == t)) [
        | inl same ↦
            let e' : lookup t s.codes ≡ some q =
              rw (← ((string_eq.test_iff qr_token t).0 same)) e in
            ground (arith, e, e', same, put)
        | inr other ↦ ground (arith, e, other, put)
      ]
]

pending_open : (o : Option QrSession) (q : QrSession) → pending_only o ≡ some q → open_status o ≡ 1
pending_open none q e = absurd (cc)
pending_open (some x) q e = ground arith

confirm_pending_le :
    (now : ℕ) (qr_token t : String) (c : Confirmation) (q : QrSession) (s : State)
    → open_status (lookup qr_token s.codes) ≡ 1
    → open_status (lookup t (confirm_pending now qr_token c q s).0.codes)
      ≤ open_status (lookup t s.codes)
confirm_pending_le now qr_token t c q s one = elim (confirm_pending_cases now qr_token c q s) [
  | inl (r, _) ↦ ground (arith, r, lookup-erase qr_token t s.codes)
  | inr (inl (e, r)) ↦ ground (arith, r)
  | inr (inr (w, sid, _, _, _, r)) ↦
      let q' = record q { status = confirmed; web_token = w; user = some c.user } in
      ground (arith, r, lookup-insert qr_token t q' s.codes, string_eq.test_iff qr_token t, one)
]

confirms_le :
    (now : ℕ) (qr_token t : String) (c : Confirmation) (s : State)
    → open_status (lookup t (confirm now qr_token c s).0.codes) ≤ open_status (lookup t s.codes)
unfolding confirm
confirms_le now qr_token t c s = elim (Option-cases (pending_only (lookup qr_token s.codes))) [
  | inl e ↦ rw (e, confirm) (ground arith)
  | inr (q, e) ↦
      rw (e, confirm)
        (confirm_pending_le now qr_token t c q s (pending_open (lookup qr_token s.codes) q e))
]

cancels_le :
    (qr_token t : String) (m : QrSessions)
    → open_status (lookup t (cancel qr_token m)) ≤ open_status (lookup t m)
unfolding cancel
cancels_le qr_token t m = ground (arith, lookup-erase qr_token t m)

codes-Unique-confirm :
    (now : ℕ) (qr_token : String) (c : Confirmation) (s : State)
    → Unique s.codes
    → Unique (confirm now qr_token c s).0.codes
unfolding confirm
codes-Unique-confirm now qr_token c s u =
    elim (Option-cases (pending_only (lookup qr_token s.codes))) [
      | inl e ↦ rw (e, confirm) u
      | inr (q, e) ↦
          rw (e, confirm)
            (elim (confirm_pending_cases now qr_token c q s) [
              | inl (r, _) ↦ rw r (erase-Unique qr_token s.codes u)
              | inr (inl (x, r)) ↦ rw r u
              | inr (inr (w, sid, _, _, _, r)) ↦ rw r (insert-Unique qr_token _ s.codes u)
            ])
    ]

codes-Unique-poll :
    (now : ℕ) (qr_token : String) (m : QrSessions) → Unique m → Unique (get_status now qr_token m).0
unfolding get_status
codes-Unique-poll now qr_token m u = elim (Option-cases (lookup qr_token m)) [
  | inl e ↦ rw (e, get_status) u
  | inr (q, e) ↦ rw (e, get_status) (insert-Unique qr_token _ m u)
]

step-Unique : (s : State) (c : Call) → Unique s.codes → Unique (step s c).codes
unfolding step register_code cleanup_expired_locked cancel
step-Unique s (cleans now) u = retain-Unique (λ _ q. outlives now q) s.codes u
step-Unique s (registers now (err e) ua ip) u = u
step-Unique s (registers now (ok qr_token) ua ip) u = insert-Unique qr_token _ s.codes u
step-Unique s (polls now qr_token) u = codes-Unique-poll now qr_token s.codes u
step-Unique s (confirms now qr_token c) u = codes-Unique-confirm now qr_token c s u
step-Unique s (cancels qr_token) u = erase-Unique qr_token s.codes u

step_le :
    (t : String) (s : State) (c : Call)
    → Unique s.codes
    → hands t s c + open_status (lookup t (step s c).codes)
      ≤ open_status (lookup t s.codes) + draws t c
unfolding step
step_le t s (cleans now) u = omega (arith, cleaned_le now t s.codes u)
step_le t s (registers now r ua ip) u = omega (arith, registers_le now r ua ip t s.codes)
step_le t s (polls now qr_token) u = omega (arith, polls_le now qr_token t s)
step_le t s (confirms now qr_token c) u = omega (arith, confirms_le now qr_token t c s)
step_le t s (cancels qr_token) u = omega (arith, cancels_le qr_token t s.codes)

-- Over any sequence of the four calls, however they interleave, also between the cleanup and the
-- rest of a call that creates a code, a code's web token is handed out no more often than the code
-- was drawn, and once more at most if the code was waiting at the start: a code that is drawn once
-- is handed out to one poll at most.
pub handed-le :
    (t : String) (s : State) (cs : List Call)
    → Unique s.codes
    → handed t s cs ≤ open_status (lookup t s.codes) + drawn t cs
unfolding handed drawn
handed-le t s [] u = omega arith
handed-le t s (c ∷ cs) u =
    omega (arith, step_le t s c u, handed-le t (step s c) cs (step-Unique s c u))
