-- ===== src/Auth/QrLogin/Confirm.antt =====
-- What a confirmation does to the codes and to the sessions, and what the next poll is told.
use easyserver.Base.{
  Result-cases, ℕ, ◌+◌, ◌≤◌, ◌<◌, String, ◌≡◌, ◌⊎◌, inl, inr, true, Option, none, some, arith, ltb,
  if◌then◌else◌, Bool-cases, Option-cases, ◌==◌, nat_eq, string_eq, ok, err, AppError,
}
use easyserver.Base.Map.{lookup, insert, erase, lookup-insert}
use easyserver.Auth.Session.{Session, create_session, is_session_valid}
use easyserver.Auth.QrLogin.{
  QrSession, State, Confirmation, confirm, confirm_pending, pending_only, pending, confirmed,
  qr_expired, get_status, poll, told_confirmed,
}

-- The web session that a confirmation creates.
abbrev pub web_session : ℕ → Confirmation → QrSession → String → String → Session
web_session now c q sid web_token = record {
  id = sid;
  user_id = c.user.id;
  ip = (if q.creator_ip == "" then c.confirm_ip else q.creator_ip);
  user_agent = (if q.creator_ua == "" then c.user_agent else q.creator_ua);
  client_type = "web";
  login_at = now;
  expires_at = now + c.session_timeout;
  token = web_token;
  device_id = "";
}

-- A confirmation that succeeds: the code was pending and unexpired, now holds the web token and the
-- user, and the table of sessions gained one session under that token.
pub record Confirms (now : ℕ) (qr_token : String) (c : Confirmation) (s t : State) (q : QrSession)
    (web_token sid : String) : Type 0 where
  pub found : lookup qr_token s.codes ≡ some q
  pub was_pending : q.status ≡ pending
  pub unexpired : now ≤ q.expires_at
  pub signed : c.web_token ≡ ok web_token
  pub drawn : c.sid ≡ ok sid
  pub codes :
      t.codes
      ≡ insert qr_token
          (record q { status = confirmed; web_token = web_token; user = some c.user })
          s.codes
  pub sessions : t.sessions ≡ insert web_token (web_session now c q sid web_token) s.sessions

pending_only-some :
    (o : Option QrSession) (q : QrSession)
    → pending_only o ≡ some q
    → (o ≡ some q) × (q.status ≡ pending)
pending_only-some none q e = absurd (cc)
pending_only-some (some x) q e = ground arith

pub confirm_pending_cases :
    (now : ℕ) (qr_token : String) (c : Confirmation) (q : QrSession) (s : State)
    → ((confirm_pending now qr_token c q s
          ≡ (record s { codes = erase qr_token s.codes }, err qr_expired))
        × (q.expires_at < now))
      ⊎ ((e : AppError) × (confirm_pending now qr_token c q s ≡ (s, err e)))
      ⊎ ((web_token : String) × (sid : String) × (now ≤ q.expires_at)
          × (c.web_token ≡ ok web_token)
          × (c.sid ≡ ok sid)
          × (confirm_pending now qr_token c q s ≡ (
            record {
              codes =
                  insert qr_token
                    (record q { status = confirmed; web_token = web_token; user = some c.user })
                    s.codes;
              sessions = insert web_token (web_session now c q sid web_token) s.sessions;
            },
            ok tt,
          )))
unfolding confirm_pending create_session
confirm_pending_cases now qr_token c q s = elim (Bool-cases (ltb q.expires_at now)) [
  | inl late ↦ inl (rw (late, confirm_pending), ground arith)
  | inr early ↦ elim (Result-cases c.web_token) [
    | inr (e, bad) ↦ inr (inl (e, ground (arith, early, bad)))
    | inl (w, signed) ↦ elim (Result-cases c.sid) [
      | inr (e, bad) ↦ inr (inl (e, ground (arith, early, signed, bad)))
      | inl (sid, drawn) ↦
          inr (inr (w, sid, ground arith, signed, drawn, ground (arith, early, signed, drawn)))
    ]
  ]
]

-- A confirmation that succeeds, and what it leaves.
pub confirm-Confirms :
    (now : ℕ) (qr_token : String) (c : Confirmation) (s : State)
    → (confirm now qr_token c s).1 ≡ ok tt
    → (q : QrSession) × (web_token : String) × (sid : String) × Confirms now qr_token c s
        (confirm now qr_token c s).0
        q
        web_token
        sid
unfolding confirm
confirm-Confirms now qr_token c s done =
    elim (Option-cases (pending_only (lookup qr_token s.codes))) [
      | inl e ↦ absurd (ground (arith, e))
      | inr (q, e) ↦
          let (found, waiting) = pending_only-some (lookup qr_token s.codes) q e in
          elim (confirm_pending_cases now qr_token c q s) [
            | inl (r, _) ↦ absurd (ground (arith, e, r))
            | inr (inl (x, r)) ↦ absurd (ground (arith, e, r))
            | inr (inr (w, sid, early, signed, drawn, r)) ↦ (
              q,
              w,
              sid,
              record {
                found = found;
                was_pending = waiting;
                unexpired = early;
                signed = signed;
                drawn = drawn;
                codes = ground (arith, e, r);
                sessions = ground (arith, e, r);
              },
            )
          ]
    ]

-- A confirmation that fails leaves every session as it was, and every code except one that it finds
-- expired, which it deletes.
pub confirm_refused :
    (now : ℕ) (qr_token : String) (c : Confirmation) (s : State) (e : AppError)
    → (confirm now qr_token c s).1 ≡ err e
    → ((confirm now qr_token c s).0 ≡ s)
      ⊎ ((e ≡ qr_expired)
          × ((confirm now qr_token c s).0 ≡ record s { codes = erase qr_token s.codes }))
unfolding confirm
confirm_refused now qr_token c s x done =
    elim (Option-cases (pending_only (lookup qr_token s.codes))) [
      | inl e ↦ inl (ground (arith, e))
      | inr (q, e) ↦ elim (confirm_pending_cases now qr_token c q s) [
        | inl (r, _) ↦ inr (ground (arith, e, r), ground (arith, e, r))
        | inr (inl (y, r)) ↦ inl (ground (arith, e, r))
        | inr (inr (w, sid, _, _, _, r)) ↦ absurd (ground (arith, e, r))
      ]
    ]

-- From the phone to the browser: after a confirmation the next poll, however late, is told
-- "confirmed" and handed the web token; and that token is accepted as long as neither the session
-- timeout nor the idle timeout has passed.
pub get_status-confirm :
    (now later idle : ℕ) (qr_token web_token : String) (c : Confirmation) (s : State)
    → (confirm now qr_token c s).1 ≡ ok tt
    → c.web_token ≡ ok web_token
    → later ≤ now + c.session_timeout
    → later ≤ now + idle
    → ((get_status later qr_token (confirm now qr_token c s).0.codes).1.status ≡ told_confirmed)
      × ((get_status later qr_token (confirm now qr_token c s).0.codes).1.token ≡ web_token)
      × (is_session_valid later idle web_token (confirm now qr_token c s).0.sessions ≡ true)
unfolding get_status poll is_session_valid
get_status-confirm now later idle qr_token web_token c s done signed recent active =
    let (q, w, sid, h) = confirm-Confirms now qr_token c s done in
    let same : w ≡ web_token = ground (arith, h.signed, signed) in
    let q' = record q { status = confirmed; web_token = w; user = some c.user } in
    let code = lookup-insert qr_token qr_token q' s.codes in
    let login = lookup-insert w web_token (web_session now c q sid w) s.sessions in
    let text = string_eq.test_iff qr_token qr_token in
    (
      ground (arith, h.codes, code, text),
      ground (arith, h.codes, code, text, same),
      ground (arith, h.sessions, login, same, string_eq.test_iff w web_token),
    )
