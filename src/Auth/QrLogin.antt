-- ===== src/Auth/QrLogin.antt =====
-- internal/domain/auth/service_qrlogin.go: the scan-to-login state machine, over the table of
-- sessions. The clock, the strings drawn, the signed web token and the session timeout are
-- arguments; a call returns the new state beside its answer.
pub mod Confirm
pub mod Handout
mod Examples
use easyserver.Base.{
  ℕ, ◌+◌, ◌*◌, String, Bool, true, false, not, ◌||◌, Option, none, some, ltb, if◌then◌else◌, ◌==◌,
  Result, ok, err, new_sentinel, bad_request, string_eq, AppError,
}
use easyserver.Base.Map.{Map, lookup, insert, erase, retain}
use easyserver.Auth.User.{User}
use easyserver.Auth.Session.{Sessions, Login, create_session}

pub data Status : Type 0 where
  pending confirmed consumed cancelled : Status

pub record QrSession : Type 0 where
  pub qr_token : String
  pub status : Status
  pub web_token : String
  pub user : Option User
  pub expires_at : ℕ
  pub creator_ua : String
  pub creator_ip : String

abbrev pub QrSessions : Type 0
QrSessions = Map String QrSession

-- What a polling client reads: the status it is told, and an expiry and a token where they are set.
pub data Reported : Type 0 where
  told_pending told_confirmed told_cancelled told_expired : Reported

pub record StatusResult : Type 0 where
  pub status : Reported
  pub expires_at : Option ℕ
  pub token : String

abbrev pub qr_not_pending : AppError
qr_not_pending = new_sentinel bad_request 40021

abbrev pub qr_expired : AppError
qr_expired = new_sentinel bad_request 40022

-- Two minutes in nanoseconds.
abbrev pub pending_ttl : ℕ
pending_ttl = 2 * 60 * 1_000_000_000

abbrev pub is_done : Status → Bool
is_done cancelled = true
is_done consumed = true
is_done _ = false

abbrev pub outlives : ℕ → QrSession → Bool
outlives now q = not (ltb q.expires_at now || is_done q.status)

unfoldable pub cleanup_expired_locked : ℕ → QrSessions → QrSessions
cleanup_expired_locked now s = retain (λ _ q. outlives now q) s

-- The rest of `CreateSession`, behind its cleanup.
unfoldable pub register_code :
    ℕ → Result String → String → String → QrSessions → QrSessions × Result (String × ℕ)
register_code now (err e) ua ip s = (s, err e)
register_code now (ok qr_token) ua ip s = (
  insert qr_token
      (record {
        qr_token = qr_token;
        status = pending;
        web_token = "";
        user = none;
        expires_at = now + pending_ttl;
        creator_ua = ua;
        creator_ip = ip;
      })
      s,
  ok (qr_token, now + pending_ttl),
)

-- `CreateSession` without another call between its cleanup, which does not take the mutex, and the
-- rest. Each half reads the clock.
unfoldable pub create_qr_session :
    (cleaned now : ℕ)
    → Result String
    → String
    → String
    → QrSessions
    → QrSessions × Result (String × ℕ)
create_qr_session cleaned now drawn ua ip s =
    register_code now drawn ua ip (cleanup_expired_locked cleaned s)

abbrev pub told : Reported → Option ℕ → String → StatusResult
told r exp token = record { status = r; expires_at = exp; token = token }

-- The answer for a session that is there, and its status afterwards.
unfoldable pub poll : ℕ → QrSession → Status → QrSession × StatusResult
poll now q confirmed =
    (record q { status = consumed }, told told_confirmed (some q.expires_at) q.web_token)
poll now q consumed = (q, told told_expired none "")
poll now q cancelled = (q, told told_cancelled (some q.expires_at) "")
poll now q pending =
    if ltb q.expires_at now
    then (q, told told_expired none "")
    else (q, told told_pending (some q.expires_at) "")

unfoldable pub get_status : ℕ → String → QrSessions → QrSessions × StatusResult
unfolding poll
get_status now qr_token s = elim (lookup qr_token s) [
  | none ↦ (s, told told_expired none "")
  | some q ↦ let (q', answer) = poll now q q.status in (insert qr_token q' s, answer)
]

-- The confirming request: the user, its address and agent, the web token or the error of signing
-- it, the random id of the new session, and the session timeout.
pub record Confirmation : Type 0 where
  pub user : User
  pub confirm_ip : String
  pub user_agent : String
  pub web_token : Result String
  pub sid : Result String
  pub session_timeout : ℕ

abbrev pub or_else : String → String → String
or_else s t = if s == "" then t else s

-- The login of the browser that showed the code, not of the phone that confirms.
abbrev pub web_login : ℕ → Confirmation → QrSession → Login
web_login now c q = record {
  user_id = c.user.id;
  ip = or_else q.creator_ip c.confirm_ip;
  user_agent = or_else q.creator_ua c.user_agent;
  client_type = "web";
  device_id = "";
  expires_at = now + c.session_timeout;
}

pub record State : Type 0 where
  pub codes : QrSessions
  pub sessions : Sessions

-- `Confirm` from the session on. The service is wired with a session service.
unfoldable pub confirm_pending :
    ℕ → String → Confirmation → QrSession → State → State × Result (Unit {0})
confirm_pending now qr_token c q s =
    if ltb q.expires_at now
    then (record s { codes = erase qr_token s.codes }, err qr_expired)
    else elim c.web_token [
      | err e ↦ (s, err e)
      | ok web_token ↦ elim (create_session c.sid now web_token (web_login now c q) s.sessions) [
        | err e ↦ (s, err e)
        | ok sessions ↦ (
          record {
            codes =
                insert qr_token
                  (record q { status = confirmed; web_token = web_token; user = some c.user })
                  s.codes;
            sessions = sessions;
          },
          ok tt,
        )
      ]
    ]

abbrev pub pending_only : Option QrSession → Option QrSession
pending_only none = none
pending_only (some q) = elim q.status [ pending ↦ some q | _ ↦ none ]

unfoldable pub confirm : ℕ → String → Confirmation → State → State × Result (Unit {0})
unfolding confirm_pending
confirm now qr_token c s = elim (pending_only (lookup qr_token s.codes)) [
  | none ↦ (s, err qr_not_pending)
  | some q ↦ confirm_pending now qr_token c q s
]

unfoldable pub cancel : String → QrSessions → QrSessions
cancel qr_token s = erase qr_token s
