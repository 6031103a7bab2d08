-- ===== src/Auth/QrLogin/Examples.antt =====
-- Tests of the scan-to-login calls, and the theorems at one login.
use easyserver.Base.{◌+◌, ◌≡◌, ◌≤◌, refl, [], ◌∷◌, string_eq, false, none, ok, err, List}
use easyserver.Base.Map.{lookup, insert, erase, retain}
use easyserver.Auth.User.{User}
use easyserver.Auth.Session.{is_session_valid, create_session}
use easyserver.Auth.QrLogin.{
  State, Confirmation, confirm, confirm_pending, register_code, create_qr_session,
  cleanup_expired_locked, cancel, get_status, poll, qr_expired,
}
use easyserver.Auth.QrLogin.Handout.{
  Call, cleans, registers, polls, confirms, step, handed, drawn, open_status, handed-le,
}

program : Unit {0}
unfolding lookup insert erase retain is_session_valid create_session confirm confirm_pending
    register_code create_qr_session cleanup_expired_locked cancel get_status poll step handed drawn
program = tt

abbrev owner : User
owner = record {
  id = 4;
  username = "root";
  password_hash = "";
  role = "admin";
  must_change_pass = false;
  last_login = none;
  last_login_ip = "";
  login_attempts = 0;
  locked_until = none;
  totp_secret = "";
  totp_enabled = false;
  totp_backup_codes = "";
  created_at = 0;
  updated_at = 0;
}

abbrev scanned : Confirmation
scanned = record {
  user = owner;
  confirm_ip = "10.0.0.2";
  user_agent = "phone";
  web_token = ok "w";
  sid = ok "s";
  session_timeout = 1000;
}

abbrev fresh : State
fresh = record { codes = []; sessions = [] }

abbrev shown : State
shown = record fresh { codes = (create_qr_session 0 0 (ok "q") "browser" "10.0.0.1" fresh.codes).0 }

confirmed_once : (confirm 5 "q" scanned shown).1 ≡ ok tt
unfolding program
confirmed_once = refl

expired_refused : (confirm 200_000_000_000 "q" scanned shown).1 ≡ err qr_expired
unfolding program
expired_refused = refl

abbrev history : List Call
history =
    registers 0 (ok "q") "browser" "10.0.0.1"
    ∷ cleans 1
    ∷ polls 1 "q"
    ∷ confirms 5 "q" scanned
    ∷ polls 6 "q"
    ∷ polls 7 "q"
    ∷ []

one_handout : handed "q" fresh history ≡ 1
unfolding program
one_handout = refl

handed-le_example :
    handed "q" fresh history ≤ open_status (lookup "q" fresh.codes) + drawn "q" history
handed-le_example = handed-le "q" fresh history tt
