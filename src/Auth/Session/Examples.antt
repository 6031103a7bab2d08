-- ===== src/Auth/Session/Examples.antt =====
-- Tests of the sessions, and the theorems at a small table.
use easyserver.Base.{
  ◌≡◌, refl, none, string_eq, nat_eq, true, false, [], ◌∷◌, ok, if◌then◌else◌, keep,
}
use easyserver.Base.Map.{lookup, erase, insert, retain}
use easyserver.Auth.Session.{
  Session, Sessions, Login, is_session_valid, cleanup_expired_sessions, remove_user_sessions,
  remove_session_by_id, get_user_sessions, get_active_sessions, get_session_count, find_id, place,
  sort_newest,
}
use easyserver.Auth.Session.Invariant.{IsValid, run-IsValid}
use easyserver.Auth.Session.Trace.{creates, cleans, run}
use easyserver.Auth.Session.Validity.{lookup-cleanup_expired_sessions}

abbrev phone : Session
phone = record {
  id = "a1";
  user_id = 1;
  ip = "10.0.0.1";
  user_agent = "app";
  client_type = "mobile";
  login_at = 10;
  expires_at = 500;
  token = "t1";
  device_id = "d1";
}

abbrev browser : Session
browser = record {
  id = "b2";
  user_id = 1;
  ip = "10.0.0.2";
  user_agent = "firefox";
  client_type = "web";
  login_at = 20;
  expires_at = 900;
  token = "t2";
  device_id = "";
}

abbrev guest : Session
guest = record {
  id = "c3";
  user_id = 2;
  ip = "10.0.0.3";
  user_agent = "curl";
  client_type = "web";
  login_at = 5;
  expires_at = 40;
  token = "t3";
  device_id = "";
}

abbrev table : Sessions
table = ("t1", phone) ∷ ("t2", browser) ∷ ("t3", guest) ∷ []

abbrev fresh_login : Login
fresh_login = record {
  user_id = 1;
  ip = "10.0.0.9";
  user_agent = "app 2";
  client_type = "mobile";
  device_id = "d1";
  expires_at = 700;
}

table-IsValid : IsValid table
unfolding lookup
table-IsValid = record { unique = (refl, (refl, (refl, tt))); keyed = (refl, (refl, (refl, tt))) }

program : Unit {0}
unfolding lookup insert erase retain is_session_valid cleanup_expired_sessions remove_user_sessions
    get_user_sessions get_active_sessions get_session_count find_id remove_session_by_id place
    sort_newest keep
program = tt

-- At 45 the guest has expired; at 100 with an idle timeout of 50 the browser is idle and the phone
-- is not held to it.
validity :
    (is_session_valid 45 0 "t3" table ≡ false)
    × (is_session_valid 100 50 "t2" table ≡ false)
    × (is_session_valid 100 50 "t1" table ≡ true)
unfolding program
validity = (refl, refl, refl)

cleaned : cleanup_expired_sessions 100 50 table ≡ ("t1", phone) ∷ []
unfolding program
cleaned = refl

listed : get_user_sessions 30 1 table ≡ browser ∷ phone ∷ []
unfolding program
listed = refl

lookup-cleanup_expired_sessions_example :
    lookup "t2" (cleanup_expired_sessions 100 50 table)
    ≡ (if is_session_valid 100 50 "t2" table then lookup "t2" table else none)
lookup-cleanup_expired_sessions_example =
    lookup-cleanup_expired_sessions 100 50 "t2" table table-IsValid.unique

run-IsValid_example :
    IsValid (run table (creates (ok "e5") 60 "t4" fresh_login ∷ cleans 100 50 ∷ []))
run-IsValid_example =
    run-IsValid table (creates (ok "e5") 60 "t4" fresh_login ∷ cleans 100 50 ∷ []) table-IsValid
