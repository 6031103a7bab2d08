-- ===== src/Auth/Session/Renewal.antt =====
-- What a refresh and a direct-channel touch do to the sessions.
use easyserver.Base.{
  ℕ, ◌+◌, ◌≤◌, ◌<◌, String, ◌≡◌, refl, inl, inr, none, some, arith, string_eq, nat_eq, true,
  Option-cases, ok, if◌then◌else◌, ◌==◌,
}
use easyserver.Base.Map.{lookup, insert, erase, lookup-insert, lookup-erase, lookup-map_values}
use easyserver.Auth.Session.{
  Sessions, Session, Login, owned_by, renewed, replace_session, touch, touch_mobile_sessions,
  is_session_valid, is_live, create_session, update_activity,
}

-- `ReplaceSession` over a session of the same user: the new token has the old session under its own
-- id, client type and device, with the new address, agent, expiry and activity; the old token is
-- gone unless it is the new one; every other token is as it was.
pub replace_session_owned :
    (id : String) (now : ℕ) (old_token new_token : String) (l : Login) (old : Session)
    (s : Sessions)
    → lookup old_token s ≡ some old
    → old.user_id ≡ l.user_id
    → (t : Sessions) × (replace_session (ok id) now old_token new_token l s ≡ ok t)
      × ((token : String)
          → lookup token t ≡ (
              if new_token == token
              then some (record old {
                token = new_token;
                ip = l.ip;
                user_agent = l.user_agent;
                login_at = now;
                expires_at = l.expires_at;
              })
              else if old_token == token
              then none
              else lookup token s))
unfolding replace_session
replace_session_owned id now old_token new_token l old s found owned = (
  insert new_token (renewed now new_token l old) (erase old_token s),
  ground (arith, found, owned),
  λ token.
      rw (lookup-insert new_token token (renewed now new_token l old) (erase old_token s))
        (rw (lookup-erase old_token token s) refl),
)

-- `ReplaceSession` with no session under the old token, or with one of another user, is a login: a
-- fresh session under the new token, and every other token as it was, the old one included.
pub replace_session_fresh :
    (id : String) (now : ℕ) (old_token new_token : String) (l : Login) (s : Sessions)
    → owned_by l.user_id (lookup old_token s) ≡ none
    → replace_session (ok id) now old_token new_token l s ≡ create_session (ok id) now new_token l s
unfolding replace_session create_session
replace_session_fresh id now old_token new_token l s none' = rw (none', replace_session)

touch_live :
    (now user_id ttl idle : ℕ) (sess : Session)
    → is_live now idle (touch now user_id ttl sess) ≡ is_live now idle sess
unfolding touch
touch_live now user_id ttl idle sess = ground arith

-- Activity on the direct channel revives nobody and shuts nobody out: at that moment every token is
-- accepted or refused as before.
pub is_session_valid-touch_mobile_sessions :
    (now user_id ttl idle : ℕ) (token : String) (s : Sessions)
    → is_session_valid now idle token (touch_mobile_sessions now user_id ttl s)
      ≡ is_session_valid now idle token s
unfolding is_session_valid touch_mobile_sessions
is_session_valid-touch_mobile_sessions now user_id ttl idle token s =
    elim (Option-cases (lookup token s)) [
      | inl e ↦ ground (arith, e, lookup-map_values (touch now user_id ttl) token s)
      | inr (sess, e) ↦ ground (
        arith,
        e,
        lookup-map_values (touch now user_id ttl) token s,
        touch_live now user_id ttl idle sess,
      )
    ]

-- The touch puts the expiry of an unexpired mobile session of the user to `ttl` from now at the
-- least, does not bring it forward, and counts as activity.
pub touch_mobile_sessions_extends :
    (now user_id ttl : ℕ) (token : String) (sess : Session) (s : Sessions)
    → lookup token s ≡ some sess
    → sess.user_id ≡ user_id
    → sess.client_type ≡ "mobile"
    → now < sess.expires_at
    → (after : Session) × (lookup token (touch_mobile_sessions now user_id ttl s) ≡ some after)
      × (now + ttl ≤ after.expires_at)
      × (sess.expires_at ≤ after.expires_at)
      × (after.login_at ≡ now)
unfolding touch_mobile_sessions
touch_mobile_sessions_extends now user_id ttl token sess s found own mobile unexpired =
    let text = string_eq.test_iff sess.client_type "mobile" in
    (
      touch now user_id ttl sess,
      ground (arith, found, lookup-map_values (touch now user_id ttl) token s),
      unfold touch in ground (arith, text),
      unfold touch in ground arith,
      unfold touch in ground (arith, text),
    )

-- Reported activity restarts the idle clock of an unexpired session: the token is accepted for the
-- whole idle timeout that follows, as far as its expiry.
pub update_activity_valid :
    (now later idle : ℕ) (token : String) (sess : Session) (s : Sessions)
    → lookup token s ≡ some sess
    → later ≤ now + idle
    → later ≤ sess.expires_at
    → (t : Sessions) × (update_activity now token s ≡ ok t)
      × (is_session_valid later idle token t ≡ true)
unfolding update_activity is_session_valid
update_activity_valid now later idle token sess s found recent unexpired = (
  insert token (record sess { login_at = now }) s,
  ground (arith, found),
  ground (
    arith,
    lookup-insert token token (record sess { login_at = now }) s,
    string_eq.test_iff token token,
  ),
)
