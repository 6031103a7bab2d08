-- ===== src/Auth/Session.antt =====
-- internal/domain/auth/session.go: the sessions in memory, a map from the raw token to its session.
-- The clock (nanoseconds), the idle timeout read from the store, and what `RandomHex` returns are
-- arguments; the order of the map is the order in which Go's `range` meets the entries.
pub mod Validity
pub mod Trace
pub mod Invariant
pub mod Removal
pub mod Renewal
pub mod Listing
mod Examples
use easyserver.Base.{
  nat_eq, string_eq, ℕ, ◌+◌, String, Bool, true, false, not, ◌&&◌, ◌||◌, Option, none, some, List,
  [], ◌∷◌, ltb, leb, if◌then◌else◌, ◌==◌, keep, length, Result, ok, err, ◌>>=◌, plain_error,
  not_found,
}
use easyserver.Base.Map.{Map, lookup, insert, erase, retain, map_values, values}

pub record Session : Type 0 where
  pub id : String
  pub user_id : ℕ
  pub ip : String
  pub user_agent : String
  pub client_type : String
  pub login_at : ℕ
  pub expires_at : ℕ
  pub token : String
  pub device_id : String

abbrev pub Sessions : Type 0
Sessions = Map String Session

-- What a login says of itself: the arguments of `CreateSession` and `ReplaceSession`.
pub record Login : Type 0 where
  pub user_id : ℕ
  pub ip : String
  pub user_agent : String
  pub client_type : String
  pub device_id : String
  pub expires_at : ℕ

abbrev pub client_type_mobile_direct : String
client_type_mobile_direct = "mobile-direct"

-- Sessions whose life is not governed by the idle timeout.
abbrev pub is_mobile : String → Bool
is_mobile c = c == "mobile" || c == client_type_mobile_direct

-- `idle > 0 && sess.LoginAt.Before(now.Add(-idle))`, with the difference on the other side.
abbrev pub is_idle : ℕ → ℕ → Session → Bool
is_idle now idle sess = ltb 0 idle && ltb (sess.login_at + idle) now

unfoldable pub new_session : String → ℕ → String → Login → Session
new_session sid now token l = record {
  id = sid;
  user_id = l.user_id;
  ip = l.ip;
  user_agent = l.user_agent;
  client_type = l.client_type;
  login_at = now;
  expires_at = l.expires_at;
  token = token;
  device_id = l.device_id;
}

unfoldable pub create_session : Result String → ℕ → String → Login → Sessions → Result Sessions
unfolding new_session
create_session sid now token l s = do id ← sid; ok (insert token (new_session id now token l) s)

unfoldable pub update_activity : ℕ → String → Sessions → Result Sessions
update_activity now token s = elim (lookup token s) [
  | none ↦ err (plain_error not_found)
  | some sess ↦ ok (insert token (record sess { login_at = now }) s)
]

unfoldable pub remove_session : String → Sessions → Sessions
remove_session token s = erase token s

unfoldable pub remove_user_sessions : ℕ → Sessions → Sessions
remove_user_sessions user_id s = retain (λ _ sess. not (sess.user_id == user_id)) s

-- The old entry moved to the new token, under its own id, client type and device.
unfoldable pub renewed : ℕ → String → Login → Session → Session
renewed now new_token l old = record old {
  token = new_token;
  ip = l.ip;
  user_agent = l.user_agent;
  login_at = now;
  expires_at = l.expires_at;
}

-- The entry of the old token, if it belongs to the user.
abbrev pub owned_by : ℕ → Option Session → Option Session
owned_by user_id none = none
owned_by user_id (some old) = if old.user_id == user_id then some old else none

unfoldable pub replace_session :
    Result String → ℕ → String → String → Login → Sessions → Result Sessions
unfolding renewed new_session
replace_session sid now old_token new_token l s = do
  id ← sid
  ok (elim (owned_by l.user_id (lookup old_token s)) [
    | some old ↦ insert new_token (renewed now new_token l old) (erase old_token s)
    | none ↦ insert new_token (new_session id now new_token l) s
  ])

unfoldable pub touch : ℕ → ℕ → ℕ → Session → Session
touch now user_id ttl sess =
    if not (sess.user_id == user_id)
      || not (sess.client_type == "mobile")
      || leb sess.expires_at now
    then sess
    else record sess {
      login_at = now;
      expires_at = (if ltb sess.expires_at (now + ttl) then now + ttl else sess.expires_at);
    }

unfoldable pub touch_mobile_sessions : ℕ → ℕ → ℕ → Sessions → Sessions
unfolding touch
touch_mobile_sessions now user_id ttl s = map_values (touch now user_id ttl) s

-- The token of the first session of the user with the id.
unfoldable pub find_id : ℕ → String → Sessions → Option String
find_id user_id id [] = none
find_id user_id id ((token, sess) ∷ s) =
    if sess.id == id && sess.user_id == user_id then some token else find_id user_id id s

unfoldable pub remove_session_by_id : ℕ → String → Sessions → Sessions
remove_session_by_id user_id id s = elim (find_id user_id id s) [
  | none ↦ s
  | some token ↦ erase token s
]

unfoldable pub remove_mobile_sessions : ℕ → Sessions → Sessions
remove_mobile_sessions user_id s =
    retain (λ _ sess. not (sess.user_id == user_id && sess.client_type == "mobile")) s

-- `sort.Slice` by `LoginAt`, newest first.
unfoldable pub place : Session → List Session → List Session
place x [] = x ∷ []
place x (y ∷ ys) = if ltb x.login_at y.login_at then y ∷ place x ys else x ∷ y ∷ ys

unfoldable pub sort_newest : List Session → List Session
unfolding place
sort_newest [] = []
sort_newest (x ∷ xs) = place x (sort_newest xs)

abbrev pub is_listed : ℕ → ℕ → Session → Bool
is_listed now user_id sess =
    (sess.user_id == user_id && ltb now sess.expires_at)
    && not (sess.client_type == client_type_mobile_direct)

unfoldable pub get_user_sessions : ℕ → ℕ → Sessions → List Session
get_user_sessions now user_id s = sort_newest (keep (is_listed now user_id) (values s))

abbrev pub survives_cleanup : ℕ → ℕ → Session → Bool
survives_cleanup now idle sess =
    if ltb sess.expires_at now
    then false
    else not (ltb 0 idle && not (is_mobile sess.client_type) && ltb (sess.login_at + idle) now)

unfoldable pub cleanup_expired_sessions : ℕ → ℕ → Sessions → Sessions
cleanup_expired_sessions now idle s = retain (λ _ sess. survives_cleanup now idle sess) s

-- The body of `IsSessionValid` once the session is found.
abbrev pub is_live : ℕ → ℕ → Session → Bool
is_live now idle sess =
    if ltb sess.expires_at now
    then false
    else if not (is_mobile sess.client_type)
    then not (is_idle now idle sess)
    else true

unfoldable pub is_session_valid : ℕ → ℕ → String → Sessions → Bool
is_session_valid now idle token s = elim (lookup token s) [
  | none ↦ false
  | some sess ↦ is_live now idle sess
]

abbrev pub is_active : ℕ → ℕ → Session → Bool
is_active now idle sess = ltb now sess.expires_at && not (is_idle now idle sess)

unfoldable pub get_active_sessions : ℕ → ℕ → Sessions → List Session
get_active_sessions now idle s = sort_newest (keep (is_active now idle) (values s))

unfoldable pub get_session_count : ℕ → ℕ → Sessions → ℕ
get_session_count now idle s = length (get_active_sessions now idle s)

abbrev pub contains : String → List String → Bool
contains t [] = false
contains t (k ∷ ks) = t == k || contains t ks

-- Whether `RemoveOtherSessionsFilter` leaves the entry.
abbrev pub spared : ℕ → List String → String → Session → Bool
spared user_id keep_tokens token sess = not (sess.user_id == user_id) || contains token keep_tokens

-- The sessions handed to `onDeleted`, in order.
unfoldable pub deleted : ℕ → List String → Sessions → List Session
deleted user_id keep_tokens [] = []
deleted user_id keep_tokens ((token, sess) ∷ s) =
    if spared user_id keep_tokens token sess
    then deleted user_id keep_tokens s
    else sess ∷ deleted user_id keep_tokens s

unfoldable pub remove_other_sessions_filter : ℕ → List String → Sessions → Sessions × List Session
remove_other_sessions_filter user_id keep_tokens s =
    (retain (spared user_id keep_tokens) s, deleted user_id keep_tokens s)

unfoldable pub remove_other_sessions : ℕ → String → Sessions → Sessions
unfolding remove_other_sessions_filter
remove_other_sessions user_id current_token s =
    (remove_other_sessions_filter user_id (current_token ∷ []) s).0

unfoldable pub is_session_valid_by_token : String → Sessions → Result Session
is_session_valid_by_token token s = elim (lookup token s) [
  | none ↦ err (plain_error not_found)
  | some sess ↦ ok sess
]
