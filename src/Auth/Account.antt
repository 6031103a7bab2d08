-- ===== src/Auth/Account.antt =====
-- internal/domain/auth/service.go and repo_sqlite_user.go: logging in by password, the lock of an
-- account, and changing a password. Passwords are lists of bytes; times are whole seconds, as SQLite
-- computes them. bcrypt is the arguments `matches` and `hashed`; `down` says that the database
-- fails at an update, and `absent` that it fails at reading the user.
pub mod Table
pub mod Locking
pub mod Passwords
mod Examples
use easyserver.Base.Map.{Map, lookup, insert}
use easyserver.Base.{
  ℕ, ◌+◌, String, Bool, true, false, not, ◌&&◌, ◌||◌, Option, none, some, List, [], ◌∷◌, map, ltb,
  leb, if◌then◌else◌, ◌==◌, nat_eq, string_eq, nat_test, codes, length, Result, ok, err, AppError,
  new_sentinel, plain_error, bad_request, unauthorized, forbidden, not_found, internal,
}
use easyserver.Auth.User.{User}

abbrev pub Users : Type 0
Users = Map ℕ User

abbrev pub Password : Type 0
Password = List ℕ

abbrev pub invalid_credentials : AppError
invalid_credentials = new_sentinel unauthorized 40101

abbrev pub account_locked : AppError
account_locked = new_sentinel forbidden 40301

abbrev pub old_password_invalid : AppError
old_password_invalid = new_sentinel bad_request 40001

abbrev pub same_password : AppError
same_password = new_sentinel bad_request 40002

abbrev pub invalid_password : AppError
invalid_password = new_sentinel bad_request 40010

unfoldable pub get_by_username : String → Users → Option User
get_by_username name [] = none
get_by_username name ((id, u) ∷ m) = if u.username == name then some u else get_by_username name m

-- `UPDATE users SET ... WHERE id = ?`, and how many rows it changed.
abbrev pub update : (User → User) → ℕ → Users → Users
update f id m = elim (lookup id m) [ none ↦ m | some u ↦ insert id (f u) m ]

-- The user after one more failure: the lock is set from `max_attempts` failures on, if there is a
-- limit.
abbrev pub failed_login : ℕ → ℕ → ℕ → User → User
failed_login now max_attempts lockout u = record u {
  login_attempts = u.login_attempts + 1;
  locked_until =
      (if ltb 0 max_attempts && leb max_attempts (u.login_attempts + 1)
        then some (now + lockout)
        else u.locked_until);
}

abbrev pub is_present : Option User → Bool
is_present none = false
is_present (some u) = true

-- `IncrementLoginAttempts`, with its answer: a row was changed and there is a limit.
unfoldable pub increment_login_attempts : Bool → ℕ → ℕ → ℕ → ℕ → Users → Users × Bool
increment_login_attempts down now id max_attempts lockout m = if down then (m, false) else (
  update (failed_login now max_attempts lockout) id m,
  is_present (lookup id m) && ltb 0 max_attempts,
)

abbrev pub logged_in : ℕ → String → User → User
logged_in now ip u = record u {
  login_attempts = 0;
  locked_until = none;
  last_login = some now;
  last_login_ip = ip;
}

unfoldable pub reset_login_state : Bool → ℕ → ℕ → String → Users → Users
reset_login_state down now id ip m = if down then m else update (logged_in now ip) id m

abbrev pub is_locked : ℕ → User → Bool
is_locked now u = elim u.locked_until [ none ↦ false | some t ↦ ltb now t ]

-- What is told to the notifier and to the plugins: a login, a failure, or a failure that is said to
-- have locked the account.
pub data LoginEvent : Type 0 where
  login_success login_failed login_failed_locked : LoginEvent

module _ (matches : Password → String → Bool) where
  unfoldable pub verify_password : Password → String → Bool
  verify_password p hash = if ltb 72 (length p) then false else matches p hash

  -- `LoginWithInfo` from the user on.
  unfoldable pub login_user :
      Bool → ℕ → ℕ → ℕ → User → Password → String → Users → Users × Result User × Option LoginEvent
  unfolding verify_password increment_login_attempts reset_login_state
  login_user down now max_attempts lockout u password ip m =
      if is_locked now u
      then (m, err account_locked, none)
      else if not (verify_password password u.password_hash)
      then (let (m', just_locked) = increment_login_attempts down now u.id max_attempts lockout m in
          (
            m',
            err invalid_credentials,
            some (if just_locked then login_failed_locked else login_failed),
          ))
      else (reset_login_state down now u.id ip m, ok u, some login_success)

  unfoldable pub login_with_info :
      Bool
      → Bool
      → ℕ
      → ℕ
      → ℕ
      → String
      → Password
      → String
      → Users
      → Users × Result User × Option LoginEvent
  unfolding login_user
  login_with_info absent down now max_attempts lockout username password ip m =
      elim (if absent then none else get_by_username username m) [
        | none ↦ (m, err invalid_credentials, some login_failed)
        | some u ↦ login_user down now max_attempts lockout u password ip m
      ]

unfoldable pub has_between : ℕ → ℕ → Password → Bool
has_between low high [] = false
has_between low high (c ∷ p) = (leb low c && leb c high) || has_between low high p

-- `strings.ToLower`, of ASCII.
abbrev pub lower : ℕ → ℕ
lower c = if leb 65 c && leb c 90 then c + 32 else c

abbrev pub weak_passwords : List Password
weak_passwords =
    codes "password"
    ∷ codes "12345678"
    ∷ codes "qwerty123"
    ∷ codes "admin123"
    ∷ codes "password123"
    ∷ codes "letmein123"
    ∷ codes "welcome123"
    ∷ []

unfoldable pub same_bytes : Password → Password → Bool
same_bytes [] [] = true
same_bytes (a ∷ p) (b ∷ q) = nat_test a b && same_bytes p q
same_bytes _ _ = false

unfoldable pub is_among : Password → List Password → Bool
is_among p [] = false
is_among p (q ∷ qs) = same_bytes p q || is_among p qs

unfoldable pub validate_password : Password → Bool
unfolding has_between is_among
validate_password p =
    if ltb (length p) 8 || ltb 72 (length p)
    then false
    else if not (has_between 65 90 p) || not (has_between 97 122 p) || not (has_between 48 57 p)
    then false
    else not (is_among (map lower p) weak_passwords)

abbrev pub with_password : ℕ → String → User → User
with_password now hash u = record u {
  password_hash = hash;
  must_change_pass = false;
  updated_at = now;
}

module _ (matches : Password → String → Bool) (hashed : Password → Result String) where
  unfoldable pub hash_password : Password → Result String
  hash_password p = if ltb 72 (length p) then err invalid_password else hashed p

  unfoldable pub change_password :
      Bool → ℕ → ℕ → Password → Password → Users → Users × Result (Unit {0})
  unfolding verify_password hash_password
  change_password down now id old new m = elim (lookup id m) [
    | none ↦ (m, err (plain_error not_found))
    | some u ↦
        if is_locked now u
        then (m, err account_locked)
        else if not (verify_password matches old u.password_hash)
        then (m, err old_password_invalid)
        else if same_bytes old new
        then (m, err same_password)
        else if not (validate_password new)
        then (m, err invalid_password)
        else elim (hash_password new) [
          | err e ↦ (m, err e)
          | ok hash ↦
              if down
              then (m, err (plain_error internal))
              else (update (with_password now hash) id m, ok tt)
        ]
  ]
