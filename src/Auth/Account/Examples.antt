-- ===== src/Auth/Account/Examples.antt =====
-- Tests of logging in, and the theorems at a table of one user. A "hash" is the password's length.
use easyserver.Base.Map.{lookup, insert}
use easyserver.Base.{
  ℕ, ◌≤◌, String, ◌≡◌, refl, Bool, true, false, none, some, List, [], ◌∷◌, arith, ltb,
  if◌then◌else◌, ◌==◌, nat_eq, string_eq, codes, length, Result, ok,
}
use easyserver.Auth.User.{User}
use easyserver.Auth.Account.{
  Users, Password, get_by_username, increment_login_attempts, reset_login_state, verify_password,
  login_user, login_with_info, same_bytes, validate_password, has_between, is_among, hash_password,
  change_password,
}
use easyserver.Auth.Account.Table.{IsTable}
use easyserver.Auth.Account.Locking.{wrong_passwords, wrong_passwords_bounded}

program : Unit {0}
unfolding lookup insert get_by_username increment_login_attempts reset_login_state verify_password
    login_user login_with_info same_bytes validate_password has_between is_among hash_password
    change_password
program = tt

abbrev tag : Password → String
tag p = if ltb (length p) 10 then "short" else "long"

abbrev matches : Password → String → Bool
matches p hash = tag p == hash

abbrev hashed : Password → Result String
hashed p = ok (tag p)

abbrev root : User
root = record {
  id = 1;
  username = "root";
  password_hash = "short";
  role = "admin";
  must_change_pass = true;
  last_login = none;
  last_login_ip = "";
  login_attempts = 0;
  locked_until = none;
  totp_secret = "";
  totp_enabled = false;
  totp_backup_codes = "";
  created_at = 0;
  updated_at = 0;
}

abbrev users : Users
users = (1, root) ∷ []

users-IsTable : IsTable users
unfolding lookup
users-IsTable = record { unique = (refl, tt); keyed = (refl, tt) }

root_found : get_by_username "root" users ≡ some root
unfolding program
root_found = refl

too_long_wrong : verify_password matches (codes "not the password") "short" ≡ false
unfolding program
too_long_wrong = refl

weak_refused : validate_password (codes "Password123") ≡ false
unfolding program
weak_refused = refl

strong_accepted : validate_password (codes "Correct7Horse") ≡ true
unfolding program
strong_accepted = refl

abbrev guesses : List (ℕ × Password)
guesses =
    (50, codes "not the password")
    ∷ (51, codes "nor this, either")
    ∷ (52, codes "nor that one")
    ∷ []

third_unread : wrong_passwords matches 2 900 "root" "ip" guesses users ≡ 2
unfolding program wrong_passwords
third_unread = refl

wrong_passwords_bounded_example : wrong_passwords matches 2 900 "root" "ip" guesses users ≤ 2
unfolding program
wrong_passwords_bounded_example =
    wrong_passwords_bounded matches 2 900 "root" "ip" 50 guesses root users (omega arith)
      users-IsTable root_found
      (
        (omega arith, omega arith, refl),
        ((omega arith, omega arith, refl), ((omega arith, omega arith, refl), tt)),
      )

abbrev new_password : Password
new_password = codes "Correct7Horse"

changes : (change_password matches hashed false 50 1 (codes "Old1") new_password users).1 ≡ ok tt
unfolding program
changes = refl

tag_matches : (p : Password) (hash : String) → hashed p ≡ ok hash → matches p hash ≡ true
tag_matches p hash e =
    let same : tag p ≡ hash = ground (arith, e) in
    rw (← same) ((string_eq.test_iff (tag p) (tag p)).1 refl)
