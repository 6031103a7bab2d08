-- ===== src/Auth/Account/Passwords.antt =====
-- Changing a password, and logging in with the new one.
use easyserver.Base.Map.{lookup}
use easyserver.Base.{
  Result-cases, ℕ, ◌≤◌, String, ◌≡◌, refl, ap, ◌⊎◌, inl, inr, Bool, true, false, some, arith,
  Bool-cases, Option-cases, nat_eq, string_eq, length, Result, ok, err, AppError, plain_error,
  not_found, internal,
}
use easyserver.Auth.User.{User}
use easyserver.Auth.Account.{
  Users, Password, account_locked, old_password_invalid, same_password, invalid_password,
  get_by_username, update, is_locked, login_success, verify_password, login_user, login_with_info,
  same_bytes, validate_password, with_password, hash_password, change_password,
}
use easyserver.Auth.Account.Table.{IsTable, get_by_username-update}

-- bcrypt: what was hashed matches its hash.
abbrev pub IsBcrypt : (Password → String → Bool) → (Password → Result String) → Type 0
IsBcrypt matches hashed =
    (p : Password) (hash : String) → (hashed p ≡ ok hash) → matches p hash ≡ true

module _ (matches : Password → String → Bool) (hashed : Password → Result String) where
  -- What stands when a password has been changed from a table to another.
  pub record Changes (now id : ℕ) (old new : Password) (m m' : Users) (u : User) (hash : String)
      : Type 0 where
    pub found : lookup id m ≡ some u
    pub unlocked : is_locked now u ≡ false
    pub proved : verify_password matches old u.password_hash ≡ true
    pub different : same_bytes old new ≡ false
    pub valid : validate_password new ≡ true
    pub hashes : hashed new ≡ ok hash
    pub result : m' ≡ update (with_password now hash) id m

  valid-length : (p : Password) → validate_password p ≡ true → length p ≤ 72
  unfolding validate_password
  valid-length p v = ground (arith, v)

  -- A password is changed by who knows the old one, while the account is not locked, to a valid
  -- password that differs; in every other case the table of users stays as it was.
  pub change_password_cases :
      (down : Bool) (now id : ℕ) (old new : Password) (m : Users)
      → ((e : AppError) × (change_password matches hashed down now id old new m ≡ (m, err e)))
        ⊎ ((u : User) × (hash : String) × Changes now id old new m
              (change_password matches hashed down now id old new m).0
              u
              hash
            × ((change_password matches hashed down now id old new m).1 ≡ ok tt))
  unfolding change_password hash_password
  change_password_cases down now id old new m = elim (Option-cases (lookup id m)) [
    | inl e ↦ inl (plain_error not_found, ground (arith, e))
    | inr (u, e) ↦ elim (Bool-cases (is_locked now u)) [
      | inl locked ↦ inl (account_locked, ground (arith, e, locked))
      | inr free ↦ elim (Bool-cases (verify_password matches old u.password_hash)) [
        | inr wrong ↦ inl (old_password_invalid, ground (arith, e, free, wrong))
        | inl right ↦ elim (Bool-cases (same_bytes old new)) [
          | inl same ↦ inl (same_password, ground (arith, e, free, right, same))
          | inr differ ↦ elim (Bool-cases (validate_password new)) [
            | inr bad ↦ inl (invalid_password, ground (arith, e, free, right, differ, bad))
            | inl good ↦
                let short = valid-length new good in
                elim (Result-cases (hashed new)) [
                  | inr (x, r) ↦ inl (x, ground (arith, e, free, right, differ, good, short, r))
                  | inl (hash, r) ↦ elim (Bool-cases down) [
                    | inl broken ↦ inl (
                      plain_error internal,
                      ground (arith, e, free, right, differ, good, short, r, broken),
                    )
                    | inr up ↦
                        let whole : change_password matches hashed down now id old new m
                            ≡ (update (with_password now hash) id m, ok tt) =
                          ground (arith, e, free, right, differ, good, short, r, up) in
                        inr (
                          u,
                          hash,
                          record {
                            found = e;
                            unlocked = free;
                            proved = right;
                            different = differ;
                            valid = good;
                            hashes = r;
                            result = ap (λ x. x.0) whole;
                          },
                          ap (λ x. x.1) whole,
                        )
                  ]
                ]
          ]
        ]
      ]
    ]
  ]

  -- After a password was changed for the user of a name, a login under that name with the new
  -- password succeeds as long as the account is not locked, whatever bcrypt's hashes are.
  pub login-change_password :
      (now later id max_attempts lockout : ℕ) (old new : Password) (name ip : String) (m : Users)
      (u : User)
      → IsBcrypt matches hashed
      → IsTable m
      → get_by_username name m ≡ some u
      → u.id ≡ id
      → is_locked later u ≡ false
      → (change_password matches hashed false now id old new m).1 ≡ ok tt
      → let m' = (change_password matches hashed false now id old new m).0 in
        (login_with_info matches false false later max_attempts lockout name new ip m').2
        ≡ some login_success
  unfolding login_with_info login_user verify_password
  login-change_password now later id max_attempts lockout old new name ip m u crypt h e key free
        done =
      elim (change_password_cases false now id old new m) [
        | inl (x, r) ↦ absurd (ground (arith, r, done))
        | inr (v, hash, c, _) ↦
            let m' = (change_password matches hashed false now id old new m).0 in
            let named : get_by_username name m' ≡ some (with_password now hash u) =
              rw (c.result, ← key)
                (get_by_username-update (with_password now hash) name u m h e refl) in
            let short = valid-length new c.valid in
            let fits = crypt new hash c.hashes in ground (arith, named, short, fits, free)
      ]
