-- ===== src/Auth/Account/Locking.antt =====
-- How wrong passwords lock an account.
use easyserver.Base.{
  ℕ, suc, ◌+◌, ◌-◌, ◌≤◌, ◌<◌, String, ◌≡◌, refl, inl, inr, Bool, false, none, some, List, [], ◌∷◌,
  arith, ltb, leb, if◌then◌else◌, Bool-cases, nat_eq, string_eq, All, err,
}
use easyserver.Auth.User.{User}
use easyserver.Auth.Account.{
  Users, Password, account_locked, invalid_credentials, login_failed, login_failed_locked,
  get_by_username, update, failed_login, increment_login_attempts, is_locked, verify_password,
  login_user, login_with_info,
}
use easyserver.Auth.Account.Table.{
  IsTable, get_by_username-lookup, get_by_username-update, update-IsTable,
}

module _ (matches : Password → String → Bool) (max_attempts lockout : ℕ)
    (username ip : String) where
  -- The user after a wrong password.
  abbrev after_wrong : ℕ → User → User
  after_wrong now u = if is_locked now u then u else failed_login now max_attempts lockout u

  -- A login with a wrong password is refused: unread, if the account is locked, and else it counts;
  -- the event says that the account was locked just now whenever there is a limit.
  pub wrong_login :
      (now : ℕ) (p : Password) (u : User) (m : Users)
      → IsTable m
      → get_by_username username m ≡ some u
      → verify_password matches p u.password_hash ≡ false
      → login_with_info matches false false now max_attempts lockout username p ip m ≡ (
          if is_locked now u then (m, err account_locked, none) else (
            update (failed_login now max_attempts lockout) u.id m,
            err invalid_credentials,
            some (if ltb 0 max_attempts then login_failed_locked else login_failed),
          ))
  unfolding login_with_info login_user increment_login_attempts
  wrong_login now p u m h e w =
      let found = (get_by_username-lookup username m u h e).0 in ground (arith, e, w, found)

  wrong_user :
      (now : ℕ) (p : Password) (u : User) (m : Users)
      → IsTable m
      → get_by_username username m ≡ some u
      → verify_password matches p u.password_hash ≡ false
      → let m' = (login_with_info matches false false now max_attempts lockout username p ip m).0 in
        IsTable m' × (get_by_username username m' ≡ some (after_wrong now u))
  wrong_user now p u m h e w =
      let f = failed_login now max_attempts lockout in
      let table = update-IsTable f u.id m (λ x. refl) h in
      let named = get_by_username-update f username u m h e refl in
      rw (wrong_login now p u m h e w) (elim (Bool-cases (is_locked now u)) [
        | inl locked ↦ rw locked (h, e)
        | inr free ↦ rw free (table, named)
      ])

  -- Wrong passwords one after the other: how many were checked, the others being refused unread.
  unfoldable pub wrong_passwords : List (ℕ × Password) → Users → ℕ
  wrong_passwords [] m = 0
  wrong_passwords ((now, p) ∷ tries) m =
      let (m', answer, event) =
        login_with_info matches false false now max_attempts lockout username p ip m in
      let n = wrong_passwords tries m' in elim event [ none ↦ n | some _ ↦ suc n ]

  -- The tries fall into a stretch of time no longer than the lockout, and none is the password.
  abbrev pub IsWrong : ℕ → String → ℕ × Password → Type 0
  IsWrong start hash (now, p) =
      (start ≤ now) × (now < start + lockout) × (verify_password matches p hash ≡ false)

  -- The checks still open until `end`.
  abbrev left : ℕ → User → ℕ
  left end u =
      if is_locked (end - 1) u
      then 0
      else if leb max_attempts u.login_attempts
      then 1
      else max_attempts - u.login_attempts

  left_drops :
      (start now : ℕ) (u : User)
      → 0 < max_attempts
      → start ≤ now
      → now < start + lockout
      → is_locked now u ≡ false
      → suc (left (start + lockout) (failed_login now max_attempts lockout u))
        ≤ left (start + lockout) u
  left_drops start now u pos' s e free = ground (arith, pos', s, e, free)

  checked_le :
      (start : ℕ) (tries : List (ℕ × Password)) (u : User) (m : Users)
      → 0 < max_attempts
      → IsTable m
      → get_by_username username m ≡ some u
      → All (IsWrong start u.password_hash) tries
      → wrong_passwords tries m ≤ left (start + lockout) u
  unfolding wrong_passwords
  checked_le start [] u m pos' h e w = omega arith
  checked_le start ((now, p) ∷ tries) u m pos' h e w =
      let next = wrong_user now p u m h e w.0.2 in
      let result = wrong_login now p u m h e w.0.2 in
      let same : (after_wrong now u).password_hash ≡ u.password_hash = ground arith in
      let rest = checked_le start tries (after_wrong now u) _ pos' next.0 next.1 (rw same w.1) in
      elim (Bool-cases (is_locked now u)) [
        | inl locked ↦ ground (arith, result, locked, rest)
        | inr free ↦
            ground (arith, result, free, rest, left_drops start now u pos' w.0.0 w.0.1 free)
      ]

  -- Of the wrong passwords for an account that come one after the other within the time of one
  -- lockout, with no statement of the database failing, no more are checked than the limit allows.
  pub wrong_passwords_bounded :
      (start : ℕ) (tries : List (ℕ × Password)) (u : User) (m : Users)
      → 0 < max_attempts
      → IsTable m
      → get_by_username username m ≡ some u
      → All (IsWrong start u.password_hash) tries
      → wrong_passwords tries m ≤ max_attempts
  wrong_passwords_bounded start tries u m pos' h e w =
      ground (arith, checked_le start tries u m pos' h e w, pos')
