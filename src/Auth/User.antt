-- ===== src/Auth/User.antt =====
-- internal/domain/auth/model.go: a row of the table `users`. Times are numbers, and a NULL time is
-- `none`.
use easyserver.Base.{ℕ, String, Bool, Option}

pub record User : Type 0 where
  pub id : ℕ
  pub username : String
  pub password_hash : String
  pub role : String
  pub must_change_pass : Bool
  pub last_login : Option ℕ
  pub last_login_ip : String
  pub login_attempts : ℕ
  pub locked_until : Option ℕ
  pub totp_secret : String
  pub totp_enabled : Bool
  pub totp_backup_codes : String
  pub created_at : ℕ
  pub updated_at : ℕ
