-- ===== src/Infra/Config/Checks.antt =====
-- internal/infra/config/validate.go: `Validate`. Warnings and the refusal are values.
use easyserver.Base.{
  ℕ, ◌*◌, Bool, true, false, not, ◌&&◌, ◌||◌, Option, none, some, List, [], ◌∷◌, ◌++◌, map, ltb,
  leb, if◌then◌else◌, ◌==◌, nat_eq, ℤ, pos, negsuc, codes, length,
}
use easyserver.Base.Bytes.{bytes_eq}
use easyserver.Database.Statements.{Text}
use easyserver.Infra.Config.{TlsConfig, TurnstileConfig, LogsConfig, Config}
use easyserver.Infra.Config.Merging.{is_empty, second}

pub data Problem : Type 0 where
  no_jwt short_jwt weak_jwt uniform_jwt no_secrets_key trusts_all : Problem
  bad_proxy : Text → Problem
  no_turnstile_secret bad_rate_limit bad_rate_interval bad_login_limit bad_login_interval : Problem
  bad_assets_limit bad_assets_interval no_base_path root_base_path no_tls_files : Problem
  bad_tls bad_level bad_format : Text → Problem

pub record Outcome : Type 0 where
  pub warned : List Problem
  pub refused : Option Problem

abbrev pub fine : Outcome
fine = record { warned = []; refused = none }

abbrev pub refuse : Problem → Outcome
refuse p = record { warned = []; refused = some p }

abbrev pub warn : Problem → Outcome
warn p = record { warned = p ∷ []; refused = none }

-- `rejectOrWarn`.
abbrev pub reject_or_warn : Bool → Bool → Problem → Outcome
reject_or_warn dev false p = fine
reject_or_warn true true p = warn p
reject_or_warn false true p = refuse p

-- One check after the other, up to the first that refuses.
abbrev pub after : List Problem → Option Problem → Outcome → Outcome
after w none o = record { warned = w ++ o.warned; refused = o.refused }
after w (some p) o = record { warned = w; refused = some p }

abbrev pub and_then : Outcome → Outcome → Outcome
and_then o rest = after o.warned o.refused rest

abbrev pub run_checks : List Outcome → Outcome
run_checks [] = fine
run_checks (o ∷ os) = and_then o (run_checks os)

abbrev pub known_weak_jwt : List Text
known_weak_jwt =
    codes "easyserver-secret-key-change-me"
    ∷ codes "change-me-to-a-random-secret"
    ∷ codes "change-me-to-a-random-secret-at-least-32-bytes-long"
    ∷ codes "secret"
    ∷ codes "password"
    ∷ codes "12345678901234567890123456789012"
    ∷ []

abbrev pub check_weak : Bool → Text → List Text → Outcome
check_weak dev jwt [] = fine
check_weak dev jwt (weak ∷ ws) =
    if jwt == weak then reject_or_warn dev true weak_jwt else check_weak dev jwt ws

abbrev pub all_are : ℕ → Text → Bool
all_are c [] = true
all_are c (d ∷ s) = d == c && all_are c s

-- `uniformString`.
abbrev pub uniform_string : Text → Bool
uniform_string [] = true
uniform_string (c ∷ s) = all_are c s

abbrev pub out_of : ℕ → ℕ → ℤ → Bool
out_of lo hi (pos n) = ltb n lo || ltb hi n
out_of lo hi (negsuc n) = true

abbrev pub is_everyone : Text → Bool
is_everyone p = p == codes "0.0.0.0/0" || p == codes "::/0"

abbrev pub turnstile_on : TurnstileConfig → Bool
turnstile_on t = t.enable_login || t.enable_qr_login || t.enable_public_share

-- `validLogLevel` and `validLogFormat`.
abbrev pub is_one_of : Text → List Text → Bool
is_one_of s [] = false
is_one_of s (t ∷ ts) = s == t || is_one_of s ts

abbrev pub valid_log_level : Text → Bool
valid_log_level s =
    is_one_of s
      (codes "debug" ∷ codes "info" ∷ codes "warn" ∷ codes "warning" ∷ codes "error" ∷ [] ∷ [])

abbrev pub valid_log_format : Text → Bool
valid_log_format s = is_one_of s (codes "text" ∷ codes "json" ∷ [] ∷ [])

abbrev pub check_log : LogsConfig → Outcome
check_log c =
    if valid_log_level c.level
    then (if valid_log_format c.format then fine else refuse (bad_format c.format))
    else refuse (bad_level c.level)

abbrev pub require : Bool → Problem → Outcome
require true p = fine
require false p = refuse p

abbrev pub check_root : Text → Outcome
check_root path = if path == codes "/" then warn root_base_path else fine

abbrev pub check_cert : Bool → Option Text → Outcome
check_cert dev none = fine
check_cert dev (some e) = reject_or_warn dev true (bad_tls e)

-- `parses` tells whether package net reads a text as an address or a network; `cert_error` is
-- `ValidateTLSCert`, which reads the two files.
module _ (parses : Text → Bool) (cert_error : Text → Text → Option Text) where
  abbrev pub check_proxy : Bool → Text → Outcome
  check_proxy dev p =
      if is_everyone p then reject_or_warn dev true trusts_all else require (parses p) (bad_proxy p)

  abbrev pub check_tls : Bool → TlsConfig → Outcome
  check_tls dev c =
      if c.enabled
      then (if is_empty c.cert_file || is_empty c.key_file
          then reject_or_warn dev true no_tls_files
          else check_cert dev (cert_error c.cert_file c.key_file))
      else fine

  -- The checks of `Validate` in their order.
  abbrev pub checks : Bool → Config → List Outcome
  checks dev c =
      require (not (is_empty c.auth.jwt_secret)) no_jwt
      ∷ reject_or_warn dev (ltb (length c.auth.jwt_secret) 32) short_jwt
      ∷ check_weak dev c.auth.jwt_secret known_weak_jwt
      ∷ reject_or_warn dev (leb 32 (length c.auth.jwt_secret) && uniform_string c.auth.jwt_secret)
          uniform_jwt
      ∷ require (not (is_empty c.secrets_key)) no_secrets_key
      ∷ run_checks (map (check_proxy dev) c.server.trusted_proxies)
      ∷ reject_or_warn dev
          (turnstile_on c.server.turnstile && is_empty c.server.turnstile.secret_key)
          no_turnstile_secret
      ∷ reject_or_warn dev (out_of 10 100000 c.auth.rate_limit) bad_rate_limit
      ∷ reject_or_warn dev (out_of second (3600 * second) c.auth.rate_interval) bad_rate_interval
      ∷ reject_or_warn dev (out_of 1 100 c.auth.login_rate_limit) bad_login_limit
      ∷ reject_or_warn dev (out_of second (3600 * second) c.auth.login_rate_interval)
          bad_login_interval
      ∷ reject_or_warn dev (out_of 100 100000 c.server.assets_rate_limit) bad_assets_limit
      ∷ reject_or_warn dev (out_of second (3600 * second) c.server.assets_rate_interval)
          bad_assets_interval
      ∷ require (not (is_empty c.base_path)) no_base_path
      ∷ check_root c.base_path
      ∷ check_tls dev c.server.tls
      ∷ check_log c.logs
      ∷ []

  -- `Validate`.
  abbrev pub validate : Bool → Config → Outcome
  validate dev c = run_checks (checks dev c)
