-- ===== src/Infra/Config.antt =====
-- internal/infra/config/config.go: the configuration, as far as its defaults and its checks are
-- concerned. A text is the list of its bytes; durations are in nanoseconds.
pub mod Merging
pub mod Checks
pub mod Passing
pub mod Acceptance
pub mod Repeated
pub mod Reloading
mod Examples
use easyserver.Base.{
  test_refl, ℕ, zero, suc, ◌+◌, ◌-◌, ◌*◌, ◌^◌, ◌≤◌, ◌<◌, ◌≡◌, refl, sym, ap, ◌∙◌, subst, ◌≢◌, ◌↔◌,
  ◌⊎◌, inl, inr, Bool, true, false, not, ◌&&◌, ◌||◌, Option, none, some, List, [], ◌∷◌, ◌++◌, arith,
  ltb, leb, leb→le, if◌then◌else◌, Bool-cases, Option-cases, Eq, ◌==◌, nat_eq, ℤ, pos, negsuc,
  codes, length, All,
}
use easyserver.Base.Bytes.{bytes_eq}
use easyserver.Database.Statements.{Text}

pub record TlsConfig : Type 0 where
  pub enabled : Bool
  pub cert_file : Text
  pub key_file : Text

pub record TurnstileConfig : Type 0 where
  pub site_key : Text
  pub secret_key : Text
  pub enable_login : Bool
  pub enable_qr_login : Bool
  pub enable_public_share : Bool

pub record ServerConfig : Type 0 where
  pub port : ℤ
  pub host : Text
  pub allowed_origins : List Text
  pub dev_mode : Bool
  pub domain : Text
  pub force_domain : Bool
  pub trusted_platform : Text
  pub trusted_proxies : List Text
  pub tls : TlsConfig
  pub turnstile : TurnstileConfig
  pub assets_rate_limit : ℤ
  pub assets_rate_interval : ℤ
  pub max_upload_size : ℤ

pub record AuthConfig : Type 0 where
  pub jwt_secret : Text
  pub session_timeout : ℤ
  pub idle_timeout : ℤ
  pub max_login_attempts : ℤ
  pub lockout_duration : ℤ
  pub rate_limit : ℤ
  pub rate_interval : ℤ
  pub login_rate_limit : ℤ
  pub login_rate_interval : ℤ
  pub ip_whitelist : List Text
  pub session_cleanup_interval : ℤ
  pub allow_multi_session : Bool

pub record MonitorConfig : Type 0 where
  pub history_retention : ℤ
  pub collect_interval : ℤ

pub record LogsConfig : Type 0 where
  pub level : Text
  pub log_path : Text
  pub format : Text
  pub max_size_mb : ℤ
  pub max_files : ℤ

pub record NotifyConfig : Type 0 where
  pub webhook_url : Text
  pub notify_enabled : Bool

pub record FeaturesConfig : Type 0 where
  pub fim : Bool
  pub show_plugin_manual : Bool

pub record MobileDirectConfig : Type 0 where
  pub direct_enabled : Bool
  pub listen : Text
  pub hostname : Text
  pub direct_cert_file : Text
  pub direct_key_file : Text
  pub clock_skew : ℤ

-- `AuditConfig`, `FileManagerConfig` and `PluginConfig` have one field each, which stands here. The
-- rules of alerts, which no code here reads, are left out.
pub record Config : Type 0 where
  pub path : Text
  pub server : ServerConfig
  pub auth : AuthConfig
  pub monitor : MonitorConfig
  pub retention_days : ℤ
  pub base_path : Text
  pub notify : NotifyConfig
  pub logs : LogsConfig
  pub features : FeaturesConfig
  pub mobile_direct : MobileDirectConfig
  pub secrets_key : Text
