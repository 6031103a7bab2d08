-- ===== src/Infra/Config/Examples.antt =====
-- Concrete configurations.
use easyserver.Base.{
  ◌≡◌, refl, ◌↔◌, Bool, true, false, Option, none, some, [], ◌==◌, nat_eq, pos, negsuc, codes,
}
use easyserver.Base.Bytes.{bytes_eq, same}
use easyserver.Database.Statements.{Text}
use easyserver.Infra.Config.{Config}
use easyserver.Infra.Config.Merging.{Environment, atoi, merge_defaults, generates, complete}
use easyserver.Infra.Config.Reloading.{complete_stable}
use easyserver.Infra.Config.Checks.{validate, fine, refuse, warn, no_base_path, short_jwt}
use easyserver.Infra.Config.Passing.{Passes}
use easyserver.Infra.Config.Acceptance.{IsAcceptable, validate-IsAcceptable}

-- What an empty file is read as.
abbrev blank : Config
blank = record {
  path = codes "/etc/easyserver/config.toml";
  server = record {
    port = pos 0;
    host = [];
    allowed_origins = [];
    dev_mode = false;
    domain = codes "panel.example";
    force_domain = false;
    trusted_platform = [];
    trusted_proxies = [];
    tls = record { enabled = false; cert_file = []; key_file = [] };
    turnstile = record {
      site_key = [];
      secret_key = [];
      enable_login = false;
      enable_qr_login = false;
      enable_public_share = false;
    };
    assets_rate_limit = pos 0;
    assets_rate_interval = pos 0;
    max_upload_size = pos 0;
  };
  auth = record {
    jwt_secret = [];
    session_timeout = pos 0;
    idle_timeout = pos 0;
    max_login_attempts = pos 0;
    lockout_duration = pos 0;
    rate_limit = pos 0;
    rate_interval = pos 0;
    login_rate_limit = pos 0;
    login_rate_interval = pos 0;
    ip_whitelist = [];
    session_cleanup_interval = pos 0;
    allow_multi_session = false;
  };
  monitor = record { history_retention = pos 0; collect_interval = pos 0 };
  retention_days = pos 0;
  base_path = [];
  notify = record { webhook_url = []; notify_enabled = false };
  logs = record { level = []; log_path = []; format = []; max_size_mb = pos 0; max_files = pos 0 };
  features = record { fim = false; show_plugin_manual = false };
  mobile_direct = record {
    direct_enabled = false;
    listen = [];
    hostname = [];
    direct_cert_file = [];
    direct_key_file = [];
    clock_skew = pos 0;
  };
  secrets_key = [];
}

abbrev environment : Environment
environment = record {
  env_jwt_secret = [];
  env_port = codes "8443";
  env_host = [];
  env_tls_enabled = [];
  env_tls_cert_file = [];
  env_tls_key_file = [];
}

abbrev secret : Text
secret = codes "0123456789abcdef0123456789abcdef"

atoi_sign : atoi (codes "-12") ≡ some (negsuc 11)
atoi_sign = refl

atoi_empty : atoi (codes "12a") ≡ none
atoi_empty = refl

complete_stable_example :
    (complete environment (codes "x") (codes "y") (complete environment secret secret blank)
      ≡ complete environment secret secret blank)
    × (generates (complete environment secret secret blank) ≡ false)
complete_stable_example =
    complete_stable environment secret secret (codes "x") (codes "y") blank refl refl

abbrev parses : Text → Bool
parses p = p == codes "127.0.0.1"

abbrev cert_error : Text → Text → Option Text
cert_error cert key = none

-- The defaults lack the base path only.
defaults_refused :
    validate parses cert_error false (merge_defaults secret secret blank) ≡ refuse no_base_path
unfolding same
defaults_refused = refl

defaults_with_path :
    validate parses cert_error false
      (merge_defaults secret secret (record blank { base_path = codes "/srv" }))
    ≡ fine
unfolding same
defaults_with_path = refl

development_warns :
    validate parses cert_error true
      (merge_defaults (codes "a short secret") secret (record blank { base_path = codes "/srv" }))
    ≡ warn short_jwt
unfolding same
development_warns = refl

abbrev ready : Config
ready = merge_defaults secret secret (record blank { base_path = codes "/srv" })

validate-IsAcceptable_example :
    Passes (validate parses cert_error false ready) ↔ IsAcceptable parses cert_error false ready
validate-IsAcceptable_example = validate-IsAcceptable parses cert_error false ready
