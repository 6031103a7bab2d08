-- ===== src/Infra/Config/Merging.antt =====
-- internal/infra/config/config.go: `mergeDefaults`, `applyEnvOverrides` and `Load`.
use easyserver.Base.{
  ℕ, zero, suc, ◌+◌, ◌-◌, ◌*◌, ◌^◌, Bool, true, false, not, ◌&&◌, ◌||◌, Option, none, some, [], ◌∷◌,
  ltb, leb, if◌then◌else◌, ◌==◌, nat_eq, ℤ, pos, negsuc, codes,
}
use easyserver.Base.Bytes.{bytes_eq}
use easyserver.Database.Statements.{Text}
use easyserver.Infra.Config.{
  ServerConfig, AuthConfig, MonitorConfig, LogsConfig, MobileDirectConfig, Config,
}

-- A field that is zero takes the value given.
abbrev pub int_or : ℤ → ℤ → ℤ
int_or d (pos n) = if n == 0 then d else pos n
int_or d (negsuc n) = negsuc n

abbrev pub text_or : Text → Text → Text
text_or d [] = d
text_or d (c ∷ s) = c ∷ s

abbrev pub second : ℕ
second = 1000000000

abbrev pub seconds : ℕ → ℤ
seconds n = pos (n * second)

abbrev pub minutes : ℕ → ℤ
minutes n = seconds (60 * n)

abbrev pub hours : ℕ → ℤ
hours n = minutes (60 * n)

abbrev pub merge_server : ServerConfig → ServerConfig
merge_server c = record c {
  port = int_or (pos 8080) c.port;
  host = text_or (codes "0.0.0.0") c.host;
  assets_rate_limit = int_or (pos 5000) c.assets_rate_limit;
  assets_rate_interval = int_or (minutes 1) c.assets_rate_interval;
}

abbrev pub merge_auth : Text → AuthConfig → AuthConfig
merge_auth secret c = record c {
  jwt_secret = text_or secret c.jwt_secret;
  session_timeout = int_or (hours 24) c.session_timeout;
  idle_timeout = int_or (hours 24) c.idle_timeout;
  max_login_attempts = int_or (pos 5) c.max_login_attempts;
  lockout_duration = int_or (minutes 15) c.lockout_duration;
  rate_limit = int_or (pos 1000) c.rate_limit;
  rate_interval = int_or (minutes 1) c.rate_interval;
  login_rate_limit = int_or (pos 60) c.login_rate_limit;
  login_rate_interval = int_or (minutes 1) c.login_rate_interval;
  session_cleanup_interval = int_or (minutes 5) c.session_cleanup_interval;
}

abbrev pub merge_monitor : MonitorConfig → MonitorConfig
merge_monitor c = record {
  history_retention = int_or (hours (7 * 24)) c.history_retention;
  collect_interval = int_or (seconds 3) c.collect_interval;
}

abbrev pub merge_logs : LogsConfig → LogsConfig
merge_logs c = record c {
  level = text_or (codes "info") c.level;
  format = text_or (codes "text") c.format;
  max_size_mb = int_or (pos 10) c.max_size_mb;
  max_files = int_or (pos 3) c.max_files;
}

abbrev pub merge_mobile_direct : Text → MobileDirectConfig → MobileDirectConfig
merge_mobile_direct domain c = record c {
  listen = text_or (codes "0.0.0.0:8443") c.listen;
  clock_skew = int_or (minutes 5) c.clock_skew;
  hostname = text_or domain c.hostname;
}

-- `mergeDefaults`, with the two secrets that it may draw: the configuration, and whether one was
-- taken.
abbrev pub merge_defaults : Text → Text → Config → Config
merge_defaults jwt key c = record c {
  server = merge_server c.server;
  auth = merge_auth jwt c.auth;
  monitor = merge_monitor c.monitor;
  retention_days = int_or (pos 90) c.retention_days;
  logs = merge_logs c.logs;
  features = record c.features { show_plugin_manual = true };
  mobile_direct = merge_mobile_direct c.server.domain c.mobile_direct;
  secrets_key = text_or key c.secrets_key;
}

abbrev pub is_empty : Text → Bool
is_empty [] = true
is_empty (c ∷ s) = false

abbrev pub generates : Config → Bool
generates c = is_empty c.auth.jwt_secret || is_empty c.secrets_key

-- `strconv.Atoi`.
abbrev pub digits : ℕ → Text → Option ℕ
digits n [] = some n
digits n (c ∷ s) = if leb 48 c && leb c 57 then digits (n * 10 + (c - 48)) s else none

abbrev pub magnitude : Text → Option ℕ
magnitude [] = none
magnitude (c ∷ s) = digits 0 (c ∷ s)

abbrev pub negated : ℕ → ℤ
negated zero = pos 0
negated (suc n) = negsuc n

abbrev pub signed : Bool → Option ℕ → Option ℤ
signed minus none = none
signed true (some n) = if leb n (2 ^ 63) then some (negated n) else none
signed false (some n) = if ltb n (2 ^ 63) then some (pos n) else none

abbrev pub atoi : Text → Option ℤ
atoi [] = none
atoi (c ∷ s) =
    if c == 45
    then signed true (magnitude s)
    else if c == 43
    then signed false (magnitude s)
    else signed false (magnitude (c ∷ s))

-- The environment: what `os.Getenv` says of each variable.
pub record Environment : Type 0 where
  pub env_jwt_secret : Text
  pub env_port : Text
  pub env_host : Text
  pub env_tls_enabled : Text
  pub env_tls_cert_file : Text
  pub env_tls_key_file : Text

abbrev pub get_or : Option ℤ → ℤ → ℤ
get_or none x = x
get_or (some n) x = n

-- The text of a variable, the field where it is not set.
abbrev pub override : Text → Text → Text
override v x = text_or x v

abbrev pub override_server : Environment → ServerConfig → ServerConfig
override_server env c = record c {
  port = get_or (atoi env.env_port) c.port;
  host = override env.env_host c.host;
  tls = record {
    enabled = env.env_tls_enabled == codes "true" || c.tls.enabled;
    cert_file = override env.env_tls_cert_file c.tls.cert_file;
    key_file = override env.env_tls_key_file c.tls.key_file;
  };
}

-- `applyEnvOverrides`.
abbrev pub apply_env_overrides : Environment → Config → Config
apply_env_overrides env c = record c {
  auth = record c.auth { jwt_secret = override env.env_jwt_secret c.auth.jwt_secret };
  server = override_server env c.server;
}

abbrev pub complete : Environment → Text → Text → Config → Config
complete env jwt key c = apply_env_overrides env (merge_defaults jwt key c)

-- `Load`, of the file's content: the configuration, and the content of the file afterwards. `saves`
-- tells whether `Save` succeeds; `unmarshal` and `marshal` are go-toml's, the
-- former given the path that the configuration keeps.
module _ {File : Type 0} (unmarshal : Text → File → Option Config) (marshal : Config → File) where
  abbrev pub saved : Bool → Config → File → File
  saved true c file = marshal c
  saved false c file = file

  abbrev pub load_config :
      Environment → Bool → Text → Text → File → Option Config → Option (Config × File)
  load_config env saves jwt key file none = none
  load_config env saves jwt key file (some c) = some (
    complete env jwt key c,
    saved (generates c && not (is_empty c.path) && saves) (complete env jwt key c) file,
  )

  abbrev pub load : Environment → Bool → Text → Text → Text → File → Option (Config × File)
  load env saves jwt key path file = load_config env saves jwt key file (unmarshal path file)
