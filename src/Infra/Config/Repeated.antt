-- ===== src/Infra/Config/Repeated.antt =====
-- Filling in the defaults and the environment twice.
use easyserver.Base.{
  ◌*◌, ◌≡◌, refl, Bool, true, false, ◌||◌, Option, none, some, [], ◌∷◌, arith, ◌==◌, nat_eq, ℤ, pos,
  negsuc, codes,
}
use easyserver.Base.Bytes.{bytes_eq}
use easyserver.Database.Statements.{Text}
use easyserver.Infra.Config.{
  ServerConfig, AuthConfig, MonitorConfig, LogsConfig, MobileDirectConfig, Config,
}
use easyserver.Infra.Config.Merging.{
  int_or, text_or, seconds, minutes, hours, merge_server, merge_auth, merge_monitor, merge_logs,
  merge_mobile_direct, is_empty, atoi, Environment, get_or, override, override_server, complete,
}

int_or_again : (d x : ℤ) → int_or d (int_or d x) ≡ int_or d x
int_or_again (pos d) (pos n) = ground arith
int_or_again (negsuc d) (pos n) = ground arith
int_or_again d (negsuc n) = refl

text_or_again : (d x : Text) → text_or d (text_or d x) ≡ text_or d x
text_or_again [] [] = refl
text_or_again (c ∷ s) [] = refl
text_or_again d (c ∷ s) = refl

secret_again :
    (v s s' x : Text)
    → is_empty (text_or s x) ≡ false
    → override v (text_or s' (override v (text_or s x))) ≡ override v (text_or s x)
secret_again (c ∷ v) s s' x h = refl
secret_again [] s s' (c ∷ x) h = refl
secret_again [] (c ∷ s) s' [] h = refl
secret_again [] [] s' [] h = absurd (ground (arith, h))

key_again :
    (s s' x : Text) → is_empty (text_or s x) ≡ false → text_or s' (text_or s x) ≡ text_or s x
key_again s s' (c ∷ x) h = refl
key_again (c ∷ s) s' [] h = refl
key_again [] s' [] h = absurd (ground (arith, h))

text_override_again :
    (v d x : Text) → override v (text_or d (override v (text_or d x))) ≡ override v (text_or d x)
text_override_again (c ∷ v) d x = refl
text_override_again [] d x = text_or_again d x

int_override_again :
    (v : Option ℤ) (d x : ℤ) → get_or v (int_or d (get_or v (int_or d x))) ≡ get_or v (int_or d x)
int_override_again none d x = int_or_again d x
int_override_again (some n) d x = refl

override_again : (v x : Text) → override v (override v x) ≡ override v x
override_again [] x = refl
override_again (c ∷ v) x = refl

or_again : (a b : Bool) → (a || (a || b)) ≡ (a || b)
or_again true b = refl
or_again false b = refl

server_again :
    (env : Environment) (c : ServerConfig)
    → override_server env (merge_server (override_server env (merge_server c)))
      ≡ override_server env (merge_server c)
server_again env c = λ i. record c {
  port = int_override_again (atoi env.env_port) (pos 8080) c.port i;
  host = text_override_again env.env_host (codes "0.0.0.0") c.host i;
  assets_rate_limit = int_or_again (pos 5000) c.assets_rate_limit i;
  assets_rate_interval = int_or_again (minutes 1) c.assets_rate_interval i;
  tls = record {
    enabled = or_again (env.env_tls_enabled == codes "true") c.tls.enabled i;
    cert_file = override_again env.env_tls_cert_file c.tls.cert_file i;
    key_file = override_again env.env_tls_key_file c.tls.key_file i;
  };
}

auth_again :
    (secret : Text) (c : AuthConfig) → merge_auth secret (merge_auth secret c) ≡ merge_auth secret c
auth_again secret c = λ i. record c {
  jwt_secret = text_or_again secret c.jwt_secret i;
  session_timeout = int_or_again (hours 24) c.session_timeout i;
  idle_timeout = int_or_again (hours 24) c.idle_timeout i;
  max_login_attempts = int_or_again (pos 5) c.max_login_attempts i;
  lockout_duration = int_or_again (minutes 15) c.lockout_duration i;
  rate_limit = int_or_again (pos 1000) c.rate_limit i;
  rate_interval = int_or_again (minutes 1) c.rate_interval i;
  login_rate_limit = int_or_again (pos 60) c.login_rate_limit i;
  login_rate_interval = int_or_again (minutes 1) c.login_rate_interval i;
  session_cleanup_interval = int_or_again (minutes 5) c.session_cleanup_interval i;
}

monitor_again : (c : MonitorConfig) → merge_monitor (merge_monitor c) ≡ merge_monitor c
monitor_again c = λ i. record {
  history_retention = int_or_again (hours (7 * 24)) c.history_retention i;
  collect_interval = int_or_again (seconds 3) c.collect_interval i;
}

logs_again : (c : LogsConfig) → merge_logs (merge_logs c) ≡ merge_logs c
logs_again c = λ i. record c {
  level = text_or_again (codes "info") c.level i;
  format = text_or_again (codes "text") c.format i;
  max_size_mb = int_or_again (pos 10) c.max_size_mb i;
  max_files = int_or_again (pos 3) c.max_files i;
}

mobile_direct_again :
    (domain : Text) (c : MobileDirectConfig)
    → merge_mobile_direct domain (merge_mobile_direct domain c) ≡ merge_mobile_direct domain c
mobile_direct_again domain c = λ i. record c {
  listen = text_or_again (codes "0.0.0.0:8443") c.listen i;
  clock_skew = int_or_again (minutes 5) c.clock_skew i;
  hostname = text_or_again domain c.hostname i;
}

-- Both secrets are there once the defaults are in.
abbrev pub IsKeyed : Text → Text → Config → Type 0
IsKeyed jwt key c =
    (is_empty (text_or jwt c.auth.jwt_secret) ≡ false)
    × (is_empty (text_or key c.secrets_key) ≡ false)

pub complete_again :
    (env : Environment) (jwt key jwt' key' : Text) (c : Config)
    → IsKeyed jwt key c
    → complete env jwt' key' (complete env jwt key c) ≡ complete env jwt key c
complete_again env jwt key jwt' key' c k = λ i. record c {
  server = server_again env c.server i;
  auth = record (auth_again jwt c.auth i) {
    jwt_secret = secret_again env.env_jwt_secret jwt jwt' c.auth.jwt_secret k.0 i;
  };
  monitor = monitor_again c.monitor i;
  retention_days = int_or_again (pos 90) c.retention_days i;
  logs = logs_again c.logs i;
  features = record c.features { show_plugin_manual = true };
  mobile_direct = mobile_direct_again c.server.domain c.mobile_direct i;
  secrets_key = key_again key key' c.secrets_key k.1 i;
}
