-- ===== src/Infra/Config/Acceptance.antt =====
-- Which configurations pass.
use easyserver.Base.{
  ◌*◌, ◌≤◌, ◌<◌, ◌≡◌, refl, ◌↔◌, ◌⊎◌, inl, inr, Bool, true, false, ◌&&◌, ◌||◌, Option, none, List,
  [], ◌∷◌, map, arith, if◌then◌else◌, Bool-cases, nat_eq, length, All,
}
use easyserver.Base.Bytes.{bytes_eq}
use easyserver.Database.Statements.{Text}
use easyserver.Infra.Config.{TlsConfig, TurnstileConfig, Config}
use easyserver.Infra.Config.Merging.{is_empty, second}
use easyserver.Infra.Config.Checks.{
  Problem, no_jwt, short_jwt, uniform_jwt, no_secrets_key, trusts_all, bad_proxy,
  no_turnstile_secret, bad_rate_limit, bad_rate_interval, bad_login_limit, bad_login_interval,
  bad_assets_limit, bad_assets_interval, no_base_path, no_tls_files, reject_or_warn, known_weak_jwt,
  uniform_string, is_everyone, turnstile_on, valid_log_level, valid_log_format, check_log,
  check_root, check_proxy, check_tls, checks, validate,
}
use easyserver.Infra.Config.Passing.{
  Passes, Unless, IsBetween, IsUnknown, run_checks-Passes, reject-Passes, require-Passes, both,
  through, unless, range-Passes, filled-Passes, length-Passes, uniform-Passes, weak-Passes,
  root-Passes, log-Passes, cert-Passes,
}

-- All of several propositions.
abbrev pub Holds : List (Type 0) → Type 0
Holds = All (λ P. P)

module _ (parses : Text → Bool) (cert_error : Text → Text → Option Text) where
  -- A trusted proxy is everyone in development mode only, and else what package net reads.
  abbrev pub IsProxy : Bool → Text → Type 0
  IsProxy dev p = if is_everyone p then dev ≡ true else parses p ≡ true

  IsProxy-Passes :
      (dev : Bool) (p : Text) → Passes (check_proxy parses cert_error dev p) ↔ IsProxy dev p
  IsProxy-Passes dev p = elim (Bool-cases (is_everyone p)) [
    | inl h ↦ rw h (
        through (reject-Passes dev true trusts_all)
          (λ e. elim e [ inl d ↦ d | inr n ↦ absurd (ground (arith, n)) ], λ d. inl d))
    | inr h ↦ rw h (require-Passes (parses p) (bad_proxy p))
  ]

  proxies-Passes :
      (dev : Bool) (ps : List Text)
      → All Passes (map (check_proxy parses cert_error dev) ps) ↔ All (IsProxy dev) ps
  proxies-Passes dev [] = (λ h. tt, λ h. tt)
  proxies-Passes dev (p ∷ ps) = both (IsProxy-Passes dev p) (proxies-Passes dev ps)

  -- TLS that is turned on has both files, which make a valid pair.
  abbrev pub IsServed : TlsConfig → Type 0
  IsServed c =
      (c.enabled ≡ false)
      ⊎ ((is_empty c.cert_file || is_empty c.key_file ≡ false)
          × (cert_error c.cert_file c.key_file ≡ none))

  tls-Passes :
      (dev : Bool) (c : TlsConfig)
      → Passes (check_tls parses cert_error dev c) ↔ Unless dev (IsServed c)
  tls-Passes dev c = elim (Bool-cases c.enabled) [
    | inl on ↦ elim (Bool-cases (is_empty c.cert_file || is_empty c.key_file)) [
      | inl h ↦
          rw (on, h)
            (through (reject-Passes dev true no_tls_files) (
              unless (
                λ e. absurd (ground (arith, e)),
                λ e. elim e [
                  | inl off ↦ absurd (ground (arith, off))
                  | inr f ↦ absurd (ground (arith, f.0))
                ],
              )))
      | inr h ↦
          rw (on, h)
            (through (cert-Passes dev (cert_error c.cert_file c.key_file)) (
              unless (
                λ e. inr (refl, e),
                λ e. elim e [ inl off ↦ absurd (ground (arith, off)) | inr f ↦ f.1 ],
              )))
    ]
    | inr off ↦ rw off (λ e. inr (inl refl), λ e. refl)
  ]

  last-Passes :
      (dev : Bool) (c : Config)
      → All Passes (
          check_root c.base_path
          ∷ check_tls parses cert_error dev c.server.tls
          ∷ check_log c.logs
          ∷ [])
        ↔ Holds (
            Unless dev (IsServed c.server.tls)
            ∷ ((valid_log_level c.logs.level ≡ true) × (valid_log_format c.logs.format ≡ true))
            ∷ [])
  last-Passes dev c =
      let tls = tls-Passes dev c.server.tls in
      let log = log-Passes c.logs in
      (
        λ h. (tls.0 h.1.0, (log.0 h.1.1.0, tt)),
        λ h. (root-Passes c.base_path, (tls.1 h.0, (log.1 h.1.0, tt))),
      )

  -- What `Validate` asks for.
  abbrev pub IsAcceptable : Bool → Config → Type 0
  IsAcceptable dev c = Holds (
      (is_empty c.auth.jwt_secret ≡ false)
      ∷ Unless dev (32 ≤ length c.auth.jwt_secret)
      ∷ Unless dev (IsUnknown c.auth.jwt_secret known_weak_jwt)
      ∷ Unless dev ((length c.auth.jwt_secret < 32) ⊎ (uniform_string c.auth.jwt_secret ≡ false))
      ∷ (is_empty c.secrets_key ≡ false)
      ∷ All (IsProxy dev) c.server.trusted_proxies
      ∷ Unless dev (
          (turnstile_on c.server.turnstile ≡ false)
          ⊎ (is_empty c.server.turnstile.secret_key ≡ false))
      ∷ Unless dev (IsBetween 10 100000 c.auth.rate_limit)
      ∷ Unless dev (IsBetween second (3600 * second) c.auth.rate_interval)
      ∷ Unless dev (IsBetween 1 100 c.auth.login_rate_limit)
      ∷ Unless dev (IsBetween second (3600 * second) c.auth.login_rate_interval)
      ∷ Unless dev (IsBetween 100 100000 c.server.assets_rate_limit)
      ∷ Unless dev (IsBetween second (3600 * second) c.server.assets_rate_interval)
      ∷ (is_empty c.base_path ≡ false)
      ∷ Unless dev (IsServed c.server.tls)
      ∷ ((valid_log_level c.logs.level ≡ true) × (valid_log_format c.logs.format ≡ true))
      ∷ [])

  turnstile-Passes :
      (dev : Bool) (t : TurnstileConfig) (p : Problem)
      → Passes (reject_or_warn dev (turnstile_on t && is_empty t.secret_key) p)
        ↔ Unless dev ((turnstile_on t ≡ false) ⊎ (is_empty t.secret_key ≡ false))
  turnstile-Passes dev t p =
      through (reject-Passes dev (turnstile_on t && is_empty t.secret_key) p)
        (unless (λ h. ground (arith, h), λ h. ground (arith, h)))

  -- `Validate` refuses nothing exactly when the secret of the web tokens, the key for the plugins'
  -- secrets and the base path are there, the level and the format of the log are known, each trusted
  -- proxy is one that package net reads, and, unless in development mode: the secret has 32 bytes,
  -- is not known as weak and not one byte over and over, no trusted proxy stands for everyone,
  -- Turnstile has its key, the six limits are within their bounds, and TLS has a valid pair of files.
  pub validate-IsAcceptable :
      (dev : Bool) (c : Config) → (Passes (validate parses cert_error dev c)) ↔ IsAcceptable dev c
  validate-IsAcceptable dev c = through (run_checks-Passes (checks parses cert_error dev c)) (
      both (filled-Passes c.auth.jwt_secret no_jwt) (
        both (length-Passes dev c.auth.jwt_secret short_jwt) (
          both (weak-Passes dev c.auth.jwt_secret known_weak_jwt) (
            both (uniform-Passes dev c.auth.jwt_secret uniform_jwt) (
              both (filled-Passes c.secrets_key no_secrets_key) (
                both
                  (through
                    (run_checks-Passes
                      (map (check_proxy parses cert_error dev) c.server.trusted_proxies))
                    (proxies-Passes dev c.server.trusted_proxies))
                  (both (turnstile-Passes dev c.server.turnstile no_turnstile_secret) (
                    both (range-Passes dev 10 100000 c.auth.rate_limit bad_rate_limit) (
                      both
                        (range-Passes dev second (3600 * second) c.auth.rate_interval
                          bad_rate_interval)
                        (both (range-Passes dev 1 100 c.auth.login_rate_limit bad_login_limit) (
                          both
                            (range-Passes dev second (3600 * second) c.auth.login_rate_interval
                              bad_login_interval)
                            (both
                              (range-Passes dev 100 100000 c.server.assets_rate_limit
                                bad_assets_limit)
                              (both
                                (range-Passes dev second (3600 * second)
                                  c.server.assets_rate_interval bad_assets_interval)
                                (both (filled-Passes c.base_path no_base_path)
                                  (last-Passes dev c)))))))))))))))
