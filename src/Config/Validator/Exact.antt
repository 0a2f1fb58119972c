-- ===== src/Config/Validator/Exact.antt =====
-- internal/config/validator.go: which configurations Validate accepts.
use discobox.Prelude.{
  Str, ◌≡◌, refl, ◌↔◌, Bool, true, false, not, ◌||◌, Option, none, is_empty, str_eq, arith,
  if◌then◌else◌,
}
use discobox.Prelude.Int.{ℤ, pos, ◌≤ℤ◌, ◌<ℤ◌}
use discobox.Prelude.Ranges.{listed}
use discobox.Config.Validator.{
  ProxyConfig, HealthCheckSettings, BreakerSettings, RateLimitSettings, TlsSettings, ApiSettings,
  Problem, reject_if, validate, listen_addr_required, listen_addr_invalid, read_timeout_invalid,
  write_timeout_invalid, algorithm_invalid, storage_type_invalid, check_logging, check_api,
  check_tls, check_rate_limit, check_circuit_breaker, check_health_check, is_address, is_positive,
  has_none, algorithms, tls_versions, storage_types, log_levels, log_formats, to_lower,
}

reject_if-none :
    (b : Bool) (p : Problem) (rest : Option Problem)
    → (reject_if b p rest ≡ none) ↔ ((b ≡ false) × (rest ≡ none))
reject_if-none true p rest = (λ h. absurd (cc h), λ h. absurd (cc (h.0)))
reject_if-none false p rest = (λ h. (refl, h), λ h. h.1)

and_then : {A B P Q : Type 0} → A ↔ (P × B) → B ↔ Q → A ↔ (P × Q)
and_then f g = (λ a. ((f.0 a).0, g.0 (f.0 a).1), λ c. f.1 (c.0, g.1 c.1))

-- What the checks of a configuration ask, one by one.
abbrev pub IsHealthCheck : HealthCheckSettings → Type 0
IsHealthCheck hc =
    (pos 0 <ℤ hc.timeout)
    × (hc.timeout <ℤ hc.interval)
    × (pos 0 <ℤ hc.fail_threshold)
    × (pos 0 <ℤ hc.pass_threshold)

abbrev pub IsBreaker : BreakerSettings → Type 0
IsBreaker cb =
    cb.enabled ≡ true
    → (pos 0 <ℤ cb.failure_threshold) × (pos 0 <ℤ cb.success_threshold) × (pos 0 <ℤ cb.timeout)

abbrev pub IsRateLimit : RateLimitSettings → Type 0
IsRateLimit limit = limit.enabled ≡ true → (pos 0 <ℤ limit.rps) × (limit.rps ≤ℤ limit.burst)

abbrev pub IsCheckedTls : TlsSettings → Type 0
IsCheckedTls tls =
    tls.enabled ≡ true
    → ((if tls.auto_cert
          then has_none tls.domains
          else (is_empty tls.cert_file || is_empty tls.key_file))
        ≡ false)
      × (listed tls.min_version tls_versions ≡ true)

check_health_check-IsHealthCheck :
    (hc : HealthCheckSettings) (rest : Option Problem)
    → (check_health_check hc rest ≡ none) ↔ (IsHealthCheck hc × (rest ≡ none))
unfolding check_health_check
check_health_check-IsHealthCheck hc rest = (λ h. ground arith, λ h. ground arith)

check_circuit_breaker-IsBreaker :
    (cb : BreakerSettings) (rest : Option Problem)
    → (check_circuit_breaker cb rest ≡ none) ↔ (IsBreaker cb × (rest ≡ none))
unfolding check_circuit_breaker
check_circuit_breaker-IsBreaker cb rest = (λ h. ground arith, λ h. ground arith)

check_rate_limit-IsRateLimit :
    (l : RateLimitSettings) (rest : Option Problem)
    → (check_rate_limit l rest ≡ none) ↔ (IsRateLimit l × (rest ≡ none))
unfolding check_rate_limit
check_rate_limit-IsRateLimit l rest = (λ h. ground arith, λ h. ground arith)

check_tls-IsCheckedTls :
    (t : TlsSettings) (rest : Option Problem)
    → (check_tls t rest ≡ none) ↔ (IsCheckedTls t × (rest ≡ none))
unfolding check_tls
check_tls-IsCheckedTls t rest = (λ h. ground arith, λ h. ground arith)

check_logging-listed :
    (cfg : ProxyConfig)
    → (check_logging cfg ≡ none) ↔ (
        (listed (to_lower cfg.log_level) log_levels ≡ true)
        × (listed (to_lower cfg.log_format) log_formats ≡ true))
unfolding check_logging
check_logging-listed cfg = (λ h. ground arith, λ h. ground arith)

not-true : (b : Bool) → (not b ≡ false) ↔ (b ≡ true)
not-true b = (λ h. ground arith, λ h. ground arith)

positive : (z : ℤ) → (not (is_positive z) ≡ false) ↔ (pos 0 <ℤ z)
positive z = (λ h. ground arith, λ h. ground arith)

module _ (splits : Str → Bool) where
  abbrev pub IsCheckedApi : ApiSettings → Type 0
  IsCheckedApi api =
      api.enabled ≡ true → (is_empty api.addr ≡ false) × (is_address splits api.addr ≡ true)

  check_api-IsCheckedApi :
      (api : ApiSettings) (rest : Option Problem)
      → (check_api splits api rest ≡ none) ↔ (IsCheckedApi api × (rest ≡ none))
  unfolding check_api
  check_api-IsCheckedApi api rest = (λ h. ground arith, λ h. ground arith)

  pub record IsChecked (cfg : ProxyConfig) : Type 0 where
    pub listen_addr : is_empty cfg.listen_addr ≡ false
    pub listen_port : is_address splits cfg.listen_addr ≡ true
    pub read_timeout : pos 0 <ℤ cfg.read_timeout
    pub write_timeout : pos 0 <ℤ cfg.write_timeout
    pub algorithm : listed cfg.algorithm algorithms ≡ true
    pub health_check : IsHealthCheck cfg.health_check
    pub circuit_breaker : IsBreaker cfg.circuit_breaker
    pub rate_limit : IsRateLimit cfg.rate_limit
    pub tls : IsCheckedTls cfg.tls
    pub storage_type : listed cfg.storage_type storage_types ≡ true
    pub api : IsCheckedApi cfg.api
    pub log_level : listed (to_lower cfg.log_level) log_levels ≡ true
    pub log_format : listed (to_lower cfg.log_format) log_formats ≡ true

  -- The conditions in the order in which they are checked.
  abbrev Ordered : ProxyConfig → Type 0
  Ordered cfg =
      ((is_empty cfg.listen_addr ≡ false)
        × ((not (is_address splits cfg.listen_addr) ≡ false)
            × ((not (is_positive cfg.read_timeout) ≡ false)
                × ((not (is_positive cfg.write_timeout) ≡ false)
                    × ((not (listed cfg.algorithm algorithms) ≡ false)
                        × (IsHealthCheck cfg.health_check
                            × (IsBreaker cfg.circuit_breaker
                                × (IsRateLimit cfg.rate_limit
                                    × (IsCheckedTls cfg.tls
                                        × ((not (listed cfg.storage_type storage_types) ≡ false)
                                            × (IsCheckedApi cfg.api
                                                × ((listed (to_lower cfg.log_level) log_levels
                                                      ≡ true)
                                                    × (listed (to_lower cfg.log_format) log_formats
                                                        ≡ true)))))))))))))

  in_order : (cfg : ProxyConfig) → (validate splits cfg ≡ none) ↔ Ordered cfg
  unfolding validate
  in_order cfg = and_then (reject_if-none (is_empty cfg.listen_addr) listen_addr_required _) (
      and_then (reject_if-none (not (is_address splits cfg.listen_addr)) listen_addr_invalid _) (
        and_then (reject_if-none (not (is_positive cfg.read_timeout)) read_timeout_invalid _) (
          and_then (reject_if-none (not (is_positive cfg.write_timeout)) write_timeout_invalid _) (
            and_then (reject_if-none (not (listed cfg.algorithm algorithms)) algorithm_invalid _) (
              and_then (check_health_check-IsHealthCheck cfg.health_check _) (
                and_then (check_circuit_breaker-IsBreaker cfg.circuit_breaker _) (
                  and_then (check_rate_limit-IsRateLimit cfg.rate_limit _) (
                    and_then (check_tls-IsCheckedTls cfg.tls _) (
                      and_then
                        (reject_if-none (not (listed cfg.storage_type storage_types))
                          storage_type_invalid _)
                        (and_then (check_api-IsCheckedApi cfg.api _)
                          (check_logging-listed cfg)))))))))))

  pub validate-IsChecked : (cfg : ProxyConfig) → (validate splits cfg ≡ none) ↔ IsChecked cfg
  validate-IsChecked cfg = (λ h. accepted ((in_order cfg).0 h), λ v. (in_order cfg).1 (required v))
    where
      required : IsChecked cfg → Ordered cfg
      required v = (
        v.listen_addr,
        (
          (not-true (is_address splits cfg.listen_addr)).1 v.listen_port,
          (
            (positive cfg.read_timeout).1 v.read_timeout,
            (
              (positive cfg.write_timeout).1 v.write_timeout,
              (
                (not-true (listed cfg.algorithm algorithms)).1 v.algorithm,
                (
                  v.health_check,
                  (
                    v.circuit_breaker,
                    (
                      v.rate_limit,
                      (
                        v.tls,
                        (
                          (not-true (listed cfg.storage_type storage_types)).1 v.storage_type,
                          (v.api, (v.log_level, v.log_format)),
                        ),
                      ),
                    ),
                  ),
                ),
              ),
            ),
          ),
        ),
      )

      accepted : Ordered cfg → IsChecked cfg
      accepted
            (
              addr,
              (
                port,
                (
                  read,
                  (
                    write,
                    (
                      algorithm,
                      (health, (breaker, (limit, (tls, (storage, (api, (level, format))))))),
                    ),
                  ),
                ),
              ),
            ) =
          record {
            listen_addr = addr;
            listen_port = (not-true (is_address splits cfg.listen_addr)).0 port;
            read_timeout = (positive cfg.read_timeout).0 read;
            write_timeout = (positive cfg.write_timeout).0 write;
            algorithm = (not-true (listed cfg.algorithm algorithms)).0 algorithm;
            health_check = health;
            circuit_breaker = breaker;
            rate_limit = limit;
            tls = tls;
            storage_type = (not-true (listed cfg.storage_type storage_types)).0 storage;
            api = api;
            log_level = level;
            log_format = format;
          }
