-- ===== src/Config/Validator.antt =====
-- internal/config/validator.go: Validate, on the part of ProxyConfig (internal/types/config.go) that
-- it reads. A duration is a number of nanoseconds. net.SplitHostPort is an argument: whether it
-- takes an address.
pub mod Exact
pub mod Valid
use discobox.Prelude.{
  Str, ℕ, ◌+◌, Bool, true, false, not, ◌&&◌, ◌||◌, ◌++◌, List, [], ◌∷◌, Option, none, some,
  if◌then◌else◌, ◌==◌, nat_eq, is_empty, leb, text, str_eq,
}
use discobox.Prelude.Int.{ℤ, pos, leb_ℤ, ltb_ℤ}
use discobox.Prelude.Ranges.{listed}

pub record TlsSettings : Type 0 where
  pub enabled : Bool
  pub cert_file : Str
  pub key_file : Str
  pub auto_cert : Bool
  pub domains : List Str
  pub min_version : Str

pub record HealthCheckSettings : Type 0 where
  pub interval : ℤ
  pub timeout : ℤ
  pub fail_threshold : ℤ
  pub pass_threshold : ℤ

pub record BreakerSettings : Type 0 where
  pub enabled : Bool
  pub failure_threshold : ℤ
  pub success_threshold : ℤ
  pub timeout : ℤ

pub record RateLimitSettings : Type 0 where
  pub enabled : Bool
  pub rps : ℤ
  pub burst : ℤ

pub record ApiSettings : Type 0 where
  pub enabled : Bool
  pub addr : Str

pub record ProxyConfig : Type 0 where
  pub listen_addr : Str
  pub read_timeout : ℤ
  pub write_timeout : ℤ
  pub algorithm : Str
  pub health_check : HealthCheckSettings
  pub circuit_breaker : BreakerSettings
  pub rate_limit : RateLimitSettings
  pub tls : TlsSettings
  pub storage_type : Str
  pub api : ApiSettings
  pub log_level : Str
  pub log_format : Str

-- The errors, by what they are about.
pub data Problem : Type 0 where
  listen_addr_required : Problem
  listen_addr_invalid : Problem
  read_timeout_invalid : Problem
  write_timeout_invalid : Problem
  algorithm_invalid : Problem
  health_interval_invalid : Problem
  health_timeout_invalid : Problem
  health_timeout_too_long : Problem
  fail_threshold_invalid : Problem
  pass_threshold_invalid : Problem
  failure_threshold_invalid : Problem
  success_threshold_invalid : Problem
  breaker_timeout_invalid : Problem
  rps_invalid : Problem
  burst_invalid : Problem
  tls_files_required : Problem
  tls_domains_required : Problem
  tls_version_invalid : Problem
  storage_type_invalid : Problem
  api_addr_required : Problem
  api_addr_invalid : Problem
  log_level_invalid : Problem
  log_format_invalid : Problem

abbrev pub algorithms : List Str
algorithms = text "round_robin" ∷ text "weighted" ∷ text "least_conn" ∷ text "ip_hash" ∷ []

abbrev pub tls_versions : List Str
tls_versions = text "1.0" ∷ text "1.1" ∷ text "1.2" ∷ text "1.3" ∷ []

abbrev pub storage_types : List Str
storage_types = text "sqlite" ∷ text "memory" ∷ text "etcd" ∷ []

abbrev pub log_levels : List Str
log_levels = text "debug" ∷ text "info" ∷ text "warn" ∷ text "error" ∷ text "fatal" ∷ []

abbrev pub log_formats : List Str
log_formats = text "json" ∷ text "text" ∷ []

abbrev pub lower : ℕ → ℕ
lower c = if leb 65 c && leb c 90 then c + 32 else c

-- strings.ToLower, as far as the names above can tell: the ASCII letters, and U+0130, whose lower
-- case is i. No other letter has a lower case that these names hold.
unfoldable pub to_lower : Str → Str
to_lower [] = []
to_lower (c ∷ []) = lower c ∷ []
to_lower (c ∷ d ∷ s) =
    let rest = to_lower (d ∷ s) in
    let after = to_lower s in if c == 0xC4 && d == 0xB0 then b'i' ∷ after else lower c ∷ rest

abbrev pub is_positive : ℤ → Bool
is_positive z = ltb_ℤ (pos 0) z

-- len(xs) == 0
abbrev pub has_none : List Str → Bool
has_none [] = true
has_none (x ∷ xs) = false

-- if failed { return err }
abbrev pub reject_if : Bool → Problem → Option Problem → Option Problem
reject_if failed problem rest = if failed then some problem else rest

unfoldable pub check_logging : ProxyConfig → Option Problem
check_logging cfg =
    reject_if (not (listed (to_lower cfg.log_level) log_levels)) log_level_invalid
      (reject_if (not (listed (to_lower cfg.log_format) log_formats)) log_format_invalid none)

unfoldable pub check_tls : TlsSettings → Option Problem → Option Problem
check_tls tls rest =
    reject_if
      (tls.enabled && (not tls.auto_cert && (is_empty tls.cert_file || is_empty tls.key_file)))
      tls_files_required
      (reject_if (tls.enabled && (tls.auto_cert && has_none tls.domains)) tls_domains_required (
        reject_if (tls.enabled && not (listed tls.min_version tls_versions)) tls_version_invalid
          rest))

unfoldable pub check_rate_limit : RateLimitSettings → Option Problem → Option Problem
check_rate_limit limit rest =
    reject_if (limit.enabled && not (is_positive limit.rps)) rps_invalid
      (reject_if (limit.enabled && ltb_ℤ limit.burst limit.rps) burst_invalid rest)

unfoldable pub check_circuit_breaker : BreakerSettings → Option Problem → Option Problem
check_circuit_breaker cb rest =
    reject_if (cb.enabled && not (is_positive cb.failure_threshold)) failure_threshold_invalid (
      reject_if (cb.enabled && not (is_positive cb.success_threshold)) success_threshold_invalid
        (reject_if (cb.enabled && not (is_positive cb.timeout)) breaker_timeout_invalid rest))

unfoldable pub check_health_check : HealthCheckSettings → Option Problem → Option Problem
check_health_check hc rest = reject_if (not (is_positive hc.interval)) health_interval_invalid (
    reject_if (not (is_positive hc.timeout)) health_timeout_invalid (
      reject_if (leb_ℤ hc.interval hc.timeout) health_timeout_too_long (
        reject_if (not (is_positive hc.fail_threshold)) fail_threshold_invalid
          (reject_if (not (is_positive hc.pass_threshold)) pass_threshold_invalid rest))))

module _ (splits : Str → Bool) where
  -- The address with its port, or with the default one.
  abbrev pub is_address : Str → Bool
  is_address addr = splits addr || splits (addr ++ text ":80")

  unfoldable pub check_api : ApiSettings → Option Problem → Option Problem
  check_api api rest =
      reject_if (api.enabled && is_empty api.addr) api_addr_required
        (reject_if (api.enabled && not (is_address api.addr)) api_addr_invalid rest)

  unfoldable pub validate : ProxyConfig → Option Problem
  validate cfg = reject_if (is_empty cfg.listen_addr) listen_addr_required (
      reject_if (not (is_address cfg.listen_addr)) listen_addr_invalid (
        reject_if (not (is_positive cfg.read_timeout)) read_timeout_invalid (
          reject_if (not (is_positive cfg.write_timeout)) write_timeout_invalid (
            reject_if (not (listed cfg.algorithm algorithms)) algorithm_invalid (
              check_health_check cfg.health_check (
                check_circuit_breaker cfg.circuit_breaker (
                  check_rate_limit cfg.rate_limit (
                    check_tls cfg.tls (
                      reject_if (not (listed cfg.storage_type storage_types)) storage_type_invalid
                        (check_api cfg.api (check_logging cfg)))))))))))
