-- ===== src/Config/Tests.antt =====
-- Validate of internal/config/validator.go on two configurations.
use discobox.Prelude.{
  Str, ◌≡◌, ◌↔◌, refl, Bool, true, false, [], ◌∷◌, none, some, text, has_suffix, list_beq,
}
use discobox.Prelude.Int.{pos}
use discobox.Config.Validator.{
  ProxyConfig, health_timeout_too_long, validate, check_logging, check_api, check_tls,
  check_rate_limit, check_circuit_breaker, check_health_check, to_lower,
}
use discobox.Command.{Sticky, init_storage}
use discobox.Config.Validator.Valid.{IsValid, validate-IsValid}

-- An address with the port 80 or 8080.
abbrev splits : Str → Bool
splits addr = has_suffix addr (text "80")

abbrev config : ProxyConfig
config = record {
  listen_addr = text ":8080";
  read_timeout = pos 15;
  write_timeout = pos 15;
  algorithm = text "least_conn";
  health_check = record {
    interval = pos 10;
    timeout = pos 5;
    fail_threshold = pos 3;
    pass_threshold = pos 2;
  };
  circuit_breaker = record {
    enabled = true;
    failure_threshold = pos 5;
    success_threshold = pos 2;
    timeout = pos 60;
  };
  rate_limit = record { enabled = false; rps = pos 0; burst = pos 0 };
  tls = record {
    enabled = true;
    cert_file = [];
    key_file = [];
    auto_cert = true;
    domains = text "example.org" ∷ [];
    min_version = text "1.2";
  };
  storage_type = text "memory";
  api = record { enabled = true; addr = text "localhost" };
  log_level = text "Info";
  log_format = text "json";
}

accepted : validate splits config ≡ none
unfolding validate check_logging check_api check_tls check_rate_limit check_circuit_breaker
    check_health_check to_lower has_suffix list_beq
accepted = refl

-- A timeout of the health check that is as long as its interval.
rejected :
    validate splits (record config {
      health_check = record {
        interval = pos 10;
        timeout = pos 10;
        fail_threshold = pos 3;
        pass_threshold = pos 2;
      };
    })
    ≡ some health_timeout_too_long
unfolding validate check_logging check_api check_tls check_rate_limit check_circuit_breaker
    check_health_check to_lower has_suffix list_beq
rejected = refl

abbrev sticky : Sticky
sticky = record { enabled = true; cookie_name = text "lb"; ttl = pos 60 }

validate-IsValid_example : (validate splits config ≡ none) ↔ IsValid splits sticky [] config
validate-IsValid_example = validate-IsValid splits sticky [] config

-- Validate accepts a storage type that initStorage does not know.
etcd_lem :
    (validate splits (record config { storage_type = text "etcd" }) ≡ none)
    × (init_storage (text "etcd") [] ≡ none)
unfolding validate check_logging check_api check_tls check_rate_limit check_circuit_breaker
    check_health_check to_lower has_suffix list_beq init_storage
etcd_lem = (refl, refl)
