-- ===== src/Config/Validator/Valid.antt =====
-- internal/config/validator.go: which configurations Validate accepts, said without its tests, and
-- what cmd/discobox/main.go makes of them.
use discobox.Prelude.{
  Str, ◌≡◌, ◌≢◌, refl, sym, ◌∙◌, ◌↔◌, ◌⊎◌, inl, inr, Bool, true, false, ◌||◌, ◌++◌, List, [], ◌∷◌,
  Option, none, some, is_some, is_empty, text, str_eq, arith, if◌then◌else◌, ◌==◌, beq_comm,
}
use discobox.Prelude.Int.{pos, ◌<ℤ◌}
use discobox.Prelude.Ranges.{listed}
use discobox.Command.{
  Algorithm, Sticky, algorithm_of, with_sticky, init_load_balancer, init_storage,
}
use discobox.Config.Validator.{
  ProxyConfig, TlsSettings, ApiSettings, validate, has_none, to_lower, algorithms, storage_types,
  tls_versions, log_levels, log_formats,
}
use discobox.Config.Validator.Exact.{
  IsHealthCheck, IsBreaker, IsRateLimit, IsCheckedTls, IsChecked, validate-IsChecked,
}

-- A name that is one of several.
abbrev pub Among : Str → Str → List Str → Type 0
Among s a [] = s ≡ a
Among s a (b ∷ names) = (s ≡ a) ⊎ Among s b names

or_true : (a b : Bool) → ((a || b) ≡ true) ↔ ((a ≡ true) ⊎ (b ≡ true))
or_true true b = (λ h. inl refl, λ h. refl)
or_true false b = (λ h. inr h, λ w. elim w [ inl e ↦ absurd (cc e) | inr e ↦ e ])

not_empty : (s : Str) → (is_empty s ≡ false) ↔ (s ≢ [])
not_empty [] = (λ h. absurd (cc h), λ n. absurd (n refl))
not_empty (c ∷ s) = (λ h e. absurd (cc e), λ n. refl)

some_listed : (xs : List Str) → (has_none xs ≡ false) ↔ (xs ≢ [])
some_listed [] = (λ h. absurd (cc h), λ n. absurd (n refl))
some_listed (x ∷ xs) = (λ h e. absurd (cc e), λ n. refl)

listed-Among : (s a : Str) (names : List Str) → (listed s (a ∷ names) ≡ true) ↔ Among s a names
listed-Among s a [] = (
  λ h. sym ((str_eq.beq_iff a s).0 (ground (arith, h))),
  λ e. ground (arith, (str_eq.beq_iff a s).1 (sym e)),
)
listed-Among s a (b ∷ names) = (
  (λ h. elim ((or_true (a == s) (listed s (b ∷ names))).0 h) [
    | inl e ↦ inl (sym ((str_eq.beq_iff a s).0 e))
    | inr l ↦ inr ((listed-Among s b names).0 l)
  ]),
  (λ w. elim w [
    | inl e ↦ (or_true (a == s) (listed s (b ∷ names))).1 (inl ((str_eq.beq_iff a s).1 (sym e)))
    | inr m ↦ (or_true (a == s) (listed s (b ∷ names))).1 (inr ((listed-Among s b names).1 m))
  ]),
)

abbrev pub IsVersion : Str → Type 0
IsVersion s = Among s (text "1.0") (text "1.1" ∷ text "1.2" ∷ text "1.3" ∷ [])

abbrev pub IsLogLevel : Str → Type 0
IsLogLevel s = Among s (text "debug") (text "info" ∷ text "warn" ∷ text "error" ∷ text "fatal" ∷ [])

abbrev pub IsLogFormat : Str → Type 0
IsLogFormat s = Among s (text "json") (text "text" ∷ [])

IsVersion-Among : (s : Str) → (listed s tls_versions ≡ true) ↔ IsVersion s
IsVersion-Among s = listed-Among s (text "1.0") (text "1.1" ∷ text "1.2" ∷ text "1.3" ∷ [])

IsLogLevel-Among : (s : Str) → (listed s log_levels ≡ true) ↔ IsLogLevel s
IsLogLevel-Among s =
    listed-Among s (text "debug") (text "info" ∷ text "warn" ∷ text "error" ∷ text "fatal" ∷ [])

IsLogFormat-Among : (s : Str) → (listed s log_formats ≡ true) ↔ IsLogFormat s
IsLogFormat-Among s = listed-Among s (text "json") (text "text" ∷ [])

-- With certificates that are made automatically there is a domain, and otherwise both files are
-- named; the version is one of the four.
abbrev pub IsTls : TlsSettings → Type 0
IsTls tls =
    tls.enabled ≡ true
    → (tls.auto_cert ≡ true → tls.domains ≢ [])
      × (tls.auto_cert ≡ false → (tls.cert_file ≢ []) × (tls.key_file ≢ []))
      × IsVersion tls.min_version

listed-algorithm_of : (s : Str) → listed s algorithms ≡ is_some (algorithm_of s)
unfolding algorithm_of
listed-algorithm_of s = ground (
  arith,
  beq_comm s (text "round_robin"),
  beq_comm s (text "weighted"),
  beq_comm s (text "least_conn"),
  beq_comm s (text "ip_hash"),
)

listed-init_storage :
    (s dsn : Str) → listed s storage_types ≡ (is_some (init_storage s dsn) || s == text "etcd")
unfolding init_storage
listed-init_storage s dsn =
    ground (arith, beq_comm s (text "sqlite"), beq_comm s (text "memory"), beq_comm s (text "etcd"))

is_some-with_sticky :
    (sticky : Sticky) (o : Option Algorithm) → is_some (with_sticky sticky o) ≡ is_some o
is_some-with_sticky sticky none = refl
is_some-with_sticky sticky (some algorithm) = refl

listed-init_load_balancer :
    (s : Str) (sticky : Sticky) → listed s algorithms ≡ is_some (init_load_balancer s sticky)
unfolding init_load_balancer
listed-init_load_balancer s sticky =
    listed-algorithm_of s ∙ sym (is_some-with_sticky sticky (algorithm_of s))

storage_type-Among :
    (s dsn : Str)
    → (listed s storage_types ≡ true) ↔ ((is_some (init_storage s dsn) ≡ true) ⊎ (s ≡ text "etcd"))
storage_type-Among s dsn = (
  (λ h.
      elim ((or_true (is_some (init_storage s dsn)) (s == text "etcd")).0
        (sym (listed-init_storage s dsn) ∙ h)) [
          | inl e ↦ inl e
          | inr e ↦ inr ((str_eq.beq_iff s (text "etcd")).0 e)
        ]),
  (λ w.
      listed-init_storage s dsn
      ∙ (or_true (is_some (init_storage s dsn)) (s == text "etcd")).1
          (elim w [ inl e ↦ inl e | inr e ↦ inr ((str_eq.beq_iff s (text "etcd")).1 e) ])),
)

files_named :
    (cert key : Str) → ((is_empty cert || is_empty key) ≡ false) ↔ ((cert ≢ []) × (key ≢ []))
files_named [] key = (λ h. absurd (cc h), λ n. absurd (n.0 refl))
files_named (c ∷ cert) key =
    ((λ h. ((λ e. absurd (cc e)), (not_empty key).0 h)), (λ n. (not_empty key).1 n.1))

tls_sources :
    (auto : Bool) (domains : List Str) (cert key : Str)
    → ((if auto then has_none domains else (is_empty cert || is_empty key)) ≡ false)
      ↔ ((auto ≡ true → domains ≢ []) × (auto ≡ false → (cert ≢ []) × (key ≢ [])))
tls_sources true domains cert key = (
  (λ h. ((λ t. (some_listed domains).0 h), (λ f. absurd (cc f)))),
  (λ n. (some_listed domains).1 (n.0 refl)),
)
tls_sources false domains cert key = (
  (λ h. ((λ t. absurd (cc t)), (λ f. (files_named cert key).0 h))),
  (λ n. (files_named cert key).1 (n.1 refl)),
)

IsCheckedTls-IsTls : (tls : TlsSettings) → IsCheckedTls tls ↔ IsTls tls
IsCheckedTls-IsTls tls = (
  (λ h on.
      let sources = (tls_sources tls.auto_cert tls.domains tls.cert_file tls.key_file).0 (h on).0 in
      (sources.0, sources.1, (IsVersion-Among tls.min_version).0 (h on).1)),
  (λ v on. (
    (tls_sources tls.auto_cert tls.domains tls.cert_file tls.key_file).1 ((v on).0, (v on).1),
    (IsVersion-Among tls.min_version).1 (v on).2,
  )),
)

module _ (splits : Str → Bool) where
  -- With the port that it has, or with the default one.
  abbrev pub IsAddress : Str → Type 0
  IsAddress addr = (splits addr ≡ true) ⊎ (splits (addr ++ text ":80") ≡ true)

  abbrev pub IsApi : ApiSettings → Type 0
  IsApi api = api.enabled ≡ true → (api.addr ≢ []) × IsAddress api.addr

  module _ (sticky : Sticky) (dsn : Str) where
    pub record IsValid (cfg : ProxyConfig) : Type 0 where
      pub listen_addr : cfg.listen_addr ≢ []
      pub listen_port : IsAddress cfg.listen_addr
      pub read_timeout : pos 0 <ℤ cfg.read_timeout
      pub write_timeout : pos 0 <ℤ cfg.write_timeout
      pub algorithm : is_some (init_load_balancer cfg.algorithm sticky) ≡ true
      pub health_check : IsHealthCheck cfg.health_check
      pub circuit_breaker : IsBreaker cfg.circuit_breaker
      pub rate_limit : IsRateLimit cfg.rate_limit
      pub tls : IsTls cfg.tls
      pub storage_type :
          (is_some (init_storage cfg.storage_type dsn) ≡ true) ⊎ (cfg.storage_type ≡ text "etcd")
      pub api : IsApi cfg.api
      pub log_level : IsLogLevel (to_lower cfg.log_level)
      pub log_format : IsLogFormat (to_lower cfg.log_format)

    IsChecked-IsValid : (cfg : ProxyConfig) → IsChecked splits cfg → IsValid cfg
    IsChecked-IsValid cfg c = record {
      listen_addr = (not_empty cfg.listen_addr).0 c.listen_addr;
      listen_port = (or_true (splits cfg.listen_addr) _).0 c.listen_port;
      read_timeout = c.read_timeout;
      write_timeout = c.write_timeout;
      algorithm = sym (listed-init_load_balancer cfg.algorithm sticky) ∙ c.algorithm;
      health_check = c.health_check;
      circuit_breaker = c.circuit_breaker;
      rate_limit = c.rate_limit;
      tls = (IsCheckedTls-IsTls cfg.tls).0 c.tls;
      storage_type = (storage_type-Among cfg.storage_type dsn).0 c.storage_type;
      api = λ on. (
        (not_empty cfg.api.addr).0 (c.api on).0,
        (or_true (splits cfg.api.addr) _).0 (c.api on).1,
      );
      log_level = (IsLogLevel-Among (to_lower cfg.log_level)).0 c.log_level;
      log_format = (IsLogFormat-Among (to_lower cfg.log_format)).0 c.log_format;
    }

    IsValid-IsChecked : (cfg : ProxyConfig) → IsValid cfg → IsChecked splits cfg
    IsValid-IsChecked cfg v = record {
      listen_addr = (not_empty cfg.listen_addr).1 v.listen_addr;
      listen_port = (or_true (splits cfg.listen_addr) _).1 v.listen_port;
      read_timeout = v.read_timeout;
      write_timeout = v.write_timeout;
      algorithm = listed-init_load_balancer cfg.algorithm sticky ∙ v.algorithm;
      health_check = v.health_check;
      circuit_breaker = v.circuit_breaker;
      rate_limit = v.rate_limit;
      tls = (IsCheckedTls-IsTls cfg.tls).1 v.tls;
      storage_type = (storage_type-Among cfg.storage_type dsn).1 v.storage_type;
      api = λ on. (
        (not_empty cfg.api.addr).1 (v.api on).0,
        (or_true (splits cfg.api.addr) _).1 (v.api on).1,
      );
      log_level = (IsLogLevel-Among (to_lower cfg.log_level)).1 v.log_level;
      log_format = (IsLogFormat-Among (to_lower cfg.log_format)).1 v.log_format;
    }

    -- Validate returns no error exactly for a configuration whose algorithm initLoadBalancer builds,
    -- whatever the sticky sessions; whose storage type initStorage knows, whatever the data source,
    -- or is "etcd", which initStorage does not know; whose addresses can be split from their ports,
    -- whose timeouts and health-check numbers are positive with the timeout below the interval,
    -- whose log level and format are known in some case; and whose circuit breaker, rate limit, TLS
    -- section and API address are in order wherever they are enabled.
    pub validate-IsValid : (cfg : ProxyConfig) → (validate splits cfg ≡ none) ↔ IsValid cfg
    validate-IsValid cfg = (
      λ h. IsChecked-IsValid cfg ((validate-IsChecked splits cfg).0 h),
      λ v. (validate-IsChecked splits cfg).1 (IsValid-IsChecked cfg v),
    )
