-- ===== src/Middleware/Cors/Origins.antt =====
-- internal/middleware/cors.go: which requests CORS and NewCORS let a browser read the response of.
use discobox.Prelude.{
  Str, ◌≡◌, refl, ◌∙◌, Bool, true, false, not, ◌&&◌, ◌||◌, ◌++◌, List, [], ◌∷◌, Option, none, some,
  if◌then◌else◌, ◌==◌, str_eq, text, is_empty, decimal, list_beq, nat_eq, arith, beq-cases,
  Bool-cases, inl, inr,
}
use discobox.Prelude.Dict.{Dict, lookup, insert, lookup-insert, lookup-insert_self}
use discobox.Prelude.Int.{ℤ, pos, negsuc}
use discobox.Prelude.Ranges.{listed}
use discobox.Middleware.Cors.{
  Header, Request, Action, forwarded, answered, CorsConfig, load_origins, is_true, is_allowed, cors,
  new_cors, origin_allowed, finish, set, set_if, add, values_of, set_max_age, set_origin, join,
}

load_origins-allowed :
    (origin : Str) (allowed : List Str) (m : Dict Str Bool)
    → ((load_origins allowed m).0 || is_true (lookup origin (load_origins allowed m).1))
      ≡ (listed (text "*") allowed || listed origin allowed || is_true (lookup origin m))
unfolding load_origins
load_origins-allowed origin [] m = refl
load_origins-allowed origin (o ∷ os) m = elim (beq-cases o (text "*")) [
  | inl (p, b) ↦ rw b refl
  | inr (n, b) ↦ rw (b) (
      load_origins-allowed origin os (insert o true m)
      ∙ rw (lookup-insert o origin true m)
          (merged (listed (text "*") os) (o == origin) (listed origin os) (lookup origin m)))
]
  where
    merged :
        (a b c : Bool) (d : Option Bool)
        → (a || c || is_true (if b then some true else d)) ≡ (a || (b || c) || is_true d)
    merged a b c d = ground arith

-- An origin is allowed if it or "*" is listed, wherever the loop over the list stops.
pub is_allowed-listed :
    (allowed : List Str) (origin : Str)
    → is_allowed allowed origin ≡ (listed (text "*") allowed || listed origin allowed)
unfolding is_allowed lookup
is_allowed-listed allowed origin =
    load_origins-allowed origin allowed []
    ∙ or_false (listed (text "*") allowed || listed origin allowed)
  where
    or_false : (b : Bool) → (b || false) ≡ b
    or_false b = ground arith

abbrev pub header_of : Action → Header
header_of (forwarded h) = h
header_of (answered status h) = h

-- The next handler is not called.
abbrev pub is_answered : Action → Bool
is_answered (forwarded h) = false
is_answered (answered status h) = true

-- Writing another name leaves the header that lets the origin in.
abbrev allow_origin : Str
allow_origin = text "Access-Control-Allow-Origin"

keeps :
    (name : Str) (values : List Str) (h : Header)
    → (name == allow_origin) ≡ false
    → lookup allow_origin (insert name values h) ≡ lookup allow_origin h
keeps name values h n = lookup-insert name allow_origin values h ∙ rw n refl

keeps_if :
    (b : Bool) (name value : Str) (h : Header)
    → (name == allow_origin) ≡ false
    → lookup allow_origin (set_if b name value h) ≡ lookup allow_origin h
keeps_if true name value h n = keeps name (value ∷ []) h n
keeps_if false name value h n = refl

keeps_age : (age : ℤ) (h : Header) → lookup allow_origin (set_max_age age h) ≡ lookup allow_origin h
unfolding list_beq
keeps_age (pos n) h = keeps_if (not (n == 0)) (text "Access-Control-Max-Age") (decimal n) h refl
keeps_age (negsuc n) h = refl

lookup-finish :
    (method methods headers : Str) (age : ℤ) (h : Header)
    → lookup allow_origin (header_of (finish method methods headers age h)) ≡ lookup allow_origin h
unfolding finish add list_beq
lookup-finish method methods headers age h = elim (Bool-cases (method == text "OPTIONS")) [
  | inl t ↦ rw t (
      keeps_age age (
        set (text "Access-Control-Allow-Headers") headers
          (set (text "Access-Control-Allow-Methods") methods h))
      ∙ keeps (text "Access-Control-Allow-Headers") (headers ∷ [])
          (set (text "Access-Control-Allow-Methods") methods h) refl
      ∙ keeps (text "Access-Control-Allow-Methods") (methods ∷ []) h refl)
  | inr f ↦
      rw f (keeps (text "Vary") (values_of (lookup (text "Vary") h) ++ text "Origin" ∷ []) h refl)
]

is_answered-finish :
    (method methods headers : Str) (age : ℤ) (h : Header)
    → is_answered (finish method methods headers age h) ≡ (method == text "OPTIONS")
unfolding finish
is_answered-finish method methods headers age h = elim (Bool-cases (method == text "OPTIONS")) [
  | inl t ↦ rw t refl
  | inr f ↦ rw f refl
]

lookup-set_origin :
    (origin : Str) (credentials : Bool) (h : Header)
    → lookup allow_origin (set_origin origin credentials h) ≡ some (origin ∷ [])
unfolding list_beq
lookup-set_origin origin credentials h =
    keeps_if credentials (text "Access-Control-Allow-Credentials") (text "true")
      (set allow_origin origin h) refl
    ∙ lookup-insert_self allow_origin (origin ∷ []) h

-- A request has an origin that the configuration lists, itself or by "*".
abbrev pub is_listed : List Str → Str → Bool
is_listed allowed origin =
    not (is_empty origin) && (listed (text "*") allowed || listed origin allowed)

-- On a response that does not have it yet, CORS sets Access-Control-Allow-Origin exactly for a
-- request whose origin is not empty and is listed, itself or by "*", and then to that origin; and it
-- answers instead of the next handler exactly the OPTIONS requests among those.
pub cors-is_listed :
    (cfg : CorsConfig) (r : Request) (h : Header)
    → lookup (text "Access-Control-Allow-Origin") h ≡ none
    → (lookup (text "Access-Control-Allow-Origin") (header_of (cors cfg r h))
        ≡ (if is_listed cfg.allowed_origins r.origin then some (r.origin ∷ []) else none))
      × (is_answered (cors cfg r h)
          ≡ (is_listed cfg.allowed_origins r.origin && r.method == text "OPTIONS"))
unfolding cors
cors-is_listed cfg r h missing =
    rw (is_allowed-listed cfg.allowed_origins r.origin)
      (elim (Bool-cases (is_listed cfg.allowed_origins r.origin)) [
        | inl t ↦ rw t (
          lookup-finish r.method (join cfg.allowed_methods) (join cfg.allowed_headers) cfg.max_age
                (set_origin r.origin cfg.allow_credentials h)
              ∙ lookup-set_origin r.origin cfg.allow_credentials h,
          is_answered-finish r.method (join cfg.allowed_methods) (join cfg.allowed_headers)
              cfg.max_age (set_origin r.origin cfg.allow_credentials h),
        )
        | inr f ↦ rw f (missing, refl)
      ])

-- NewCORS with the same settings, methods and headers that are not empty, and neither exposed
-- headers nor an OriginFunc, is CORS.
new_cors-cors :
    (cfg : CorsConfig) (method header : Str) (methods headers : List Str) (r : Request) (h : Header)
    → cfg.allowed_methods ≡ method ∷ methods
    → cfg.allowed_headers ≡ header ∷ headers
    → new_cors
        (record {
          allowed_origins = cfg.allowed_origins;
          allowed_methods = cfg.allowed_methods;
          allowed_headers = cfg.allowed_headers;
          exposed_headers = [];
          allow_credentials = cfg.allow_credentials;
          max_age = cfg.max_age;
          origin_func = none;
        })
        r
        h
      ≡ cors cfg r h
unfolding new_cors cors origin_allowed
new_cors-cors cfg method header methods headers r h em eh =
    rw (em, eh)
      (elim (Bool-cases (is_empty r.origin)) [
        | inl t ↦ rw t refl
        | inr f ↦ rw f (elim (Bool-cases (is_allowed cfg.allowed_origins r.origin)) [
          | inl y ↦ rw y refl
          | inr n ↦ rw n refl
        ])
      ])
