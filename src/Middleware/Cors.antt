-- ===== src/Middleware/Cors.antt =====
-- internal/middleware/cors.go: CORS and NewCORS. The header of a response maps a name to its values.
-- What a middleware does is the header that it leaves, and whether it calls the next handler.
pub mod Origins
use discobox.Prelude.{
  Str, ℕ, ◌≡◌, refl, Bool, true, false, not, ◌&&◌, ◌||◌, ◌++◌, List, [], ◌∷◌, Option, none, some,
  if◌then◌else◌, ◌==◌, str_eq, nat_eq, text, is_empty, decimal,
}
use discobox.Prelude.Int.{ℤ, pos, negsuc}
use discobox.Prelude.Dict.{Dict, lookup, insert}

abbrev pub Header : Type 0
Header = Dict Str (List Str)

-- Header().Set and Header().Add
abbrev pub set : Str → Str → Header → Header
set name value h = insert name (value ∷ []) h

abbrev pub values_of : Option (List Str) → List Str
values_of none = []
values_of (some values) = values

unfoldable pub add : Str → Str → Header → Header
add name value h = insert name (values_of (lookup name h) ++ value ∷ []) h

abbrev pub set_if : Bool → Str → Str → Header → Header
set_if b name value h = if b then set name value h else h

-- strings.Join(parts, ", ")
abbrev pub joined : Str → List Str → Str
joined first [] = first
joined first (part ∷ parts) = first ++ text ", " ++ joined part parts

abbrev pub join : List Str → Str
join [] = []
join (part ∷ parts) = joined part parts

-- The request as far as the middleware reads it: its method, and Header.Get("Origin").
pub record Request : Type 0 where
  pub method : Str
  pub origin : Str

pub data Action : Type 0 where
  forwarded : Header → Action
  answered : ℕ → Header → Action

-- The CORS section of the configuration.
pub record CorsConfig : Type 0 where
  pub allowed_origins : List Str
  pub allowed_methods : List Str
  pub allowed_headers : List Str
  pub allow_credentials : Bool
  pub max_age : ℤ

-- The loop over the configured origins, which stops at "*": whether all are allowed, and those
-- before.
unfoldable pub load_origins : List Str → Dict Str Bool → Bool × Dict Str Bool
load_origins [] origins = (false, origins)
load_origins (origin ∷ rest) origins =
    let loaded = load_origins rest (insert origin true origins) in
    if origin == text "*" then (true, origins) else loaded

abbrev pub is_true : Option Bool → Bool
is_true none = false
is_true (some b) = b

-- allowAllOrigins || allowedOrigins[origin]
unfoldable pub is_allowed : List Str → Str → Bool
is_allowed allowed origin =
    let loaded = load_origins allowed [] in loaded.0 || is_true (lookup origin loaded.1)

-- if maxAge > 0 { Set("Access-Control-Max-Age", strconv.Itoa(maxAge)) }
abbrev pub set_max_age : ℤ → Header → Header
set_max_age (pos n) h = set_if (not (n == 0)) (text "Access-Control-Max-Age") (decimal n) h
set_max_age (negsuc n) h = h

-- The end of both middlewares: a preflight is answered, another request goes on.
unfoldable pub finish : Str → Str → Str → ℤ → Header → Action
finish method methods headers max_age h =
    let h' = set (text "Access-Control-Allow-Methods") methods h in
    let h'' = set (text "Access-Control-Allow-Headers") headers h' in
    if method == text "OPTIONS"
    then answered 204 (set_max_age max_age h'')
    else forwarded (add (text "Vary") (text "Origin") h)

abbrev pub set_origin : Str → Bool → Header → Header
set_origin origin credentials h =
    set_if credentials (text "Access-Control-Allow-Credentials") (text "true")
      (set (text "Access-Control-Allow-Origin") origin h)

unfoldable pub cors : CorsConfig → Request → Header → Action
cors cfg r h =
    if not (is_empty r.origin) && is_allowed cfg.allowed_origins r.origin
    then finish r.method (join cfg.allowed_methods) (join cfg.allowed_headers) cfg.max_age
        (set_origin r.origin cfg.allow_credentials h)
    else forwarded h

pub record CorsOptions : Type 0 where
  pub allowed_origins : List Str
  pub allowed_methods : List Str
  pub allowed_headers : List Str
  pub exposed_headers : List Str
  pub allow_credentials : Bool
  pub max_age : ℤ
  pub origin_func : Option (Str → Bool)

abbrev default_methods : List Str
default_methods =
    text "GET"
    ∷ text "POST"
    ∷ text "PUT"
    ∷ text "DELETE"
    ∷ text "OPTIONS"
    ∷ text "HEAD"
    ∷ text "PATCH"
    ∷ []

abbrev default_headers : List Str
default_headers =
    text "Accept" ∷ text "Content-Type" ∷ text "Content-Length" ∷ text "Authorization" ∷ []

abbrev pub or_default : List Str → List Str → List Str
or_default fallback [] = fallback
or_default fallback (x ∷ xs) = x ∷ xs

-- The checker that NewCORS builds where OriginFunc is nil.
unfoldable pub origin_allowed : CorsOptions → Str → Bool
origin_allowed opts origin = elim opts.origin_func [
  | some allows ↦ allows origin
  | none ↦ is_allowed opts.allowed_origins origin
]

unfoldable pub new_cors : CorsOptions → Request → Header → Action
new_cors opts r h =
    let methods = join (or_default default_methods opts.allowed_methods) in
    let headers = join (or_default default_headers opts.allowed_headers) in
    let exposed = join opts.exposed_headers in
    if is_empty r.origin
    then forwarded h
    else if not (origin_allowed opts r.origin)
    then forwarded h
    else finish r.method methods headers opts.max_age (
        set_if (not (is_empty exposed)) (text "Access-Control-Expose-Headers") exposed
          (set_origin r.origin opts.allow_credentials h))

abbrev pub permissive_cors : CorsOptions
permissive_cors = record {
  allowed_origins = text "*" ∷ [];
  allowed_methods = text "*" ∷ [];
  allowed_headers = text "*" ∷ [];
  exposed_headers = [];
  allow_credentials = true;
  max_age = pos 86400;
  origin_func = none;
}
