-- ===== src/Middleware/Headers.antt =====
-- internal/middleware/headers.go: the middlewares that write and remove headers. A header maps its
-- canonical name to its value: Set and Del of net/http find a name by CanonicalHeaderKey.
pub mod Removal
use discobox.Prelude.{
  Str, ℕ, ◌+◌, ◌-◌, Bool, true, false, ◌&&◌, ◌||◌, ◌==◌, nat_eq, leb, contains, List, [], ◌∷◌, ◌++◌,
  Option, none, some, if◌then◌else◌, text, map, str_eq,
}
use discobox.Prelude.Dict.{Dict, lookup, insert, erase}

abbrev pub Header : Type 0
Header = Dict Str Str

abbrev is_upper : ℕ → Bool
is_upper c = leb 65 c && leb c 90

abbrev is_letter : ℕ → Bool
is_letter c = is_upper c || (leb 97 c && leb c 122)

-- A byte that a header's name may have.
abbrev pub is_token : ℕ → Bool
is_token c = is_letter c || (leb 48 c && leb c 57) || contains (text "!#$%&'*+-.^_`|~") c

abbrev pub lower : ℕ → ℕ
lower c = if is_upper c then c + 32 else c

abbrev pub upper : ℕ → ℕ
upper c = if leb 97 c && leb c 122 then c - 32 else c

-- strings.ToLower on ASCII text.
unfoldable pub to_lower : Str → Str
to_lower [] = []
to_lower (c ∷ s) = lower c ∷ to_lower s

unfoldable pub are_tokens : Str → Bool
are_tokens [] = true
are_tokens (c ∷ s) = is_token c && are_tokens s

-- The letters at the start and after a "-" in upper case, and the others in lower case.
unfoldable pub capitalized : Bool → Str → Str
capitalized starts [] = []
capitalized starts (c ∷ s) = (if starts then upper c else lower c) ∷ capitalized (c == b'-') s

-- http.CanonicalHeaderKey; a name with a byte that no name has is left as it is.
unfoldable pub canonical_key : Str → Str
canonical_key name = if are_tokens name then capitalized true name else name

-- What the underlying writer is asked to do, with the header as it is then.
pub data Call : Type 0 where
  sent : ℕ → Header → Call
  written : Str → Call

-- headerRemoverWriter, with the calls of the underlying writer in their order.
pub record Writer : Type 0 where
  pub header : Header
  pub headers : List Str
  pub wrote_header : Bool
  pub calls : List Call

-- Header().Set and Header().Del
abbrev pub set : Str → Str → Header → Header
set name value header = insert (canonical_key name) value header

abbrev pub del : Str → Header → Header
del name header = erase (canonical_key name) header

unfoldable pub set_all : Dict Str Str → Header → Header
set_all [] header = header
set_all ((name, value) ∷ rest) header = set_all rest (set name value header)

unfoldable pub del_all : List Str → Header → Header
del_all [] header = header
del_all (name ∷ names) header = del_all names (del name header)

abbrev pub security_headers : Header → Header
security_headers header =
    set_all
      ((text "X-Frame-Options", text "DENY")
        ∷ (text "X-Content-Type-Options", text "nosniff")
        ∷ (text "X-XSS-Protection", text "1; mode=block")
        ∷ (text "Strict-Transport-Security", text "max-age=31536000; includeSubDomains")
        ∷ (text "Referrer-Policy", text "strict-origin-when-cross-origin")
        ∷ (text "Content-Security-Policy", text "default-src 'self'")
        ∷ (text "Permissions-Policy", text "geolocation=(), microphone=(), camera=()")
        ∷ [])
      header

abbrev pub request_headers : Dict Str Str → List Str → Header → Header
request_headers add remove header = set_all add (del_all remove header)

abbrev pub set_found : Str → Option Str → Header → Header
set_found name none header = header
set_found name (some value) header = set name value header

abbrev pub conditional_headers :
    {Request : Type 0} → Dict Str (Request → Bool) → Dict Str Str → Request → Header → Header
conditional_headers [] headers r header = header
conditional_headers ((name, condition) ∷ rest) headers r header =
    conditional_headers rest headers r
      (if condition r then set_found name (lookup name headers) header else header)

abbrev pub server_header : Str → Header → Header
server_header name header = set (text "Server") name header

abbrev pub headers : Bool → Dict Str Str → Header → Header
headers security custom header =
    set_all custom (if security then security_headers header else header)

abbrev pub remove_headers : List Str → Header → Writer
remove_headers names header = record {
  header = header;
  headers = map to_lower names;
  wrote_header = false;
  calls = [];
}

abbrev send : ℕ → Writer → Writer
send code w = record w { calls = w.calls ++ sent code w.header ∷ [] }

unfoldable pub write_header : ℕ → Writer → Writer
write_header code w = send code (
    if w.wrote_header
    then w
    else record w { header = del_all w.headers w.header; wrote_header = true })

unfoldable pub write : Str → Writer → Writer
write b w =
    let ready = if w.wrote_header then w else write_header 200 w in
    record ready { calls = ready.calls ++ written b ∷ [] }
