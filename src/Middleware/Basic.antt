-- ===== src/Middleware/Basic.antt =====
-- internal/middleware/auth/basic.go: basic authentication. `decode` is DecodeString of
-- base64.StdEncoding. A header maps the canonical name to its value. ConstantTimeCompare of two
-- texts is 1 exactly if they are equal.
pub mod Credentials
use discobox.Prelude.{
  Str, ℕ, suc, Bool, true, false, not, List, [], ◌∷◌, ◌++◌, Option, none, some, if◌then◌else◌, ◌==◌,
  str_eq, is_empty, has_prefix, text, length, take, drop,
}
use discobox.Prelude.Dict.{Dict, lookup, insert}
use discobox.Prelude.Prefixes.{index_byte}

abbrev pub Header : Type 0
Header = Dict Str Str

-- The request goes on with the header, or is answered with a status, the header and the text that
-- the code gives.
pub data Outcome : Type 0 where
  forwarded : Header → Outcome
  refused : ℕ → Header → Str → Outcome

abbrev value_or_empty : Option Str → Str
value_or_empty none = []
value_or_empty (some value) = value

-- r.Header.Get(name)
abbrev pub get : Str → Header → Str
get name header = value_or_empty (lookup name header)

abbrev challenge : Str → Header
challenge realm = (text "WWW-Authenticate", text "Basic realm=\"" ++ realm ++ text "\"") ∷ []

abbrev pub unauthorized : Str → Outcome
unauthorized realm = refused 401 (challenge realm) (text "Unauthorized")

abbrev pub prefix : Str
prefix = text "Basic "

abbrev split_at : Str → Option ℕ → Option (Str × Str)
split_at credentials none = none
split_at credentials (some i) = some (take i credentials, drop (suc i) credentials)

-- The user's name and the password; `none` without a colon. SplitN(credentials, ":", 2) splits at
-- the same place.
unfoldable pub split_credentials : Str → Option (Str × Str)
split_credentials credentials = split_at credentials (index_byte credentials b':')

abbrev pub set_user : Str → Header → Header
set_user username header = insert (text "X-Auth-User") username header

module _ (users : Dict Str Str) (decode : Str → Option Str) where
  abbrev pub check_password : Str → Str → Option Str → Header → Outcome
  check_password username password none header = unauthorized (text "Basic")
  check_password username password (some expected) header =
      if password == expected
      then forwarded (set_user username header)
      else unauthorized (text "Basic")

  abbrev pub check_credentials : Option (Str × Str) → Header → Outcome
  check_credentials none header = unauthorized (text "Basic")
  check_credentials (some (username, password)) header =
      check_password username password (lookup username users) header

  abbrev pub check_decoded : Option Str → Header → Outcome
  check_decoded none header = unauthorized (text "Basic")
  check_decoded (some credentials) header = check_credentials (split_credentials credentials) header

  unfoldable pub basic : Header → Outcome
  basic header =
      let auth = get (text "Authorization") header in
      if is_empty auth
      then unauthorized (text "Basic")
      else if not (has_prefix auth prefix)
      then unauthorized (text "Basic")
      else check_decoded (decode (drop (length prefix) auth)) header

module _ (realm : Str) (validator : Str → Str → Bool) (decode : Str → Option Str) where
  abbrev pub validate : Option (Str × Str) → Header → Outcome
  validate none header = refused 400 [] (text "Invalid credentials format")
  validate (some (username, password)) header =
      if validator username password
      then forwarded (set_user username header)
      else refused 401 (challenge realm) (text "Invalid credentials")

  abbrev pub validate_decoded : Option Str → Header → Outcome
  validate_decoded none header = refused 400 [] (text "Invalid authorization encoding")
  validate_decoded (some credentials) header = validate (split_credentials credentials) header

  unfoldable pub custom_basic : Header → Outcome
  custom_basic header =
      let auth = get (text "Authorization") header in
      if is_empty auth
      then refused 401 (challenge realm) (text "Unauthorized")
      else if not (has_prefix auth prefix)
      then refused 400 [] (text "Invalid authorization header")
      else validate_decoded (decode (drop (length prefix) auth)) header
