-- ===== src/Middleware/Basic/Credentials.antt =====
-- internal/middleware/auth/basic.go: who is let in.
use discobox.Prelude.{
  Str, ◌≡◌, refl, sym, ap, ◌∙◌, ◌⊎◌, inl, inr, Bool, false, ◌∷◌, ◌++◌, Option, none, some, ◌==◌,
  str_eq, has_prefix, is_empty, contains, text, length, drop, Bool-cases, Option-cases, beq_self,
  eq_of_beq,
}
use discobox.Prelude.Dict.{Dict, lookup}
use discobox.Prelude.Prefixes.{
  index_byte, has_prefix-append, drop-append, drop-append_next, take-append, append-drop,
  index_byte-append, index_byte-split,
}
use discobox.Middleware.Basic.{
  Header, Outcome, forwarded, get, unauthorized, prefix, split_credentials, set_user,
  check_credentials, basic, validate, custom_basic, refused,
}

split_credentials-append :
    (username password : Str)
    → contains username b':' ≡ false
    → split_credentials (username ++ b':' ∷ password) ≡ some (username, password)
unfolding split_credentials
split_credentials-append username password h =
    rw
      (
        index_byte-append username password b':' h,
        take-append username (b':' ∷ password),
        drop-append_next username password b':',
      )
      refl

-- What a decoded text holds.
abbrev Holds : Str → Option (Str × Str) → Type 0
Holds credentials none = Unit
Holds credentials (some (username, password)) =
    (credentials ≡ username ++ b':' ∷ password) × (contains username b':' ≡ false)

split_credentials-Holds : (credentials : Str) → Holds credentials (split_credentials credentials)
unfolding split_credentials
split_credentials-Holds credentials = elim (Option-cases (index_byte credentials b':')) [
  | inl gone ↦ rw gone tt
  | inr (i, there) ↦ rw there (index_byte-split credentials b':' i there)
]

-- The header of a user: its Authorization is "Basic " and a text that is decoded to the name, which
-- has no colon, a colon and the password.
abbrev pub Names : (Str → Option Str) → Header → Str → Str → Type 0
Names decode header username password =
    (encoded : Str) × (get (text "Authorization") header ≡ prefix ++ encoded)
    × (decode encoded ≡ some (username ++ b':' ∷ password))
    × (contains username b':' ≡ false)

abbrev pub forwarded_of : Outcome → Option Header
forwarded_of (forwarded header) = some header
forwarded_of (refused status header message) = none

module _ (users : Dict Str Str) (decode : Str → Option Str) where
  -- One that names a user with the user's password.
  abbrev pub Admits : Header → Str → Str → Type 0
  Admits header username password =
      Names decode header username password × (lookup username users ≡ some password)

  basic-forwarded :
      (header : Header) (username password : Str)
      → Admits header username password
      → basic users decode header ≡ forwarded (set_user username header)
  unfolding basic
  basic-forwarded header username password ((encoded, auth, decoded, plain), listed) =
      rw
        (
          auth,
          has_prefix-append prefix encoded,
          drop-append prefix encoded,
          decoded,
          split_credentials-append username password plain,
          listed,
          beq_self password,
        )
        refl

  -- The outcome is a refusal, or the header admits a user.
  abbrev Refuses : Header → Outcome → Type 0
  Refuses header outcome =
      (outcome ≡ unauthorized (text "Basic"))
      ⊎ ((username : Str) × (password : Str) × Admits header username password)

  check_credentials-Refuses :
      (header : Header) (encoded credentials : Str) (o : Option (Str × Str))
      → get (text "Authorization") header ≡ prefix ++ encoded
      → decode encoded ≡ some credentials
      → Holds credentials o
      → Refuses header (check_credentials users decode o header)
  check_credentials-Refuses header encoded credentials none auth decoded holds = inl refl
  check_credentials-Refuses header encoded credentials (some (username, password)) auth decoded
        holds =
      elim (Option-cases (lookup username users)) [
        | inl gone ↦ rw gone (inl refl)
        | inr (expected, there) ↦ rw there (elim (Bool-cases (password == expected)) [
          | inl t ↦ inr (
            username,
            password,
            (
              (encoded, auth, decoded ∙ ap some holds.0, holds.1),
              there ∙ ap some (sym (eq_of_beq password expected t)),
            ),
          )
          | inr f ↦ rw f (inl refl)
        ])
      ]

  basic-Refuses : (header : Header) → Refuses header (basic users decode header)
  unfolding basic
  basic-Refuses header = elim (Bool-cases (is_empty (get (text "Authorization") header))) [
    | inl t ↦ rw t (inl refl)
    | inr f ↦ rw f (elim (Bool-cases (has_prefix (get (text "Authorization") header) prefix)) [
      | inr g ↦ rw g (inl refl)
      | inl t ↦
          let encoded = drop (length prefix) (get (text "Authorization") header) in
          rw t (elim (Option-cases (decode encoded)) [
            | inl bad ↦ rw bad (inl refl)
            | inr (credentials, decoded) ↦ rw decoded (
                check_credentials-Refuses header encoded credentials (split_credentials credentials)
                  (append-drop prefix (get (text "Authorization") header) t) decoded
                  (split_credentials-Holds credentials))
          ])
    ])
  ]

  -- What CustomBasic is given for the configured users.
  abbrev is_password : Str → Option Str → Bool
  is_password password none = false
  is_password password (some expected) = password == expected

  abbrev pub listed : Str → Str → Bool
  listed username password = is_password password (lookup username users)

  validate-check :
      (realm : Str) (header : Header) (o : Option (Str × Str))
      → forwarded_of (validate realm listed decode o header)
        ≡ forwarded_of (check_credentials users decode o header)
  validate-check realm header none = refl
  validate-check realm header (some (username, password)) =
      elim (Option-cases (lookup username users)) [
        | inl gone ↦ rw gone refl
        | inr (expected, there) ↦
            rw there
              (elim (Bool-cases (password == expected)) [ inl t ↦ rw t refl | inr f ↦ rw f refl ])
      ]

  -- CustomBasic with the validator that looks a user up lets on what Basic lets on.
  custom_basic-basic :
      (realm : Str) (header : Header)
      → forwarded_of (custom_basic realm listed decode header)
        ≡ forwarded_of (basic users decode header)
  unfolding basic custom_basic
  custom_basic-basic realm header =
      elim (Bool-cases (is_empty (get (text "Authorization") header))) [
        | inl t ↦ rw t refl
        | inr f ↦ rw f (elim (Bool-cases (has_prefix (get (text "Authorization") header) prefix)) [
          | inr g ↦ rw g refl
          | inl t ↦
              rw t
                (elim (Option-cases
                  (decode (drop (length prefix) (get (text "Authorization") header)))) [
                    | inl bad ↦ rw bad refl
                    | inr (credentials, decoded) ↦
                        rw decoded (validate-check realm header (split_credentials credentials))
                  ])
        ])
      ]

  -- A request goes on exactly if it names a user with the password that the configuration has for
  -- the user, and it goes on with the user's name in X-Auth-User, whatever the client put there;
  -- every other request is answered 401. CustomBasic with a validator that looks the user up in the
  -- same way, for any realm, lets on the same requests with the same header.
  pub basic-Admits :
      (realm : Str) (header : Header)
      → ((username password : Str)
          → Admits header username password
          → basic users decode header ≡ forwarded (set_user username header))
        × ((basic users decode header ≡ unauthorized (text "Basic"))
            ⊎ ((username : Str) × (password : Str) × Admits header username password))
        × (forwarded_of (custom_basic realm listed decode header)
            ≡ forwarded_of (basic users decode header))
  basic-Admits realm header =
      (basic-forwarded header, basic-Refuses header, custom_basic-basic realm header)
