-- ===== src/Storage/Memory/ApiKeys.antt =====
-- internal/storage/memory.go: the operations on API keys. GetAPIKey and RevokeAPIKey write to the
-- stored object itself.
use discobox.Prelude.{
  Str, ℕ, List, if◌then◌else◌, ◌==◌, str_eq, Option, none, some, text, not, keep, false,
}
use discobox.Prelude.Dict.{lookup, insert, has, values}
use discobox.Types.Errors.{Result, ok, err, invalid_request, new}
use discobox.Types.User.{ApiKey}
use discobox.Storage.Memory.State.{MemoryStorage}

-- The store with one API key overwritten.
abbrev with_key : Str → ApiKey → MemoryStorage → MemoryStorage
with_key key api_key s = record s { api_keys = insert key api_key s.api_keys }

unfoldable pub get_api_key : ℕ → Str → MemoryStorage → Result ApiKey × MemoryStorage
get_api_key now key s = elim (lookup key s.api_keys) [
  | none ↦ (err (new (text "API key not found")), s)
  | some api_key ↦ (
    ok (record api_key { last_used_at = some now }),
    with_key key (record api_key { last_used_at = some now }) s,
  )
]

unfoldable pub list_api_keys_by_user : Str → MemoryStorage → Result (List ApiKey)
list_api_keys_by_user user_id s =
    ok (keep (λ (a : ApiKey). a.user_id == user_id) (values s.api_keys))

unfoldable pub create_api_key : ℕ → Option ApiKey → MemoryStorage → Result ApiKey × MemoryStorage
create_api_key now none s = (err invalid_request, s)
create_api_key now (some api_key) s =
    let stamped : ApiKey = record api_key { created_at = now } in
    if has api_key.key s.api_keys
    then (err (new (text "API key already exists")), s)
    else if not (has api_key.user_id s.users)
    then (err (new (text "user not found")), s)
    else (ok stamped, with_key api_key.key stamped s)

unfoldable pub revoke_api_key : Str → MemoryStorage → Result (Unit {0}) × MemoryStorage
revoke_api_key key s = elim (lookup key s.api_keys) [
  | none ↦ (err (new (text "API key not found")), s)
  | some api_key ↦ (ok tt, with_key key (record api_key { active = false }) s)
]
