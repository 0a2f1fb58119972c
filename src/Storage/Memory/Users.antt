-- ===== src/Storage/Memory/Users.antt =====
-- internal/storage/memory.go: the operations on users.
use discobox.Prelude.{Str, ℕ, List, if◌then◌else◌, ◌==◌, str_eq, Option, none, some, text}
use discobox.Prelude.Ranges.{erase_where}
use discobox.Prelude.Dict.{lookup, insert, erase, has, values}
use discobox.Types.Errors.{Result, ok, err, invalid_request, new}
use discobox.Types.User.{User, ApiKey}
use discobox.Storage.Memory.State.{MemoryStorage}

unfoldable pub get_user : Str → MemoryStorage → Result User
get_user id s = elim (lookup id s.users) [
  | none ↦ err (new (text "user not found"))
  | some user ↦ ok user
]

unfoldable pub get_user_by_username : Str → MemoryStorage → Result User
unfolding get_user
get_user_by_username username s = elim (lookup username s.usernames) [
  | none ↦ err (new (text "user not found"))
  | some id ↦ get_user id s
]

unfoldable pub list_users : MemoryStorage → Result (List User)
list_users s = ok (values s.users)

unfoldable pub create_user : ℕ → Option User → MemoryStorage → Result User × MemoryStorage
create_user now none s = (err invalid_request, s)
create_user now (some user) s =
    let stamped : User = record user { created_at = now; updated_at = now } in
    if has user.id s.users
    then (err (new (text "user already exists")), s)
    else if has user.username s.usernames
    then (err (new (text "username already taken")), s)
    else (
      ok stamped,
      record s {
        users = insert user.id stamped s.users;
        usernames = insert user.username user.id s.usernames;
      },
    )

-- The new mapping from names to ids when a user takes another name.
unfoldable pub rename : User → User → MemoryStorage → MemoryStorage
rename existing user s = record s {
  usernames = insert user.username user.id (erase existing.username s.usernames);
}

unfoldable pub put_user : ℕ → User → User → MemoryStorage → Result User × MemoryStorage
put_user now existing user s =
    let stamped : User = record user { updated_at = now; created_at = existing.created_at } in
    (ok stamped, record s { users = insert user.id stamped s.users })

unfoldable pub update_existing_user : ℕ → User → User → MemoryStorage → Result User × MemoryStorage
unfolding put_user rename
update_existing_user now existing user s =
    if existing.username == user.username
    then put_user now existing user s
    else if has user.username s.usernames
    then (err (new (text "username already taken")), s)
    else put_user now existing user (rename existing user s)

unfoldable pub update_user : ℕ → Option User → MemoryStorage → Result User × MemoryStorage
unfolding update_existing_user
update_user now none s = (err invalid_request, s)
update_user now (some user) s = elim (lookup user.id s.users) [
  | none ↦ (err (new (text "user not found")), s)
  | some existing ↦ update_existing_user now existing user s
]

unfoldable pub delete_user : Str → MemoryStorage → Result (Unit {0}) × MemoryStorage
delete_user id s = elim (lookup id s.users) [
  | none ↦ (err (new (text "user not found")), s)
  | some user ↦ (
    ok tt,
    record s {
      users = erase id s.users;
      usernames = erase user.username s.usernames;
      api_keys = erase_where (λ (a : ApiKey). a.user_id == id) s.api_keys s.api_keys;
    },
  )
]
