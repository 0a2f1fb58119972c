-- ===== src/Storage/Consistency/Accounts.antt =====
-- internal/storage/memory.go: the operations on users and API keys keep the directory.
use discobox.Prelude.{
  Str, ℕ, false, ◌≡◌, refl, inl, inr, Option, none, some, arith, ◌==◌, str_eq, Option-cases,
  eq_of_beq, not, if-cases, not-eq-false,
}
use discobox.Prelude.Dict.{Dict, lookup, has}
use discobox.Types.Errors.{Result}
use discobox.Types.User.{User, ApiKey}
use discobox.Storage.Memory.{
  MemoryStorage, create_user, update_user, delete_user, get_api_key, create_api_key, revoke_api_key,
  update_existing_user,
}
use discobox.Storage.Consistency.Names.{add-IsIndex, overwrite-IsIndex, rename-IsIndex}
use discobox.Storage.Consistency.Directory.{
  IsDirectory, put_user-IsDirectory, put_key-IsDirectory, remove_user-IsDirectory,
}

abbrev pub Directory : MemoryStorage → Type 0
Directory s = IsDirectory s.users s.usernames s.api_keys

abbrev DirectoryAfter : {A : Type 0} → Result A × MemoryStorage → Type 0
DirectoryAfter r = Directory r.1

none_of_has : {V : Type 0} (k : Str) (m : Dict Str V) → has k m ≡ false → lookup k m ≡ none
none_of_has k m h = ground arith

module _ (s : MemoryStorage) (d : Directory s) where
  pub create_user-Directory : (now : ℕ) (o : Option User) → Directory (create_user now o s).1
  unfolding create_user
  create_user-Directory now none = d
  create_user-Directory now (some user) =
      if-cases DirectoryAfter (has user.id s.users) (λ _. d)
        λ new_id.
          if-cases DirectoryAfter (has user.username s.usernames) (λ _. d)
            λ new_name.
              let stamped : User = record user { created_at = now; updated_at = now } in
              put_user-IsDirectory d stamped
                (add-IsIndex d.index stamped (none_of_has _ _ new_id) (none_of_has _ _ new_name))

  update_existing_user-Directory :
      (now : ℕ) (old user : User)
      → lookup user.id s.users ≡ some old
      → Directory (update_existing_user now old user s).1
  unfolding update_existing_user
  update_existing_user-Directory now old user there =
      let stamped : User = record user { updated_at = now; created_at = old.created_at } in
      if-cases DirectoryAfter (old.username == user.username)
        (λ same.
          put_user-IsDirectory d stamped
            (overwrite-IsIndex d.index stamped old there (eq_of_beq _ _ same)))
        λ _.
          if-cases DirectoryAfter (has user.username s.usernames) (λ _. d)
            λ new_name.
              put_user-IsDirectory d stamped
                (rename-IsIndex d.index stamped old there (none_of_has _ _ new_name))

  pub update_user-Directory : (now : ℕ) (o : Option User) → Directory (update_user now o s).1
  unfolding update_user
  update_user-Directory now none = d
  update_user-Directory now (some user) = elim (Option-cases (lookup user.id s.users)) [
    | inl p ↦ rw (p, update_user) d
    | inr (old, p) ↦ rw (p, update_user) (update_existing_user-Directory now old user p)
  ]

  pub delete_user-Directory : (id : Str) → Directory (delete_user id s).1
  unfolding delete_user
  delete_user-Directory id = elim (Option-cases (lookup id s.users)) [
    | inl p ↦ rw (p, delete_user) d
    | inr (old, p) ↦ rw (p, delete_user) (remove_user-IsDirectory d id old p)
  ]

  pub get_api_key-Directory : (now : ℕ) (key : Str) → Directory (get_api_key now key s).1
  unfolding get_api_key
  get_api_key-Directory now key = elim (Option-cases (lookup key s.api_keys)) [
    | inl p ↦ rw (p, get_api_key) d
    | inr (a, p) ↦
        rw (p, get_api_key)
          (put_key-IsDirectory d key (record a { last_used_at = some now }) (d.keys_keyed key a p)
            (d.owned key a p))
  ]

  pub create_api_key-Directory :
      (now : ℕ) (o : Option ApiKey) → Directory (create_api_key now o s).1
  unfolding create_api_key
  create_api_key-Directory now none = d
  create_api_key-Directory now (some api_key) =
      if-cases DirectoryAfter (has api_key.key s.api_keys) (λ _. d)
        λ _.
          if-cases DirectoryAfter (not (has api_key.user_id s.users)) (λ _. d)
            λ there.
              put_key-IsDirectory d api_key.key (record api_key { created_at = now }) refl
                (not-eq-false _ there)

  pub revoke_api_key-Directory : (key : Str) → Directory (revoke_api_key key s).1
  unfolding revoke_api_key
  revoke_api_key-Directory key = elim (Option-cases (lookup key s.api_keys)) [
    | inl p ↦ rw (p, revoke_api_key) d
    | inr (a, p) ↦
        rw (p, revoke_api_key)
          (put_key-IsDirectory d key (record a { active = false }) (d.keys_keyed key a p)
            (d.owned key a p))
  ]
