-- ===== src/Storage/Contract/Accounts.antt =====
-- Users, their names and their API keys in internal/storage/memory.go.
use discobox.Prelude.{
  Str, ℕ, ◌≡◌, refl, sym, ◌≢◌, ap, ◌∙◌, inl, inr, ◌↔◌, false, some, ◌==◌, str_eq, text, arith,
  Option-cases,
}
use discobox.Prelude.Dict.{lookup, erase, lookup-insert_self, lookup-insert_ne, lookup-erase_self}
use discobox.Prelude.Ranges.{erase_where, lookup-erase_where}
use discobox.Types.Errors.{Error, ok, err, new}
use discobox.Types.User.{User, ApiKey}
use discobox.Storage.Memory.{
  MemoryStorage, update_user, delete_user, get_user, get_user_by_username, get_api_key,
  revoke_api_key,
}
use discobox.Storage.Consistency.Directory.{lookup-revoked_cases}
use discobox.Storage.Consistency.Accounts.{Directory}

abbrev no_user : Error
no_user = new (text "user not found")

-- GetUserByUsername finds a user exactly when some user has that name, and then it is that user;
-- so no two users have one name.
pub get_user_by_username_iff :
    (name : Str) (u : User) (s : MemoryStorage)
    → Directory s
    → (get_user_by_username name s ≡ ok u)
      ↔ ((id : Str) × (get_user id s ≡ ok u) × (u.username ≡ name))
unfolding get_user_by_username get_user
get_user_by_username_iff name u s d = (found, owner)
  where
    found :
        get_user_by_username name s ≡ ok u
        → (id : Str) × (get_user id s ≡ ok u) × (u.username ≡ name)
    found h = elim (Option-cases (lookup name s.usernames)) [
      | inl p ↦ absurd (ground (arith, p, h))
      | inr (id, p) ↦
          let (w, there, same) = d.index.named name id p in
          (id, ground (arith, p, h), ground (arith, p, h, there, same))
    ]

    owner :
        ((id : Str) × (get_user id s ≡ ok u) × (u.username ≡ name))
        → get_user_by_username name s ≡ ok u
    owner (id, h, same) = elim (Option-cases (lookup id s.users)) [
      | inl p ↦ absurd (ground (arith, p, h))
      | inr (w, p) ↦
          let there = d.index.indexed id w p in
          let named : w ≡ u = ground (arith, p, h) in
          ground (
            arith,
            p,
            h,
            ap (λ (z : User). lookup z.username s.usernames) named,
            ap (λ (n : Str). lookup n s.usernames) same,
            there,
          )
    ]

-- A user that is updated under a new name is found under it, with its creation time kept, and the
-- old name is free. The new name was free before.
pub update_user_renames :
    (now : ℕ) (user old made : User) (s t : MemoryStorage)
    → get_user user.id s ≡ ok old
    → old.username ≢ user.username
    → update_user now (some user) s ≡ (ok made, t)
    → (get_user_by_username user.username s ≡ err no_user)
      × (made ≡ record user { updated_at = now; created_at = old.created_at })
      × (get_user_by_username user.username t ≡ ok made)
      × (get_user_by_username old.username t ≡ err no_user)
unfolding update_user get_user_by_username get_user
update_user_renames now user old made s t there other h =
    elim (Option-cases (lookup user.id s.users)) [
      | inl p ↦ absurd (ground (arith, p, there))
      | inr (w, p) ↦
          let stamped : User = record user { updated_at = now; created_at = old.created_at } in
          let same : w ≡ old = ground (arith, p, there) in
          let left = erase old.username s.usernames in
          let differ = str_eq.beq_iff old.username user.username in
          (
            ground (arith, p, same, differ),
            ground (arith, p, same, differ),
            ground (
              arith,
              p,
              same,
              differ,
              lookup-insert_self user.id stamped s.users,
              lookup-insert_self user.username user.id left,
            ),
            ground (
              arith,
              p,
              same,
              differ,
              lookup-insert_ne user.username old.username user.id left (λ q. other (sym q)),
              lookup-erase_self old.username s.usernames,
            ),
          )
    ]

-- The store after a user is deleted, part by part.
deleted_user :
    (id : Str) (old : User) (s t : MemoryStorage)
    → get_user id s ≡ ok old
    → delete_user id s ≡ (ok tt, t)
    → (t.users ≡ erase id s.users)
      × (t.usernames ≡ erase old.username s.usernames)
      × (t.api_keys ≡ erase_where (λ (a : ApiKey). a.user_id == id) s.api_keys s.api_keys)
unfolding delete_user get_user
deleted_user id old s t there h = elim (Option-cases (lookup id s.users)) [
  | inl p ↦ absurd (ground (arith, p, there))
  | inr (w, p) ↦ (ground (arith, p), ground (arith, p), ground (arith, p))
]

-- A deleted user is gone, its name is free, and none of its API keys is accepted any more; the keys
-- of the other users stay as they were.
pub delete_user_revokes :
    (id : Str) (old : User) (s t : MemoryStorage)
    → Directory s
    → get_user id s ≡ ok old
    → delete_user id s ≡ (ok tt, t)
    → (get_user id t ≡ err no_user)
      × (get_user_by_username old.username t ≡ err no_user)
      × ((now : ℕ) (key : Str) (a : ApiKey) → (get_api_key now key t).0 ≡ ok a → id ≢ a.user_id)
      × ((key : Str) (a : ApiKey)
          → lookup key s.api_keys ≡ some a
          → a.user_id ≢ id
          → lookup key t.api_keys ≡ some a)
unfolding get_user get_user_by_username get_api_key
delete_user_revokes id old s t d there h =
    let (users, names, keys) = deleted_user id old s t there h in
    (
      ground (arith, users, lookup-erase_self id s.users),
      ground (arith, names, lookup-erase_self old.username s.usernames),
      λ now key a q. elim (Option-cases (lookup key t.api_keys)) [
        | inl p ↦ absurd (ground (arith, p, q))
        | inr (b, p) ↦
            let other = lookup-revoked_cases d id key b (rw (← keys) p) in
            let same : b.user_id ≡ a.user_id = ground (arith, p, q) in λ r. other.0 (r ∙ sym same)
      ],
      λ key a p other. ground (
        arith,
        keys,
        p,
        str_eq.beq_iff a.user_id id,
        lookup-erase_where (λ (k : ApiKey). k.user_id == id) key s.api_keys d.keys_distinct,
      ),
    )

-- A revoked key is stored as inactive, also when it is read later; no other key changes.
pub revoke_api_key_inactive :
    (key : Str) (s t : MemoryStorage)
    → revoke_api_key key s ≡ (ok tt, t)
    → ((now : ℕ) → (a : ApiKey) × ((get_api_key now key t).0 ≡ ok a) × (a.active ≡ false))
      × ((j : Str) → key ≢ j → lookup j t.api_keys ≡ lookup j s.api_keys)
unfolding revoke_api_key get_api_key
revoke_api_key_inactive key s t h = elim (Option-cases (lookup key s.api_keys)) [
  | inl p ↦ absurd (ground (arith, p))
  | inr (b, p) ↦
      let off : ApiKey = record b { active = false } in
      let there = lookup-insert_self key off s.api_keys in
      (
        λ now. (record off { last_used_at = some now }, ground (arith, p, there), refl),
        λ j other. ground (arith, p, lookup-insert_ne key j off s.api_keys other),
      )
]
