-- ===== src/Storage/Consistency/Directory.antt =====
-- internal/storage/memory.go: the users, the index of their names and their API keys, each of which
-- belongs to a user that is there.
use discobox.Prelude.{Str, true, ◌≡◌, refl, ◌≢◌, sym, some, ◌==◌, str_eq, ne_of_beq}
use discobox.Prelude.Dict.{Dict, lookup, insert, erase, has, IsDict, insert-IsDict, erase-IsDict}
use discobox.Prelude.Ranges.{erase_where, erase_where-IsDict, lookup-erase_where_cases}
use discobox.Prelude.Integrity.{
  IsKeyed, Refers, insert-IsKeyed, erase-IsKeyed, insert-Refers, Refers-insert, has-erase_ne,
}
use discobox.Types.User.{User, ApiKey}
use discobox.Storage.Consistency.Names.{IsIndex, remove-IsIndex}

abbrev pub user_id : User → Str
user_id u = u.id

abbrev pub key_of : ApiKey → Str
key_of a = a.key

abbrev pub owner_of : ApiKey → Str
owner_of a = a.user_id

pub record IsDirectory (users : Dict Str User) (usernames : Dict Str Str)
    (api_keys : Dict Str ApiKey) : Type 0 where
  pub users_distinct : IsDict users
  pub users_keyed : IsKeyed user_id users
  pub index : IsIndex users usernames
  pub keys_distinct : IsDict api_keys
  pub keys_keyed : IsKeyed key_of api_keys
  pub owned : Refers owner_of api_keys users

module _ {users : Dict Str User} {usernames : Dict Str Str} {api_keys : Dict Str ApiKey}
    (d : IsDirectory users usernames api_keys) where
  -- A user written over the users, with an index that fits.
  pub put_user-IsDirectory :
      (u : User) {names : Dict Str Str}
      → IsIndex (insert u.id u users) names
      → IsDirectory (insert u.id u users) names api_keys
  put_user-IsDirectory u x = record {
    users_distinct = insert-IsDict u.id u users d.users_distinct;
    users_keyed = insert-IsKeyed user_id u.id u users refl d.users_keyed;
    index = x;
    keys_distinct = d.keys_distinct;
    keys_keyed = d.keys_keyed;
    owned = Refers-insert owner_of u.id u api_keys users d.owned;
  }

  pub put_key-IsDirectory :
      (k : Str) (a : ApiKey)
      → a.key ≡ k
      → has a.user_id users ≡ true
      → IsDirectory users usernames (insert k a api_keys)
  put_key-IsDirectory k a own there = record {
    users_distinct = d.users_distinct;
    users_keyed = d.users_keyed;
    index = d.index;
    keys_distinct = insert-IsDict k a api_keys d.keys_distinct;
    keys_keyed = insert-IsKeyed key_of k a api_keys own d.keys_keyed;
    owned = insert-Refers owner_of k a api_keys users there d.owned;
  }

  -- The keys that are left when those of one owner are deleted.
  pub lookup-revoked_cases :
      (id j : Str) (a : ApiKey)
      → lookup j (erase_where (λ (k : ApiKey). k.user_id == id) api_keys api_keys) ≡ some a
      → (id ≢ a.user_id) × (lookup j api_keys ≡ some a)
  lookup-revoked_cases id j a h =
      let (other, kept) = lookup-erase_where_cases _ j api_keys d.keys_distinct h in
      (λ same. ne_of_beq a.user_id id other (sym same), kept)

  pub remove_user-IsDirectory :
      (id : Str) (old : User)
      → lookup id users ≡ some old
      → IsDirectory
          (erase id users)
          (erase old.username usernames)
          (erase_where (λ (a : ApiKey). a.user_id == id) api_keys api_keys)
  remove_user-IsDirectory id old there = record {
    users_distinct = erase-IsDict id users d.users_distinct;
    users_keyed = erase-IsKeyed user_id id users d.users_keyed;
    index = remove-IsIndex d.index id old there;
    keys_distinct = erase_where-IsDict _ api_keys api_keys d.keys_distinct;
    keys_keyed = λ k a h. d.keys_keyed k a (lookup-revoked_cases id k a h).1;
    owned = λ k a h.
        let (other, kept) = lookup-revoked_cases id k a h in
        has-erase_ne id a.user_id users other (d.owned k a kept);
  }
