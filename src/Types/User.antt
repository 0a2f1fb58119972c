-- ===== src/Types/User.antt =====
-- internal/types/user.go: accounts and their API keys.
use discobox.Prelude.{Str, ℕ, Bool, Option}
use discobox.Prelude.Dict.{Dict}

pub record User : Type 0 where
  pub id : Str
  pub username : Str
  pub password_hash : Str
  pub email : Str
  pub is_admin : Bool
  pub must_change_password : Bool
  pub active : Bool
  pub created_at : ℕ
  pub updated_at : ℕ
  pub last_login_at : Option ℕ
  pub metadata : Dict Str Str

pub record ApiKey : Type 0 where
  pub key : Str
  pub user_id : Str
  pub name : Str
  pub description : Str
  pub active : Bool
  pub created_at : ℕ
  pub last_used_at : Option ℕ
  pub expires_at : Option ℕ
  pub metadata : Dict Str Str
