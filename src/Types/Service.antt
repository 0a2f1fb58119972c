-- ===== src/Types/Service.antt =====
-- internal/types/service.go. A time is a number of nanoseconds since the epoch.
use discobox.Prelude.{Str, ℕ, Bool, List, Option, none, some, length, false}
use discobox.Prelude.Int.{ℤ}
use discobox.Prelude.Dict.{Dict}

pub record TlsConfig : Type 0 where
  pub enabled : Bool
  pub insecure_skip_verify : Bool
  pub server_name : Str
  pub root_cas : List Str
  pub client_cert : Str
  pub client_key : Str

pub record Service : Type 0 where
  pub id : Str
  pub name : Str
  pub endpoints : List Str
  pub health_path : Str
  pub weight : ℤ
  pub max_conns : ℤ
  pub timeout : ℤ
  pub metadata : Dict Str Str
  pub tls : Option TlsConfig
  pub strip_prefix : Bool
  pub active : Bool
  pub created_at : ℕ
  pub updated_at : ℕ

pub is_healthy : Service → Bool
is_healthy s = s.active

pub get_endpoint_count : Service → ℕ
get_endpoint_count s = length s.endpoints

enabled_of : Option TlsConfig → Bool
enabled_of none = false
enabled_of (some t) = t.enabled

pub has_tls : Service → Bool
unfolding enabled_of
has_tls s = enabled_of s.tls
