-- ===== src/Types/Server.antt =====
-- internal/types/server.go: a backend server as the balancers see it.
use discobox.Prelude.{Str, ℕ, Bool}
use discobox.Prelude.Int.{ℤ}
use discobox.Prelude.Dict.{Dict}

-- The URL is its text; ActiveConns is the value that the atomic load reads.
pub record Server : Type 0 where
  pub url : Str
  pub id : Str
  pub weight : ℤ
  pub max_conns : ℤ
  pub active_conns : ℤ
  pub healthy : Bool
  pub metadata : Dict Str Str
  pub last_used : ℕ
