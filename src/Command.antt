-- ===== src/Command.antt =====
-- cmd/discobox/main.go: initLoadBalancer and initStorage, as far as they choose what is built.
use discobox.Prelude.{Str, Bool, Option, none, some, if◌then◌else◌, ◌==◌, str_eq, text}
use discobox.Prelude.Int.{ℤ}

-- The constructor that is called.
pub data Algorithm : Type 0 where
  new_round_robin : Algorithm
  new_weighted_round_robin : Algorithm
  new_least_connections : Algorithm
  new_ip_hash : Algorithm

-- The sessions that NewStickySession puts around a balancer: the cookie's name and the ttl.
pub record Sticky : Type 0 where
  pub enabled : Bool
  pub cookie_name : Str
  pub ttl : ℤ

pub data LoadBalancer : Type 0 where
  plain : Algorithm → LoadBalancer
  sticky_session : Algorithm → Str → ℤ → LoadBalancer

-- The switch of initLoadBalancer; `none` is the error.
unfoldable pub algorithm_of : Str → Option Algorithm
algorithm_of name =
    if name == text "round_robin"
    then some new_round_robin
    else if name == text "weighted"
    then some new_weighted_round_robin
    else if name == text "least_conn"
    then some new_least_connections
    else if name == text "ip_hash"
    then some new_ip_hash
    else none

abbrev pub with_sticky : Sticky → Option Algorithm → Option LoadBalancer
with_sticky sticky none = none
with_sticky sticky (some algorithm) = some (
    if sticky.enabled
    then sticky_session algorithm sticky.cookie_name sticky.ttl
    else plain algorithm)

unfoldable pub init_load_balancer : Str → Sticky → Option LoadBalancer
init_load_balancer name sticky = with_sticky sticky (algorithm_of name)

pub data Storage : Type 0 where
  new_sqlite : Str → Storage
  new_memory : Storage

-- `none` is the error for a type that is not known; NewSQLite can still fail.
unfoldable pub init_storage : Str → Str → Option Storage
init_storage type dsn =
    if type == text "sqlite"
    then some (new_sqlite dsn)
    else if type == text "memory"
    then some new_memory
    else none
