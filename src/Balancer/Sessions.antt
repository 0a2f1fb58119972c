-- ===== src/Balancer/Sessions.antt =====
-- internal/balancer/sticky_session.go: what stickySession and IPStickySession share: the inner
-- balancer, an interface, and the table of sessions. Times are numbers of nanoseconds, read once a
-- call.
use discobox.Prelude.{
  Str, ℕ, ◌+◌, ◌≡◌, List, Option, none, some, if◌then◌else◌, ltb, ◌==◌, nat_eq, str_eq, and-eq-true,
  eq_of_beq,
}
use discobox.Prelude.Counting.{find, find_sound}
use discobox.Prelude.Members.{All-always}
use discobox.Balancer.IpHash.{is_node}
use discobox.Prelude.Int.{ℤ, pos, negsuc}
use discobox.Prelude.Dict.{Dict}
use discobox.Prelude.Ranges.{erase_where}
use discobox.Types.Errors.{Result}
use discobox.Balancer.Pool.{Address, Heap}

-- types.LoadBalancer, on a state of its own. A result of `none` is a panic.
pub record LoadBalancer (Request State : Type 0) : Type 0 where
  pub select : Heap → Request → List Address → State → Option (Result Address) × State
  pub add : Heap → Option Address → State → Result (Unit {0}) × State
  pub remove : Str → State → Result (Unit {0}) × State
  pub update_weight : Str → ℤ → State → Heap → Result (Unit {0}) × State × Heap

pub record SessionEntry : Type 0 where
  pub server_id : Str
  pub expires_at : ℕ

abbrev pub Sessions : Type 0
Sessions = Dict Str SessionEntry

-- A ttl that is not positive stands for 30 minutes.
unfoldable pub ttl_or_default : ℤ → ℕ
ttl_or_default (pos n) = if n == 0 then 1_800_000_000_000 else n
ttl_or_default (negsuc n) = 1_800_000_000_000

abbrev pub session_for : Str → ℕ → ℕ → SessionEntry
session_for server_id now ttl = record { server_id = server_id; expires_at = now + ttl }

-- session, exists := sessions[key]; exists && session.expiresAt.After(now)
unfoldable pub live : ℕ → Option SessionEntry → Option SessionEntry
live now none = none
live now (some session) = if ltb now session.expires_at then some session else none

-- The loop of Remove over the sessions of a server.
unfoldable pub drop_server : Str → Sessions → Sessions
drop_server id sessions =
    erase_where (λ (session : SessionEntry). session.server_id == id) sessions sessions

-- cleanup
unfoldable pub drop_expired : ℕ → Sessions → Sessions
drop_expired now sessions =
    erase_where (λ (session : SessionEntry). ltb session.expires_at now) sessions sessions

-- The server that the loop over a slice finds for an ID has it.
pub is_node-id :
    (heap : Heap) (id : Str) (servers : List Address) (p : Address)
    → find (is_node heap id) servers ≡ some p
    → (heap p).id ≡ id
is_node-id heap id servers p e =
    let found =
      find_sound (λ q. Unit {0}) (is_node heap id) servers p
        (All-always (λ q. Unit {0}) (λ q. tt) servers) e in
    eq_of_beq (heap p).id id (and-eq-true ((heap p).id == id) (heap p).healthy found.0).0
