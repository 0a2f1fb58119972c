-- ===== src/Balancer/IpSticky.antt =====
-- internal/balancer/sticky_session.go: IPStickySession.
pub mod Affinity
use discobox.Prelude.{
  Str, ℕ, ◌+◌, Bool, List, [], Option, none, some, if◌then◌else◌, is_empty, str_eq, nat_eq,
}
use discobox.Prelude.Counting.{find}
use discobox.Prelude.Int.{ℤ}
use discobox.Prelude.Dict.{lookup, insert}
use discobox.Types.Errors.{Result, ok, err}
use discobox.Balancer.Pool.{Address, Heap}
use discobox.Balancer.IpHash.{Net, Client, get_client_ip, is_node}
use discobox.Balancer.Sessions.{
  LoadBalancer, SessionEntry, Sessions, session_for, live, drop_server, drop_expired,
  ttl_or_default,
}

pub record IpStickySession (State : Type 0) : Type 0 where
  pub base : State
  pub ttl : ℕ
  pub sessions : Sessions

module _ {State : Type 0} where
  abbrev pub new_ip_sticky_session : State → ℤ → IpStickySession State
  new_ip_sticky_session base ttl = record { base = base; ttl = ttl_or_default ttl; sessions = [] }

  abbrev pub put : Str → SessionEntry → IpStickySession State → IpStickySession State
  put key session iss = record iss { sessions = insert key session iss.sessions }

  -- The server that the loop over the slice has found, with its session written.
  unfoldable pub take_found :
      Str
      → (Address → SessionEntry)
      → Option Address
      → IpStickySession State
      → Option (Address × IpStickySession State)
  take_found key session none iss = none
  take_found key session (some p) iss = some (p, put key (session p) iss)

  -- The server of a live session, whose time is extended.
  unfoldable pub resume :
      Heap
      → ℕ
      → Str
      → Option SessionEntry
      → List Address
      → IpStickySession State
      → Option (Address × IpStickySession State)
  resume heap now client_ip none servers iss = none
  resume heap now client_ip (some session) servers iss =
      take_found client_ip (λ p. record session { expires_at = now + iss.ttl })
        (find (is_node heap session.server_id) servers) iss

  unfoldable pub start :
      Heap
      → ℕ
      → Str
      → Option (Result Address)
      → IpStickySession State
      → Option (Result Address) × IpStickySession State
  start heap now client_ip none iss = (none, iss)
  start heap now client_ip (some (err e)) iss = (some (err e), iss)
  start heap now client_ip (some (ok p)) iss =
      (some (ok p), put client_ip (session_for (heap p).id now iss.ttl) iss)

  -- The two ends of Select: the server of the session, or what the base balancer chooses.
  unfoldable pub resume_or_start :
      Heap
      → ℕ
      → Str
      → Option (Result Address) × State
      → Option (Address × IpStickySession State)
      → IpStickySession State
      → Option (Result Address) × IpStickySession State
  resume_or_start heap now client_ip base (some r) iss = (some (ok r.0), r.1)
  resume_or_start heap now client_ip base none iss =
      start heap now client_ip base.0 (record iss { base = base.1 })

module _ {State : Type 0} (lb : LoadBalancer Client State) (net : Net) where
  unfoldable pub select_for :
      Heap
      → ℕ
      → Client
      → Str
      → List Address
      → IpStickySession State
      → Option (Result Address) × IpStickySession State
  select_for heap now req client_ip servers iss =
      resume_or_start heap now client_ip (lb.select heap req servers iss.base)
        (resume heap now client_ip (live now (lookup client_ip iss.sessions)) servers iss) iss

  unfoldable pub select :
      Heap
      → ℕ
      → Client
      → List Address
      → IpStickySession State
      → Option (Result Address) × IpStickySession State
  select heap now req servers iss =
      let client_ip = get_client_ip net req in
      let base = lb.select heap req servers iss.base in
      if is_empty client_ip
      then (base.0, record iss { base = base.1 })
      else select_for heap now req client_ip servers iss

  unfoldable pub add :
      Heap → Option Address → IpStickySession State → Result (Unit {0}) × IpStickySession State
  add heap server iss = let r = lb.add heap server iss.base in (r.0, record iss { base = r.1 })

  unfoldable pub remove : Str → IpStickySession State → Result (Unit {0}) × IpStickySession State
  remove id iss =
      let r = lb.remove id iss.base in
      (r.0, record iss { base = r.1; sessions = drop_server id iss.sessions })

  unfoldable pub update_weight :
      Str → ℤ → IpStickySession State → Heap → Result (Unit {0}) × IpStickySession State × Heap
  update_weight id weight iss heap =
      let r = lb.update_weight id weight iss.base heap in (r.0, record iss { base = r.1 }, r.2)

  unfoldable pub cleanup : ℕ → IpStickySession State → IpStickySession State
  cleanup now iss = record iss { sessions = drop_expired now iss.sessions }
