-- ===== src/Balancer/Sticky.antt =====
-- internal/balancer/sticky_session.go: stickySession.
pub mod Affinity
use discobox.Prelude.{
  Str, ℕ, ◌+◌, Bool, List, [], Option, none, some, if◌then◌else◌, is_empty, str_eq, text, nat_eq,
}
use discobox.Prelude.Counting.{find}
use discobox.Prelude.Int.{ℤ}
use discobox.Prelude.Dict.{lookup, insert}
use discobox.Types.Errors.{Result, ok, err}
use discobox.Balancer.Pool.{Address, Heap}
use discobox.Balancer.IpHash.{is_node}
use discobox.Balancer.Sessions.{
  LoadBalancer, SessionEntry, Sessions, session_for, live, drop_server, drop_expired,
  ttl_or_default,
}

pub record StickySession (State : Type 0) : Type 0 where
  pub base : State
  pub cookie_name : Str
  pub ttl : ℕ
  pub sessions : Sessions

module _ {State : Type 0} where
  abbrev pub new_sticky_session : State → Str → ℤ → StickySession State
  new_sticky_session base cookie_name ttl = record {
    base = base;
    cookie_name = if is_empty cookie_name then text "lb_session" else cookie_name;
    ttl = ttl_or_default ttl;
    sessions = [];
  }

  abbrev pub put : Str → SessionEntry → StickySession State → StickySession State
  put key session ss = record ss { sessions = insert key session ss.sessions }

  -- The server that the loop over the slice has found, with its session written.
  unfoldable pub take_found :
      Str
      → (Address → SessionEntry)
      → Option Address
      → StickySession State
      → Option (Address × StickySession State)
  take_found key session none ss = none
  take_found key session (some p) ss = some (p, put key (session p) ss)

  -- The server of a live session, whose time is extended; or the server that the cookie names, for
  -- which a session is made.
  unfoldable pub resume :
      Heap
      → ℕ
      → Str
      → Option SessionEntry
      → List Address
      → StickySession State
      → Option (Address × StickySession State)
  resume heap now value (some session) servers ss =
      take_found value (λ p. record session { expires_at = now + ss.ttl })
        (find (is_node heap session.server_id) servers) ss
  resume heap now value none servers ss =
      take_found value (λ p. session_for (heap p).id now ss.ttl) (find (is_node heap value) servers)
        ss

  -- The part of Select that reads the cookie; `none` where the base balancer has to choose.
  unfoldable pub resume_cookie :
      Heap
      → ℕ
      → Option Str
      → List Address
      → StickySession State
      → Option (Address × StickySession State)
  resume_cookie heap now none servers ss = none
  resume_cookie heap now (some value) servers ss =
      if is_empty value
      then none
      else resume heap now value (live now (lookup value ss.sessions)) servers ss

  -- What Select makes of the answer of the base balancer.
  unfoldable pub start :
      Heap
      → ℕ
      → Option (Result Address)
      → StickySession State
      → Option (Result Address) × StickySession State
  start heap now none ss = (none, ss)
  start heap now (some (err e)) ss = (some (err e), ss)
  start heap now (some (ok p)) ss =
      (some (ok p), put (heap p).id (session_for (heap p).id now ss.ttl) ss)

-- `cookie` is the value that Request.Cookie gives for a name, `none` where there is none.
module _ {Request State : Type 0} (lb : LoadBalancer Request State)
    (cookie : Request → Str → Option Str) where
  unfoldable pub select :
      Heap
      → ℕ
      → Request
      → List Address
      → StickySession State
      → Option (Result Address) × StickySession State
  select heap now req servers ss =
      let base = lb.select heap req servers ss.base in
      elim (resume_cookie heap now (cookie req ss.cookie_name) servers ss) [
        | some r ↦ (some (ok r.0), r.1)
        | none ↦ start heap now base.0 (record ss { base = base.1 })
      ]

  unfoldable pub add :
      Heap → Option Address → StickySession State → Result (Unit {0}) × StickySession State
  add heap server ss = let r = lb.add heap server ss.base in (r.0, record ss { base = r.1 })

  unfoldable pub remove : Str → StickySession State → Result (Unit {0}) × StickySession State
  remove id ss =
      let r = lb.remove id ss.base in
      (r.0, record ss { base = r.1; sessions = drop_server id ss.sessions })

  unfoldable pub update_weight :
      Str → ℤ → StickySession State → Heap → Result (Unit {0}) × StickySession State × Heap
  update_weight id weight ss heap =
      let r = lb.update_weight id weight ss.base heap in (r.0, record ss { base = r.1 }, r.2)

  unfoldable pub cleanup : ℕ → StickySession State → StickySession State
  cleanup now ss = record ss { sessions = drop_expired now ss.sessions }
