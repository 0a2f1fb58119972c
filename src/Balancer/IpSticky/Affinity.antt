-- ===== src/Balancer/IpSticky/Affinity.antt =====
-- internal/balancer/sticky_session.go: a client of IPStickySession stays with its server.
use discobox.Prelude.{
  Str, ℕ, ◌+◌, ◌≤◌, ◌<◌, ◌≡◌, refl, sym, ap, ◌∙◌, false, List, Option, none, some, is_empty, str_eq,
  ltb, lt→ltb, subst, arith, some-injective,
}
use discobox.Prelude.Counting.{find}
use discobox.Prelude.Dict.{lookup, lookup-insert_self, IsDict, insert-IsDict}
use discobox.Prelude.Ranges.{lookup-erase_where}
use discobox.Types.Errors.{Result, ok, err}
use discobox.Balancer.Pool.{Address, Heap}
use discobox.Balancer.IpHash.{Net, Client, get_client_ip, is_node}
use discobox.Balancer.Sessions.{
  is_node-id, LoadBalancer, SessionEntry, session_for, live, drop_expired,
}
use discobox.Balancer.IpSticky.{
  IpStickySession, put, take_found, resume, start, resume_or_start, select_for, select, cleanup,
}

module _ {State : Type 0} (lb : LoadBalancer Client State) (net : Net) where
  -- What a Select that gives `p` leaves of the session of the client.
  Keeps : Str → SessionEntry → IpStickySession State → IpStickySession State → Type 0
  Keeps ip session before after =
      (lookup ip after.sessions ≡ some session)
      × (after.ttl ≡ before.ttl)
      × (IsDict before.sessions → IsDict after.sessions)

  Keeps-put :
      (ip : Str) (session : SessionEntry) (iss : IpStickySession State)
      → Keeps ip session iss (put ip session iss)
  unfolding Keeps
  Keeps-put ip session iss = (
    lookup-insert_self ip session iss.sessions,
    refl,
    λ d. insert-IsDict ip session iss.sessions d,
  )

  start-Keeps :
      (heap : Heap) (now : ℕ) (ip : Str) (o : Option (Result Address)) (iss : IpStickySession State)
      (p : Address)
      → (start heap now ip o iss).0 ≡ some (ok p)
      → Keeps ip (session_for (heap p).id now iss.ttl) iss (start heap now ip o iss).1
  unfolding start
  start-Keeps heap now ip none iss p e = absurd (cc e)
  start-Keeps heap now ip (some (err x)) iss p e = absurd (cc e)
  start-Keeps heap now ip (some (ok q)) iss p e =
      let same : q ≡ p = cc e in rw same (Keeps-put ip (session_for (heap p).id now iss.ttl) iss)

  take_found-Keeps :
      (heap : Heap) (now : ℕ) (ip : Str) (session : Address → SessionEntry) (f : Option Address)
      (iss : IpStickySession State) (p : Address) (after : IpStickySession State)
      → ((q : Address) → f ≡ some q → session q ≡ session_for (heap q).id now iss.ttl)
      → ◌≡◌ {A = Option (Address × IpStickySession State)}
          (take_found ip session f iss)
          (some (p, after))
      → Keeps ip (session_for (heap p).id now iss.ttl) iss after
  unfolding take_found
  take_found-Keeps heap now ip session none iss p after own e = absurd (cc e)
  take_found-Keeps heap now ip session (some q) iss p after own e =
      subst
        (λ (x : Address × IpStickySession State).
          Keeps ip (session_for (heap x.0).id now iss.ttl) iss x.1)
        (some-injective e)
        (rw (own q refl) (Keeps-put ip (session_for (heap q).id now iss.ttl) iss))

  -- A session that is resumed is that of the server which is found.
  resume-Keeps :
      (heap : Heap) (now : ℕ) (ip : Str) (o : Option SessionEntry) (servers : List Address)
      (iss : IpStickySession State) (p : Address) (after : IpStickySession State)
      → ◌≡◌ {A = Option (Address × IpStickySession State)}
          (resume heap now ip o servers iss)
          (some (p, after))
      → Keeps ip (session_for (heap p).id now iss.ttl) iss after
  unfolding resume
  resume-Keeps heap now ip none servers iss p after e = absurd (cc e)
  resume-Keeps heap now ip (some session) servers iss p after e =
      take_found-Keeps heap now ip (λ q. record session { expires_at = now + iss.ttl })
        (find (is_node heap session.server_id) servers) iss p after
        (λ q hit.
          ap (λ id. session_for id now iss.ttl)
            (sym (is_node-id heap session.server_id servers q hit)))
        e

  select_for-Keeps :
      (heap : Heap) (now : ℕ) (req : Client) (ip : Str) (servers : List Address)
      (iss : IpStickySession State) (p : Address)
      → (select_for lb net heap now req ip servers iss).0 ≡ some (ok p)
      → Keeps ip
          (session_for (heap p).id now iss.ttl)
          iss
          (select_for lb net heap now req ip servers iss).1
  unfolding select_for resume_or_start Keeps
  select_for-Keeps heap now req ip servers iss p =
      from (resume heap now ip (live now (lookup ip iss.sessions)) servers iss) refl
    where
      chosen : Option (Result Address) × State
      chosen = lb.select heap req servers iss.base

      from :
          (o : Option (Address × IpStickySession State))
          → resume heap now ip (live now (lookup ip iss.sessions)) servers iss ≡ o
          → (resume_or_start heap now ip chosen o iss).0 ≡ some (ok p)
          → Keeps ip
              (session_for (heap p).id now iss.ttl)
              iss
              (resume_or_start heap now ip chosen o iss).1
      from none q e = start-Keeps heap now ip chosen.0 (record iss { base = chosen.1 }) p e
      from (some r) q e =
          let same : r.0 ≡ p = cc e in
          subst (λ x. Keeps ip (session_for (heap x).id now iss.ttl) iss r.1) same
            (resume-Keeps heap now ip (live now (lookup ip iss.sessions)) servers iss r.0 r.1 q)

  -- A tick of cleanup keeps a session that has not expired.
  cleanup-lookup :
      (tick : ℕ) (ip : Str) (session : SessionEntry) (iss : IpStickySession State)
      → IsDict iss.sessions
      → lookup ip iss.sessions ≡ some session
      → tick ≤ session.expires_at
      → lookup ip (cleanup lb net tick iss).sessions ≡ some session
  unfolding cleanup drop_expired
  cleanup-lookup tick ip session iss d there h =
      lookup-erase_where (λ (s : SessionEntry). ltb s.expires_at tick) ip iss.sessions d
      ∙ rw there (ground (arith, h))

  -- A live session whose server is in the slice.
  resumed :
      (heap : Heap) (now : ℕ) (req : Client) (ip : Str) (servers : List Address)
      (iss : IpStickySession State) (session : SessionEntry) (q : Address)
      → lookup ip iss.sessions ≡ some session
      → now < session.expires_at
      → find (is_node heap session.server_id) servers ≡ some q
      → ((select_for lb net heap now req ip servers iss).0 ≡ some (ok q))
        × ((select_for lb net heap now req ip servers iss).1.base ≡ iss.base)
  unfolding select_for resume take_found resume_or_start live
  resumed heap now req ip servers iss session q there early hit =
      rw (there, lt→ltb now session.expires_at early, hit) (refl, refl)

  -- A client that was given a server is given the server of that ID again, without a call of the
  -- base balancer, if it asks again before the ttl is over and a healthy server of the ID is still in
  -- the slice. A tick of cleanup in between, not later than the second request, changes nothing.
  pub select-again :
      (heap heap' : Heap) (now tick now' : ℕ) (req req' : Client) (servers servers' : List Address)
      (iss : IpStickySession State) (p q : Address)
      → IsDict iss.sessions
      → is_empty (get_client_ip net req) ≡ false
      → get_client_ip net req' ≡ get_client_ip net req
      → (select lb net heap now req servers iss).0 ≡ some (ok p)
      → tick ≤ now'
      → now' < now + iss.ttl
      → find (is_node heap' (heap p).id) servers' ≡ some q
      → let after = (select lb net heap now req servers iss).1 in
        ((select lb net heap' now' req' servers' (cleanup lb net tick after)).0 ≡ some (ok q))
        × ((select lb net heap' now' req' servers' (cleanup lb net tick after)).1.base ≡ after.base)
  unfolding select Keeps select_for cleanup
  select-again heap heap' now tick now' req req' servers servers' iss p q d known same given ticked
        early hit =
      rw (same, known)
        (let ip = get_client_ip net req in
          let after = (select_for lb net heap now req ip servers iss).1 in
          let kept = select_for-Keeps heap now req ip servers iss p (rw known at given) in
          resumed heap' now' req' ip servers' (cleanup lb net tick after)
            (session_for (heap p).id now iss.ttl) q
            (cleanup-lookup tick ip (session_for (heap p).id now iss.ttl) after (kept.2 d) kept.0
              (omega (arith, ticked, early)))
            early hit)
