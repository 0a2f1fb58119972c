-- ===== src/Balancer/Sticky/Affinity.antt =====
-- internal/balancer/sticky_session.go: which server stickySession selects.
use discobox.Prelude.{
  Str, ℕ, ◌+◌, ◌≡◌, refl, ap, ◌∙◌, inl, inr, Bool, List, [], ◌∷◌, Option, none, some, if◌then◌else◌,
  is_empty, str_eq, Option-cases, Bool-cases, if-cases, subst, ltb, ◌==◌, arith,
}
use discobox.Prelude.Counting.{find}
use discobox.Prelude.Int.{ℤ}
use discobox.Prelude.Dict.{lookup, erase}
use discobox.Prelude.Ranges.{erase_where}
use discobox.Prelude.Integrity.{IsKeyed, insert-IsKeyed, erase-IsKeyed}
use discobox.Types.Errors.{Result, ok, err}
use discobox.Balancer.Pool.{Address, Heap}
use discobox.Balancer.IpHash.{is_node}
use discobox.Balancer.Sessions.{
  is_node-id, LoadBalancer, SessionEntry, Sessions, session_for, live, drop_server, drop_expired,
}
use discobox.Balancer.Sticky.{
  StickySession, new_sticky_session, put, take_found, resume, resume_cookie, start, select, add,
  remove, update_weight, cleanup,
}

-- The server that a cookie names, whatever the sessions are.
abbrev pub named : Heap → Option Str → List Address → Option Address
named heap none servers = none
named heap (some value) servers = if is_empty value then none else find (is_node heap value) servers

abbrev pub or_answer : Option Address → Option (Result Address) → Option (Result Address)
or_answer none answer = answer
or_answer (some p) answer = some (ok p)

abbrev pub kept {ℓ} : {A : Type ℓ} → Option Address → A → A → A
kept none before after = after
kept (some p) before after = before

abbrev server_id_of : SessionEntry → Str
server_id_of session = session.server_id

-- A session stands under the ID of its server.
abbrev AreNamed : Sessions → Type 0
AreNamed sessions = IsKeyed server_id_of sessions

erase_where-AreNamed :
    (p : SessionEntry → Bool) (entries m : Sessions)
    → AreNamed m
    → AreNamed (erase_where p entries m)
unfolding erase_where
erase_where-AreNamed p [] m h = h
erase_where-AreNamed p ((k, v) ∷ entries) m h =
    erase_where-AreNamed p entries (if p v then erase k m else m)
      (if-cases AreNamed (p v) (λ _. erase-IsKeyed server_id_of k m h) (λ _. h))

live-own :
    (now : ℕ) (value : Str) (sessions : Sessions)
    → AreNamed sessions
    → (session : SessionEntry) → live now (lookup value sessions) ≡ some session
    → session.server_id ≡ value
unfolding live
live-own now value sessions h session e = elim (Option-cases (lookup value sessions)) [
  | inl gone ↦ absurd (live-none gone)
  | inr (w, there) ↦ h value session (there ∙ live-some w there)
]
  where
    live-none : lookup value sessions ≡ none → ⊥
    live-none gone = cc (ap (live now) gone, e)

    live-some : (w : SessionEntry) → lookup value sessions ≡ some w → some w ≡ some session
    live-some w there = ground (arith, e, ap (live now) there)

module _ {State : Type 0} where
  -- What the cookie's part of Select does: nothing, or it gives the server that the cookie names
  -- and leaves the base balancer alone.
  Resumes : Option Address → Option (Address × StickySession State) → StickySession State → Type 0
  Resumes none o ss = o ≡ none
  Resumes (some p) o ss =
      (after : StickySession State) × (o ≡ some (p, after))
      × (after.base ≡ ss.base)
      × AreNamed after.sessions

  take_found-Resumes :
      (key : Str) (session : Address → SessionEntry) (f : Option Address) (ss : StickySession State)
      → AreNamed ss.sessions
      → ((p : Address) → f ≡ some p → (session p).server_id ≡ key)
      → Resumes f (take_found key session f ss) ss
  unfolding Resumes take_found
  take_found-Resumes key session none ss h own = refl
  take_found-Resumes key session (some p) ss h own = (
    put key (session p) ss,
    refl,
    refl,
    insert-IsKeyed server_id_of key (session p) ss.sessions (own p refl) h,
  )

  resume-Resumes :
      (heap : Heap) (now : ℕ) (value : Str) (o : Option SessionEntry) (servers : List Address)
      (ss : StickySession State)
      → AreNamed ss.sessions
      → ((session : SessionEntry) → o ≡ some session → session.server_id ≡ value)
      → Resumes (find (is_node heap value) servers) (resume heap now value o servers ss) ss
  unfolding resume
  resume-Resumes heap now value none servers ss h own =
      take_found-Resumes value (λ p. session_for (heap p).id now ss.ttl)
        (find (is_node heap value) servers) ss h (λ p e. is_node-id heap value servers p e)
  resume-Resumes heap now value (some session) servers ss h own =
      let same = own session refl in
      subst
        (λ id.
          Resumes (find (is_node heap id) servers)
            (take_found value (λ p. record session { expires_at = now + ss.ttl })
              (find (is_node heap session.server_id) servers) ss)
            ss)
        same
        (take_found-Resumes value (λ p. record session { expires_at = now + ss.ttl })
          (find (is_node heap session.server_id) servers) ss h (λ p e. same))

  Resumes-none : (ss : StickySession State) → Resumes none none ss
  unfolding Resumes
  Resumes-none ss = refl

  resume_cookie-Resumes :
      (heap : Heap) (now : ℕ) (o : Option Str) (servers : List Address) (ss : StickySession State)
      → AreNamed ss.sessions
      → Resumes (named heap o servers) (resume_cookie heap now o servers ss) ss
  unfolding resume_cookie
  resume_cookie-Resumes heap now none servers ss h = Resumes-none ss
  resume_cookie-Resumes heap now (some value) servers ss h = elim (Bool-cases (is_empty value)) [
    | inl t ↦ rw t (Resumes-none ss)
    | inr f ↦ rw f (
        resume-Resumes heap now value (live now (lookup value ss.sessions)) servers ss h
          (live-own now value ss.sessions h))
  ]

  start-AreNamed :
      (heap : Heap) (now : ℕ) (o : Option (Result Address)) (ss : StickySession State)
      → AreNamed ss.sessions
      → AreNamed (start heap now o ss).1.sessions
  unfolding start
  start-AreNamed heap now none ss h = h
  start-AreNamed heap now (some (err e)) ss h = h
  start-AreNamed heap now (some (ok p)) ss h =
      insert-IsKeyed server_id_of (heap p).id (session_for (heap p).id now ss.ttl) ss.sessions refl
        h

  start-answer :
      (heap : Heap) (now : ℕ) (o : Option (Result Address)) (ss : StickySession State)
      → ((start heap now o ss).0 ≡ o) × ((start heap now o ss).1.base ≡ ss.base)
  unfolding start
  start-answer heap now none ss = (refl, refl)
  start-answer heap now (some (err e)) ss = (refl, refl)
  start-answer heap now (some (ok p)) ss = (refl, refl)

module _ {Request State : Type 0} (lb : LoadBalancer Request State)
    (cookie : Request → Str → Option Str) where
  module _ (heap : Heap) (now : ℕ) (req : Request) (servers : List Address)
      (ss : StickySession State) where
    abbrev sought : Option Address
    sought = named heap (cookie req ss.cookie_name) servers

    abbrev chosen : Option (Result Address) × State
    chosen = lb.select heap req servers ss.base

    -- Select against the server that the cookie names, and the sessions after it.
    Selects : Option Address → Option (Result Address) × StickySession State → Type 0
    Selects o r =
        (r.0 ≡ or_answer o chosen.0) × (r.1.base ≡ kept o ss.base chosen.1) × AreNamed r.1.sessions

    select-from :
        AreNamed ss.sessions
        → (o : Option Address) (r : Option (Address × StickySession State)) → Resumes o r ss
        → Selects o (elim r [
          | some r ↦ (some (ok r.0), r.1)
          | none ↦ start heap now chosen.0 (record ss { base = chosen.1 })
        ])
    unfolding Selects Resumes
    select-from h none r e = rw e (
      (start-answer heap now chosen.0 (record ss { base = chosen.1 })).0,
      (start-answer heap now chosen.0 (record ss { base = chosen.1 })).1,
      start-AreNamed heap now chosen.0 (record ss { base = chosen.1 }) h,
    )
    select-from h (some p) r e = rw e.1 (refl, e.2, e.3)

    select-Selects :
        AreNamed ss.sessions → Selects sought (select lb cookie heap now req servers ss)
    unfolding select
    select-Selects h =
        select-from h sought (resume_cookie heap now (cookie req ss.cookie_name) servers ss)
          (resume_cookie-Resumes heap now (cookie req ss.cookie_name) servers ss h)

  -- The calls of the balancer, and the ticks of its cleanup.
  pub data Call : Type 0 where
    selects : Heap → ℕ → Request → List Address → Call
    adds : Heap → Option Address → Call
    removes : Str → Call
    updates : Str → ℤ → Heap → Call
    cleans : ℕ → Call

  abbrev pub step : Call → StickySession State → StickySession State
  step (selects heap now req servers) ss = (select lb cookie heap now req servers ss).1
  step (adds heap server) ss = (add lb cookie heap server ss).1
  step (removes id) ss = (remove lb cookie id ss).1
  step (updates id weight heap) ss = (update_weight lb cookie id weight ss heap).1
  step (cleans now) ss = cleanup lb cookie now ss

  abbrev pub run : List Call → StickySession State → StickySession State
  run [] ss = ss
  run (c ∷ cs) ss = run cs (step c ss)

  run-AreNamed :
      (cs : List Call) (ss : StickySession State)
      → AreNamed ss.sessions
      → AreNamed (run cs ss).sessions
  unfolding Selects add remove update_weight cleanup drop_server drop_expired
  run-AreNamed [] ss h = h
  run-AreNamed (selects heap now req servers ∷ cs) ss h =
      run-AreNamed cs (select lb cookie heap now req servers ss).1
        ((select-Selects heap now req servers ss h).2)
  run-AreNamed (adds heap server ∷ cs) ss h = run-AreNamed cs (add lb cookie heap server ss).1 h
  run-AreNamed (removes id ∷ cs) ss h = run-AreNamed cs (remove lb cookie id ss).1 (
      erase_where-AreNamed (λ (session : SessionEntry). session.server_id == id) ss.sessions
        ss.sessions h)
  run-AreNamed (updates id weight heap ∷ cs) ss h =
      run-AreNamed cs (update_weight lb cookie id weight ss heap).1 h
  run-AreNamed (cleans now ∷ cs) ss h = run-AreNamed cs (cleanup lb cookie now ss) (
      erase_where-AreNamed (λ (session : SessionEntry). ltb session.expires_at now) ss.sessions
        ss.sessions h)

-- After any sequence of calls and ticks of cleanup, Select gives the first healthy server of the
-- slice whose ID the cookie holds, without a call of the base balancer, and otherwise what the base
-- balancer gives. So no answer depends on the sessions, their ttl or their clock.
pub select-named :
    {Request State : Type 0} (lb : LoadBalancer Request State) (cookie : Request → Str → Option Str)
    (base : State) (name : Str) (ttl : ℤ) (calls : List (Call lb cookie)) (heap : Heap) (now : ℕ)
    (req : Request) (servers : List Address)
    → let ss = run lb cookie calls (new_sticky_session base name ttl) in
      let server = named heap (cookie req ss.cookie_name) servers in
      let r = select lb cookie heap now req servers ss in
      let chosen = lb.select heap req servers ss.base in
      (r.0 ≡ or_answer server chosen.0) × (r.1.base ≡ kept server ss.base chosen.1)
unfolding Selects lookup
select-named lb cookie base name ttl calls heap now req servers =
    let ss = run lb cookie calls (new_sticky_session base name ttl) in
    let s =
      select-Selects lb cookie heap now req servers ss (
        run-AreNamed lb cookie calls (new_sticky_session base name ttl) (λ k v h. absurd (cc h))) in
    (s.0, s.1)
