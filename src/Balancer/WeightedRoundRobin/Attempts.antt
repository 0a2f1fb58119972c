-- ===== src/Balancer/WeightedRoundRobin/Attempts.antt =====
-- Select of internal/balancer/weighted_round_robin.go: what it returns and when it
-- refuses.
use mathlib.Core.List.{Mem}
use discobox.Prelude.{
  ℕ, zero, suc, ◌+◌, ◌%◌, ◌<◌, ◌≡◌, refl, sym, ap, subst, ◌∙◌, ◌⊎◌, inl, inr, true, false, List, [],
  ◌∷◌, Option, none, some, if◌then◌else◌, nat_eq, arith, length, get_elem?, get_elem?-in_range,
  get_elem?-lt, All, Bool-cases, if-cases,
}
use discobox.Prelude.Members.{get_elem?-mem, All-of_get_elem?}
use discobox.Types.Errors.{Error, Result, ok, err, no_healthy_backends}
use discobox.Balancer.Pool.{Address, Heap, u64, add_uint64, index_of}
use discobox.Balancer.Indices.{index_counter, reaches}
use discobox.Balancer.WeightedRoundRobin.{
  WeightedRoundRobin, is_available, attempt, refreshed, select,
}

module _ (heap : Heap) (xs : List Address) where
  attempt_step :
      (k c : ℕ) (p : Address)
      → get_elem? xs (index_of (add_uint64 c) (length xs)) ≡ some p
      → attempt heap xs (suc k) c ≡ (
          if is_available (heap p)
          then (some (ok p), add_uint64 c)
          else attempt heap xs k (add_uint64 c))
  unfolding attempt
  attempt_step k c p e = rw (e, attempt)

  -- What the loop returns: an available server of the list, or the refusal.
  abbrev Attempted : Option (Result Address) × ℕ → Type 0
  Attempted (none, c) = ⊥
  Attempted (some (ok p), c) = Mem p xs × (is_available (heap p) ≡ true)
  Attempted (some (err e), c) = e ≡ no_healthy_backends

  attempt-Attempted : (k c : ℕ) → 0 < length xs → Attempted (attempt heap xs k c)
  unfolding attempt
  attempt-Attempted zero c n = refl
  attempt-Attempted (suc k) c n =
      let index = index_of (add_uint64 c) (length xs) in
      let (p, e) = get_elem?-in_range xs index (omega arith) in
      subst Attempted (sym (attempt_step k c p e)) (
        if-cases Attempted (is_available (heap p)) (λ t. (get_elem?-mem xs index e, t))
          (λ _. attempt-Attempted k (add_uint64 c) n))

  -- A refusal after k + 1 attempts is one after k, from the next count, and the server at the first
  -- place is not available.
  refused_step :
      (k c : ℕ) (e : Error) (c' : ℕ)
      → 0 < length xs
      → c + 1 < u64
      → attempt heap xs (suc k) c ≡ (some (err e), c')
      → (q : Address) × (get_elem? xs (c % length xs) ≡ some q)
        × (is_available (heap q) ≡ false)
        × (attempt heap xs k (c + 1) ≡ (some (err e), c'))
  refused_step k c e c' n small h =
      let place = index_counter c (length xs) (omega arith) in
      let (q, here) = get_elem?-in_range xs (c % length xs) (omega arith) in
      let step = attempt_step k c q (ap (get_elem? xs) place ∙ here) in
      let next : add_uint64 c ≡ c + 1 = omega arith in
      elim (Bool-cases (is_available (heap q))) [
        | inl t ↦ absurd (ground (arith, step, t, h))
        | inr f ↦ (q, here, f, ap (attempt heap xs k) (sym next) ∙ ground (arith, step, f, h))
      ]

  attempt_refused :
      (k c i : ℕ) (p : Address) (e : Error) (c' : ℕ)
      → c + k < u64
      → attempt heap xs k c ≡ (some (err e), c')
      → i < k
      → 0 < length xs
      → get_elem? xs ((c + i) % length xs) ≡ some p
      → is_available (heap p) ≡ false
  attempt_refused zero c i p e c' small h low n at = elim low [ ]
  attempt_refused (suc k) c zero p e c' small h low n at =
      let (q, here, f, _) = refused_step k c e c' n (omega arith) h in
      let same : c + 0 ≡ c = omega arith in
      cc (here, f, at, ap (λ (t : ℕ). get_elem? xs (t % length xs)) same)
  attempt_refused (suc k) c (suc i) p e c' small h low n at =
      let (q, here, f, rest) = refused_step k c e c' n (omega arith) h in
      let same : c + 1 + i ≡ c + suc i = omega arith in
      attempt_refused k (c + 1) i p e c' (omega arith) rest (omega arith) n
        (ap (λ (t : ℕ). get_elem? xs (t % length xs)) same ∙ at)

  -- As many attempts as servers see all of them.
  attempt_sees-All :
      (c : ℕ) (e : Error) (c' : ℕ)
      → c + length xs < u64
      → 0 < length xs
      → attempt heap xs (length xs) c ≡ (some (err e), c')
      → All (λ p. is_available (heap p) ≡ false) xs
  attempt_sees-All c e c' small n h = All-of_get_elem? xs λ j p at.
      (let (i, low, place) = reaches c (length xs) j (get_elem?-lt xs j at) in
        attempt_refused (length xs) c i p e c' small h low n (ap (get_elem? xs) place ∙ at))

select-attempt :
    (heap : Heap) (servers : List Address) (wrr : WeightedRoundRobin)
    → 0 < length servers
    → 0 < length (refreshed heap servers wrr).weighted_servers
    → (select heap servers wrr).0
      ≡ (attempt heap
          (refreshed heap servers wrr).weighted_servers
          (length (refreshed heap servers wrr).weighted_servers)
          (refreshed heap servers wrr).counter).0
unfolding select
select-attempt heap [] wrr n m = absurd (omega arith)
select-attempt heap (p ∷ ps) wrr n m = ground arith

Attempted-cases :
    (heap : Heap) (xs : List Address) (r : Option (Result Address) × ℕ)
    → Attempted heap xs r
    → ((p : Address) × (r.0 ≡ some (ok p)) × Mem p xs × (is_available (heap p) ≡ true))
      ⊎ (r ≡ (some (err no_healthy_backends), r.1))
Attempted-cases heap xs (none, c) h = absurd h
Attempted-cases heap xs (some (ok p), c) h = inl (p, refl, h.0, h.1)
Attempted-cases heap xs (some (err e), c) h = inr (cc (h))

-- Over a list that is not empty, Select never panics: it returns a server of the expanded list that
-- is healthy and not at its limit, or it refuses, and then no server of that list is, unless the
-- counter overflowed on the way.
pub select_attempts :
    (heap : Heap) (servers : List Address) (wrr : WeightedRoundRobin)
    → let built = refreshed heap servers wrr in
      0 < length servers
      → 0 < length built.weighted_servers
      → built.counter + length built.weighted_servers < u64
      → ((p : Address) × ((select heap servers wrr).0 ≡ some (ok p))
          × Mem p built.weighted_servers
          × (is_available (heap p) ≡ true))
        ⊎ (((select heap servers wrr).0 ≡ some (err no_healthy_backends))
            × All (λ p. is_available (heap p) ≡ false) built.weighted_servers)
select_attempts heap servers wrr n m small =
    let built = refreshed heap servers wrr in
    let xs = built.weighted_servers in
    let run = attempt heap xs (length xs) built.counter in
    let same = select-attempt heap servers wrr n m in
    elim (Attempted-cases heap xs run (attempt-Attempted heap xs (length xs) built.counter m)) [
      | inl (p, chosen, there, fit) ↦ inl (p, same ∙ chosen, there, fit)
      | inr refused ↦ inr (
        same ∙ ap (λ (r : Option (Result Address) × ℕ). r.0) refused,
        attempt_sees-All heap xs built.counter no_healthy_backends run.1 small m refused,
      )
    ]

-- Where an answer comes from, also if the counter overflows.
pub select-mem :
    (heap : Heap) (servers : List Address) (wrr : WeightedRoundRobin) (p : Address)
    → let built = refreshed heap servers wrr in
      0 < length servers
      → 0 < length built.weighted_servers
      → (select heap servers wrr).0 ≡ some (ok p)
      → Mem p built.weighted_servers
select-mem heap servers wrr p n m chosen =
    let built = refreshed heap servers wrr in
    let xs = built.weighted_servers in
    let run = attempt heap xs (length xs) built.counter in
    let same = select-attempt heap servers wrr n m in
    elim (Attempted-cases heap xs run (attempt-Attempted heap xs (length xs) built.counter m)) [
      | inl (q, found, there, fit) ↦
          let e : q ≡ p = cc (same, chosen, found) in subst (λ (a : Address). Mem a xs) e there
      | inr refused ↦
          absurd (cc (same, chosen, ap (λ (r : Option (Result Address) × ℕ). r.0) refused))
    ]
