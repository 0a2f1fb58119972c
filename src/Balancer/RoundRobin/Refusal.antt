-- ===== src/Balancer/RoundRobin/Refusal.antt =====
-- When Select of internal/balancer/round_robin.go refuses a request.
use native.Mathlib.Nat.{mod-eq_of_lt, add-mod_right}
use native.Mathlib.Decide.{dec_lt}
use discobox.Prelude.{
  ℕ, zero, suc, ◌+◌, ◌-◌, ◌%◌, ◌<◌, ◌≤◌, ◌^◌, ◌≡◌, sym, ap, subst, ◌∙◌, inl, inr, true, false, List,
  [], ◌∷◌, some, if◌then◌else◌, ◌==◌, nat_eq, arith, length, keep, length-keep-le, get_elem?,
  get_elem?-in_range, get_elem?-lt, All, All-get_elem?, Bool-cases,
}
use discobox.Prelude.Int.{pos, ltb_ℤ}
use discobox.Prelude.Members.{All-of_get_elem?, All-of_keep, All-keep}
use discobox.Types.Errors.{Error, err, no_healthy_backends, max_connections_reached}
use discobox.Balancer.Pool.{
  Address, Heap, u64, add_uint64, index_of, is_full, has_capacity, has_capacity-eq-not-is_full,
}
use discobox.Balancer.RoundRobin.{RoundRobin, healthy_servers, try_next, choose, select}
use discobox.Balancer.RoundRobin.Selection.{
  outcome, select-outcome, choose_step, try_next_step, Picks, choose-Picks,
}

-- A position after a given one, reached by so many steps round the slice.
wrapped : (j n : ℕ) → j < n → n ≤ 2 ^ 63 → (j + n) % u64 % n ≡ j
wrapped j n h w =
    let small : (j + n) % u64 ≡ j + n = omega arith in rw small (add-mod_right j n ∙ mod-eq_of_lt h)

unwrapped : (j n : ℕ) → j < n → n ≤ 2 ^ 63 → j % u64 % n ≡ j
unwrapped j n h w = let small : j % u64 ≡ j = omega arith in rw small (mod-eq_of_lt h)

module _ (heap : Heap) (xs : List Address) where
  try_next_full :
      (index i rounds k : ℕ) (p : Address) (e : Error)
      → 0 < length xs
      → try_next heap xs index i rounds ≡ some (err e)
      → i ≤ k
      → k < i + rounds
      → get_elem? xs ((index + k) % u64 % length xs) ≡ some p
      → has_capacity (heap p) ≡ false
  try_next_full index i zero k p e n h low high at = absurd (omega arith)
  try_next_full index i (suc rounds) k p er n h low high at =
      let (next, e) = get_elem?-in_range xs ((index + i) % u64 % length xs) (omega arith) in
      let step = try_next_step heap xs index i rounds next e in
      elim (Bool-cases (has_capacity (heap next))) [
        | inl t ↦ absurd (ground (arith, step, t, h))
        | inr f ↦ elim (Bool-cases (i == k)) [
          | inl same ↦
              let here : i ≡ k = ground (arith, same) in
              cc (e, at, f, ap (λ (t : ℕ). get_elem? xs ((index + t) % u64 % length xs)) here)
          | inr other ↦
              try_next_full index (i + 1) rounds k p er n (ground (arith, step, f, h))
                (ground arith) (omega arith) at
        ]
      ]

  -- A refused choice has tried the server at every position.
  choose_full :
      (index : ℕ) (er : Error)
      → index < length xs
      → length xs ≤ 2 ^ 63
      → All (λ p. ltb_ℤ (heap p).max_conns (pos 0) ≡ false) xs
      → choose heap xs index ≡ some (err er)
      → (j : ℕ) (p : Address) → get_elem? xs j ≡ some p
      → is_full (heap p) ≡ true
  choose_full index er n w limits h j p at =
      let (first, f) = get_elem?-in_range xs index n in
      let step = choose_step heap xs index first f in
      let inside = get_elem?-lt xs j at in
      let tried = has_capacity-eq-not-is_full (heap p) (All-get_elem? _ xs j limits at) in
      elim (Bool-cases (is_full (heap first))) [
        | inr room ↦ absurd (ground (arith, step, room, h))
        | inl full ↦
            let refused : try_next heap xs index 1 (length xs - 1) ≡ some (err er) =
              ground (arith, step, full, h) in
            elim (dec_lt index j) [
              | yes after ↦
                  let here : (index + (j - index)) % u64 % length xs ≡ j =
                    (let sum : index + (j - index) ≡ j = omega arith in
                      rw sum (unwrapped j (length xs) inside w)) in
                  ground (
                    arith,
                    tried,
                    try_next_full index 1 (length xs - 1) (j - index) p er (omega arith) refused
                        (omega arith) (omega arith) (rw here at),
                  )
              | no before ↦ elim (dec_lt j index) [
                | yes wraps ↦
                    let here : (index + (j + length xs - index)) % u64 % length xs ≡ j =
                      (let sum : index + (j + length xs - index) ≡ j + length xs = omega arith in
                        rw sum (wrapped j (length xs) inside w)) in
                    ground (
                      arith,
                      tried,
                      try_next_full index 1 (length xs - 1) (j + length xs - index) p er
                          (omega arith) refused (omega arith) (omega arith) (rw here at),
                    )
                | no same ↦
                    let here : index ≡ j = omega arith in cc (full, f, at, ap (get_elem? xs) here)
              ]
            ]
      ]

All-of_empty {κ} : {A : Type 0} (P : A → Type κ) (xs : List A) → (length xs == 0) ≡ true → All P xs
All-of_empty P [] h = tt
All-of_empty P (x ∷ xs) h = absurd (ground arith)

-- The error of a refusal, and why the choice among the healthy servers was refused.
outcome_refused :
    (heap : Heap) (xs : List Address) (counter : ℕ) (e : Error)
    → length xs ≤ 2 ^ 63
    → All (λ p. ltb_ℤ (heap p).max_conns (pos 0) ≡ false) xs
    → outcome heap xs counter ≡ some (err e)
    → (e ≡ (if length xs == 0 then no_healthy_backends else max_connections_reached))
      × All (λ p. is_full (heap p) ≡ true) xs
outcome_refused heap [] counter e w limits h = (ground arith, tt)
outcome_refused heap (x ∷ xs) counter e w limits h =
    let index = index_of (add_uint64 counter) (length (x ∷ xs)) in
    let refused : choose heap (x ∷ xs) index ≡ some (err e) = ground arith in
    let why : e ≡ max_connections_reached =
      subst (Picks heap (x ∷ xs)) refused (choose-Picks heap (x ∷ xs) index (omega arith)) in
    (
      ground arith,
      All-of_get_elem? (x ∷ xs) (choose_full heap (x ∷ xs) index e (omega arith) w limits refused),
    )

-- Select refuses only if every healthy server of the slice is at its limit, given that no limit is
-- negative and that the slice has at most 2^63 servers. The error says which: no healthy server,
-- or healthy ones that are all full.
select_refused :
    (heap : Heap) (servers : List Address) (rr : RoundRobin) (e : Error)
    → length servers ≤ 2 ^ 63
    → All (λ p. ltb_ℤ (heap p).max_conns (pos 0) ≡ false) servers
    → (select heap servers rr).0 ≡ some (err e)
    → (e ≡ (
        if length (healthy_servers heap servers) == 0
        then no_healthy_backends
        else max_connections_reached))
      × All (λ p. (heap p).healthy ≡ true → is_full (heap p) ≡ true) servers
unfolding healthy_servers
select_refused heap servers rr e w limits h =
    let up = λ (p : Address). (heap p).healthy in
    let (why, full) =
      outcome_refused heap (keep up servers) rr.counter e (omega (arith, length-keep-le up servers))
        (All-keep _ up servers limits) (sym (select-outcome heap servers rr) ∙ h) in
    (why, All-of_keep _ up servers full)
