-- ===== src/Balancer/LeastConnections/Least.antt =====
-- Select of internal/balancer/least_connections.go returns an eligible server with the fewest
-- connections, and refuses only if there is no eligible server.
use mathlib.Core.List.{Mem}
use discobox.Prelude.{
  ◌≡◌, refl, sym, ap, subst, ◌∙◌, ◌⊎◌, inl, inr, Bool, true, false, ◌&&◌, List, [], ◌∷◌, ◌++◌,
  Option, none, some, if◌then◌else◌, ◌==◌, nat_eq, arith, length, All, and-eq-true,
  get_elem?-in_range, eq_of_beq,
}
use discobox.Prelude.Int.{ℤ, int_eq, ◌≤ℤ◌, eq_of_parts}
use discobox.Prelude.Members.{
  mem_of_mem-keep, keep-All, All-mem, keep_empty, All-zip, get_elem?-mem,
}
use discobox.Types.Errors.{Result, ok, err, no_healthy_backends}
use discobox.Balancer.Pool.{Address, Heap, add_uint64, index_of}
use discobox.Balancer.LeastConnections.{
  LeastConnections, max_int64, is_eligible, scan, pick, select,
}
use discobox.Balancer.LeastConnections.Scan.{fewest, fewest-least, fewest_attained, tied, scan-tied}

scan_start :
    (heap : Heap) (servers : List Address)
    → scan heap servers max_int64 [] ≡ tied heap (fewest heap servers max_int64) servers
scan_start heap servers =
    scan-tied heap servers max_int64 [] ∙ nothing (fewest heap servers max_int64 == max_int64)
  where
    nothing :
        (b : Bool)
        → (if b then [] else []) ++ tied heap (fewest heap servers max_int64) servers
          ≡ tied heap (fewest heap servers max_int64) servers
    nothing true = refl
    nothing false = refl

-- What the last part returns: a member of the list, and an error only for the empty one.
abbrev Picked : List Address → Option (Result Address) → Type 0
Picked xs none = ⊥
Picked xs (some (ok p)) = Mem p xs
Picked xs (some (err e)) = (e ≡ no_healthy_backends) × (xs ≡ [])

pick-Picked : (xs : List Address) (lc : LeastConnections) → Picked xs (pick xs lc).0
unfolding pick
pick-Picked [] lc = (refl, refl)
pick-Picked (p ∷ []) lc = get_elem?-mem (p ∷ []) 0 refl
pick-Picked (p ∷ q ∷ ps) lc =
    let index = index_of (add_uint64 lc.counter) (length (p ∷ q ∷ ps)) in
    let (chosen, e) = get_elem?-in_range (p ∷ q ∷ ps) index (omega arith) in
    rw (e, pick) (get_elem?-mem (p ∷ q ∷ ps) index e)

not_eligible :
    (e : Bool) (a m : ℤ)
    → a ≤ℤ max_int64
    → (e ≡ true → m ≤ℤ a)
    → m ≡ max_int64
    → (e && a == m) ≡ false
    → e ≡ false
not_eligible true a m b l top t =
    let same : a ≡ m = eq_of_parts a m (ground (arith, l refl, b, top)) in
    cc ((int_eq.beq_iff a m).1 same, t)
not_eligible false a m b l top t = refl

-- No server is eligible when none is tied at the minimum, if no count is above MaxInt64.
none_eligible :
    (heap : Heap) (servers : List Address)
    → All (λ q. (heap q).active_conns ≤ℤ max_int64) servers
    → tied heap (fewest heap servers max_int64) servers ≡ []
    → All (λ q. is_eligible (heap q) ≡ false) servers
none_eligible heap servers bounded e = elim (fewest_attained heap servers max_int64) [
  | inr tied_some ↦ absurd (tied_some e)
  | inl top ↦
      let m = fewest heap servers max_int64 in
      let limits =
        All-zip
          {R = λ q.
            ((heap q).active_conns ≤ℤ max_int64)
            × (is_eligible (heap q) ≡ true → m ≤ℤ (heap q).active_conns)}
          (λ q b l. (b, l)) servers bounded (fewest-least heap servers max_int64) in
      All-zip (λ q h t. not_eligible (is_eligible (heap q)) (heap q).active_conns m h.0 h.1 top t)
        servers limits (keep_empty _ servers e)
]

Picked-cases :
    (xs : List Address) (o : Option (Result Address))
    → Picked xs o
    → ((p : Address) × (o ≡ some (ok p)) × Mem p xs)
      ⊎ ((o ≡ some (err no_healthy_backends)) × (xs ≡ []))
Picked-cases xs none h = absurd h
Picked-cases xs (some (ok p)) h = inl (p, refl, h)
Picked-cases xs (some (err e)) h = inr (cc (h.0), h.1)

select-pick :
    (heap : Heap) (servers : List Address) (lc : LeastConnections)
    → (select heap servers lc).0 ≡ (pick (tied heap (fewest heap servers max_int64) servers) lc).0
unfolding select
select-pick heap [] lc = unfold pick in refl
select-pick heap (p ∷ ps) lc =
    ground (arith, ap (λ (l : List Address). (pick l lc).0) (scan_start heap (p ∷ ps)))

-- Select never panics. It returns an eligible server of the slice, one that is healthy and not at
-- its limit, and no eligible server has fewer connections; or it refuses, and then no server of
-- the slice is eligible. Connection counts are int64, so none is above MaxInt64.
pub select_least :
    (heap : Heap) (servers : List Address) (lc : LeastConnections)
    → All (λ q. (heap q).active_conns ≤ℤ max_int64) servers
    → ((p : Address) × ((select heap servers lc).0 ≡ some (ok p))
        × Mem p servers
        × (is_eligible (heap p) ≡ true)
        × All
            (λ q. is_eligible (heap q) ≡ true → (heap p).active_conns ≤ℤ (heap q).active_conns)
            servers)
      ⊎ (((select heap servers lc).0 ≡ some (err no_healthy_backends))
          × All (λ q. is_eligible (heap q) ≡ false) servers)
select_least heap servers lc bounded =
    let m = fewest heap servers max_int64 in
    let xs = tied heap m servers in
    elim (Picked-cases xs (pick xs lc).0 (pick-Picked xs lc)) [
      | inl (p, chosen, there) ↦
          let test = λ (q : Address). is_eligible (heap q) && (heap q).active_conns == m in
          let passed = All-mem (λ q. hlevel) xs (keep-All test servers) there in
          let (fit, level) = and-eq-true _ _ passed in
          inl (
            p,
            select-pick heap servers lc ∙ chosen,
            mem_of_mem-keep test servers there,
            fit,
            subst
                (λ (z : ℤ).
                  All (λ q. is_eligible (heap q) ≡ true → z ≤ℤ (heap q).active_conns) servers)
                (sym (eq_of_beq (heap p).active_conns m level))
                (fewest-least heap servers max_int64),
          )
      | inr (refused, empty) ↦
          inr (select-pick heap servers lc ∙ refused, none_eligible heap servers bounded empty)
    ]
