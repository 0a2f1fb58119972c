-- ===== src/Balancer/LeastConnections/Scan.antt =====
-- The first pass of internal/balancer/least_connections.go keeps the eligible servers with the
-- fewest connections, in their order.
use mathlib.Core.List.{append_assoc, append-nil}
use discobox.Prelude.{
  ◌≡◌, ◌≢◌, and-eq-true, refl, sym, ◌∙◌, ◌⊎◌, inl, inr, true, false, ◌&&◌, List, [], ◌∷◌, ◌++◌,
  if◌then◌else◌, ◌==◌, arith, keep, All, Bool-cases, beq_self, subst,
}
use discobox.Prelude.Int.{ℤ, ltb_ℤ, int_eq, ◌≤ℤ◌}
use discobox.Balancer.Pool.{Address, Heap}
use discobox.Balancer.LeastConnections.{is_eligible, scan}

-- The fewest connections of an eligible server, if below a bound.
pub fewest : Heap → List Address → ℤ → ℤ
fewest heap [] least = least
fewest heap (p ∷ ps) least = fewest heap ps (
    if is_eligible (heap p) && ltb_ℤ (heap p).active_conns least
    then (heap p).active_conns
    else least)

pub fewest-le : (heap : Heap) (ps : List Address) (least : ℤ) → fewest heap ps least ≤ℤ least
unfolding fewest
fewest-le heap [] least = omega arith
fewest-le heap (p ∷ ps) least =
    ground (arith, fewest-le heap ps least, fewest-le heap ps (heap p).active_conns)

pub fewest-least :
    (heap : Heap) (ps : List Address) (least : ℤ)
    → All (λ q. is_eligible (heap q) ≡ true → fewest heap ps least ≤ℤ (heap q).active_conns) ps
unfolding fewest
fewest-least heap [] least = tt
fewest-least heap (p ∷ ps) least =
    let next =
      if is_eligible (heap p) && ltb_ℤ (heap p).active_conns least
      then (heap p).active_conns
      else least in
    (λ e. ground (arith, fewest-le heap ps next), fewest-least heap ps next)

-- The eligible servers with so many connections.
abbrev pub tied : Heap → ℤ → List Address → List Address
tied heap n = keep (λ q. is_eligible (heap q) && (heap q).active_conns == n)

-- Where the next server's connections `a` stand below, at or above the minimum so far.
module _ (m a least : ℤ) (p : Address) (eligible rest : List Address) where
  abbrev Collected : List Address → Type 0
  Collected l = l ≡ (if m == least then eligible else []) ++ (if a == m then p ∷ rest else rest)

  below : m ≤ℤ a → ltb_ℤ a least ≡ true → Collected ((if m == a then p ∷ [] else []) ++ rest)
  below h l = ground arith

  level :
      m ≤ℤ least
      → (a == least) ≡ true
      → Collected ((if m == least then eligible ++ p ∷ [] else []) ++ rest)
  level h l = ground (arith, append_assoc eligible (p ∷ []) rest)

  above :
      m ≤ℤ least
      → ltb_ℤ a least ≡ false
      → (a == least) ≡ false
      → Collected ((if m == least then eligible else []) ++ rest)
  above h l k = ground arith

-- The pass collects the eligible servers tied at the minimum, after those already collected if the
-- minimum has not fallen.
pub scan-tied :
    (heap : Heap) (ps : List Address) (least : ℤ) (eligible : List Address)
    → scan heap ps least eligible
      ≡ (if fewest heap ps least == least then eligible else [])
        ++ tied heap (fewest heap ps least) ps
unfolding scan fewest
scan-tied heap [] least eligible = rw (beq_self least) (sym (append-nil eligible))
scan-tied heap (p ∷ ps) least eligible =
    let a = (heap p).active_conns in
    let m = fewest heap ps least in
    let Claim : ℤ → Type 0 = λ z.
      scan heap (p ∷ ps) least eligible
      ≡ (if z == least then eligible else []) ++ tied heap z (p ∷ ps) in
    elim (Bool-cases (is_eligible (heap p))) [
      | inr f ↦
          let same : m ≡ fewest heap (p ∷ ps) least = rw f refl in
          subst Claim same (rw f (scan-tied heap ps least eligible))
      | inl t ↦ elim (Bool-cases (ltb_ℤ a least)) [
        | inl l ↦
            let n = fewest heap ps a in
            let same : n ≡ fewest heap (p ∷ ps) least = rw (t, l) refl in
            subst Claim same (
              rw (t, l)
                (scan-tied heap ps a (p ∷ [])
                  ∙ below n a least p eligible (tied heap n ps) (fewest-le heap ps a) l))
        | inr l ↦
            let same : m ≡ fewest heap (p ∷ ps) least = rw (t, l) refl in
            elim (Bool-cases (a == least)) [
              | inl k ↦ subst Claim same (
                  rw (t, l, k)
                    (scan-tied heap ps least (eligible ++ p ∷ [])
                      ∙ level m a least p eligible (tied heap m ps) (fewest-le heap ps least) k))
              | inr k ↦ subst Claim same (
                  rw (t, l, k)
                    (scan-tied heap ps least eligible
                      ∙ above m a least p eligible (tied heap m ps) (fewest-le heap ps least) l k))
            ]
      ]
    ]

-- The minimum is the bound, or some server is tied at it.
pub fewest_attained :
    (heap : Heap) (ps : List Address) (least : ℤ)
    → (fewest heap ps least ≡ least) ⊎ (tied heap (fewest heap ps least) ps ≢ [])
unfolding fewest
fewest_attained heap [] least = inl refl
fewest_attained heap (p ∷ ps) least =
    let next =
      if is_eligible (heap p) && ltb_ℤ (heap p).active_conns least
      then (heap p).active_conns
      else least in
    let m = fewest heap ps next in
    elim (fewest_attained heap ps next) [
      | inr some_tied ↦ inr (λ e. some_tied (tail_empty m e))
      | inl same ↦ elim (Bool-cases (is_eligible (heap p) && ltb_ℤ (heap p).active_conns least)) [
        | inl lower ↦
            let here : m ≡ (heap p).active_conns = same ∙ rw lower refl in
            inr (λ e. absurd (first_tied m (and-eq-true _ _ lower).0 here e))
        | inr stays ↦ inl (same ∙ rw stays refl)
      ]
    ]
  where
    first_tied :
        (m : ℤ)
        → is_eligible (heap p) ≡ true
        → m ≡ (heap p).active_conns
        → tied heap m (p ∷ ps) ≡ []
        → ⊥
    first_tied m t here e =
        let test : (is_eligible (heap p) && (heap p).active_conns == m) ≡ true =
          rw (t) ((int_eq.beq_iff (heap p).active_conns m).1 (sym here)) in
        cc (rw test at e)

    tail_empty : (m : ℤ) → tied heap m (p ∷ ps) ≡ [] → tied heap m ps ≡ []
    tail_empty m e = elim (Bool-cases (is_eligible (heap p) && (heap p).active_conns == m)) [
      | inl t ↦ absurd (cc (rw t at e))
      | inr f ↦ rw f at e
    ]
