-- ===== src/Balancer/WeightedRoundRobin/Weights.antt =====
-- The expanded list of internal/balancer/weighted_round_robin.go, and what UpdateWeight does to it.
use discobox.Prelude.{
  Str, ℕ, zero, suc, ◌+◌, ◌*◌, ◌≡◌, refl, sym, ap, ◌∙◌, inl, inr, true, List, [], ◌∷◌, ◌++◌, some,
  if◌then◌else◌, ◌==◌, nat_eq, str_eq, arith, length, replicate, length-append, beq_self,
  Bool-cases, beq-cases,
}
use discobox.Prelude.Int.{ℤ, pos, pos_part, leb_ℤ}
use discobox.Prelude.Dict.{lookup}
use discobox.Types.Server.{Server}
use discobox.Types.Errors.{ok}
use discobox.Balancer.Pool.{Address, Heap, set_weight, write}
use discobox.Balancer.WeightedRoundRobin.{
  WeightedRoundRobin, weight_of, expand, sum_weights, rebuild_weighted_list, refreshed,
  update_weight,
}

-- How often a server stands in a list.
abbrev pub count : Address → List Address → ℕ
count p [] = 0
count p (q ∷ qs) = (if q == p then 1 else 0) + count p qs

-- The places that a server gets for each time that it is listed.
abbrev pub share : Server → ℕ
share s = if s.healthy then weight_of s else 0

count-append : (p : Address) (xs ys : List Address) → count p (xs ++ ys) ≡ count p xs + count p ys
count-append p [] ys = omega arith
count-append p (x ∷ xs) ys = omega (arith, count-append p xs ys)

count-replicate : (p q : Address) (n : ℕ) → count p (replicate n q) ≡ (if q == p then n else 0)
count-replicate p q zero = ground arith
count-replicate p q (suc n) = ground (arith, count-replicate p q n)

length-replicate : (n : ℕ) (p : Address) → length (replicate n p) ≡ n
length-replicate zero p = refl
length-replicate (suc n) p = ap suc (length-replicate n p)

count-expand_cons :
    (heap : Heap) (p q : Address) (qs : List Address)
    → count p (expand heap (q ∷ qs))
      ≡ (if q == p then share (heap q) else 0) + count p (expand heap qs)
unfolding expand weight_of
count-expand_cons heap p q qs = elim (Bool-cases (heap q).healthy) [
  | inl up ↦ rw up (
      count-append p (replicate (weight_of (heap q)) q) (expand heap qs)
      ∙ ap (λ (n : ℕ). n + count p (expand heap qs)) (count-replicate p q (weight_of (heap q))))
  | inr down ↦ rw down (ground arith)
]

-- A server stands in the expanded list as often as its weight says, once for each time that it is
-- listed, and not at all if it is down.
pub count-expand :
    (heap : Heap) (p : Address) (servers : List Address)
    → count p (expand heap servers) ≡ count p servers * share (heap p)
count-expand heap p [] = unfold expand in omega arith
count-expand heap p (q ∷ qs) = elim (beq-cases q p) [
  | inl (same, b) ↦
      let shares : share (heap q) ≡ share (heap p) = ap (λ (z : Address). share (heap z)) same in
      count-expand_cons heap p q qs ∙ rw b (omega (arith, shares, count-expand heap p qs))
  | inr (other, b) ↦ count-expand_cons heap p q qs ∙ rw b (omega (arith, count-expand heap p qs))
]

-- totalWeight is the length of the list.
pub length-expand :
    (heap : Heap) (servers : List Address) → length (expand heap servers) ≡ sum_weights heap servers
unfolding expand sum_weights
length-expand heap [] = refl
length-expand heap (p ∷ ps) = ground (
  arith,
  length-expand heap ps,
  length-append (replicate (weight_of (heap p)) p) (expand heap ps),
  length-replicate (weight_of (heap p)) p,
)

-- A successful UpdateWeight drops the list and writes the server.
update_weight_writes :
    (id : Str) (weight : ℤ) (p : Address) (heap heap' : Heap) (wrr wrr' : WeightedRoundRobin)
    → lookup id wrr.servers ≡ some p
    → update_weight id weight wrr heap ≡ (ok tt, wrr', heap')
    → (wrr'.weighted_servers ≡ []) × (heap' p ≡ record (heap p) { weight = weight })
unfolding update_weight set_weight
update_weight_writes id weight p heap heap' wrr wrr' there h =
    let written : heap' ≡ write p (record (heap p) { weight = weight }) heap =
      ground (arith, there) in
    (ground (arith, there), ap (λ (g : Heap). g p) written ∙ rw (beq_self p) refl)

refreshed_empty :
    (heap : Heap) (servers : List Address) (wrr : WeightedRoundRobin)
    → wrr.weighted_servers ≡ []
    → ((refreshed heap servers wrr).weighted_servers ≡ expand heap servers)
      × ((refreshed heap servers wrr).total_weight ≡ sum_weights heap servers)
unfolding refreshed rebuild_weighted_list
refreshed_empty heap servers wrr e = ground arith

-- A new weight takes effect at the next selection, although it is written to the server itself:
-- the balancer's map and the slice of the caller hold the same object. The list is dropped and
-- rebuilt, and a healthy server then stands in it `weight` times for each time that it is listed,
-- or once if the weight is 0; its totalWeight is the length of the list.
update_weight_effect :
    (id : Str) (weight : ℤ) (p : Address) (servers : List Address) (heap heap' : Heap)
    (wrr wrr' : WeightedRoundRobin)
    → lookup id wrr.servers ≡ some p
    → (heap p).healthy ≡ true
    → update_weight id weight wrr heap ≡ (ok tt, wrr', heap')
    → let built = refreshed heap' servers wrr' in
      (count p built.weighted_servers
        ≡ count p servers * (if leb_ℤ weight (pos 0) then 1 else pos_part weight))
      × (built.total_weight ≡ length built.weighted_servers)
unfolding weight_of
update_weight_effect id weight p servers heap heap' wrr wrr' there up h =
    let (dropped, written) = update_weight_writes id weight p heap heap' wrr wrr' there h in
    let (list, total) = refreshed_empty heap' servers wrr' dropped in
    let new_share : share (heap' p) ≡ (if leb_ℤ weight (pos 0) then 1 else pos_part weight) =
      ground (arith, written, up) in
    (
      ap (count p) list
          ∙ count-expand heap' p servers
          ∙ ap (λ (n : ℕ). count p servers * n) new_share,
      total ∙ sym (length-expand heap' servers) ∙ ap length (sym list),
    )
