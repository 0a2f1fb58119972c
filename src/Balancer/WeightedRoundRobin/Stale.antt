-- ===== src/Balancer/WeightedRoundRobin/Stale.antt =====
-- Select of internal/balancer/weighted_round_robin.go keeps to the list that its first call built.
use mathlib.Core.List.{Mem}
use discobox.Prelude.{◌<◌, ◌≡◌, refl, ap, subst, ◌∙◌, List, [], ◌∷◌, some, nat_eq, arith, length}
use discobox.Types.Errors.{ok}
use discobox.Balancer.Pool.{Address, Heap}
use discobox.Balancer.WeightedRoundRobin.{
  WeightedRoundRobin, expand, refreshed, rebuild_weighted_list, select,
}
use discobox.Balancer.WeightedRoundRobin.Attempts.{select-mem}

-- The balancer after a sequence of calls of Select, each with the servers as they are then and the
-- slice that it is given.
abbrev pub after_selects : List (Heap × List Address) → WeightedRoundRobin → WeightedRoundRobin
after_selects [] wrr = wrr
after_selects ((heap, servers) ∷ calls) wrr = after_selects calls (select heap servers wrr).1

select-weighted_servers :
    (heap : Heap) (servers : List Address) (wrr : WeightedRoundRobin)
    → 0 < length wrr.weighted_servers
    → (select heap servers wrr).1.weighted_servers ≡ wrr.weighted_servers
unfolding select refreshed
select-weighted_servers heap servers wrr built = ground (arith, built)

after_selects-weighted_servers :
    (calls : List (Heap × List Address)) (wrr : WeightedRoundRobin)
    → 0 < length wrr.weighted_servers
    → (after_selects calls wrr).weighted_servers ≡ wrr.weighted_servers
after_selects-weighted_servers [] wrr built = refl
after_selects-weighted_servers ((heap, servers) ∷ calls) wrr built =
    let one = select-weighted_servers heap servers wrr built in
    after_selects-weighted_servers calls (select heap servers wrr).1 (rw one built) ∙ one

first_list :
    (heap : Heap) (servers : List Address) (wrr : WeightedRoundRobin)
    → length wrr.weighted_servers ≡ 0
    → 0 < length servers
    → (select heap servers wrr).1.weighted_servers ≡ expand heap servers
unfolding select refreshed rebuild_weighted_list
first_list heap servers wrr fresh n = ground (arith, fresh, n)

refreshed-built :
    (heap : Heap) (servers : List Address) (wrr : WeightedRoundRobin)
    → 0 < length wrr.weighted_servers
    → refreshed heap servers wrr ≡ wrr
unfolding refreshed
refreshed-built heap servers wrr built = ground (arith, built)

-- Once a Select has built the list, out of the servers of its slice that were healthy then, every
-- later Select chooses from these, through any sequence of Selects, whatever slices they are given
-- and however the servers change: a server that is new in the slice, or was down at first, is never
-- chosen, as long as there is no Add, Remove or UpdateWeight in between.
pub select_stale :
    (heap : Heap) (servers : List Address) (wrr : WeightedRoundRobin)
    (calls : List (Heap × List Address)) (later : Heap) (slice : List Address) (p : Address)
    → length wrr.weighted_servers ≡ 0
    → 0 < length servers
    → 0 < length (expand heap servers)
    → 0 < length slice
    → (select later slice (after_selects calls (select heap servers wrr).1)).0 ≡ some (ok p)
    → Mem p (expand heap servers)
select_stale heap servers wrr calls later slice p fresh n m given chosen =
    let w = after_selects calls (select heap servers wrr).1 in
    let first = first_list heap servers wrr fresh n in
    let same : w.weighted_servers ≡ expand heap servers =
      after_selects-weighted_servers calls (select heap servers wrr).1 (rw first m) ∙ first in
    let kept = refreshed-built later slice w (rw same m) in
    let there = select-mem later slice w p given (rw (kept, same) m) chosen in
    subst (λ (xs : List Address). Mem p xs)
      (ap (λ (v : WeightedRoundRobin). v.weighted_servers) kept ∙ same) there
