-- ===== src/Balancer/Tests.antt =====
-- The balancers of internal/balancer on a few servers.
use mathlib.Core.List.{Mem}
use discobox.Prelude.{
  Str, ℕ, zero, suc, ◌%◌, ◌≡◌, refl, ◌⊎◌, Bool, true, false, List, [], ◌∷◌, ◌++◌, some, text, All,
  arith, str_eq, nat_eq, take, drop,
}
use discobox.Prelude.Int.{wrap64, pos, ◌≤ℤ◌}
use discobox.Prelude.Dict.{lookup, insert, erase}
use discobox.Types.Server.{Server}
use discobox.Types.Errors.{ok, err, no_healthy_backends}
use discobox.Balancer.Pool.{Address, Heap, write, has_capacity, is_full}
use discobox.Balancer.RoundRobin.{RoundRobin, new_round_robin, healthy_servers, choose, try_next}
use discobox.Balancer.RoundRobin.Rotation.{select_many, served, select_many_round}
use discobox.Balancer.LeastConnections.{
  LeastConnections, new_least_connections, max_int64, is_eligible,
}
use discobox.Balancer.LeastConnections.Least.{select_least}
use discobox.Balancer.WeightedRoundRobin.{
  attempt, WeightedRoundRobin, new_weighted_round_robin, refreshed, rebuild_weighted_list, expand,
  weight_of, is_available, sum_weights,
}
use discobox.Balancer.WeightedRoundRobin.Attempts.{select_attempts}
use discobox.Balancer.WeightedRoundRobin.Stale.{select_stale}
use discobox.Balancer.Ring.{
  ConsistentHash, new_consistent_hash, add, remove, get, get_n, hash, update_sorted_hashes,
  put_nodes, delete_nodes, virtual_nodes, rounds, at_least_one, weight_in, virtual_key, sort,
}
use discobox.Balancer.Ring.Lookup.{Successor, get-Successor}
use discobox.Balancer.Ring.Ownership.{Change, added, removed, change, after, after-IsRing}
use discobox.Balancer.Ring.Unweighted.{get_n_unweighted}
use discobox.Balancer.RoundRobin
use discobox.Balancer.LeastConnections
use discobox.Balancer.WeightedRoundRobin

abbrev server : Str → ℕ → ℕ → ℕ → Bool → Server
server id weight limit active healthy = record {
  url = text "http://10.0.0.1";
  id = id;
  weight = pos weight;
  max_conns = pos limit;
  active_conns = pos active;
  healthy = healthy;
  metadata = [];
  last_used = 0;
}

-- One server that is full, one that is busy, one that is down and one with room.
abbrev heap : Heap
heap zero = server (text "full") 2 1 1 true
heap (suc zero) = server (text "busy") 3 0 4 true
heap (suc (suc zero)) = server (text "down") 1 0 0 false
heap (suc (suc (suc p))) = server (text "free") 1 9 2 true

abbrev four : List Address
four = 0 ∷ 1 ∷ 2 ∷ 3 ∷ []

-- The first healthy server is full: the next one is taken.
select_test : (RoundRobin.select heap four new_round_robin).0 ≡ some (ok 1)
unfolding RoundRobin.select choose try_next healthy_servers is_full has_capacity
select_test = refl

select_many_round_example :
    select_many heap (3 ∷ 2 ∷ 1 ∷ []) 2 (record { counter = 5; servers = [] })
    ≡ served (drop (5 % 2) (3 ∷ 1 ∷ []) ++ take (5 % 2) (3 ∷ 1 ∷ []))
unfolding healthy_servers is_full
select_many_round_example =
    select_many_round heap (3 ∷ 2 ∷ 1 ∷ []) (record { counter = 5; servers = [] })
      (refl, (refl, tt)) (omega arith) (omega arith)

select_least_example :
    ((p : Address) × ((LeastConnections.select heap four new_least_connections).0 ≡ some (ok p))
      × Mem p four
      × (is_eligible (heap p) ≡ true)
      × All
          (λ q. is_eligible (heap q) ≡ true → (heap p).active_conns ≤ℤ (heap q).active_conns)
          four)
    ⊎ (((LeastConnections.select heap four new_least_connections).0
          ≡ some (err no_healthy_backends))
        × All (λ q. is_eligible (heap q) ≡ false) four)
select_least_example =
    select_least heap four new_least_connections
      (omega arith, (omega arith, (omega arith, (omega arith, tt))))

-- The store of a balancer that has been given one server.
abbrev one_server : WeightedRoundRobin
one_server = record new_weighted_round_robin { servers = (text "free", 3) ∷ [] }

abbrev reweighted : Heap
reweighted = write 3 (record (heap 3) { weight = pos 4 }) heap

select_attempts_example :
    ((p : Address) × ((WeightedRoundRobin.select heap four new_weighted_round_robin).0
        ≡ some (ok p))
      × Mem p (refreshed heap four new_weighted_round_robin).weighted_servers
      × (is_available (heap p) ≡ true))
    ⊎ (((WeightedRoundRobin.select heap four new_weighted_round_robin).0
          ≡ some (err no_healthy_backends))
        × All
            (λ p. is_available (heap p) ≡ false)
            (refreshed heap four new_weighted_round_robin).weighted_servers)
unfolding refreshed rebuild_weighted_list expand weight_of
select_attempts_example =
    select_attempts heap four new_weighted_round_robin (omega arith) (omega arith) (omega arith)

-- Server 2 is up later, and the only one in the slice; 1 is selected all the same.
abbrev recovered : Heap
recovered = write 2 (server (text "down") 1 0 0 true) heap

select_stale_example : Mem 1 (expand heap (1 ∷ 2 ∷ []))
unfolding expand weight_of WeightedRoundRobin.select refreshed rebuild_weighted_list attempt
    is_available is_full
select_stale_example =
    select_stale heap (1 ∷ 2 ∷ []) new_weighted_round_robin ((recovered, 2 ∷ []) ∷ []) recovered
      (2 ∷ []) 1 refl (omega arith) (omega arith) (omega arith) refl

-- A ring of two nodes with two virtual nodes each, after a third came and went.
abbrev changes : List Change
changes = added (text "a") ∷ added (text "c") ∷ added (text "b") ∷ removed (text "c") ∷ []

abbrev ring : ConsistentHash
ring = after changes (new_consistent_hash 2)

get-Successor_example :
    (found : ℕ) × (node : Str) × (get (text "192.0.2.7") ring ≡ some node)
    × (lookup found ring.circle ≡ some node)
    × Successor ring.circle (hash (text "192.0.2.7")) found
unfolding after change add remove update_sorted_hashes put_nodes delete_nodes virtual_nodes rounds
    wrap64 at_least_one weight_in insert erase lookup hash virtual_key sort
get-Successor_example =
    get-Successor (text "192.0.2.7") ring (after-IsRing changes (new_consistent_hash 2) refl)
      (omega arith)

get_n_unweighted_example : get_n (text "192.0.2.7") 2 ring ≡ some []
get_n_unweighted_example =
    get_n_unweighted 2 changes (text "192.0.2.7") 2 (refl, (refl, (refl, (refl, tt))))
