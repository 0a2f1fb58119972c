-- ===== src/Balancer/Ring/Tests.antt =====
-- The ring of internal/balancer/ip_hash.go, and the balancer over it, on two nodes.
use mathlib.Core.List.{mem-cons_self}
use discobox.Prelude.{
  zero, suc, ◌≡◌, refl, true, List, [], ◌∷◌, some, text, arith, str_eq, nat_eq, list_beq, ne_of_beq,
}
use discobox.Prelude.Dict.{lookup, insert, erase}
use discobox.Prelude.Int.{wrap64, pos}
use discobox.Types.Errors.{ok}
use discobox.Balancer.Pool.{Heap, is_full}
use discobox.Balancer.Ring.{
  ConsistentHash, new_consistent_hash, add, remove, get, hash, update_sorted_hashes, put_nodes,
  delete_nodes, virtual_nodes, rounds, at_least_one, weight_in, virtual_key, sort, search_hash,
  search, at_least, insert_sorted, wrap_index, node_of_index,
}
use discobox.Balancer.Ring.Lookup.{IsRing}
use discobox.Balancer.Ring.Ownership.{Change, added, change, after, after-IsRing}
use discobox.Balancer.Ring.Stability.{HasAll, remove_stable}
use discobox.Balancer.IpHash.{IpHash, new_ip_hash, select_for}
use discobox.Balancer.IpHash.Sound.{Sound}
use discobox.Balancer.IpHash.Reachable.{adds, weighs, selects, perform_all, perform_all-Sound}
use discobox.Balancer.IpHash.Affinity.{select_for_affine}

abbrev changes : List Change
changes = added (text "a") ∷ added (text "b") ∷ []

abbrev ring : ConsistentHash
ring = after changes (new_consistent_hash 2)

get_test : get (text "192.0.2.7") ring ≡ some (text "a")
unfolding get search_hash search at_least sort insert_sorted wrap_index node_of_index after change
    add remove update_sorted_hashes put_nodes delete_nodes virtual_nodes rounds wrap64 at_least_one
    weight_in insert erase lookup hash virtual_key list_beq
get_test = refl

HasAll-b : HasAll (text "b") ring
unfolding after change add remove update_sorted_hashes put_nodes delete_nodes virtual_nodes rounds
    wrap64 at_least_one weight_in insert erase lookup hash virtual_key list_beq
HasAll-b zero l = refl
HasAll-b (suc zero) l = refl
HasAll-b (suc (suc i)) l = absurd (omega arith)

ring-IsRing : IsRing ring
unfolding sort
ring-IsRing = after-IsRing changes (new_consistent_hash 2) refl

remove_stable_example : get (text "192.0.2.7") (remove (text "b") ring) ≡ some (text "a")
unfolding after change add remove update_sorted_hashes put_nodes delete_nodes virtual_nodes rounds
    wrap64 at_least_one weight_in insert erase lookup hash virtual_key list_beq
remove_stable_example =
    remove_stable (text "192.0.2.7") (text "b") (text "a") ring ring-IsRing (omega arith) HasAll-b
      (ne_of_beq (text "a") (text "b") refl) get_test

-- Every address holds the server "a".
abbrev heap : Heap
heap p = record {
  url = text "http://10.0.0.1";
  id = text "a";
  weight = pos 1;
  max_conns = pos 0;
  active_conns = pos 3;
  healthy = true;
  metadata = [];
  last_used = 0;
}

abbrev balancer : IpHash
balancer = record new_ip_hash { ring = ring }

select_for_affine_example :
    select_for heap (4 ∷ []) (text "192.0.2.7") balancer ≡ (some (ok 4), balancer)
unfolding is_full
select_for_affine_example =
    select_for_affine heap (4 ∷ []) (text "192.0.2.7") 4 balancer refl get_test mem-cons_self
      ((λ e. refl), tt) (record { up = refl; room = refl })

-- The server is added, has its weight changed, and is chosen.
perform_all-Sound_example :
    Sound heap
      (4 ∷ [])
      (select_for heap (4 ∷ []) (text "192.0.2.7") (
        perform_all
          ((heap, adds (some 4))
            ∷ (heap, weighs (text "a") (pos 3))
            ∷ (heap, selects (4 ∷ []) (text "192.0.2.7"))
            ∷ [])
          new_ip_hash)).0
perform_all-Sound_example =
    perform_all-Sound
      ((heap, adds (some 4))
        ∷ (heap, weighs (text "a") (pos 3))
        ∷ (heap, selects (4 ∷ []) (text "192.0.2.7"))
        ∷ [])
      heap (4 ∷ []) (text "192.0.2.7")
