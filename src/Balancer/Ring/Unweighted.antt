-- ===== src/Balancer/Ring/Unweighted.antt =====
-- GetN of internal/balancer/ip_hash.go on a ring that has seen no UpdateWeight.
use discobox.Prelude.{
  Str, ℕ, zero, suc, ◌≡◌, refl, Bool, true, false, List, [], ◌∷◌, some, if◌then◌else◌, nat_eq,
  str_eq, ltb, length, arith, All,
}
use discobox.Prelude.Dict.{erase}
use discobox.Balancer.Ring.{
  ConsistentHash, new_consistent_hash, hash, add, remove, get_n, collect, search_hash,
  update_sorted_hashes,
}
use discobox.Balancer.Ring.Ownership.{Change, added, removed, weighted, change, after}

-- Add and Remove alone.
abbrev pub is_weighted : Change → Bool
is_weighted (added node) = false
is_weighted (removed node) = false
is_weighted (weighted node w) = true

after_no_weights :
    (cs : List Change) (ch : ConsistentHash)
    → All (λ c. is_weighted c ≡ false) cs
    → ch.node_weights ≡ []
    → (after cs ch).node_weights ≡ []
unfolding after change add remove update_sorted_hashes erase
after_no_weights [] ch all none_yet = none_yet
after_no_weights (added node ∷ cs) ch all none_yet =
    after_no_weights cs (add node ch) all.1 none_yet
after_no_weights (removed node ∷ cs) ch all none_yet =
    after_no_weights cs (remove node ch) all.1 (rw none_yet refl)
after_no_weights (weighted node w ∷ cs) ch all none_yet = cc (all.0)

collect_none : (ch : ConsistentHash) (start rounds : ℕ) → collect ch 0 start 0 rounds [] ≡ some []
unfolding collect
collect_none ch start zero = refl
collect_none ch start (suc rounds) = refl

limit_none : (n : ℕ) → (if ltb 0 n then 0 else n) ≡ 0
limit_none n = ground arith

get_n_none :
    (key : Str) (n : ℕ) (ch : ConsistentHash) → ch.node_weights ≡ [] → get_n key n ch ≡ some []
unfolding get_n
get_n_none key n ch e =
    rw
      (
        e,
        limit_none n,
        collect_none (record ch { node_weights = [] }) (search_hash ch.sorted_hashes (hash key))
            (length ch.sorted_hashes),
      )
      (ground arith)

-- As long as a ring has seen only Add and Remove, GetN finds no node for any key and any number,
-- since only UpdateWeight records weights and their number bounds what GetN collects.
pub get_n_unweighted :
    (replicas : ℕ) (cs : List Change) (key : Str) (n : ℕ)
    → All (λ c. is_weighted c ≡ false) cs
    → get_n key n (after cs (new_consistent_hash replicas)) ≡ some []
get_n_unweighted replicas cs key n all =
    get_n_none key n (after cs (new_consistent_hash replicas))
      (after_no_weights cs (new_consistent_hash replicas) all refl)
