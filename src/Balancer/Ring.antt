-- ===== src/Balancer/Ring.antt =====
-- internal/balancer/ip_hash.go: consistentHash, the ring of virtual nodes, with the standard
-- functions that it calls (crc32.ChecksumIEEE, fmt.Sprintf, sort.Slice, sort.Search).
mod Hash
mod Search
pub mod Order
pub mod Lookup
pub mod Ownership
pub mod Unweighted
pub mod Stability
mod Tests
unfoldable pub use Hash.*
unfoldable pub use Search.*
use discobox.Prelude.{
  Str, ℕ, zero, suc, ◌+◌, ◌*◌, ◌%◌, Bool, true, false, not, ◌&&◌, List, [], ◌∷◌, ◌++◌, Option, none,
  some, if◌then◌else◌, ◌==◌, nat_eq, str_eq, length, get_elem?, ltb, leb, text,
}
use discobox.Prelude.Int.{ℤ, pos, pos_part, leb_ℤ, wrap64}
use discobox.Prelude.Dict.{Dict, lookup, insert, erase, keys}
use discobox.Prelude.Ranges.{listed}

pub record ConsistentHash : Type 0 where
  pub replicas : ℕ
  pub circle : Dict ℕ Str
  pub sorted_hashes : List ℕ
  pub node_weights : Dict Str ℤ

abbrev pub new_consistent_hash : ℕ → ConsistentHash
new_consistent_hash replicas = record {
  replicas = replicas;
  circle = [];
  sorted_hashes = [];
  node_weights = [];
}

-- if weight <= 0 { weight = 1 }
unfoldable pub at_least_one : ℤ → ℕ
at_least_one weight = if leb_ℤ weight (pos 0) then 1 else pos_part weight

-- nodeWeights[node], 0 where it is missing.
unfoldable pub weight_in : Str → Dict Str ℤ → ℤ
weight_in node weights = elim (lookup node weights) [ none ↦ pos 0 | some weight ↦ weight ]

-- The rounds of a loop up to replicas * weight, a product of ints that wraps at 64 bits.
unfoldable pub rounds : ℕ → ℕ → ℕ
rounds replicas weight = pos_part (wrap64 (pos (replicas * weight)))

-- replicas * weight, with the weight that the node has.
unfoldable pub virtual_nodes : Str → ConsistentHash → ℕ
virtual_nodes node ch = rounds ch.replicas (at_least_one (weight_in node ch.node_weights))

-- for i := 0; i < n; i++ { circle[hash(node:i)] = node }; the last round is the outermost write.
unfoldable pub put_nodes : Str → ℕ → Dict ℕ Str → Dict ℕ Str
put_nodes node zero circle = circle
put_nodes node (suc n) circle = insert (hash (virtual_key node n)) node (put_nodes node n circle)

-- for i := 0; i < n; i++ { delete(circle, hash(node:i)) }
unfoldable pub delete_nodes : Str → ℕ → Dict ℕ Str → Dict ℕ Str
delete_nodes node zero circle = circle
delete_nodes node (suc n) circle = erase (hash (virtual_key node n)) (delete_nodes node n circle)

unfoldable pub update_sorted_hashes : ConsistentHash → ConsistentHash
update_sorted_hashes ch = record ch { sorted_hashes = sort (keys ch.circle) }

unfoldable pub add : Str → ConsistentHash → ConsistentHash
add node ch =
    update_sorted_hashes (record ch { circle = put_nodes node (virtual_nodes node ch) ch.circle })

unfoldable pub remove : Str → ConsistentHash → ConsistentHash
remove node ch = update_sorted_hashes (record ch {
  circle = delete_nodes node (virtual_nodes node ch) ch.circle;
  node_weights = erase node ch.node_weights;
})

unfoldable pub update_weight : Str → ℤ → ConsistentHash → ConsistentHash
update_weight node weight ch =
    let n = at_least_one weight in
    update_sorted_hashes (record ch {
      circle =
          put_nodes node (rounds ch.replicas n)
            (delete_nodes node (virtual_nodes node ch) ch.circle);
      node_weights = insert node (pos n) ch.node_weights;
    })

-- ch.circle[h], "" where it is missing.
abbrev pub node_at : ℕ → ConsistentHash → Str
node_at h ch = elim (lookup h ch.circle) [ none ↦ [] | some node ↦ node ]

-- ch.circle[ch.sortedHashes[i]]; `none` is a panic, an index out of range.
unfoldable pub node_of_index : ℕ → ConsistentHash → Option Str
node_of_index i ch = elim (get_elem? ch.sorted_hashes i) [
  | none ↦ none
  | some h ↦ some (node_at h ch)
]

-- if idx == len(ch.sortedHashes) { idx = 0 }
unfoldable pub wrap_index : ℕ → ConsistentHash → ℕ
wrap_index i ch = if i == length ch.sorted_hashes then 0 else i

unfoldable pub get : Str → ConsistentHash → Option Str
get key ch =
    if length ch.circle == 0
    then some []
    else node_of_index (wrap_index (search_hash ch.sorted_hashes (hash key)) ch) ch

-- The loop of GetN, for `rounds` more rounds from i; `nodes` are those collected so far, which are
-- the ones seen.
unfoldable pub collect : ConsistentHash → ℕ → ℕ → ℕ → ℕ → List Str → Option (List Str)
collect ch n start i zero nodes = some nodes
collect ch n start i (suc rounds) nodes =
    let step = λ (node : Str).
      collect ch n start (i + 1) rounds (if listed node nodes then nodes else nodes ++ node ∷ []) in
    if not (ltb (length nodes) n)
    then some nodes
    else elim (node_of_index ((start + i) % length ch.sorted_hashes) ch) [
      | none ↦ none
      | some node ↦ step node
    ]

unfoldable pub get_n : Str → ℕ → ConsistentHash → Option (List Str)
get_n key n ch =
    let limit = if ltb (length ch.node_weights) n then length ch.node_weights else n in
    let start = search_hash ch.sorted_hashes (hash key) in
    let nodes = collect ch limit start 0 (length ch.sorted_hashes) [] in
    if length ch.circle == 0 then some [] else nodes
