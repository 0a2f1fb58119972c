-- ===== src/Balancer/IpHash.antt =====
-- internal/balancer/ip_hash.go: ipHash, the balancer over the ring, and getClientIP. A result of
-- `none` is a panic. Package net is an interface: what ParseIP and String give for an address, and
-- the host that SplitHostPort gives.
pub mod Sound
pub mod Affinity
pub mod Reachable
use discobox.Prelude.{
  Str, ℕ, zero, suc, ◌+◌, Bool, true, false, not, ◌&&◌, ◌||◌, List, [], ◌∷◌, Option, none, some,
  if◌then◌else◌, ◌==◌, nat_eq, str_eq, length, is_empty, take, text,
}
use discobox.Prelude.Counting.{find}
use discobox.Prelude.Int.{ℤ}
use discobox.Prelude.Dict.{Dict, lookup, insert, erase}
use discobox.Types.Server.{Server}
use discobox.Types.Errors.{Result, ok, err, no_healthy_backends, invalid_request}
use discobox.Balancer.Pool.{Address, Heap, write, is_full, has_capacity}
use discobox.Balancer.RoundRobin.{RoundRobin, new_round_robin, select as fallback_select}
use discobox.Balancer.Ring.{
  ConsistentHash, new_consistent_hash, get, get_n, add as add_node, remove as remove_node,
  update_weight as update_node,
}

pub record Net : Type 0 where
  pub parse_ip : Str → Option Str
  pub split_host_port : Str → Option Str

-- What getClientIP reads of an *http.Request; `header` is Header.Get.
pub record Client : Type 0 where
  pub header : Str → Str
  pub remote_addr : Str

-- `none` is -1.
unfoldable pub index_byte : Str → ℕ → Option ℕ
index_byte [] b = none
index_byte (c ∷ s) b =
    if c == b then some 0 else elim (index_byte s b) [ none ↦ none | some i ↦ some (suc i) ]

abbrev is_blank : ℕ → Bool
is_blank c = c == b' ' || c == 9

-- The first loop of trimSpace, and the second on what it leaves.
unfoldable pub trim_start : Str → Str
trim_start [] = []
trim_start (c ∷ s) = if is_blank c then trim_start s else c ∷ s

unfoldable pub trim_end : Str → Str
trim_end [] = []
trim_end (c ∷ s) = let rest = trim_end s in if is_empty rest && is_blank c then [] else c ∷ rest

unfoldable pub trim_space : Str → Str
trim_space s = trim_end (trim_start s)

-- The first address of the chain in X-Forwarded-For.
unfoldable pub first_address : Str → Str
first_address xff = elim (index_byte xff b',') [ none ↦ xff | some i ↦ take i xff ]

module _ (net : Net) where
  -- A header that is not empty, read by ParseIP.
  unfoldable pub parse_header : Str → Str → Option Str
  parse_header value address = if is_empty value then none else net.parse_ip address

  unfoldable pub get_client_ip : Client → Str
  get_client_ip req =
      let xff = req.header (text "X-Forwarded-For") in
      let xri = req.header (text "X-Real-IP") in
      elim (parse_header xff (trim_space (first_address xff))) [
        | some ip ↦ ip
        | none ↦ elim (parse_header xri xri) [
          | some ip ↦ ip
          | none ↦ elim (net.split_host_port req.remote_addr) [
            | some host ↦ host
            | none ↦ req.remote_addr
          ]
        ]
      ]

-- `fallback` is the state of the round robin whose Select is the fallbackFunc.
pub record IpHash : Type 0 where
  pub servers : Dict Str Address
  pub ring : ConsistentHash
  pub fallback : RoundRobin

abbrev pub new_ip_hash : IpHash
new_ip_hash = record { servers = []; ring = new_consistent_hash 150; fallback = new_round_robin }

unfoldable pub fall_back : Heap → List Address → IpHash → Option (Result Address) × IpHash
fall_back heap servers ih =
    let r = fallback_select heap servers ih.fallback in (r.0, record ih { fallback = r.1 })

-- server.ID == serverID && server.Healthy
abbrev pub is_node : Heap → Str → Address → Bool
is_node heap id p = (heap p).id == id && (heap p).healthy

-- The loops of selectNextAvailable.
unfoldable pub next_available : Heap → List Address → List Str → Option Address
next_available heap servers [] = none
next_available heap servers (id ∷ ids) =
    elim (find (λ p. is_node heap id p && has_capacity (heap p)) servers) [
      | some p ↦ some p
      | none ↦ next_available heap servers ids
    ]

-- What selectNextAvailable does with the nodes that GetN gives.
unfoldable pub take_next :
    Heap → List Address → Option (List Str) → IpHash → Option (Result Address) × IpHash
take_next heap servers none ih = (none, ih)
take_next heap servers (some ids) ih = elim (next_available heap servers ids) [
  | some p ↦ (some (ok p), ih)
  | none ↦ fall_back heap servers ih
]

unfoldable pub select_next_available :
    Heap → List Address → Str → IpHash → Option (Result Address) × IpHash
select_next_available heap servers key ih =
    take_next heap servers (get_n key (length servers) ih.ring) ih

-- Select from the node that Get gives on; the loop stops at the first server that is the node.
unfoldable pub take_node :
    Heap → List Address → Str → Option Str → IpHash → Option (Result Address) × IpHash
take_node heap servers key none ih = (none, ih)
take_node heap servers key (some id) ih = elim (find (is_node heap id) servers) [
  | none ↦ select_next_available heap servers key ih
  | some p ↦
      if is_full (heap p) then select_next_available heap servers key ih else (some (ok p), ih)
]

unfoldable pub select_for : Heap → List Address → Str → IpHash → Option (Result Address) × IpHash
select_for heap servers client_ip ih =
    if length servers == 0
    then (some (err no_healthy_backends), ih)
    else if is_empty client_ip
    then fall_back heap servers ih
    else take_node heap servers client_ip (get client_ip ih.ring) ih

unfoldable pub select :
    Net → Heap → Client → List Address → IpHash → Option (Result Address) × IpHash
select net heap req servers ih = select_for heap servers (get_client_ip net req) ih

unfoldable pub add : Heap → Option Address → IpHash → Result (Unit {0}) × IpHash
add heap none ih = (err invalid_request, ih)
add heap (some p) ih = if is_empty (heap p).id then (err invalid_request, ih) else (
  ok tt,
  record ih { servers = insert (heap p).id p ih.servers; ring = add_node (heap p).id ih.ring },
)

unfoldable pub remove : Str → IpHash → IpHash
remove id ih = record ih { servers = erase id ih.servers; ring = remove_node id ih.ring }

-- UpdateWeight never fails: a server that is missing is ignored, a negative weight is stored.
unfoldable pub update_weight : Str → ℤ → IpHash → Heap → IpHash × Heap
update_weight id weight ih heap = elim (lookup id ih.servers) [
  | none ↦ (ih, heap)
  | some p ↦ (
    record ih { ring = update_node id weight ih.ring },
    write p (record (heap p) { weight = weight }) heap,
  )
]
