-- ===== src/Balancer/IpHash/Sound.antt =====
-- Select of internal/balancer/ip_hash.go never panics, and returns usable servers only.
use mathlib.Core.List.{Mem}
use native.Mathlib.Nat.{mod-lt}
use discobox.Prelude.{
  Str, ℕ, zero, suc, ◌+◌, ◌%◌, ◌<◌, ◌≤◌, ◌≡◌, refl, sym, ap, subst, inl, inr, Bool, true, not, ◌&&◌,
  List, [], ◌∷◌, ◌++◌, Option, some, if◌then◌else◌, ◌==◌, nat_eq, str_eq, arith, length,
  get_elem?-in_range, Bool-cases, Option-cases, is_empty, ltb,
}
use discobox.Prelude.Counting.{find, find_sound}
use discobox.Prelude.Members.{mem_of_All}
use discobox.Prelude.Ranges.{listed}
use discobox.Types.Errors.{Result, ok, err, no_healthy_backends}
use discobox.Balancer.Pool.{Address, Heap, is_full, has_capacity}
use discobox.Balancer.RoundRobin.Selection.{IsUsable, select_sound, room_of_capacity}
use discobox.Balancer.Ring.{
  ConsistentHash, get_n, collect, node_of_index, node_at, search_hash, hash,
}
use discobox.Balancer.Ring.Lookup.{IsRing, get-total}
use discobox.Balancer.IpHash.{
  IpHash, fall_back, is_node, next_available, take_next, select_next_available, take_node,
  select_for,
}

node_of_index-total :
    (i : ℕ) (ch : ConsistentHash)
    → i < length ch.sorted_hashes
    → (node : Str) × (node_of_index i ch ≡ some node)
unfolding node_of_index
node_of_index-total i ch l =
    let e = get_elem?-in_range ch.sorted_hashes i l in (node_at e.0 ch, ground (arith, e.1))

collect-total :
    (ch : ConsistentHash) (n start i rounds : ℕ) (nodes : List Str)
    → rounds ≤ length ch.sorted_hashes
    → (found : List Str) × (collect ch n start i rounds nodes ≡ some found)
unfolding collect
collect-total ch n start i zero nodes l = (nodes, refl)
collect-total ch n start i (suc rounds) nodes l =
    let at =
      node_of_index-total ((start + i) % length ch.sorted_hashes) ch
        (mod-lt (start + i) (omega arith)) in
    let more = if listed at.0 nodes then nodes else nodes ++ at.0 ∷ [] in
    let rest = collect-total ch n start (i + 1) rounds more (omega arith) in
    elim (Bool-cases (not (ltb (length nodes) n))) [
      | inl done ↦ (nodes, ground (arith, done))
      | inr go ↦ (rest.0, ground (arith, go, at.1, rest.1))
    ]

get_n-total :
    (key : Str) (n : ℕ) (ch : ConsistentHash) → (nodes : List Str) × (get_n key n ch ≡ some nodes)
unfolding get_n
get_n-total key n ch =
    let limit = if ltb (length ch.node_weights) n then length ch.node_weights else n in
    let start = search_hash ch.sorted_hashes (hash key) in
    let c = collect-total ch limit start 0 (length ch.sorted_hashes) [] (omega arith) in
    elim (Bool-cases (length ch.circle == 0)) [
      | inl empty ↦ ([], ground (arith, empty))
      | inr full ↦ (c.0, ground (arith, full, c.1))
    ]

-- A result that Select may give.
abbrev pub Sound : Heap → List Address → Option (Result Address) → Type 0
Sound heap servers o =
    (r : Result Address) × (o ≡ some r)
    × ((p : Address) → r ≡ ok p → Mem p servers × IsUsable heap p)

module _ (heap : Heap) (servers : List Address) where
  Sound-chosen : (p : Address) → Mem p servers → IsUsable heap p → Sound heap servers (some (ok p))
  Sound-chosen p there fit = (
    ok p,
    refl,
    λ q e. subst (λ (z : Address). Mem z servers × IsUsable heap z) (cc e) (there, fit),
  )

  fall_back-Sound : (ih : IpHash) → Sound heap servers (fall_back heap servers ih).0
  unfolding fall_back
  fall_back-Sound ih = select_sound heap servers ih.fallback

  -- A server that a search by a test finds is of the slice and passes the test.
  found :
      (p : Address → Bool) (q : Address) → find p servers ≡ some q → (p q ≡ true) × Mem q servers
  found p q h = find_sound (λ x. Mem x servers) p servers q (mem_of_All servers (λ a m. m)) h

  next_available-IsUsable :
      (ids : List Str) (p : Address)
      → next_available heap servers ids ≡ some p
      → Mem p servers × IsUsable heap p
  unfolding next_available
  next_available-IsUsable [] p h = absurd (cc h)
  next_available-IsUsable (id ∷ ids) p h =
      let test = λ (q : Address). is_node heap id q && has_capacity (heap q) in
      elim (Option-cases (find test servers)) [
        | inl miss ↦ next_available-IsUsable ids p (ground (arith, miss))
        | inr (q, hit) ↦
            let f = found test q hit in
            let same : q ≡ p = ground (arith, hit) in
            subst (λ (z : Address). Mem z servers × IsUsable heap z) same
              (
                f.1,
                record {
                  up = ground (arith, f.0);
                  room = room_of_capacity heap q (ground (arith, f.0));
                },
              )
      ]

  same-Sound : {a b : Option (Result Address)} → a ≡ b → Sound heap servers b → Sound heap servers a
  same-Sound e s = subst (Sound heap servers) (sym e) s

  take_next-Sound :
      (nodes : List Str) (ih : IpHash)
      → Sound heap servers (take_next heap servers (some nodes) ih).0
  unfolding take_next
  take_next-Sound nodes ih = elim (Option-cases (next_available heap servers nodes)) [
    | inl miss ↦ same-Sound (ground (arith, miss)) (fall_back-Sound ih)
    | inr (p, hit) ↦
        let u = next_available-IsUsable nodes p hit in
        same-Sound (ground (arith, hit)) (Sound-chosen p u.0 u.1)
  ]

  select_next_available-Sound :
      (key : Str) (ih : IpHash) → Sound heap servers (select_next_available heap servers key ih).0
  unfolding select_next_available
  select_next_available-Sound key ih =
      let g = get_n-total key (length servers) ih.ring in
      same-Sound (ap (λ (o : Option (List Str)). (take_next heap servers o ih).0) g.1)
        (take_next-Sound g.0 ih)

  take_node-Sound :
      (key id : Str) (ih : IpHash) → Sound heap servers (take_node heap servers key (some id) ih).0
  unfolding take_node
  take_node-Sound key id ih = elim (Option-cases (find (is_node heap id) servers)) [
    | inl miss ↦ same-Sound (ground (arith, miss)) (select_next_available-Sound key ih)
    | inr (p, hit) ↦ elim (Bool-cases (is_full (heap p))) [
      | inl full ↦ same-Sound (ground (arith, hit, full)) (select_next_available-Sound key ih)
      | inr room ↦
          let f = found (is_node heap id) p hit in
          same-Sound (ground (arith, hit, room))
            (Sound-chosen p f.1 (record { up = ground (arith, f.0); room = room }))
    ]
  ]

-- Select for a client's address never panics, on a ring whose hashes are those of its circle. A
-- server that it returns is of the slice, healthy and not at its limit, whether it is the one on
-- the ring, the next that is available, or the fallback's.
pub select_for-Sound :
    (heap : Heap) (servers : List Address) (client_ip : Str) (ih : IpHash)
    → IsRing ih.ring
    → Sound heap servers (select_for heap servers client_ip ih).0
unfolding select_for
select_for-Sound heap servers client_ip ih ring = elim (Bool-cases (length servers == 0)) [
  | inl empty ↦
      same-Sound heap servers (ground (arith, empty))
        (err no_healthy_backends, refl, λ p e. absurd (cc e))
  | inr some_ ↦ elim (Bool-cases (is_empty client_ip)) [
    | inl unknown ↦
        same-Sound heap servers (ground (arith, some_, unknown)) (fall_back-Sound heap servers ih)
    | inr known ↦
        let g = get-total client_ip ih.ring ring in
        same-Sound heap servers (ground (arith, some_, known, g.1))
          (take_node-Sound heap servers client_ip g.0 ih)
  ]
]
