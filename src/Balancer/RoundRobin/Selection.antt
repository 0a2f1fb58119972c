-- ===== src/Balancer/RoundRobin/Selection.antt =====
-- What Select of internal/balancer/round_robin.go chooses, and when it refuses.
use mathlib.Core.List.{Mem}
use discobox.Prelude.{
  ℕ, zero, suc, ◌+◌, ◌-◌, ◌%◌, ◌<◌, ◌≡◌, refl, sym, subst, ◌⊎◌, inl, inr, true, false, List, [],
  ◌∷◌, Option, none, some, if◌then◌else◌, ◌==◌, nat_eq, arith, length, keep, get_elem?,
  get_elem?-in_range, if-cases,
}
use discobox.Prelude.Members.{get_elem?-mem, mem_of_mem-keep, keep-All, All-mem}
use discobox.Types.Errors.{Result, ok, err, no_healthy_backends, max_connections_reached}
use discobox.Balancer.Pool.{Address, Heap, u64, add_uint64, index_of, is_full, has_capacity}
use discobox.Balancer.RoundRobin.{RoundRobin, healthy_servers, try_next, choose, select}

-- A server that may take a request.
pub record IsUsable (heap : Heap) (p : Address) : Type 0 where
  pub up : (heap p).healthy ≡ true
  pub room : is_full (heap p) ≡ false

pub room_of_capacity :
    (heap : Heap) (p : Address) → has_capacity (heap p) ≡ true → is_full (heap p) ≡ false
unfolding has_capacity is_full
room_of_capacity heap p h = ground arith

-- What a selection returns: never a panic; a member of the list with room, or an error.
abbrev pub Picks : Heap → List Address → Option (Result Address) → Type 0
Picks heap xs none = ⊥
Picks heap xs (some (ok p)) = Mem p xs × (is_full (heap p) ≡ false)
Picks heap xs (some (err e)) = e ≡ max_connections_reached

-- One round of the loop, at the server that its index leads to.
pub try_next_step :
    (heap : Heap) (xs : List Address) (index i rounds : ℕ) (next : Address)
    → get_elem? xs ((index + i) % u64 % length xs) ≡ some next
    → try_next heap xs index i (suc rounds)
      ≡ (if has_capacity (heap next) then some (ok next) else try_next heap xs index (i + 1) rounds)
unfolding try_next
try_next_step heap xs index i rounds next e = rw (e, try_next)

try_next-Picks :
    (heap : Heap) (xs : List Address) (index i rounds : ℕ)
    → 0 < length xs
    → Picks heap xs (try_next heap xs index i rounds)
unfolding try_next
try_next-Picks heap xs index i zero h = refl
try_next-Picks heap xs index i (suc rounds) h =
    let at = (index + i) % u64 % length xs in
    let (next, e) = get_elem?-in_range xs at (omega arith) in
    subst (Picks heap xs) (sym (try_next_step heap xs index i rounds next e)) (
      if-cases (Picks heap xs) (has_capacity (heap next))
        (λ t. (get_elem?-mem xs at e, room_of_capacity heap next t))
        (λ _. try_next-Picks heap xs index (i + 1) rounds h))

pub choose_step :
    (heap : Heap) (xs : List Address) (index : ℕ) (p : Address)
    → get_elem? xs index ≡ some p
    → choose heap xs index
      ≡ (if is_full (heap p) then try_next heap xs index 1 (length xs - 1) else some (ok p))
unfolding choose
choose_step heap xs index p e = rw (e, choose)

pub choose-Picks :
    (heap : Heap) (xs : List Address) (index : ℕ)
    → index < length xs
    → Picks heap xs (choose heap xs index)
choose-Picks heap xs index h =
    let (p, e) = get_elem?-in_range xs index h in
    subst (Picks heap xs) (sym (choose_step heap xs index p e)) (
      if-cases (Picks heap xs) (is_full (heap p))
        (λ _. try_next-Picks heap xs index 1 (length xs - 1) (omega arith))
        (λ room. (get_elem?-mem xs index e, room)))

-- Select without its state: the first loop, and the choice at the counter's index.
abbrev pub outcome : Heap → List Address → ℕ → Option (Result Address)
outcome heap healthy counter =
    if length healthy == 0
    then some (err no_healthy_backends)
    else choose heap healthy (index_of (add_uint64 counter) (length healthy))

pub select-outcome :
    (heap : Heap) (servers : List Address) (rr : RoundRobin)
    → (select heap servers rr).0 ≡ outcome heap (healthy_servers heap servers) rr.counter
unfolding select healthy_servers
select-outcome heap [] rr = refl
select-outcome heap (p ∷ ps) rr = ground arith

pub outcome_cases :
    (heap : Heap) (xs : List Address) (counter : ℕ)
    → (outcome heap xs counter ≡ some (err no_healthy_backends))
      ⊎ Picks heap xs (outcome heap xs counter)
outcome_cases heap [] counter = inl refl
outcome_cases heap (x ∷ xs) counter =
    let index = index_of (add_uint64 counter) (length (x ∷ xs)) in
    inr
      (subst (Picks heap (x ∷ xs)) (ground arith) (choose-Picks heap (x ∷ xs) index (omega arith)))

-- A choice among the healthy servers is of the slice and healthy.
sound_of_Picks :
    (heap : Heap) (servers : List Address) (o : Option (Result Address))
    → (o ≡ some (err no_healthy_backends)) ⊎ Picks heap (healthy_servers heap servers) o
    → (r : Result Address) × (o ≡ some r)
      × ((p : Address) → r ≡ ok p → Mem p servers × IsUsable heap p)
unfolding healthy_servers
sound_of_Picks heap servers none c = ground (arith, c)
sound_of_Picks heap servers (some (err e)) c = (err e, refl, λ p h. cc)
sound_of_Picks heap servers (some (ok q)) (inl h) = cc
sound_of_Picks heap servers (some (ok q)) (inr (m, room)) = (
  ok q,
  refl,
  λ p h.
      let up = λ (a : Address). (heap a).healthy in
      subst (λ (z : Address). Mem z servers × IsUsable heap z) (cc)
        (
          mem_of_mem-keep up servers m,
          record {
            up = All-mem (λ a. hlevel) (keep up servers) (keep-All up servers) m;
            room = room;
          },
        ),
)

-- Select returns for every heap, slice and counter, and never reads past the slice. A server that
-- it returns is of the slice, healthy and not at its limit.
pub select_sound :
    (heap : Heap) (servers : List Address) (rr : RoundRobin)
    → (r : Result Address) × ((select heap servers rr).0 ≡ some r)
      × ((p : Address) → r ≡ ok p → Mem p servers × IsUsable heap p)
select_sound heap servers rr =
    rw (select-outcome heap servers rr)
      (sound_of_Picks heap servers _ (outcome_cases heap (healthy_servers heap servers) rr.counter))
