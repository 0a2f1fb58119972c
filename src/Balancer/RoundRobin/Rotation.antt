-- ===== src/Balancer/RoundRobin/Rotation.antt =====
-- Fairness of Select of internal/balancer/round_robin.go: a round of calls serves every healthy
-- server once.
use native.Mathlib.Nat.{div-add-mod', mod-lt}
use mathlib.Core.List.{map-append}
use discobox.Prelude.{
  ℕ, zero, suc, ◌+◌, ◌-◌, ◌*◌, ◌/◌, ◌%◌, ◌<◌, ◌≤◌, ◌≡◌, refl, sym, ap, ◌∙◌, false, List, [], ◌∷◌,
  ◌++◌, map, Option, some, nat_eq, Str, str_eq, arith, length, get_elem?, get_elem?-in_range, take,
  drop, All, All-get_elem?, get_elem?-lt,
}
use discobox.Prelude.Dict.{Dict}
use discobox.Types.Errors.{Result, ok}
use discobox.Balancer.Pool.{Address, Heap, u64, add_uint64, index_of, is_full}
use discobox.Balancer.Indices.{round_index, index_counter}
use discobox.Balancer.RoundRobin.{RoundRobin, healthy_servers, choose, select}
use discobox.Balancer.RoundRobin.Selection.{choose_step}

-- k calls of Select in a row, over the same servers.
pub select_many : Heap → List Address → ℕ → RoundRobin → List (Option (Result Address))
select_many heap servers zero rr = []
select_many heap servers (suc k) rr =
    (select heap servers rr).0 ∷ select_many heap servers k (select heap servers rr).1

abbrev pub served : List Address → List (Option (Result Address))
served = map (λ p. some (ok p))

drop_step {ℓ} :
    {A : Type ℓ} (xs : List A) (j : ℕ) {p : A}
    → get_elem? xs j ≡ some p
    → drop j xs ≡ p ∷ drop (j + 1) xs
drop_step [] j h = cc
drop_step (x ∷ xs) zero h = ground arith
drop_step (x ∷ xs) (suc j) h = ground (arith, drop_step xs j h)

take_all {ℓ} : {A : Type ℓ} (xs : List A) (k : ℕ) → length xs ≤ k → take k xs ≡ xs
take_all [] zero h = refl
take_all [] (suc k) h = refl
take_all (x ∷ xs) zero h = absurd (omega arith)
take_all (x ∷ xs) (suc k) h = ap (◌∷◌ x) (take_all xs k (omega arith))

length-drop {ℓ} : {A : Type ℓ} (xs : List A) (j : ℕ) → length (drop j xs) ≡ length xs - j
length-drop xs zero = omega arith
length-drop [] (suc j) = omega arith
length-drop (x ∷ xs) (suc j) = omega (arith, length-drop xs j)

choose_served :
    (heap : Heap) (xs : List Address) (j : ℕ) (p : Address)
    → All (λ q. is_full (heap q) ≡ false) xs
    → get_elem? xs j ≡ some p
    → choose heap xs j ≡ some (ok p)
choose_served heap xs j p room here =
    ground (arith, choose_step heap xs j p here, All-get_elem? _ xs j room here)

select_healthy :
    (heap : Heap) (servers : List Address) (rr : RoundRobin)
    → 0 < length (healthy_servers heap servers)
    → select heap servers rr ≡ (
      choose heap
          (healthy_servers heap servers)
          (index_of (add_uint64 rr.counter) (length (healthy_servers heap servers))),
      record rr { counter = add_uint64 rr.counter },
    )
unfolding select
select_healthy heap [] rr h = absurd (none_up h)
  where
    none_up : 0 < length (healthy_servers heap []) → ⊥
    none_up h = unfold healthy_servers in omega arith
select_healthy heap (s ∷ ss) rr h = ground arith

-- The balancer after k calls.
after : Heap → List Address → ℕ → RoundRobin → RoundRobin
after heap servers zero rr = rr
after heap servers (suc k) rr = after heap servers k (select heap servers rr).1

select_many-add :
    (heap : Heap) (servers : List Address) (a b : ℕ) (rr : RoundRobin)
    → select_many heap servers (a + b) rr
      ≡ select_many heap servers a rr ++ select_many heap servers b (after heap servers a rr)
unfolding select_many after
select_many-add heap servers zero b rr = ap (λ (k : ℕ). select_many heap servers k rr) (omega arith)
select_many-add heap servers (suc a) b rr =
    let sum : suc a + b ≡ suc (a + b) = omega arith in
    ap (λ (k : ℕ). select_many heap servers k rr) sum
    ∙ ap (◌∷◌ (select heap servers rr).0)
        (select_many-add heap servers a b (select heap servers rr).1)

abbrev at : Dict Str Address → ℕ → RoundRobin
at pool c = record { counter = c; servers = pool }

module _ (heap : Heap) (servers : List Address) (pool : Dict Str Address)
    (room : All (λ p. is_full (heap p) ≡ false) (healthy_servers heap servers)) where
  -- One call whose counter stands at the j-th place of its round.
  select-at :
      (c j : ℕ) (p : Address)
      → index_of (add_uint64 c) (length (healthy_servers heap servers)) ≡ j
      → get_elem? (healthy_servers heap servers) j ≡ some p
      → select heap servers (at pool c) ≡ (some (ok p), at pool (add_uint64 c))
  select-at c j p index here =
      select_healthy heap servers (at pool c)
        (omega (arith, get_elem?-lt (healthy_servers heap servers) j here))
      ∙ ap (λ (o : Option (Result Address)). (o, at pool (add_uint64 c)))
          (ap (choose heap (healthy_servers heap servers)) index
            ∙ choose_served heap (healthy_servers heap servers) j p room here)

  -- The calls of one stretch of a round.
  stretch :
      (k q j : ℕ)
      → let n = length (healthy_servers heap servers) in
        j + k ≤ n
        → q * n + j + k < u64
        → select_many heap servers k (at pool (q * n + j))
          ≡ served (take k (drop j (healthy_servers heap servers)))
  unfolding select_many
  stretch zero q j inside small = refl
  stretch (suc k) q j inside small =
      let xs = healthy_servers heap servers in
      let n = length xs in
      let (p, here) = get_elem?-in_range xs j (omega arith) in
      let c = q * n + j in
      let index : index_of (add_uint64 c) n ≡ j =
        index_counter c n (omega arith) ∙ round_index q n j (omega arith) in
      let next : add_uint64 c ≡ q * n + (j + 1) = omega arith in
      ap (λ (r : Option (Result Address) × RoundRobin). r.0 ∷ select_many heap servers k r.1)
        (select-at c j p index here)
      ∙ ap (λ (d : ℕ). some (ok p) ∷ select_many heap servers k (at pool d)) next
      ∙ ap (◌∷◌ (some (ok p))) (stretch k q (j + 1) (omega arith) (omega arith))
      ∙ ap (λ (l : List Address). served (take (suc k) l)) (sym (drop_step xs j here))

  after-at :
      (k c : ℕ)
      → 0 < length (healthy_servers heap servers)
      → c + k < u64
      → after heap servers k (at pool c) ≡ at pool (c + k)
  unfolding after
  after-at zero c up small = ap (at pool) (omega arith)
  after-at (suc k) c up small =
      let next : add_uint64 c ≡ c + 1 = omega arith in
      ap (λ (r : Option (Result Address) × RoundRobin). after heap servers k r.1)
        (select_healthy heap servers (at pool c) up)
      ∙ ap (λ (d : ℕ). after heap servers k (at pool d)) next
      ∙ after-at k (c + 1) up (omega arith)
      ∙ ap (at pool) (omega arith)

  round_from :
      (q r : ℕ)
      → let xs = healthy_servers heap servers in
        r < length xs
        → q * length xs + r + length xs < u64
        → select_many heap servers (length xs) (at pool (q * length xs + r))
          ≡ served (drop r xs ++ take r xs)
  round_from q r low small =
      let xs = healthy_servers heap servers in
      let n = length xs in
      let c = q * n + r in
      let parts : n ≡ (n - r) + r = omega arith in
      let again : c + (n - r) ≡ (q + 1) * n + 0 = omega arith in
      let rest = select_many heap servers r in
      ap (λ (k : ℕ). select_many heap servers k (at pool c)) parts
      ∙ select_many-add heap servers (n - r) r (at pool c)
      ∙ ap
          (λ (l : List (Option (Result Address))).
            l ++ rest (after heap servers (n - r) (at pool c)))
          (stretch (n - r) q r (omega arith) (omega arith)
            ∙ ap served (take_all (drop r xs) (n - r) (omega (arith, length-drop xs r))))
      ∙ ap (λ (u : RoundRobin). served (drop r xs) ++ rest u)
          (after-at (n - r) c (omega arith) (omega arith))
      ∙ ap (λ (d : ℕ). served (drop r xs) ++ rest (at pool d)) again
      ∙ ap (◌++◌ (served (drop r xs))) (stretch r (q + 1) 0 (omega arith) (omega arith))
      ∙ sym (map-append _ (drop r xs) (take r xs))

-- When no healthy server is at its limit, as many calls as there are healthy servers serve each of
-- them once: in the order of the slice, from the counter's place, and none twice. The counter may
-- be any that does not overflow in these calls.
pub select_many_round :
    (heap : Heap) (servers : List Address) (rr : RoundRobin)
    → let xs = healthy_servers heap servers in
      All (λ p. is_full (heap p) ≡ false) xs
      → 0 < length xs
      → rr.counter + length xs < u64
      → select_many heap servers (length xs) rr
        ≡ served (drop (rr.counter % length xs) xs ++ take (rr.counter % length xs) xs)
select_many_round heap servers rr room up small =
    let xs = healthy_servers heap servers in
    let n = length xs in
    let from = div-add-mod' rr.counter n in
    ap (λ (c : ℕ). select_many heap servers n (at rr.servers c)) (sym from)
    ∙ round_from heap servers rr.servers room (rr.counter / n) (rr.counter % n)
        (mod-lt rr.counter up) (omega (arith, from))
