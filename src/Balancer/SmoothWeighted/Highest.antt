-- ===== src/Balancer/SmoothWeighted/Highest.antt =====
-- internal/balancer/weighted_round_robin.go: which server smoothWeightedRoundRobin selects.
use discobox.Prelude.{Str, ◌≡◌, ◌⊎◌, true, false, List, Option, none, some, str_eq, nat_eq, All}
use mathlib.Core.List.{Mem}
use discobox.Prelude.Int.{ℤ, pos, ◌≤ℤ◌, ◌-ℤ◌, wrap64}
use discobox.Prelude.Dict.{Dict, lookup}
use discobox.Types.Errors.{Result, ok, err, no_healthy_backends}
use discobox.Balancer.Pool.{Address, Heap}
use discobox.Balancer.SmoothWeighted.{
  WeightedServer, SmoothWeighted, is_usable, raised, total_weight,
}

module _ (heap : Heap) where
  -- No usable server of the entries has a higher weight than `limit` once its own is added.
  abbrev pub AreAtMost : ℤ → Dict Str WeightedServer → Type 0
  AreAtMost limit entries =
      All (λ e. is_usable heap e.1 ≡ true → (raised e.1).current_weight ≤ℤ limit) entries

  abbrev IsUnder : ℤ → Option (Str × WeightedServer) → Type 0
  IsUnder limit none = Unit
  IsUnder limit (some b) = b.1.current_weight ≤ℤ limit

  -- A usable server of the entries, with its own weight added.
  abbrev IsFrom : Dict Str WeightedServer → Str × WeightedServer → Type 0
  IsFrom entries s =
      (e : Str × WeightedServer) × Mem e entries
      × (is_usable heap e.1 ≡ true)
      × (s ≡ (e.0, raised e.1))

  -- The selection from entries and a server selected before.
  abbrev Picks :
      Dict Str WeightedServer
      → Option (Str × WeightedServer)
      → Option (Str × WeightedServer)
      → Type 0
  Picks entries before none = (before ≡ none) × All (λ e. is_usable heap e.1 ≡ false) entries
  Picks entries before (some s) =
      AreAtMost s.1.current_weight entries
      × IsUnder s.1.current_weight before
      × ((before ≡ some s) ⊎ IsFrom entries s)

  -- What Select makes of the entries of the servers.
  abbrev pub Outcome : Dict Str WeightedServer → Result Address × SmoothWeighted → Type 0
  Outcome m r =
      ((r.0 ≡ err no_healthy_backends) × All (λ e. is_usable heap e.1 ≡ false) m)
      ⊎ ((e : Str × WeightedServer) × Mem e m
          × (is_usable heap e.1 ≡ true)
          × AreAtMost (raised e.1).current_weight m
          × (r.0 ≡ ok e.1.server)
          × (lookup e.0 r.1.servers
              ≡ some (record (raised e.1) {
                current_weight =
                    wrap64 ((raised e.1).current_weight -ℤ total_weight heap m (pos 0));
              })))
