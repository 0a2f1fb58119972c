-- ===== src/Balancer/SmoothWeighted/Tests.antt =====
-- The smooth weighted round robin of internal/balancer/weighted_round_robin.go on two servers.
use discobox.Prelude.{ℕ, zero, suc, ◌≡◌, refl, true, List, [], ◌∷◌, text, list_beq}
use discobox.Prelude.Dict.{lookup, insert, erase}
use discobox.Prelude.Int.{pos, ◌+ℤ◌, ◌-ℤ◌, wrap64}
use discobox.Types.Errors.{Result, ok}
use discobox.Balancer.Pool.{Address, Heap, is_full}
use discobox.Balancer.SmoothWeighted.{
  SmoothWeighted, new_smooth_weighted_round_robin, update_servers, drop_missing, refresh_all,
  raise_all, total_weight, highest, settle, select,
}

-- "a" with the weight 2, and "b" with the weight 1.
abbrev heap : Heap
heap zero = record {
  url = text "http://10.0.0.1";
  id = text "a";
  weight = pos 2;
  max_conns = pos 0;
  active_conns = pos 0;
  healthy = true;
  metadata = [];
  last_used = 0;
}
heap (suc p) = record {
  url = text "http://10.0.0.2";
  id = text "b";
  weight = pos 1;
  max_conns = pos 0;
  active_conns = pos 0;
  healthy = true;
  metadata = [];
  last_used = 0;
}

abbrev two : List Address
two = 0 ∷ 1 ∷ []

abbrev select_many : ℕ → SmoothWeighted → List (Result Address)
select_many zero swrr = []
select_many (suc n) swrr = (select heap two swrr).0 ∷ select_many n (select heap two swrr).1

-- Of three calls in a row, "a" is given two and "b" the one in between.
select_many_lem : select_many 3 new_smooth_weighted_round_robin ≡ ok 0 ∷ ok 1 ∷ ok 0 ∷ []
unfolding select update_servers drop_missing refresh_all raise_all total_weight highest settle
    is_full insert erase lookup list_beq ◌+ℤ◌ ◌-ℤ◌ wrap64
select_many_lem = refl
