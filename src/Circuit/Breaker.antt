-- ===== src/Circuit/Breaker.antt =====
-- internal/circuit/breaker.go: circuitBreaker and MultiCircuitBreaker over the breaker of package
-- gobreaker, which is an interface. A protected function is the error that it returns if the
-- breaker calls it.
use discobox.Prelude.{
  Str, ℕ, ◌-◌, ◌*◌, ◌%◌, ◌^◌, Bool, not, ◌&&◌, [], ◌∷◌, Option, none, some, leb, ◌==◌, nat_eq,
  str_eq, text,
}
use discobox.Prelude.Int.{ℤ, pos, negsuc}
use discobox.Prelude.Dict.{Dict, lookup, insert, erase}
use discobox.Types.Errors.{Error, circuit_breaker_open}

pub data State : Type 0 where
  closed : State
  half_open : State
  opened : State

-- gobreaker.Counts, as far as ReadyToTrip reads it.
pub record Counts : Type 0 where
  pub requests : ℕ
  pub total_failures : ℕ

pub record CircuitBreakerSettings : Type 0 where
  pub failure_threshold : ℤ
  pub success_threshold : ℤ
  pub timeout : ℤ

-- gobreaker.Settings without the name and the callback, which does nothing.
pub record Settings : Type 0 where
  pub max_requests : ℕ
  pub interval : ℤ
  pub timeout : ℤ
  pub ready_to_trip : Counts → Bool

-- uint32(n)
abbrev pub uint32 : ℤ → ℕ
uint32 (pos n) = n % 2 ^ 32
uint32 (negsuc n) = 2 ^ 32 - 1 - n % 2 ^ 32

-- The ratio of failures is at least 0.6. The quotient of two uint32 as a float64 compares with 0.6
-- as the fractions do, since those differ by 1 / (5 * 2^32) at least; 0 / 0 is not at least 0.6.
unfoldable pub ready_to_trip : ℤ → Counts → Bool
ready_to_trip failure_threshold counts =
    leb (uint32 failure_threshold) counts.requests
    && not (counts.requests == 0)
    && leb (3 * counts.requests) (5 * counts.total_failures)

-- What package gobreaker has: a breaker that is new, Execute and State. The result of `execute` is
-- the error, `none` for success, `inl` for ErrOpenState.
pub data Refusal : Type 0 where
  open_state : Refusal
  other : Error → Refusal

pub record GoBreaker (B : Type 0) : Type 0 where
  pub new_breaker : Settings → B
  pub execute : ℕ → Option Error → B → Option Refusal × B
  pub state : ℕ → B → State

-- The error of Execute, with ErrOpenState put into the program's own words.
abbrev pub translate : Option Refusal → Option Error
translate none = none
translate (some open_state) = some circuit_breaker_open
translate (some (other e)) = some e

module _ {B : Type 0} (go : GoBreaker B) where
  unfoldable pub new_circuit_breaker : ℤ → ℤ → ℤ → B
  new_circuit_breaker failure_threshold success_threshold timeout = go.new_breaker (record {
    max_requests = uint32 success_threshold;
    interval = timeout;
    timeout = timeout;
    ready_to_trip = ready_to_trip failure_threshold;
  })

  unfoldable pub execute : ℕ → Option Error → B → Option Error × B
  execute now fn cb = let r = go.execute now fn cb in (translate r.0, r.1)

  unfoldable pub state : ℕ → B → Str
  state now cb = elim (go.state now cb) [
    | closed ↦ text "closed"
    | opened ↦ text "open"
    | half_open ↦ text "half-open"
  ]

  unfoldable pub reset : ℕ → B → B
  reset now cb = (go.execute now none cb).1

  pub record MultiCircuitBreaker : Type 0 where
    pub breakers : Dict Str B
    pub settings : CircuitBreakerSettings

  unfoldable pub get_breaker : Str → MultiCircuitBreaker → B × MultiCircuitBreaker
  get_breaker id m = elim (lookup id m.breakers) [
    | some breaker ↦ (breaker, m)
    | none ↦
        let breaker =
          new_circuit_breaker m.settings.failure_threshold m.settings.success_threshold
            m.settings.timeout in
        (breaker, record m { breakers = insert id breaker m.breakers })
  ]

  unfoldable pub remove_breaker : Str → MultiCircuitBreaker → MultiCircuitBreaker
  remove_breaker id m = record m { breakers = erase id m.breakers }

  -- The loops over the breakers.
  abbrev pub states : ℕ → Dict Str B → Dict Str Str
  states now [] = []
  states now ((id, breaker) ∷ rest) = (id, state now breaker) ∷ states now rest

  unfoldable pub get_all_states : ℕ → MultiCircuitBreaker → Dict Str Str
  get_all_states now m = states now m.breakers

  abbrev pub resets : ℕ → Dict Str B → Dict Str B
  resets now [] = []
  resets now ((id, breaker) ∷ rest) = (id, reset now breaker) ∷ resets now rest

  unfoldable pub reset_all : ℕ → MultiCircuitBreaker → MultiCircuitBreaker
  reset_all now m = record m { breakers = resets now m.breakers }
