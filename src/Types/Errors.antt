-- ===== src/Types/Errors.antt =====
-- internal/types/errors.go: the sentinel errors, the wrapping ProxyError and IsRetryable.
pub mod Retryable
use discobox.Prelude.{
  Str, Bool, true, false, ◌||◌, if◌then◌else◌, Eq, ◌==◌, ◌≡◌, refl, ◌↔◌, List, [], ◌∷◌, ◌++◌,
  Option, none, some, arith, length, ltb,
}

-- One constructor for each sentinel; `new` is errors.New, `bare_proxy_error` a ProxyError whose
-- Err is nil, `invalid_field` a ValidationError.
pub data Error : Type 0 where
  service_not_found route_not_found no_healthy_backends circuit_breaker_open : Error
  rate_limit_exceeded invalid_configuration storage_error already_exists : Error
  invalid_request unauthorized forbidden timeout connection_refused : Error
  max_connections_reached invalid_weight server_not_found : Error
  new : Str → Error
  invalid_field : Str → Str → Error
  proxy_error : Str → Str → Error → Error
  bare_proxy_error : Str → Str → Error

-- A Go result pair (value, error).
pub data Result {ℓ} (A : Type ℓ) : Type ℓ where
  ok : A → Result A
  err : Error → Result A

-- The sentinels that IsRetryable names, as targets of errors.Is.
pub data Target : Type 0 where
  a_timeout a_refusal no_backends open_breaker rate_limit : Target

-- err == target, for an error that wraps nothing.
unfoldable pub equals : Error → Target → Bool
equals timeout a_timeout = true
equals connection_refused a_refusal = true
equals no_healthy_backends no_backends = true
equals circuit_breaker_open open_breaker = true
equals rate_limit_exceeded rate_limit = true
equals _ _ = false

-- errors.Is, which goes down the chain of ProxyError.Unwrap.
unfoldable pub is : Error → Target → Bool
unfolding equals
is (proxy_error op service e) target = is e target
is e target = equals e target

-- The switch of IsRetryable; `otherwise` is its default branch.
unfoldable pub classify : Error → Bool → Bool
unfolding is
classify e otherwise =
    if is e a_timeout
    then true
    else if is e a_refusal
    then true
    else if is e no_backends
    then false
    else if is e open_breaker
    then false
    else if is e rate_limit
    then false
    else otherwise

unfoldable pub retryable_error : Error → Bool
unfolding classify
retryable_error (proxy_error op service e) = classify (proxy_error op service e) (retryable_error e)
retryable_error e = classify e false

-- IsRetryable; `none` is a nil error.
unfoldable pub is_retryable : Option Error → Bool
unfolding retryable_error
is_retryable none = false
is_retryable (some e) = retryable_error e

-- MultiError, with its Add and HasErrors.
pub record MultiError : Type 0 where
  pub errors : List Error

pub add : Option Error → MultiError → MultiError
add none m = m
add (some e) m = record { errors = m.errors ++ e ∷ [] }

pub has_errors : MultiError → Bool
has_errors m = ltb 0 (length m.errors)
