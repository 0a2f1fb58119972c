-- ===== src/Types/Errors/Retryable.antt =====
-- What makes an error retryable: its root cause, under any number of ProxyErrors.
use discobox.Prelude.{true, ◌≡◌, ◌↔◌, ◌⊎◌, some, arith}
use discobox.Types.Errors.{
  Error, timeout, connection_refused, proxy_error, is_retryable, retryable_error,
}

-- The error at the end of the chain of Unwrap.
abbrev pub root_cause : Error → Error
root_cause (proxy_error op service e) = root_cause e
root_cause e = e

abbrev pub IsTransient : Error → Type 0
IsTransient e = (root_cause e ≡ timeout) ⊎ (root_cause e ≡ connection_refused)

retryable_error_wrapped :
    (op service : _) (e : Error) → retryable_error (proxy_error op service e) ≡ retryable_error e
unfolding retryable_error
retryable_error_wrapped op service (proxy_error o s e) = ground arith
retryable_error_wrapped op service e = ground arith

-- An error is retried exactly when its root cause is a timeout or a refused connection.
pub is_retryable_iff : (e : Error) → (is_retryable (some e) ≡ true) ↔ IsTransient e
unfolding is_retryable
is_retryable_iff (proxy_error op service e) =
    rw (retryable_error_wrapped op service e) (is_retryable_iff e)
is_retryable_iff e = ground arith
