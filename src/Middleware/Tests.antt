-- ===== src/Middleware/Tests.antt =====
-- The middlewares of internal/middleware on a few requests.
use discobox.Prelude.{
  inl, ne_of_beq, contains, Str, ℕ, ◌+◌, ◌-◌, ◌*◌, ◌≤◌, ◌≡◌, refl, true, false, List, [], ◌∷◌, some,
  text, has_prefix, arith, list_beq, none, ltb, ◌⊎◌, ◌&&◌, ◌==◌, nat_eq, str_eq, if◌then◌else◌, leb,
  map,
}
use discobox.Prelude.Int.{pos, wrap64, quot, ◌+ℤ◌, ◌-ℤ◌, ◌*ℤ◌}
use discobox.Prelude.Dict.{Dict, lookup, insert, erase}
use discobox.Prelude.Prefixes.{index_byte}
use discobox.Prelude.Ranges.{keys_where}
use discobox.Prelude.Sweep.{sweep, delete_listed}
use discobox.Middleware.Backoff.{new_exponential_backoff, nexts}
use discobox.Middleware.Runes.{string_of_rune}
use discobox.Middleware.Retry.{
  Request, Recorder, RetryConfig, default_retry_if, serve_http, run_attempts, attempts, next_delay,
  respond, panicked, new_recorder, mark_attempt,
}
use discobox.Middleware.Retry.Attempts.{
  is_retried, are_retried, response, attempt_at, serve_http-attempts,
}
use discobox.Middleware.Cors
use discobox.Middleware.Cors.{CorsConfig, cors, new_cors}
use discobox.Middleware.Cors.Origins.{header_of, is_answered, is_listed, cors-is_listed}
use discobox.Middleware.Chain.{Memory, Chain, then_, use_all, merge, clone}
use discobox.Middleware.Chain.Slices.{read}
use discobox.Middleware.Chain.Order.{
  Hooks, around, enter, leave, in_order, then_-order, merge-merge,
}
use discobox.Middleware.Basic.{
  Header, forwarded, basic, set_user, split_credentials, custom_basic, unauthorized,
}
use discobox.Middleware.Basic.Credentials.{Admits, forwarded_of, listed, basic-Admits}
use discobox.Middleware.Headers.{remove_headers, canonical_key, are_tokens, capitalized}
use discobox.Middleware.Headers.Removal
use discobox.Middleware.Headers.Removal.{act_all, StartsWithout, remove_headers-Lacks}
use discobox.Middleware.RateLimit.{Rate, RateLimiter, rate_limit}
use discobox.Middleware.RateLimit.Isolation
use discobox.Middleware.RateLimit.Isolation.{answers_to, answers_to-only}
use discobox.Middleware.TokenBucket.{
  Limiter, new_token_bucket_rate_limiter, allow, get_bucket, spend, refill_and_take, tokens_to_add,
  add_tokens, take_token, since, cleanup, min,
}
use discobox.Middleware.TokenBucket.Filled.{IsRated}
use discobox.Middleware.TokenBucket.Calls.{Event, request, tick, run}
use discobox.Middleware.TokenBucket.Ticks.{allowed_in, allowed_in-window}
use discobox.Middleware.TokenBucket.Forgetting.{IsClocked, answers, requests, answers-requests}
use discobox.Middleware.TokenBucket.Waiting.{allow-served}

abbrev alice : Str
alice = text "alice"

abbrev bob : Str
bob = text "bob"

-- Two tokens, one more each second.
abbrev limiter : Limiter
limiter = new_token_bucket_rate_limiter (pos 2) (pos 1) (pos 1_000_000_000)

abbrev history : List Event
history =
    request 0 alice
    ∷ request 10 alice
    ∷ request 20 alice
    ∷ request 30 bob
    ∷ tick 400_000_000_000
    ∷ request 400_000_000_001 alice
    ∷ []

-- The third request of the first second is refused; the others are allowed.
answers_lem :
    answers history limiter ≡ some true ∷ some true ∷ some false ∷ some true ∷ some true ∷ []
unfolding allow get_bucket spend refill_and_take tokens_to_add add_tokens take_token since cleanup
    min wrap64 quot ◌+ℤ◌ ◌-ℤ◌ ◌*ℤ◌ lookup insert erase keys_where sweep delete_listed list_beq
answers_lem = refl

rated : IsRated 2 1 1_000_000_000
rated = record {
  capacity_pos = omega arith;
  capacity_small = omega arith;
  interval_pos = omega arith;
  interval_small = omega arith;
  refill_le = omega arith;
}

clocked : IsClocked 0 history
clocked = (
  omega arith,
  omega arith,
  (
    omega arith,
    omega arith,
    (
      omega arith,
      omega arith,
      (omega arith, omega arith, (omega arith, omega arith, (omega arith, omega arith, tt))),
    ),
  ),
)

abbrev during : List Event
during =
    request 400_000_000_002 alice
    ∷ request 400_500_000_000 bob
    ∷ tick 401_000_000_000
    ∷ request 402_000_000_000 alice
    ∷ []

allowed_in-window_example :
    allowed_in alice during (run history limiter) * 1_000_000_000
    ≤ 2 * 1_000_000_000 + 1 * (402_000_000_000 - 400_000_000_000 + 1_000_000_000)
allowed_in-window_example =
    allowed_in-window 2 1 1_000_000_000 400_000_000_000 402_000_000_000 alice history during rated
      clocked
      (
        omega arith,
        omega arith,
        (omega arith, omega arith, (omega arith, omega arith, (omega arith, omega arith, tt))),
      )
      (
        (omega arith, omega arith),
        (
          (omega arith, omega arith),
          ((omega arith, omega arith), ((omega arith, omega arith), tt)),
        ),
      )
      (inl (omega arith))

answers-requests_example : answers history limiter ≡ answers (requests history) limiter
answers-requests_example = answers-requests 2 1 1_000_000_000 history rated clocked (omega arith)

-- Alice is served after a second, though bob asks and cleanup runs until then.
allow-served_example :
    (allow 401_000_000_001 alice
      (run (request 400_500_000_000 bob ∷ tick 401_000_000_000 ∷ []) (run history limiter))).0
    ≡ some true
unfolding list_beq
allow-served_example =
    allow-served 2 1 1_000_000_000 401_000_000_001 alice history
      (request 400_500_000_000 bob ∷ tick 401_000_000_000 ∷ []) rated (omega arith) clocked
      (ne_of_beq bob alice refl, tt) (omega arith) (omega arith)

-- Two answers 503, then 200; the state counts the attempts.
abbrev flaky : Request → ℕ → Recorder × Request × ℕ
flaky r n = (
  record { header = []; body = text "body"; status_code = if leb 2 n then 200 else 503 },
  r,
  n + 1,
)

abbrev retry_config : RetryConfig
retry_config = record {
  max_attempts = pos 5;
  initial_delay = pos 100;
  max_delay = pos 150;
  scale = λ d. d +ℤ d;
  retry_if = default_retry_if;
}

abbrev get_request : Request
get_request = record { header = []; body = none }

retried_twice : (serve_http retry_config flaky false get_request 0).sleeps ≡ pos 100 ∷ pos 150 ∷ []
unfolding serve_http run_attempts attempts next_delay mark_attempt default_retry_if ◌+ℤ◌
    string_of_rune insert
retried_twice = refl

abbrev silent : Request → ℕ → Recorder × Request × ℕ
silent r n = (new_recorder, r, n)

-- A handler that writes nothing has the status 0, which is not repeated.
silent_lem : (serve_http retry_config silent false get_request 0).reply ≡ panicked
unfolding serve_http run_attempts attempts default_retry_if respond
silent_lem = refl

serve_http-attempts_example :
    (k : ℕ) × (k ≤ 4)
    × (are_retried retry_config flaky get_request 0 k ≡ true)
    × ((is_retried retry_config flaky get_request 0 k ≡ false) ⊎ (k ≡ 4))
    × (serve_http retry_config flaky false get_request 0 ≡ record {
      reply = respond (response retry_config flaky get_request 0 k);
      sleeps = nexts k (new_exponential_backoff (pos 100) (pos 150) (λ d. d +ℤ d));
      world = (attempt_at retry_config flaky get_request 0 k).2;
    })
serve_http-attempts_example = serve_http-attempts retry_config flaky get_request 0 4 refl

abbrev cors_config : CorsConfig
cors_config = record {
  allowed_origins = text "https://a.example" ∷ text "*" ∷ text "https://b.example" ∷ [];
  allowed_methods = text "GET" ∷ [];
  allowed_headers = text "Accept" ∷ [];
  allow_credentials = true;
  max_age = pos 60;
}

abbrev preflight : Cors.Request
preflight = record { method = text "OPTIONS"; origin = text "https://b.example" }

cors-is_listed_example :
    (lookup (text "Access-Control-Allow-Origin") (header_of (cors cors_config preflight [])) ≡ (
      if is_listed cors_config.allowed_origins preflight.origin
      then some (preflight.origin ∷ [])
      else none))
    × (is_answered (cors cors_config preflight []) ≡ (
        is_listed cors_config.allowed_origins preflight.origin
        && preflight.method == text "OPTIONS"))
unfolding lookup
cors-is_listed_example = cors-is_listed cors_config preflight [] refl

-- Each middleware writes its name before the next handler and after it.
abbrev naming : ℕ → Hooks ℕ (List ℕ)
naming n = record { before = λ r w. n ∷ w; after = λ r w. (n + 10) ∷ w }

-- Two chains in arrays of their own, the first with room for three more.
abbrev memory : Memory ℕ (List ℕ)
memory = record {
  next = 3;
  array = λ p.
      if p == 0
      then record { cells = map around (naming 1 ∷ naming 2 ∷ []); capacity = 5 }
      else if p == 1
      then record { cells = map around (naming 3 ∷ []); capacity = 1 }
      else record { cells = map around (naming 4 ∷ []); capacity = 1 };
}

abbrev chain_of : ℕ → ℕ → Chain
chain_of p n = record { array = p; length = n }

abbrev doubled : ℕ → ℕ
doubled n = n + n

abbrev ending : ℕ → List ℕ → List ℕ
ending r w = r ∷ w

then_-order_example :
    (then_
        (use_all doubled (map around (naming 3 ∷ [])) (chain_of 0 2) memory).0
        (use_all doubled (map around (naming 3 ∷ [])) (chain_of 0 2) memory).1
        ending
        7
        []
      ≡ in_order (naming 1 ∷ naming 2 ∷ []) (naming 3 ∷ []) ending 7 [])
    × (then_
          (merge doubled (chain_of 0 2) (some (chain_of 1 1)) memory).0
          (merge doubled (chain_of 0 2) (some (chain_of 1 1)) memory).1
          ending
          7
          []
        ≡ in_order (naming 1 ∷ naming 2 ∷ []) (naming 3 ∷ []) ending 7 [])
    × (then_
          (use_all doubled
            (map around (naming 3 ∷ []))
            (chain_of 0 2)
            (clone (chain_of 0 2) memory).0).0
          (clone (chain_of 0 2) memory).1
          ending
          7
          []
        ≡ leave (naming 1 ∷ naming 2 ∷ []) 7 (ending 7 (enter (naming 1 ∷ naming 2 ∷ []) 7 [])))
unfolding read
then_-order_example =
    then_-order doubled memory (chain_of 0 2) (chain_of 1 1) (naming 1 ∷ naming 2 ∷ [])
      (naming 3 ∷ []) (omega arith, omega arith) refl refl ending 7 []

-- The chain that was merged with chain 1 runs the middleware of chain 2 once that is merged, too.
merged_twice :
    then_
      (merge doubled
        (chain_of 0 2)
        (some (chain_of 2 1))
        (merge doubled (chain_of 0 2) (some (chain_of 1 1)) memory).0).0
      (merge doubled (chain_of 0 2) (some (chain_of 1 1)) memory).1
      ending
      7
      []
    ≡ in_order (naming 1 ∷ naming 2 ∷ []) (naming 4 ∷ []) ending 7 []
unfolding read
merged_twice =
    merge-merge doubled memory (chain_of 0 2) (chain_of 1 1) (chain_of 2 1)
      (naming 1 ∷ naming 2 ∷ []) (naming 3 ∷ []) (naming 4 ∷ []) (omega arith, omega arith)
      (omega arith, omega arith) refl refl refl refl (omega arith) (λ e. omega (arith, e)) ending 7
      []

-- A limiter is the number of requests that it still allows.
abbrev allowance : Rate ℕ
allowance = record { new_limiter = λ _ burst. 1; allow = λ _ n. (ltb 0 n, n - 1) }

-- A request is its key.
abbrev rate_limiter : RateLimiter ℕ Str
rate_limiter = rate_limit (pos 1) (pos 1) [] (λ r _. r) (λ r. r)

abbrev arrivals : List (Isolation.Event Str)
arrivals =
    Isolation.request 0 alice
    ∷ Isolation.request 1 bob
    ∷ Isolation.request 2 bob
    ∷ Isolation.request 3 alice
    ∷ Isolation.tick 301_000_000_000
    ∷ Isolation.request 302_000_000_000 bob
    ∷ []

answers_to-only_example :
    answers_to allowance bob arrivals rate_limiter
    ≡ answers_to allowance bob
        (Isolation.request 1 bob
          ∷ Isolation.request 2 bob
          ∷ Isolation.tick 301_000_000_000
          ∷ Isolation.request 302_000_000_000 bob
          ∷ [])
        rate_limiter
unfolding list_beq
answers_to-only_example = answers_to-only allowance bob arrivals rate_limiter

abbrev passwords : Dict Str Str
passwords = (alice, text "secret") ∷ []

-- The encoding leaves a text as it is.
abbrev alice_header : Header
alice_header = (text "Authorization", text "Basic alice:secret") ∷ []

-- The name comes from the credentials, not from the client's header.
basic_lem :
    (basic passwords some ((text "X-Auth-User", text "root") ∷ alice_header)
      ≡ forwarded ((text "X-Auth-User", alice) ∷ alice_header))
    × (basic passwords some ((text "Authorization", text "Basic alice:secrets") ∷ [])
        ≡ unauthorized (text "Basic"))
unfolding basic split_credentials index_byte has_prefix lookup insert list_beq
basic_lem = (refl, refl)

basic-Admits_example :
    ((username password : Str)
      → Admits passwords some alice_header username password
      → basic passwords some alice_header ≡ forwarded (set_user username alice_header))
    × ((basic passwords some alice_header ≡ unauthorized (text "Basic"))
        ⊎ ((username : Str) × (password : Str) × Admits passwords some alice_header username
              password))
    × (forwarded_of (custom_basic (text "site") (listed passwords some) some alice_header)
        ≡ forwarded_of (basic passwords some alice_header))
basic-Admits_example = basic-Admits passwords some (text "site") alice_header

-- The handler names its software twice, answers 404 and writes a text.
abbrev actions : List Removal.Action
actions =
    Removal.setting (text "Server") (text "nginx")
    ∷ Removal.setting (text "X-Powered-By") (text "go")
    ∷ Removal.sending 404
    ∷ Removal.writing (text "none")
    ∷ []

remove_headers-Lacks_example :
    StartsWithout
      (text "SERVER" ∷ text "x-powered-by" ∷ [])
      (act_all actions (remove_headers (text "SERVER" ∷ text "x-powered-by" ∷ []) [])).calls
unfolding are_tokens contains
remove_headers-Lacks_example =
    remove_headers-Lacks (text "SERVER" ∷ text "x-powered-by" ∷ []) [] actions (refl, (refl, tt))
      refl

-- A handler that only sets headers: nothing is removed before the server sends them.
kept_lem :
    (act_all
      (Removal.setting (text "Server") (text "nginx") ∷ [])
      (remove_headers (text "Server" ∷ []) [])).header
    ≡ (text "Server", text "nginx") ∷ []
unfolding insert canonical_key are_tokens capitalized contains
kept_lem = refl
