-- ===== src/Lib.antt =====
-- Discobox, a reverse proxy: its in-memory store, its router, its load balancers, its health checks
-- and its middlewares.
--
-- A request passes the middlewares (internal/middleware) and is answered in three steps: the router
-- (internal/router) chooses a route for it, the route names a service, and a load balancer
-- (internal/balancer) chooses one of the service's servers. Health checks (internal/circuit) tell
-- which servers are up. Services, routes, users and API keys stand in a storage (internal/storage),
-- which the router reads and which tells its watchers of every change. internal/types has the
-- records and the errors that all of them share.
--
-- Prelude      what the other files share: text as bytes, integers, maps as association lists,
--              lists measured by native numbers, an interface for equality, counting.
-- Types        internal/types: Service, Route, User, APIKey and Server as records, Route's tests
--              (MatchesHost, MatchesPath, MatchesHeaders), and in Types/Errors the errors with
--              errors.Is and IsRetryable.
-- Storage      internal/storage/memory.go. Storage/Memory has the state and one function for each
--              method, in files by object; a method that fails returns the state unchanged and an
--              error. Storage/Consistency has the invariants of the maps, rule by rule; Storage/Calls
--              the calls as data, with `step` and `run`; Storage/Contract what each method promises.
-- Balancer     internal/balancer. A *types.Server is an address in a heap (Balancer/Pool), since the
--              balancers' maps, the callers' slices and the expanded list of weights share servers
--              that UpdateWeight writes to. Balancer/RoundRobin, Balancer/LeastConnections and
--              Balancer/WeightedRoundRobin are one balancer each, Balancer/Ring is consistentHash of
--              ip_hash.go, with crc32 and the binary search written out, and Balancer/IpHash the
--              balancer over it. Balancer/SmoothWeighted is smoothWeightedRoundRobin;
--              Balancer/Sticky and Balancer/IpSticky are sticky_session.go, over an inner balancer
--              that is an interface (LoadBalancer in Balancer/Sessions).
-- Router       internal/router. Router/HostRouter is hostRouter, Router/Routing is Match and
--              loadRoutes of router.go, and Router/Operations is AddRoute, UpdateRoute and
--              RemoveRoute over the in-memory store. Router/Matcher and Router/Specificity are
--              matcher.go: Matcher with its cache of expressions, RouteScore and the bubble sort.
-- Middleware   internal/middleware. Middleware/TokenBucket is TokenBucketRateLimiter of ratelimit.go,
--              Middleware/RateLimit is its rateLimiter and CustomRateLimiter,
--              Middleware/Retry and Middleware/Backoff are retry.go, Middleware/Cors is cors.go,
--              Middleware/Chain is chain.go over the slices of
--              Middleware/Chain/Slices, Middleware/Basic is auth/basic.go, and
--              Middleware/Headers is headers.go.
-- Circuit      internal/circuit. Circuit/Health is healthChecker and Circuit/Passive is
--              PassiveHealthChecker of health_checker.go; Circuit/Breaker is breaker.go over the
--              breaker of package gobreaker.
-- Proxy        internal/proxy. Proxy/Rewriter is url_rewriter.go.
-- Config       internal/config. Config/Validator is Validate of validator.go.
-- Command      cmd/discobox/main.go: which balancer and which storage are built.
--
-- A call is one step. Where the program holds a lock for the whole call, as the store does for its
-- writes, that is all that can be seen of it. Select of the round robins takes only a read lock
-- beside an atomic counter, and the health checker counts results outside its lock: the theorems on
-- these are about calls that follow one another, not about calls that overlap. A goroutine that
-- waits for a context (Watch) is a step of its own, which `Storage.Calls` puts anywhere in a
-- sequence. The clock's readings are arguments. Counters of type uint64 wrap at 2^64, those of type
-- int32 and the tokens of a bucket in two's complement. Maps are association lists, and no theorem
-- fixes the order in which a range goes through them. Loops are by recursion on the list that they
-- go through; the binary search of Balancer/Ring/Search has as much fuel as there are hashes, which
-- is enough by the lemma on it in Balancer/Ring/Order, and decimal digits have as much as the
-- number. Package regexp is an interface, Regexp in Router/Routing, with no assumption on it;
-- Submatches in Router/Matcher assumes that FindStringSubmatch gives nil exactly where MatchString
-- gives false. Package net is an interface in Balancer/IpHash, with no assumption on it, and so are
-- package gobreaker in Circuit/Breaker and package golang.org/x/time/rate in Middleware/RateLimit.
-- The loop of Middleware/Retry has as much fuel as there are attempts, which its theorem shows to
-- be enough; the product of a delay with its float64 multiplier is a function of the configuration,
-- with no assumption on it. Proxy/Rewriter has regexp and URL.RequestURI in one interface
-- (Library), with no assumption, and base64 is a function in Middleware/Basic. CanonicalHeaderKey
-- is written out in Middleware/Headers, and ToLower for ASCII. The capacity that append gives a new
-- array is a function, with no assumption. What the network answers to a health check is an
-- argument of it.
--
-- Not modelled: the HTTP servers, TLS, websockets, the middlewares for logging, compression,
-- metrics, and authentication by OAuth2 and tokens, the loading of configuration files and the
-- admin API, which are input and output around these parts; the storages on SQLite and etcd, which
-- are calls of a driver; getClientIP of ratelimit.go; the path router on gorilla/mux; the weighted
-- least-connections balancer, which compares quotients of floating-point numbers; the goroutines
-- that reload routes and watch servers; log lines and the texts of errors.
pub mod Prelude
pub mod Types
pub mod Storage
pub mod Balancer
pub mod Router
pub mod Circuit
pub mod Command
pub mod Config
pub mod Middleware
pub mod Proxy
