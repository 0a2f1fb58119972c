-- ===== src/Router/Specificity.antt =====
-- internal/router/matcher.go: RouteScore and SortRoutesBySpecificity.
pub mod Bubble
pub mod Sorted
use discobox.Prelude.{
  Str, ℕ, zero, suc, ◌+◌, ◌-◌, ◌*◌, Bool, not, ◌&&◌, List, [], ◌∷◌, Option, none, some,
  if◌then◌else◌, length, is_empty, contains, str_eq,
}
use discobox.Prelude.Int.{ℤ, pos, ◌+ℤ◌, ◌*ℤ◌, ltb_ℤ, wrap64}
use discobox.Prelude.Dict.{Dict, lookup, insert}
use discobox.Types.Route.{Route}

unfoldable pub host_score : Str → ℕ
host_score host =
    if is_empty host
    then 0
    else if not (contains host b'*') && not (contains host b'{')
    then 100
    else 50

unfoldable pub path_score : Route → ℕ
path_score r =
    if not (is_empty r.path_regex)
    then 30
    else if not (is_empty r.path_prefix)
    then 20 + length r.path_prefix
    else 0

-- The sum wraps at 64 bits; that a step before it may wrap too does not change it.
unfoldable pub route_score : Route → ℤ
unfolding ◌+ℤ◌ ◌*ℤ◌ wrap64 host_score path_score
route_score r =
    wrap64
      (pos 1000 *ℤ r.priority +ℤ pos (host_score r.host + path_score r + length r.headers * 10))

-- for _, route := range routes { scores[route.ID] = RouteScore(route) }
unfoldable pub fill_scores : List Route → Dict Str ℤ → Dict Str ℤ
fill_scores [] scores = scores
fill_scores (r ∷ rs) scores = fill_scores rs (insert r.id (route_score r) scores)

-- scores[route.ID], 0 where it is missing.
unfoldable pub score_in : Dict Str ℤ → Route → ℤ
score_in scores r = elim (lookup r.id scores) [ none ↦ pos 0 | some score ↦ score ]

-- The inner loop, for k more comparisons from the head on: a larger neighbour is swapped forward.
unfoldable pub bubble : (Route → ℤ) → ℕ → List Route → List Route
bubble score zero rs = rs
bubble score (suc k) [] = []
bubble score (suc k) (a ∷ []) = a ∷ []
bubble score (suc k) (a ∷ b ∷ rs) =
    if ltb_ℤ (score a) (score b) then b ∷ bubble score k (a ∷ rs) else a ∷ bubble score k (b ∷ rs)

-- The outer loop: each pass has one comparison fewer, and the last one has one.
unfoldable pub passes_from : (Route → ℤ) → ℕ → List Route → List Route
passes_from score zero rs = rs
passes_from score (suc k) rs = passes_from score k (bubble score (suc k) rs)

unfoldable pub sort_routes_by_specificity : List Route → List Route
sort_routes_by_specificity routes =
    passes_from (score_in (fill_scores routes [])) (length routes - 1) routes
