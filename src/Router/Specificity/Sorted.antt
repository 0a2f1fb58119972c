-- ===== src/Router/Specificity/Sorted.antt =====
-- SortRoutesBySpecificity of internal/router/matcher.go sorts by RouteScore.
use discobox.Prelude.{
  Str, ◌-◌, ◌≡◌, ◌≢◌, refl, sym, subst, ◌∙◌, Bool, not, List, [], ◌∷◌, some, ◌==◌, str_eq, arith,
  All, length,
}
use discobox.Prelude.Counting.{count, count_zero, count-none}
use discobox.Prelude.Dict.{Dict, lookup, insert, lookup-insert_self, lookup-insert_ne}
use discobox.Prelude.Int.{ℤ, int_eq, ◌≤ℤ◌}
use discobox.Prelude.Members.{All-map}
use discobox.Types.Route.{Route}
use discobox.Router.Loading.{IsDistinct}
use discobox.Router.Specificity.{
  route_score, fill_scores, score_in, passes_from, sort_routes_by_specificity,
}
use discobox.Router.Specificity.Bubble.{IsDescending, count-passes_from, passes_from-IsDescending}

fill_scores-other :
    (k : Str) (rs : List Route) (m : Dict Str ℤ)
    → All (λ s. k ≢ s.id) rs
    → lookup k (fill_scores rs m) ≡ lookup k m
unfolding fill_scores
fill_scores-other k [] m a = refl
fill_scores-other k (r ∷ rs) m a =
    fill_scores-other k rs (insert r.id (route_score r) m) a.1
    ∙ lookup-insert_ne r.id k (route_score r) m (λ e. a.0 (sym e))

-- Under its ID, each route has its score.
fill_scores-All :
    (rs : List Route) (m : Dict Str ℤ)
    → IsDistinct rs
    → All (λ r. lookup r.id (fill_scores rs m) ≡ some (route_score r)) rs
unfolding fill_scores
fill_scores-All [] m d = tt
fill_scores-All (r ∷ rs) m d = (
  fill_scores-other r.id rs (insert r.id (route_score r) m) d.0
      ∙ lookup-insert_self r.id (route_score r) m,
  fill_scores-All rs (insert r.id (route_score r) m) d.1,
)

score_in-scored :
    (scores : Dict Str ℤ) (r : Route)
    → lookup r.id scores ≡ some (route_score r)
    → score_in scores r ≡ route_score r
unfolding score_in
score_in-scored scores r h = ground (arith, h)

-- Lists that hold the same routes have the same scores.
scores_kept :
    (f : Route → ℤ) (rs ss : List Route)
    → ((p : Route → Bool) → count p ss ≡ count p rs)
    → All (λ r. f r ≡ route_score r) rs
    → All (λ r. f r ≡ route_score r) ss
scores_kept f rs ss same a =
    let differs = λ (r : Route). not (f r == route_score r) in
    let none_differs : count differs rs ≡ 0 =
      count-none differs rs
        (All-map (λ r e. ground (arith, (int_eq.beq_iff (f r) (route_score r)).1 e)) rs a) in
    All-map (λ r h. (int_eq.beq_iff (f r) (route_score r)).0 (ground (arith, h))) ss
      (count_zero differs ss (same differs ∙ none_differs))

below_same :
    (f g : Route → ℤ) (r : Route) (rs : List Route)
    → f r ≡ g r
    → All (λ s. f s ≡ g s) rs
    → All (λ s. f s ≤ℤ f r) rs
    → All (λ s. g s ≤ℤ g r) rs
below_same f g r [] e a h = tt
below_same f g r (s ∷ rs) e a h = (
  subst (λ (z : ℤ). z ≤ℤ g r) a.0 (subst (λ (z : ℤ). f s ≤ℤ z) e h.0),
  below_same f g r rs e a.1 h.1,
)

IsDescending-same :
    (f g : Route → ℤ) (rs : List Route)
    → All (λ s. f s ≡ g s) rs
    → IsDescending f rs
    → IsDescending g rs
IsDescending-same f g [] a h = tt
IsDescending-same f g (r ∷ rs) a h =
    (below_same f g r rs a.0 a.1 h.0, IsDescending-same f g rs a.1 h.1)

-- SortRoutesBySpecificity of routes with distinct IDs leaves the same routes, each as often as
-- before, with their RouteScore never rising along the list.
pub sort_routes_by_specificity-IsDescending :
    (routes : List Route)
    → IsDistinct routes
    → IsDescending route_score (sort_routes_by_specificity routes)
      × ((p : Route → Bool) → count p (sort_routes_by_specificity routes) ≡ count p routes)
unfolding sort_routes_by_specificity
sort_routes_by_specificity-IsDescending routes d =
    let score = score_in (fill_scores routes []) in
    let same = λ (p : Route → Bool). count-passes_from score p (length routes - 1) routes in
    let scored =
      All-map (λ r h. score_in-scored (fill_scores routes []) r h) routes
        (fill_scores-All routes [] d) in
    (
      IsDescending-same score route_score (passes_from score (length routes - 1) routes)
          (scores_kept score routes (passes_from score (length routes - 1) routes) same scored)
          (passes_from-IsDescending score routes),
      same,
    )
