-- ===== src/Router/Loading.antt =====
-- What loadRoutes of internal/router/router.go prepares: the sorted routes and the compiled ones.
use discobox.Prelude.{
  Str, ◌≡◌, ◌≢◌, refl, sym, ◌∙◌, inl, inr, Bool, List, [], ◌∷◌, Option, none, some, arith, str_eq,
  Bool-cases, All,
}
use discobox.Prelude.Counting.{count}
use discobox.Prelude.Dict.{Dict, lookup, lookup-insert_self, lookup-insert_ne}
use discobox.Types.Route.{Route}
use discobox.Router.Routing.{
  Regexp, CompiledRoute, goes_before, insert_route, sort_routes, compile_route, put_compiled,
  compile_all,
}

-- No two routes have one ID.
abbrev pub IsDistinct : List Route → Type 0
IsDistinct [] = Unit
IsDistinct (r ∷ rs) = All (λ s. r.id ≢ s.id) rs × IsDistinct rs

module _ {κ} (P : Route → Type κ) where
  All-insert_route : (r : Route) (rs : List Route) → P r → All P rs → All P (insert_route r rs)
  unfolding insert_route
  All-insert_route r [] p a = (p, tt)
  All-insert_route r (s ∷ rs) p a = elim (Bool-cases (goes_before s r)) [
    | inl t ↦ rw t (a.0, All-insert_route r rs p a.1)
    | inr f ↦ rw f (p, a)
  ]

  pub All-sort_routes : (rs : List Route) → All P rs → All P (sort_routes rs)
  unfolding sort_routes
  All-sort_routes [] a = tt
  All-sort_routes (r ∷ rs) a = All-insert_route r (sort_routes rs) a.0 (All-sort_routes rs a.1)

insert_route-IsDistinct :
    (r : Route) (rs : List Route)
    → All (λ s. r.id ≢ s.id) rs
    → IsDistinct rs
    → IsDistinct (insert_route r rs)
unfolding insert_route
insert_route-IsDistinct r [] n d = (tt, tt)
insert_route-IsDistinct r (s ∷ rs) n d = elim (Bool-cases (goes_before s r)) [
  | inl t ↦ rw t (
    All-insert_route (λ x. s.id ≢ x.id) r rs (λ e. n.0 (sym e)) d.0,
    insert_route-IsDistinct r rs n.1 d.1,
  )
  | inr f ↦ rw f (n, d)
]

pub sort_routes-IsDistinct : (rs : List Route) → IsDistinct rs → IsDistinct (sort_routes rs)
unfolding sort_routes
sort_routes-IsDistinct [] d = tt
sort_routes-IsDistinct (r ∷ rs) d =
    insert_route-IsDistinct r (sort_routes rs) (All-sort_routes (λ s. r.id ≢ s.id) rs d.0)
      (sort_routes-IsDistinct rs d.1)

module _ (p : Route → Bool) where
  count-insert_route :
      (r : Route) (rs : List Route) → count p (insert_route r rs) ≡ count p (r ∷ rs)
  unfolding insert_route
  count-insert_route r [] = refl
  count-insert_route r (s ∷ rs) = ground (arith, count-insert_route r rs)

  -- The sorted list holds the same routes.
  pub count-sort_routes : (rs : List Route) → count p (sort_routes rs) ≡ count p rs
  unfolding sort_routes
  count-sort_routes [] = refl
  count-sort_routes (r ∷ rs) =
      ground (arith, count-insert_route r (sort_routes rs), count-sort_routes rs)

module _ {R : Type 0} (re : Regexp R) where
  lookup-put_compiled_ne :
      (id k : Str) (c : Option (CompiledRoute R)) (m : Dict Str (CompiledRoute R))
      → id ≢ k
      → lookup k (put_compiled re id c m) ≡ lookup k m
  unfolding put_compiled
  lookup-put_compiled_ne id k none m n = refl
  lookup-put_compiled_ne id k (some cr) m n = lookup-insert_ne id k cr m n

  lookup-put_compiled_self :
      (id : Str) (c : Option (CompiledRoute R)) (m : Dict Str (CompiledRoute R))
      → lookup id m ≡ none
      → lookup id (put_compiled re id c m) ≡ c
  unfolding put_compiled
  lookup-put_compiled_self id none m h = h
  lookup-put_compiled_self id (some cr) m h = lookup-insert_self id cr m

  compile_all-other :
      (k : Str) (rs : List Route) (m : Dict Str (CompiledRoute R))
      → All (λ s. k ≢ s.id) rs
      → lookup k (compile_all re rs m) ≡ lookup k m
  unfolding compile_all
  compile_all-other k [] m a = refl
  compile_all-other k (r ∷ rs) m a =
      compile_all-other k rs (put_compiled re r.id (compile_route re r) m) a.1
      ∙ lookup-put_compiled_ne r.id k (compile_route re r) m (λ e. a.0 (sym e))

  still_missing :
      (r : Route) (c : Option (CompiledRoute R)) (m : Dict Str (CompiledRoute R)) (rs : List Route)
      → All (λ s. r.id ≢ s.id) rs
      → All (λ s. lookup s.id m ≡ none) rs
      → All (λ s. lookup s.id (put_compiled re r.id c m) ≡ none) rs
  still_missing r c m [] n a = tt
  still_missing r c m (s ∷ rs) n a =
      (lookup-put_compiled_ne r.id s.id c m n.0 ∙ a.0, still_missing r c m rs n.1 a.1)

  -- Under its ID, each route has what it compiles to.
  pub compile_all-All :
      (rs : List Route) (m : Dict Str (CompiledRoute R))
      → IsDistinct rs
      → All (λ r. lookup r.id m ≡ none) rs
      → All (λ r. lookup r.id (compile_all re rs m) ≡ compile_route re r) rs
  unfolding compile_all
  compile_all-All [] m d a = tt
  compile_all-All (r ∷ rs) m d a =
      let c = compile_route re r in
      (
        compile_all-other r.id rs (put_compiled re r.id c m) d.0
            ∙ lookup-put_compiled_self r.id c m a.0,
        compile_all-All rs (put_compiled re r.id c m) d.1 (still_missing r c m rs d.0 a.1),
      )
