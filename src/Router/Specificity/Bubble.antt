-- ===== src/Router/Specificity/Bubble.antt =====
-- The bubble sort of internal/router/matcher.go, for any scores.
use discobox.Prelude.{
  ℕ, zero, suc, ◌-◌, ◌≡◌, refl, sym, ap, subst, ◌∙◌, inl, inr, Bool, List, [], ◌∷◌, ◌++◌, length,
  arith, All, Bool-cases,
}
use discobox.Prelude.Counting.{count}
use discobox.Prelude.Int.{ℤ, ltb_ℤ, ◌≤ℤ◌}
use discobox.Types.Route.{Route}
use discobox.Router.Specificity.{bubble, passes_from}

module _ (score : Route → ℤ) where
  -- From the highest score down.
  abbrev pub IsDescending : List Route → Type 0
  IsDescending [] = Unit
  IsDescending (r ∷ rs) = All (λ s. score s ≤ℤ score r) rs × IsDescending rs

  count-bubble :
      (p : Route → Bool) (k : ℕ) (rs : List Route) → count p (bubble score k rs) ≡ count p rs
  unfolding bubble
  count-bubble p zero rs = refl
  count-bubble p (suc k) [] = refl
  count-bubble p (suc k) (a ∷ []) = refl
  count-bubble p (suc k) (a ∷ b ∷ rs) =
      ground (arith, count-bubble p k (a ∷ rs), count-bubble p k (b ∷ rs))

  pub count-passes_from :
      (p : Route → Bool) (k : ℕ) (rs : List Route) → count p (passes_from score k rs) ≡ count p rs
  unfolding passes_from
  count-passes_from p zero rs = refl
  count-passes_from p (suc k) rs =
      count-passes_from p k (bubble score (suc k) rs) ∙ count-bubble p (suc k) rs

  -- What one pass over a front makes of it: the others, and the one with the lowest score.
  record Bubbled (front back : List Route) (k : ℕ) (result : List Route) : Type 1 where
    others : List Route
    least : Route
    shape : result ≡ others ++ least ∷ back
    size : length others ≡ k
    lowest : All (λ r. score least ≤ℤ score r) front
    keeps : (P : Route → Type 0) → All P front → All P others × P least

  bubble-Bubbled :
      (k : ℕ) (front back : List Route)
      → length front ≡ suc k
      → Bubbled front back k (bubble score k (front ++ back))
  unfolding bubble
  bubble-Bubbled zero [] back h = absurd (omega arith)
  bubble-Bubbled zero (a ∷ []) back h = record {
    others = [];
    least = a;
    shape = refl;
    size = refl;
    lowest = (omega arith, tt);
    keeps = λ P all. (tt, all.0);
  }
  bubble-Bubbled zero (a ∷ b ∷ rs) back h = absurd (omega arith)
  bubble-Bubbled (suc k) [] back h = absurd (omega arith)
  bubble-Bubbled (suc k) (a ∷ []) back h = absurd (omega arith)
  bubble-Bubbled (suc k) (a ∷ b ∷ rs) back h = elim (Bool-cases (ltb_ℤ (score a) (score b))) [
    | inl lower ↦
        let v = bubble-Bubbled k (a ∷ rs) back (omega arith) in
        record {
          others = b ∷ v.others;
          least = v.least;
          shape = rw lower (ap (◌∷◌ b) v.shape);
          size = ap suc v.size;
          lowest = (v.lowest.0, (ground (arith, v.lowest.0, lower), v.lowest.1));
          keeps = λ P all. let w = v.keeps P (all.0, all.1.1) in ((all.1.0, w.0), w.1);
        }
    | inr higher ↦
        let v = bubble-Bubbled k (b ∷ rs) back (omega arith) in
        record {
          others = a ∷ v.others;
          least = v.least;
          shape = rw higher (ap (◌∷◌ a) v.shape);
          size = ap suc v.size;
          lowest = (ground (arith, v.lowest.0, higher), v.lowest);
          keeps = λ P all. let w = v.keeps P all.1 in ((all.0, w.0), w.1);
        }
  ]

  -- What one pass leaves: every route of the front is at least as high as every one of the back.
  Above : List Route → List Route → Type 0
  Above front back = All (λ x. All (λ y. score y ≤ℤ score x) back) front

  Above-cons :
      (m : Route) (others back : List Route)
      → All (λ x. score m ≤ℤ score x) others
      → Above others back
      → Above others (m ∷ back)
  unfolding Above
  Above-cons m [] back low above = tt
  Above-cons m (x ∷ xs) back low above = ((low.0, above.0), Above-cons m xs back low.1 above.1)

  passes_from-split :
      (k : ℕ) (front back : List Route)
      → length front ≡ suc k
      → Above front back
      → IsDescending back
      → IsDescending (passes_from score k (front ++ back))
  unfolding passes_from Above
  passes_from-split zero [] back h above sorted = absurd (omega arith)
  passes_from-split zero (a ∷ []) back h above sorted = (above.0, sorted)
  passes_from-split zero (a ∷ b ∷ rs) back h above sorted = absurd (omega arith)
  passes_from-split (suc k) front back h above sorted =
      let v = bubble-Bubbled (suc k) front back h in
      let w = v.keeps (λ x. All (λ y. score y ≤ℤ score x) back) above in
      let low = (v.keeps (λ x. score v.least ≤ℤ score x) v.lowest).0 in
      subst (λ (rs : List Route). IsDescending (passes_from score k rs)) (sym v.shape)
        (passes_from-split k v.others (v.least ∷ back) v.size
          (Above-cons v.least v.others back low w.0) (w.1, sorted))

  Above-nil : (front : List Route) → Above front []
  unfolding Above
  Above-nil [] = tt
  Above-nil (a ∷ rs) = (tt, Above-nil rs)

  append-nil : (rs : List Route) → rs ++ [] ≡ rs
  append-nil [] = refl
  append-nil (a ∷ rs) = ap (◌∷◌ a) (append-nil rs)

  -- As many passes as the code makes sort the list.
  pub passes_from-IsDescending :
      (rs : List Route) → IsDescending (passes_from score (length rs - 1) rs)
  unfolding passes_from
  passes_from-IsDescending [] = tt
  passes_from-IsDescending (a ∷ rs) =
      let e : length (a ∷ rs) - 1 ≡ length rs = omega arith in
      subst (λ (k : ℕ). IsDescending (passes_from score k (a ∷ rs))) (sym e)
        (subst (λ (xs : List Route). IsDescending (passes_from score (length rs) xs))
          (append-nil (a ∷ rs))
          (passes_from-split (length rs) (a ∷ rs) [] refl (Above-nil (a ∷ rs)) tt))
