-- ===== src/Middleware/Backoff.antt =====
-- internal/middleware/retry.go: ExponentialBackoff. `scale` is the product of a duration with the
-- multiplier as a float64, cut to a duration.
use discobox.Prelude.{ℕ, zero, suc, List, [], ◌∷◌, if◌then◌else◌}
use discobox.Prelude.Int.{ℤ, ltb_ℤ}

pub record ExponentialBackoff : Type 0 where
  pub initial : ℤ
  pub max : ℤ
  pub scale : ℤ → ℤ
  pub current : ℤ

abbrev pub new_exponential_backoff : ℤ → ℤ → (ℤ → ℤ) → ExponentialBackoff
new_exponential_backoff initial max scale = record {
  initial = initial;
  max = max;
  scale = scale;
  current = initial;
}

unfoldable pub next : ExponentialBackoff → ℤ × ExponentialBackoff
next eb =
    let grown = eb.scale eb.current in
    (eb.current, record eb { current = if ltb_ℤ eb.max grown then eb.max else grown })

unfoldable pub reset : ExponentialBackoff → ExponentialBackoff
reset eb = record eb { current = eb.initial }

-- What `n` calls of Next give.
abbrev pub nexts : ℕ → ExponentialBackoff → List ℤ
nexts zero eb = []
nexts (suc n) eb = (next eb).0 ∷ nexts n (next eb).1
