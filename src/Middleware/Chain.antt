-- ===== src/Middleware/Chain.antt =====
-- internal/middleware/chain.go: Chain. A handler is a function on requests and a state; a
-- middleware is a function on handlers. A chain is its slice of middlewares in a heap, since append
-- can make chains share an array; `grow` is the capacity that append gives a new array.
pub mod Slices
pub mod Order
use discobox.Prelude.{ℕ, Bool, List, [], ◌∷◌, ◌++◌, Option, none, some, if◌then◌else◌, length}
use discobox.Middleware.Chain.Slices.{Slice, Heap, read, allocate, append}

module _ (Request World : Type 0) where
  abbrev pub Handler : Type 0
  Handler = Request → World → World

  abbrev pub Middleware : Type 0
  Middleware = Handler → Handler

  -- The memory that the chains' slices stand in.
  abbrev pub Memory : Type 0
  Memory = Heap (Handler → Handler)

-- The field `middlewares`.
abbrev pub Chain : Type 0
Chain = Slice

-- The caller's slice becomes the chain's.
abbrev pub new_chain : Slice → Chain
new_chain middlewares = middlewares

module _ {Request World : Type 0} where
  -- c.middlewares = append(c.middlewares, middlewares...)
  unfoldable pub use_all :
      (ℕ → ℕ)
      → List (Middleware Request World)
      → Chain
      → Memory Request World
      → Memory Request World × Chain
  use_all grow middlewares c memory = append grow c middlewares memory

  -- The loop runs from the last middleware to the first, so that the first is the outermost.
  abbrev pub then_list :
      List (Middleware Request World) → Handler Request World → Handler Request World
  then_list [] handler = handler
  then_list (m ∷ ms) handler = m (then_list ms handler)

  unfoldable pub then_ :
      Memory Request World → Chain → Handler Request World → Handler Request World
  then_ memory c handler = then_list (read memory c) handler

  -- `none` is a chain of another type: the result is `c` then.
  unfoldable pub merge :
      (ℕ → ℕ) → Chain → Option Chain → Memory Request World → Memory Request World × Chain
  merge grow c none memory = (memory, c)
  merge grow c (some other) memory = append grow c (read memory other) memory

  unfoldable pub clone : Chain → Memory Request World → Memory Request World × Chain
  clone c memory = let copied = read memory c in allocate copied (length copied) memory

  unfoldable pub wrap_func :
      (World → Request → Handler Request World → World) → Middleware Request World
  wrap_func fn next r w = fn w r next

  unfoldable pub conditional :
      (Request → Bool) → Middleware Request World → Middleware Request World
  conditional condition middleware next r w = if condition r then middleware next r w else next r w

  unfoldable pub branch :
      (Request → Bool)
      → Middleware Request World
      → Middleware Request World
      → Middleware Request World
  branch condition on_true on_false next r w =
      if condition r then on_true next r w else on_false next r w
