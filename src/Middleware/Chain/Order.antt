-- ===== src/Middleware/Chain/Order.antt =====
-- internal/middleware/chain.go: the order in which a chain runs its middlewares, and which chains an
-- append disturbs.
use discobox.Prelude.{
  ℕ, suc, ◌+◌, ◌≤◌, ◌≡◌, ◌≢◌, refl, sym, ap, ◌∙◌, inl, List, [], ◌∷◌, ◌++◌, some, map, length,
  arith,
}
use discobox.Middleware.Chain.{
  Handler, Middleware, Memory, Chain, use_all, then_, then_list, merge, clone,
}
use discobox.Middleware.Chain.Slices.{read, allocate, append, IsSlice}
use discobox.Middleware.Chain.Slices.Reading.{
  read-append, read-append_other, read-allocate, allocate-IsSlice, allocate-IsSlice_other,
  allocate-apart, append-append,
}

-- What a middleware does before and after the next handler.
pub record Hooks (Request World : Type 0) : Type 0 where
  pub before : Request → World → World
  pub after : Request → World → World

length-map : {A B : Type 0} (f : A → B) (xs : List A) → length (map f xs) ≡ length xs
length-map f [] = refl
length-map f (x ∷ xs) = ap suc (length-map f xs)

module _ {Request World : Type 0} where
  abbrev pub around : Hooks Request World → Middleware Request World
  around hooks next r w = hooks.after r (next r (hooks.before r w))

  abbrev pub enter : List (Hooks Request World) → Request → World → World
  enter [] r w = w
  enter (h ∷ hs) r w = enter hs r (h.before r w)

  abbrev pub leave : List (Hooks Request World) → Request → World → World
  leave [] r w = w
  leave (h ∷ hs) r w = h.after r (leave hs r w)

  then_list-append :
      (c other : List (Middleware Request World)) (handler : Handler Request World)
      → then_list (c ++ other) handler ≡ then_list c (then_list other handler)
  then_list-append [] other handler = refl
  then_list-append (m ∷ ms) other handler = ap m (then_list-append ms other handler)

  then_list-around :
      (hs : List (Hooks Request World)) (handler : Handler Request World) (r : Request) (w : World)
      → then_list (map around hs) handler r w ≡ leave hs r (handler r (enter hs r w))
  then_list-around [] handler r w = refl
  then_list-around (h ∷ hs) handler r w =
      ap (h.after r) (then_list-around hs handler r (h.before r w))

  -- What a handler made of two lists of middlewares does.
  abbrev pub in_order :
      List (Hooks Request World)
      → List (Hooks Request World)
      → Handler Request World
      → Handler Request World
  in_order hs added handler r w =
      leave hs r (leave added r (handler r (enter added r (enter hs r w))))

  then_list-both :
      (hs added : List (Hooks Request World)) (handler : Handler Request World) (r : Request)
      (w : World)
      → then_list (map around hs ++ map around added) handler r w ≡ in_order hs added handler r w
  then_list-both hs added handler r w =
      ap (λ (f : Handler Request World). f r w)
        (then_list-append (map around hs) (map around added) handler)
      ∙ then_list-around hs (then_list (map around added) handler) r w
      ∙ ap (leave hs r) (then_list-around added handler r (enter hs r w))

  module _ (grow : ℕ → ℕ) (memory : Memory Request World) (c other : Chain)
      (hs added : List (Hooks Request World)) (first : IsSlice memory c)
      (holds : read memory c ≡ map around hs) (others : read memory other ≡ map around added)
      (handler : Handler Request World) (r : Request) (w : World) where
    -- The handler that Then makes of a chain, once Use has added middlewares to it or Merge another
    -- chain, does what the middlewares of the chain do before a request, in their order, then what
    -- the added ones do, the handler, and what they all do after it, the last one first. A clone of
    -- the chain that was taken before does what the chain did, also after Use.
    pub then_-order :
        (then_
            (use_all grow (map around added) c memory).0
            (use_all grow (map around added) c memory).1
            handler
            r
            w
          ≡ in_order hs added handler r w)
        × (then_
              (merge grow c (some other) memory).0
              (merge grow c (some other) memory).1
              handler
              r
              w
            ≡ in_order hs added handler r w)
        × (then_
              (use_all grow (map around added) c (clone c memory).0).0
              (clone c memory).1
              handler
              r
              w
            ≡ leave hs r (handler r (enter hs r w)))
    unfolding use_all merge then_ clone
    then_-order = (
      ap (λ (ms : List (Middleware Request World)). then_list ms handler r w)
            (read-append grow c (map around added) memory first
              ∙ ap (λ ms. ms ++ map around added) holds)
          ∙ then_list-both hs added handler r w,
      ap (λ (ms : List (Middleware Request World)). then_list ms handler r w)
            (read-append grow c (read memory other) memory first
              ∙ ap (λ ms. ms ++ read memory other) holds
              ∙ ap (λ ms. map around hs ++ ms) others)
          ∙ then_list-both hs added handler r w,
      ap (λ (ms : List (Middleware Request World)). then_list ms handler r w) (cloned ∙ holds)
          ∙ then_list-around hs handler r w,
    )
      where
        copied : List (Middleware Request World)
        copied = read memory c

        cloned :
            read
              (append grow c (map around added) (allocate copied (length copied) memory).0).0
              (allocate copied (length copied) memory).1
            ≡ read memory c
        cloned =
            read-append_other grow c (allocate copied (length copied) memory).1 (map around added)
              (allocate copied (length copied) memory).0
              (allocate-IsSlice_other copied (length copied) memory c first)
              (allocate-IsSlice copied (length copied) memory)
              (inl (allocate-apart copied (length copied) memory c first))
            ∙ read-allocate copied (length copied) memory

  module _ (grow : ℕ → ℕ) (memory : Memory Request World) (c one two : Chain)
      (hs ones twos : List (Hooks Request World)) (first : IsSlice memory c)
      (third : IsSlice memory two) (holds : read memory c ≡ map around hs)
      (holds_one : read memory one ≡ map around ones)
      (holds_two : read memory two ≡ map around twos) where
    -- The middlewares of a chain that Merge has made are written over by the next Merge of the same
    -- chain, if the array of the chain has room for them, the other chains have equally many
    -- middlewares, and the second of them stands in another array: the first merged chain then runs
    -- the middlewares of the second.
    pub merge-merge :
        length ones ≡ length twos
        → c.length + length ones ≤ (memory.array c.array).capacity
        → c.array ≢ two.array
        → (handler : Handler Request World) (r : Request) (w : World)
        → then_
            (merge grow c (some two) (merge grow c (some one) memory).0).0
            (merge grow c (some one) memory).1
            handler
            r
            w
          ≡ in_order hs twos handler r w
    unfolding merge then_
    merge-merge same room apart handler r w =
        ap (λ (ms : List (Middleware Request World)). then_list ms handler r w)
          (ap
              (λ ms.
                read (append grow c ms (append grow c added memory).0).0
                  (append grow c added memory).1)
              (read-append_other grow c two added memory first third (inl apart) ∙ holds_two)
            ∙ append-append grow c added (map around twos) memory first
                (counted ∙ same ∙ sym (length-map around twos)) (omega (arith, counted, room))
            ∙ ap (λ ms. ms ++ map around twos) holds)
        ∙ then_list-both hs twos handler r w
      where
        added : List (Middleware Request World)
        added = read memory one

        counted : length added ≡ length ones
        counted = ap length holds_one ∙ length-map around ones
