-- ===== src/Proxy/Rewriter/Undone.antt =====
-- internal/proxy/url_rewriter.go: moving a path from one prefix to another and back.
use discobox.Prelude.{
  Str, ◌≡◌, refl, sym, ap, ◌∙◌, false, [], ◌∷◌, ◌++◌, none, inl, inr, str_eq, nat_eq, text,
  list_beq, has_prefix, has_suffix, is_empty, Bool-cases,
}
use discobox.Prelude.Dict.{Dict}
use discobox.Prelude.Prefixes.{has_prefix-append, drop-append}
use discobox.Types.Route.{RewriteRule}
use discobox.Proxy.Rewriter.{
  Library, Request, set_path, rewrite_prefix, rewrite_rule, rewrite, CompiledRewriteRule, rooted,
  strip, add, rewrite_path,
}

abbrev pub prefix_rule : Str → Str → RewriteRule
prefix_rule pattern replacement = record {
  kind = text "prefix";
  pattern = pattern;
  replacement = replacement;
}

-- A rule of PathRewriter without an expression.
abbrev pub move : {R : Type 0} → Str → Str → CompiledRewriteRule R
move from to = record { pattern = none; replacement = []; strip_prefix = from; add_prefix = to }

module _ {R E : Type 0} (lib : Library R E) where
  rewrite_prefix-append :
      (p q s : Str) (req : Request)
      → req.path ≡ p ++ s
      → rewrite_prefix lib (prefix_rule p q) req ≡ set_path lib (q ++ s) req
  unfolding rewrite_prefix
  rewrite_prefix-append p q s req h = rw (h, has_prefix-append p s, drop-append p s) refl

  rewrite_rule-prefix_rule :
      (p q : Str) (req : Request) (compiled : Dict Str R)
      → rewrite_rule lib (prefix_rule p q) req compiled
        ≡ (none, rewrite_prefix lib (prefix_rule p q) req, compiled)
  unfolding rewrite_rule list_beq
  rewrite_rule-prefix_rule p q req compiled = refl

  rewrite-prefix_rule :
      (p q s : Str) (req : Request) (compiled : Dict Str R)
      → req.path ≡ p ++ s
      → rewrite lib (prefix_rule p q ∷ prefix_rule q p ∷ []) req compiled
        ≡ (none, set_path lib (p ++ s) req, compiled)
  unfolding rewrite
  rewrite-prefix_rule p q s req compiled h =
      let moved = set_path lib (q ++ s) req in
      rw
        (
          rewrite_rule-prefix_rule p q req compiled,
          rewrite_prefix-append p q s req h,
          rewrite_rule-prefix_rule q p moved compiled,
          rewrite_prefix-append q p s moved refl,
        )
        refl

  move-path :
      (p q s : Str)
      → is_empty p ≡ false
      → is_empty q ≡ false
      → add lib (move {R = R} p q) (strip lib (move {R = R} p q) (p ++ b'/' ∷ s)) ≡ q ++ b'/' ∷ s
  unfolding add strip rooted has_prefix
  move-path p q s hp hq =
      rw (hp, hq, has_prefix-append p (b'/' ∷ s), drop-append p (b'/' ∷ s))
        (elim (Bool-cases (has_suffix q (text "/"))) [ inl t ↦ rw t refl | inr f ↦ rw f refl ])

  -- A path below a prefix `p` that two rules move to the prefix `q` and back is what it was, in both
  -- rewriters, for `p` and `q` that are not empty. With urlRewriter, the raw path is empty then, the
  -- URI is made from the path, there is no error, and the cache is as before.
  pub rewrite-undone :
      (p q s : Str) (req : Request) (compiled : Dict Str R)
      → is_empty p ≡ false
      → is_empty q ≡ false
      → req.path ≡ p ++ b'/' ∷ s
      → (rewrite lib (prefix_rule p q ∷ prefix_rule q p ∷ []) req compiled
          ≡ (none, set_path lib req.path req, compiled))
        × (rewrite_path lib (move p q ∷ move q p ∷ []) req.path ≡ req.path)
  unfolding rewrite_path
  rewrite-undone p q s req compiled hp hq h = (
    rewrite-prefix_rule p q (b'/' ∷ s) req compiled h
        ∙ ap (λ (path : Str). (none, set_path lib path req, compiled)) (sym h),
    rw (h, move-path p q s hp hq) (move-path q p s hq hp),
  )
