-- ===== src/Proxy/Rewriter/Cached.antt =====
-- internal/proxy/url_rewriter.go: the cache of urlRewriter, which knows an expression by its text,
-- against rewriting without a cache.
use discobox.Prelude.{
  Str, ◌≡◌, refl, sym, ap, ◌∙◌, ◌⊎◌, inl, inr, List, [], ◌∷◌, Option, none, some, map, subst,
  if◌then◌else◌, ◌==◌, str_eq, text, Bool-cases,
}
use discobox.Prelude.Dict.{Dict, lookup, insert, lookup-insert_cases}
use discobox.Types.Route.{RewriteRule}
use discobox.Proxy.Rewriter.{
  Library, Request, replace_path, rewrite_found, rewrite_regex, rewrite_prefix, strip_prefix,
  rewrite_rule, unless_failed, rewrite, store_compiled, cached_or_compile, get_or_compile_regex,
}

module _ {R E : Type 0} (lib : Library R E) where
  -- Rewriting that compiles an expression each time that it needs it.
  abbrev pub apply_compiled : RewriteRule → Request → E ⊎ R → Option E × Request
  apply_compiled rule req (inl err) = (some err, req)
  apply_compiled rule req (inr regex) = (none, replace_path lib rule regex req)

  abbrev pub apply_rule : RewriteRule → Request → Option E × Request
  apply_rule rule req =
      if rule.kind == text "regex"
      then apply_compiled rule req (lib.compile rule.pattern)
      else if rule.kind == text "prefix"
      then (none, rewrite_prefix lib rule req)
      else if rule.kind == text "strip_prefix"
      then (none, strip_prefix lib rule req)
      else (none, req)

  abbrev pub unless_error : (Request → Option E × Request) → Option E × Request → Option E × Request
  unless_error rest (some err, req) = (some err, req)
  unless_error rest (none, req) = rest req

  abbrev pub apply_rules : List RewriteRule → Request → Option E × Request
  apply_rules [] req = (none, req)
  apply_rules (rule ∷ rules) req = unless_error (apply_rules rules) (apply_rule rule req)

  -- What a rewriter answers to requests that it rewrites one after the other.
  abbrev pub answers : List (List RewriteRule × Request) → Dict Str R → List (Option E × Request)
  answers [] compiled = []
  answers ((rules, req) ∷ calls) compiled =
      let w = rewrite lib rules req compiled in (w.0, w.1) ∷ answers calls w.2

  -- A cached expression is what its text is compiled to.
  pub IsFaithful : Dict Str R → Type 0
  IsFaithful compiled =
      (pattern : Str) (regex : R)
      → lookup pattern compiled ≡ some regex
      → lib.compile pattern ≡ inr regex

  insert-IsFaithful :
      (pattern : Str) (regex : R) (compiled : Dict Str R)
      → lib.compile pattern ≡ inr regex
      → IsFaithful compiled
      → IsFaithful (insert pattern regex compiled)
  unfolding IsFaithful
  insert-IsFaithful pattern regex compiled p f other found h =
      elim (lookup-insert_cases pattern other regex found compiled h) [
        | inl (same, is) ↦ ap lib.compile (sym same) ∙ p ∙ ap inr is
        | inr (ne, there) ↦ f other found there
      ]

  store_compiled-compile :
      (pattern : Str) (x : E ⊎ R) (compiled : Dict Str R)
      → lib.compile pattern ≡ x
      → IsFaithful compiled
      → ((store_compiled lib pattern x compiled).0 ≡ x)
        × IsFaithful (store_compiled lib pattern x compiled).1
  store_compiled-compile pattern (inl err) compiled p f = (refl, f)
  store_compiled-compile pattern (inr regex) compiled p f =
      (refl, insert-IsFaithful pattern regex compiled p f)

  cached_or_compile-compile :
      (pattern : Str) (o : Option R) (compiled : Dict Str R)
      → lookup pattern compiled ≡ o
      → IsFaithful compiled
      → ((cached_or_compile lib pattern o compiled).0 ≡ lib.compile pattern)
        × IsFaithful (cached_or_compile lib pattern o compiled).1
  unfolding IsFaithful
  cached_or_compile-compile pattern (some regex) compiled h f = (sym (f pattern regex h), f)
  cached_or_compile-compile pattern none compiled h f =
      store_compiled-compile pattern (lib.compile pattern) compiled refl f

  get_or_compile_regex-compile :
      (pattern : Str) (compiled : Dict Str R)
      → IsFaithful compiled
      → ((get_or_compile_regex lib pattern compiled).0 ≡ lib.compile pattern)
        × IsFaithful (get_or_compile_regex lib pattern compiled).1
  unfolding get_or_compile_regex
  get_or_compile_regex-compile pattern compiled f =
      cached_or_compile-compile pattern (lookup pattern compiled) compiled refl f

  abbrev forget : Option E × Request × Dict Str R → Option E × Request
  forget w = (w.0, w.1)

  rewrite_found-apply :
      (rule : RewriteRule) (req : Request) (x : E ⊎ R) (compiled : Dict Str R)
      → (forget (rewrite_found lib rule req (x, compiled)) ≡ apply_compiled rule req x)
        × ((rewrite_found lib rule req (x, compiled)).2 ≡ compiled)
  rewrite_found-apply rule req (inl err) compiled = (refl, refl)
  rewrite_found-apply rule req (inr regex) compiled = (refl, refl)

  rewrite_regex-apply :
      (rule : RewriteRule) (req : Request) (compiled : Dict Str R)
      → IsFaithful compiled
      → (forget (rewrite_regex lib rule req compiled)
          ≡ apply_compiled rule req (lib.compile rule.pattern))
        × IsFaithful (rewrite_regex lib rule req compiled).2
  unfolding rewrite_regex
  rewrite_regex-apply rule req compiled f =
      let g = get_or_compile_regex lib rule.pattern compiled in
      let same = get_or_compile_regex-compile rule.pattern compiled f in
      let found = rewrite_found-apply rule req g.0 g.1 in
      (found.0 ∙ ap (apply_compiled rule req) same.0, subst IsFaithful (sym found.1) same.1)

  rewrite_rule-apply :
      (rule : RewriteRule) (req : Request) (compiled : Dict Str R)
      → IsFaithful compiled
      → (forget (rewrite_rule lib rule req compiled) ≡ apply_rule rule req)
        × IsFaithful (rewrite_rule lib rule req compiled).2
  unfolding rewrite_rule
  rewrite_rule-apply rule req compiled f = elim (Bool-cases (rule.kind == text "regex")) [
    | inl a ↦ rw a (rewrite_regex-apply rule req compiled f)
    | inr a ↦ rw a (elim (Bool-cases (rule.kind == text "prefix")) [
      | inl b ↦ rw b (refl, f)
      | inr b ↦ rw b (elim (Bool-cases (rule.kind == text "strip_prefix")) [
        | inl c ↦ rw c (refl, f)
        | inr c ↦ rw c (refl, f)
      ])
    ])
  ]

  unless_failed-forget :
      (rest : Request → Dict Str R → Option E × Request × Dict Str R)
      (plain : Request → Option E × Request) (w : Option E × Request × Dict Str R)
      → ((req : Request) (compiled : Dict Str R)
          → IsFaithful compiled
          → (forget (rest req compiled) ≡ plain req) × IsFaithful (rest req compiled).2)
      → IsFaithful w.2
      → (forget (unless_failed lib rest w) ≡ unless_error plain (forget w))
        × IsFaithful (unless_failed lib rest w).2
  unless_failed-forget rest plain (some err, req, compiled) h f = (refl, f)
  unless_failed-forget rest plain (none, req, compiled) h f = h req compiled f

  rewrite-apply :
      (rules : List RewriteRule) (req : Request) (compiled : Dict Str R)
      → IsFaithful compiled
      → (forget (rewrite lib rules req compiled) ≡ apply_rules rules req)
        × IsFaithful (rewrite lib rules req compiled).2
  unfolding rewrite
  rewrite-apply [] req compiled f = (refl, f)
  rewrite-apply (rule ∷ rules) req compiled f =
      let one = rewrite_rule-apply rule req compiled f in
      let both =
        unless_failed-forget (rewrite lib rules) (apply_rules rules)
          (rewrite_rule lib rule req compiled) (rewrite-apply rules) one.1 in
      (both.0 ∙ ap (unless_error (apply_rules rules)) one.0, both.1)

  answers-apply :
      (calls : List (List RewriteRule × Request)) (compiled : Dict Str R)
      → IsFaithful compiled
      → answers calls compiled
        ≡ map (λ (call : List RewriteRule × Request). apply_rules call.0 call.1) calls
  answers-apply [] compiled f = refl
  answers-apply ((rules, req) ∷ calls) compiled f =
      let w = rewrite-apply rules req compiled f in
      rw (w.0, answers-apply calls (rewrite lib rules req compiled).2 w.1) refl

  -- Each of the calls of a rewriter that starts with an empty cache gives the error and the request
  -- that rewriting without a cache gives: an expression that does not compile fails at every call,
  -- at its rule, with the changes of the rules before it made.
  pub answers-compile :
      (calls : List (List RewriteRule × Request))
      → answers calls []
        ≡ map (λ (call : List RewriteRule × Request). apply_rules call.0 call.1) calls
  unfolding IsFaithful lookup
  answers-compile calls = answers-apply calls [] (λ pattern regex h. absurd (cc h))
