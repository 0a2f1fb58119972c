-- ===== src/Proxy/Tests.antt =====
-- The rewriters of internal/proxy on a few requests.
use discobox.Prelude.{
  Str, ◌≡◌, refl, inl, inr, List, [], ◌∷◌, none, some, if◌then◌else◌, is_empty, text, map, list_beq,
  ◌==◌, nat_eq, str_eq, has_prefix,
}
use discobox.Prelude.Dict.{lookup, insert}
use discobox.Types.Route.{RewriteRule}
use discobox.Proxy.Rewriter.{
  Library, Request, set_path, rewrite, rewrite_rule, rewrite_regex, rewrite_path, rewrite_prefix,
  strip_prefix, trim_prefix, rooted, get_or_compile_regex,
}
use discobox.Proxy.Rewriter.Cached.{answers, apply_rules, answers-compile}
use discobox.Proxy.Rewriter.Undone.{prefix_rule, move, rewrite-undone}

-- An expression is its text, and matches only that; the empty one does not compile.
abbrev plain : Library Str Str
plain = record {
  compile = λ pattern. if is_empty pattern then inl (text "empty") else inr pattern;
  replace_all = λ regex path new. if regex == path then new else path;
  request_uri = λ path raw url. path;
}

abbrev request : Str → Request
request path = record { path = path; raw_path = path; url = path; request_uri = path }

abbrev regex_rule : Str → Str → RewriteRule
regex_rule pattern new = record { kind = text "regex"; pattern = pattern; replacement = new }

abbrev strip_rule : Str → RewriteRule
strip_rule prefix = record { kind = text "strip_prefix"; pattern = prefix; replacement = [] }

abbrev calls : List (List RewriteRule × Request)
calls =
    (regex_rule (text "/a") (text "/b") ∷ strip_rule (text "/b") ∷ [], request (text "/a"))
    ∷ (
      prefix_rule (text "/a") (text "/c") ∷ regex_rule [] [] ∷ strip_rule (text "/c") ∷ [],
      request (text "/a/d"),
    )
    ∷ (regex_rule (text "/a") (text "/e") ∷ [], request (text "/a"))
    ∷ []

-- The first call gives "/"; the second fails at its second rule, with the first one done.
answers_lem :
    answers plain calls []
    ≡ (none, record { path = text "/"; raw_path = []; url = text "/a"; request_uri = text "/" })
      ∷ (
        some (text "empty"),
        record { path = text "/c/d"; raw_path = []; url = text "/a/d"; request_uri = text "/c/d" },
      )
      ∷ (none, record { path = text "/e"; raw_path = []; url = text "/a"; request_uri = text "/e" })
      ∷ []
unfolding rewrite rewrite_rule list_beq rewrite_regex get_or_compile_regex lookup insert
    rewrite_prefix strip_prefix trim_prefix rooted has_prefix
answers_lem = refl

answers-compile_example :
    answers plain calls []
    ≡ map (λ (call : List RewriteRule × Request). apply_rules plain call.0 call.1) calls
answers-compile_example = answers-compile plain calls

rewrite-undone_example :
    (rewrite plain
        (prefix_rule (text "/api") (text "/v1") ∷ prefix_rule (text "/v1") (text "/api") ∷ [])
        (request (text "/api/users"))
        []
      ≡ (none, set_path plain (text "/api/users") (request (text "/api/users")), []))
    × (rewrite_path plain
          (move (text "/api") (text "/v1") ∷ move (text "/v1") (text "/api") ∷ [])
          (text "/api/users")
        ≡ text "/api/users")
rewrite-undone_example =
    rewrite-undone plain (text "/api") (text "/v1") (text "users") (request (text "/api/users")) []
      refl refl refl
