-- ===== src/Proxy/Rewriter.antt =====
-- internal/proxy/url_rewriter.go: urlRewriter, with its cache of compiled expressions, and
-- PathRewriter. Package regexp is an interface, and URL.RequestURI a function of the path, the
-- raw path and the rest of the URL, which the code does not write.
pub mod Cached
pub mod Undone
use discobox.Prelude.{
  Str, ℕ, Bool, true, false, not, ◌&&◌, ◌⊎◌, inl, inr, List, [], ◌∷◌, ◌++◌, Option, none, some,
  if◌then◌else◌, ◌==◌, str_eq, is_empty, has_prefix, has_suffix, text, length, drop,
}
use discobox.Prelude.Dict.{Dict, lookup, insert}
use discobox.Types.Route.{RewriteRule}

-- Compile and ReplaceAllString of regexp, and RequestURI of net/url.
pub record Library (R E : Type 0) : Type 0 where
  pub compile : Str → E ⊎ R
  pub replace_all : R → Str → Str → Str
  pub request_uri : Str → Str → Str → Str

pub record Request : Type 0 where
  pub path : Str
  pub raw_path : Str
  -- The URL as it came, for its query and its other parts.
  pub url : Str
  pub request_uri : Str

-- path[len(prefix):] where the path has the prefix, else the path.
unfoldable pub trim_prefix : Str → Str → Str
trim_prefix path prefix = if has_prefix path prefix then drop (length prefix) path else path

-- The path with "/" before it unless it has it.
unfoldable pub rooted : Str → Str
rooted path = if has_prefix path (text "/") then path else b'/' ∷ path

-- The rule of PathRewriter, with `none` for a Pattern that is nil.
pub record CompiledRewriteRule (R : Type 0) : Type 0 where
  pub pattern : Option R
  pub replacement : Str
  pub strip_prefix : Str
  pub add_prefix : Str

module _ {R E : Type 0} (lib : Library R E) where
  -- The assignments to URL.Path, URL.RawPath and RequestURI.
  abbrev pub set_path : Str → Request → Request
  set_path path req = record req {
    path = path;
    raw_path = [];
    request_uri = lib.request_uri path [] req.url;
  }

  abbrev pub store_compiled : Str → E ⊎ R → Dict Str R → (E ⊎ R) × Dict Str R
  store_compiled pattern (inl err) compiled = (inl err, compiled)
  store_compiled pattern (inr regex) compiled = (inr regex, insert pattern regex compiled)

  abbrev pub cached_or_compile : Str → Option R → Dict Str R → (E ⊎ R) × Dict Str R
  cached_or_compile pattern (some regex) compiled = (inr regex, compiled)
  cached_or_compile pattern none compiled = store_compiled pattern (lib.compile pattern) compiled

  unfoldable pub get_or_compile_regex : Str → Dict Str R → (E ⊎ R) × Dict Str R
  get_or_compile_regex pattern compiled =
      cached_or_compile pattern (lookup pattern compiled) compiled

  abbrev pub replace_path : RewriteRule → R → Request → Request
  replace_path rule regex req =
      let new_path = lib.replace_all regex req.path rule.replacement in
      if new_path == req.path then req else set_path new_path req

  -- rewriteRegex, once the expression or an error is there.
  abbrev pub rewrite_found :
      RewriteRule → Request → (E ⊎ R) × Dict Str R → Option E × Request × Dict Str R
  rewrite_found rule req (inl err, compiled) = (some err, req, compiled)
  rewrite_found rule req (inr regex, compiled) = (none, replace_path rule regex req, compiled)

  unfoldable pub rewrite_regex :
      RewriteRule → Request → Dict Str R → Option E × Request × Dict Str R
  rewrite_regex rule req compiled =
      rewrite_found rule req (get_or_compile_regex rule.pattern compiled)

  unfoldable pub rewrite_prefix : RewriteRule → Request → Request
  rewrite_prefix rule req =
      if has_prefix req.path rule.pattern
      then set_path (rule.replacement ++ drop (length rule.pattern) req.path) req
      else req

  unfoldable pub strip_prefix : RewriteRule → Request → Request
  strip_prefix rule req = set_path (rooted (trim_prefix req.path rule.pattern)) req

  -- The switch of Rewrite.
  unfoldable pub rewrite_rule : RewriteRule → Request → Dict Str R → Option E × Request × Dict Str R
  rewrite_rule rule req compiled =
      if rule.kind == text "regex"
      then rewrite_regex rule req compiled
      else if rule.kind == text "prefix"
      then (none, rewrite_prefix rule req, compiled)
      else if rule.kind == text "strip_prefix"
      then (none, strip_prefix rule req, compiled)
      else (none, req, compiled)

  -- if err := ...; err != nil { return err }
  abbrev pub unless_failed :
      (Request → Dict Str R → Option E × Request × Dict Str R)
      → Option E × Request × Dict Str R
      → Option E × Request × Dict Str R
  unless_failed rest (some err, req, compiled) = (some err, req, compiled)
  unless_failed rest (none, req, compiled) = rest req compiled

  -- The error, if any, and what the request and the cache are afterwards.
  unfoldable pub rewrite : List RewriteRule → Request → Dict Str R → Option E × Request × Dict Str R
  rewrite [] req compiled = (none, req, compiled)
  rewrite (rule ∷ rules) req compiled =
      unless_failed (rewrite rules) (rewrite_rule rule req compiled)

  -- The three parts of one round of PathRewriter's loop.
  unfoldable pub strip : CompiledRewriteRule R → Str → Str
  strip rule path =
      if not (is_empty rule.strip_prefix) && has_prefix path rule.strip_prefix
      then rooted (drop (length rule.strip_prefix) path)
      else path

  abbrev pub replace : Option R → Str → Str → Str
  replace none replacement path = path
  replace (some regex) replacement path = lib.replace_all regex path replacement

  unfoldable pub add : CompiledRewriteRule R → Str → Str
  add rule path =
      if is_empty rule.add_prefix
      then path
      else if not (has_suffix rule.add_prefix (text "/")) && not (has_prefix path (text "/"))
      then rule.add_prefix ++ b'/' ∷ path
      else rule.add_prefix ++ path

  unfoldable pub rewrite_path : List (CompiledRewriteRule R) → Str → Str
  rewrite_path [] path = path
  rewrite_path (rule ∷ rules) path =
      rewrite_path rules (add rule (replace rule.pattern rule.replacement (strip rule path)))
