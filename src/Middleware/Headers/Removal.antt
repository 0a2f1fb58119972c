-- ===== src/Middleware/Headers/Removal.antt =====
-- internal/middleware/headers.go: the header that is sent after RemoveHeaders.
use discobox.Prelude.{
  Str, ℕ, ◌≡◌, refl, ap, ◌∙◌, ◌⊎◌, inl, inr, Bool, true, false, List, [], ◌∷◌, ◌++◌, none,
  if◌then◌else◌, ◌==◌, str_eq, Bool-cases, map, All, subst, leb, ◌&&◌, nat_eq, arith,
}
use discobox.Prelude.Dict.{lookup, erase, lookup-erase_self, lookup-erase}
use discobox.Middleware.Headers.{
  Header, Call, sent, written, Writer, set, del_all, canonical_key, to_lower, are_tokens, is_token,
  lower, upper, capitalized, remove_headers, write_header, write,
}

-- What a handler does with its writer.
pub data Action : Type 0 where
  setting : Str → Str → Action
  sending : ℕ → Action
  writing : Str → Action

-- Whether a handler sends or writes at all.
abbrev pub answers : List Action → Bool
answers [] = false
answers (setting name value ∷ actions) = answers actions
answers (sending code ∷ actions) = true
answers (writing b ∷ actions) = true

abbrev pub act : Action → Writer → Writer
act (setting name value) w = record w { header = set name value w.header }
act (sending code) w = write_header code w
act (writing b) w = write b w

abbrev pub act_all : List Action → Writer → Writer
act_all [] w = w
act_all (action ∷ actions) w = act_all actions (act action w)

-- The header has none of the names.
abbrev pub Lacks : List Str → Header → Type 0
Lacks [] header = Unit
Lacks (name ∷ names) header = (lookup (canonical_key name) header ≡ none) × Lacks names header

-- The first call sends a header without the names.
abbrev pub StartsWithout : List Str → List Call → Type 0
StartsWithout names [] = ⊥
StartsWithout names (sent code header ∷ calls) = Lacks names header
StartsWithout names (written b ∷ calls) = ⊥

StartsWithout-append :
    (names : List Str) (calls more : List Call)
    → StartsWithout names calls
    → StartsWithout names (calls ++ more)
StartsWithout-append names [] more h = absurd h
StartsWithout-append names (sent code header ∷ calls) more h = h
StartsWithout-append names (written b ∷ calls) more h = absurd h

del_all-none :
    (names : List Str) (key : Str) (header : Header)
    → lookup key header ≡ none
    → lookup key (del_all names header) ≡ none
unfolding del_all
del_all-none [] key header h = h
del_all-none (name ∷ names) key header h =
    del_all-none names key (erase (canonical_key name) header) (
      lookup-erase (canonical_key name) key header
      ∙ (elim (Bool-cases (canonical_key name == key)) [ inl t ↦ rw t refl | inr f ↦ rw f h ]))

del_all-Lacks : (names : List Str) (header : Header) → Lacks names (del_all names header)
unfolding del_all
del_all-Lacks [] header = tt
del_all-Lacks (name ∷ names) header = (
  del_all-none names (canonical_key name) (erase (canonical_key name) header)
      (lookup-erase_self (canonical_key name) header),
  del_all-Lacks names (erase (canonical_key name) header),
)

-- A writer that has sent its first header.
abbrev Started : List Str → Writer → Type 0
Started names w = (w.wrote_header ≡ true) × StartsWithout names w.calls

-- One that has not.
abbrev Fresh : List Str → Writer → Type 0
Fresh names w = (w.headers ≡ names) × (w.wrote_header ≡ false) × (w.calls ≡ [])

write_header-Started :
    (names : List Str) (code : ℕ) (w : Writer)
    → Fresh names w ⊎ Started names w
    → Started names (write_header code w)
unfolding write_header
write_header-Started names code w (inl (same, flag, empty)) =
    rw (flag, empty, same) (refl, del_all-Lacks names w.header)
write_header-Started names code w (inr (flag, starts)) =
    rw flag (refl, StartsWithout-append names w.calls (sent code w.header ∷ []) starts)

if-Started :
    (names : List Str) (flag : Bool) (w other : Writer)
    → (flag ≡ true → Started names w)
    → (flag ≡ false → Started names other)
    → Started names (if flag then w else other)
if-Started names true w other t f = t refl
if-Started names false w other t f = f refl

write-Started :
    (names : List Str) (b : Str) (w : Writer)
    → Fresh names w ⊎ Started names w
    → Started names (write b w)
unfolding write
write-Started names b w (inl fresh) =
    let s =
      if-Started names w.wrote_header w (write_header 200 w) (λ t. absurd (cc (t, fresh.1)))
        (λ f. write_header-Started names 200 w (inl fresh)) in
    (s.0, StartsWithout-append names _ (written b ∷ []) s.1)
write-Started names b w (inr started) =
    let s =
      if-Started names w.wrote_header w (write_header 200 w) (λ t. started)
        (λ f. write_header-Started names 200 w (inr started)) in
    (s.0, StartsWithout-append names _ (written b ∷ []) s.1)

act-Started :
    (names : List Str) (action : Action) (w : Writer)
    → Started names w
    → Started names (act action w)
act-Started names (setting name value) w s = s
act-Started names (sending code) w s = write_header-Started names code w (inr s)
act-Started names (writing b) w s = write-Started names b w (inr s)

act_all-Started :
    (names : List Str) (actions : List Action) (w : Writer)
    → Started names w
    → Started names (act_all actions w)
act_all-Started names [] w s = s
act_all-Started names (action ∷ actions) w s =
    act_all-Started names actions (act action w) (act-Started names action w s)

act_all-Fresh :
    (names : List Str) (actions : List Action) (w : Writer)
    → Fresh names w
    → answers actions ≡ true
    → Started names (act_all actions w)
act_all-Fresh names [] w f h = absurd (cc h)
act_all-Fresh names (setting name value ∷ actions) w f h =
    act_all-Fresh names actions (act (setting name value) w) f h
act_all-Fresh names (sending code ∷ actions) w f h =
    act_all-Started names actions (write_header code w) (write_header-Started names code w (inl f))
act_all-Fresh names (writing b ∷ actions) w f h =
    act_all-Started names actions (write b w) (write-Started names b w (inl f))

lower_kept : (c : ℕ) → (leb 65 c && leb c 90) ≡ false → lower c ≡ c
lower_kept c f = rw f refl

-- A name is found in whatever case its letters are.
lower-is_token : (c : ℕ) → is_token (lower c) ≡ is_token c
lower-is_token c = elim (Bool-cases (leb 65 c && leb c 90)) [
  | inl t ↦ ground (arith, t)
  | inr f ↦ ap is_token (lower_kept c f)
]

are_tokens-to_lower : (s : Str) → are_tokens (to_lower s) ≡ are_tokens s
unfolding are_tokens to_lower
are_tokens-to_lower [] = refl
are_tokens-to_lower (c ∷ s) = rw (lower-is_token c, are_tokens-to_lower s) refl

lowered_letter :
    (starts : Bool) (c : ℕ)
    → (if starts then upper (lower c) else lower (lower c)) ≡ (if starts then upper c else lower c)
lowered_letter starts c = ground arith

lowered_dash : (c : ℕ) → (lower c == b'-') ≡ (c == b'-')
lowered_dash c = ground arith

capitalized-to_lower :
    (starts : Bool) (s : Str) → capitalized starts (to_lower s) ≡ capitalized starts s
unfolding capitalized to_lower
capitalized-to_lower starts [] = refl
capitalized-to_lower starts (c ∷ s) =
    ap (λ x. x ∷ capitalized (lower c == b'-') (to_lower s)) (lowered_letter starts c)
    ∙ ap (λ b. (if starts then upper c else lower c) ∷ capitalized b (to_lower s)) (lowered_dash c)
    ∙ ap (λ rest. (if starts then upper c else lower c) ∷ rest) (capitalized-to_lower (c == b'-') s)

canonical_key-to_lower :
    (name : Str) → are_tokens name ≡ true → canonical_key (to_lower name) ≡ canonical_key name
unfolding canonical_key
canonical_key-to_lower name h = rw (are_tokens-to_lower name, h) (capitalized-to_lower true name)

Lacks-to_lower :
    (names : List Str) (header : Header)
    → All (λ name. are_tokens name ≡ true) names
    → Lacks (map to_lower names) header
    → Lacks names header
Lacks-to_lower [] header v h = tt
Lacks-to_lower (name ∷ names) header v h = (
  subst (λ (key : Str). lookup key header ≡ none) (canonical_key-to_lower name v.0) h.0,
  Lacks-to_lower names header v.1 h.1,
)

StartsWithout-to_lower :
    (names : List Str) (calls : List Call)
    → All (λ name. are_tokens name ≡ true) names
    → StartsWithout (map to_lower names) calls
    → StartsWithout names calls
StartsWithout-to_lower names [] v h = h
StartsWithout-to_lower names (sent code header ∷ calls) v h = Lacks-to_lower names header v h
StartsWithout-to_lower names (written b ∷ calls) v h = h

-- Of a handler that sends or writes at all, the first header that is sent has none of the names that
-- RemoveHeaders was given, in whatever case they were given and were set by the handler. The names
-- are names that HTTP allows.
pub remove_headers-Lacks :
    (names : List Str) (header : Header) (actions : List Action)
    → All (λ name. are_tokens name ≡ true) names
    → answers actions ≡ true
    → StartsWithout names (act_all actions (remove_headers names header)).calls
remove_headers-Lacks names header actions v h =
    StartsWithout-to_lower names (act_all actions (remove_headers names header)).calls v
      (act_all-Fresh (map to_lower names) actions (remove_headers names header) (refl, refl, refl)
        h).1
