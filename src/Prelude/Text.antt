-- ===== src/Prelude/Text.antt =====
-- Text as Go has it: a string is its sequence of bytes. The tests of package strings that the
-- program calls.
use Prim.Native.Char.{code}
use Prim.Native.Nat.{ℕ, suc}
use Prim.Native.String.{String}
use mathlib.Core.Bool.{Bool, true, false, ◌&&◌, ◌||◌}
use mathlib.Core.List.{List, [], ◌∷◌, reverse}
use mathlib.Core.Option.{Option, none, some}
use discobox.Prelude.Equality.{Eq, ◌==◌, nat_eq, list_beq, list_beq_iff}
use discobox.Prelude.Tests.{if◌then◌else◌, ltb}
use discobox.Prelude.Lists.{take}

abbrev pub Str : Type 0
Str = List ℕ

instance abbrev pub str_eq : Eq Str
str_eq = record { beq = list_beq; beq_iff = list_beq_iff }

-- A literal of ASCII text.
abbrev pub text : String → Str
text String.[] = []
text (String.◌∷◌ c s) = code c ∷ text s

-- s == ""
abbrev pub is_empty : Str → Bool
is_empty [] = true
is_empty (c ∷ s) = false

-- strings.HasPrefix(s, prefix), with the arguments in that order.
unfoldable pub has_prefix : Str → Str → Bool
has_prefix s [] = true
has_prefix [] (p ∷ ps) = false
has_prefix (c ∷ s) (p ∷ ps) = c == p && has_prefix s ps

-- strings.HasSuffix(s, suffix)
unfoldable pub has_suffix : Str → Str → Bool
unfolding has_prefix
has_suffix s suffix = has_prefix (reverse s) (reverse suffix)

-- strings.LastIndex(s, b), for a text of one byte.
unfoldable pub last_index : Str → ℕ → Option ℕ
last_index [] b = none
last_index (c ∷ s) b = elim (last_index s b) [
  | some i ↦ some (suc i)
  | none ↦ if c == b then some 0 else none
]

-- strings.Contains(s, b), for a text of one byte.
unfoldable pub contains : Str → ℕ → Bool
contains [] b = false
contains (c ∷ s) b = c == b || contains s b

-- if idx := strings.LastIndex(host, ":"); idx != -1 { host = host[:idx] }
unfoldable pub strip_port : Str → Str
unfolding last_index
strip_port host = elim (last_index host b':') [ some i ↦ take i host | none ↦ host ]

-- s < t, by bytes.
unfoldable pub less : Str → Str → Bool
less [] [] = false
less [] (d ∷ t) = true
less (c ∷ s) [] = false
less (c ∷ s) (d ∷ t) = if c == d then less s t else ltb c d
