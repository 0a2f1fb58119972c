-- ===== src/Middleware/Runes.antt =====
-- string(rune(n)) of Go: the UTF-8 text of one code point, which the middlewares write to headers.
use discobox.Prelude.{
  Str, ℕ, ◌+◌, ◌/◌, ◌%◌, ◌^◌, Bool, true, ◌&&◌, [], ◌∷◌, if◌then◌else◌, ltb, leb,
}

-- A code point that is none, or half of a surrogate pair, is written as U+FFFD.
abbrev is_code_point : ℕ → Bool
is_code_point n = if ltb n 0xD800 then true else leb 0xE000 n && ltb n 0x110000

abbrev utf8 : ℕ → Str
utf8 n =
    if ltb n 0x80
    then n ∷ []
    else if ltb n 0x800
    then (0xC0 + n / 64) ∷ (0x80 + n % 64) ∷ []
    else if ltb n 0x10000
    then (0xE0 + n / 4096) ∷ (0x80 + n / 64 % 64) ∷ (0x80 + n % 64) ∷ []
    else (0xF0 + n / 262144) ∷ (0x80 + n / 4096 % 64) ∷ (0x80 + n / 64 % 64) ∷ (0x80 + n % 64) ∷ []

-- `n` is not negative; the conversion keeps its low 32 bits.
unfoldable pub string_of_rune : ℕ → Str
string_of_rune n = let r = n % 2 ^ 32 in utf8 (if is_code_point r then r else 0xFFFD)
