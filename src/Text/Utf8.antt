-- ===== src/Text/Utf8.antt =====
-- UTF-8: the bytes of a text, and `String::from_utf8`.
use vaultwarden_hummingbird.Base.{
  ℕ, zero, suc, ◌+◌, ◌-◌, ◌*◌, ◌/◌, ◌%◌, Bool, ◌&&◌, ◌||◌, Option, none, some, List, [], ◌∷◌, ◌++◌,
  ltb, leb, if◌then◌else◌,
}
use vaultwarden_hummingbird.Text.{Str}

abbrev utf8 : ℕ → List ℕ
utf8 c =
    if ltb c 0x80
    then c ∷ []
    else if ltb c 0x800
    then (0xC0 + c / 64) ∷ (0x80 + c % 64) ∷ []
    else if ltb c 0x10000
    then (0xE0 + c / 4096) ∷ (0x80 + c / 64 % 64) ∷ (0x80 + c % 64) ∷ []
    else (0xF0 + c / 262144) ∷ (0x80 + c / 4096 % 64) ∷ (0x80 + c / 64 % 64) ∷ (0x80 + c % 64) ∷ []

unfoldable pub as_bytes : Str → List ℕ
as_bytes [] = []
as_bytes (c ∷ s) = utf8 c ++ as_bytes s

abbrev push_char : ℕ → Option Str → Option Str
push_char c none = none
push_char c (some s) = some (c ∷ s)

abbrev tail_of : ℕ → ℕ
tail_of b = b - 0x80

abbrev in_range : ℕ → ℕ → ℕ → Bool
in_range low high b = leb low b && leb b high

-- A byte of a character that needs `n` more bytes, `c` being what the bytes so far give, and
-- `low` and `high` the bounds of the next one: they exclude overlong forms, surrogates and what lies
-- beyond U+10FFFF.
unfoldable pub decode_on : ℕ → ℕ → ℕ → ℕ → List ℕ → Option Str
decode_on n c low high [] = if leb n 0 then some [] else none
decode_on zero c low high (b ∷ s) =
    let one = decode_on 0 0 0x80 0xBF s in
    let two = decode_on 1 (b - 0xC0) 0x80 0xBF s in
    let three =
      decode_on 2 (b - 0xE0) (if leb b 0xE0 then 0xA0 else 0x80)
        (if ltb b 0xED || ltb 0xED b then 0xBF else 0x9F) s in
    let four =
      decode_on 3 (b - 0xF0) (if leb b 0xF0 then 0x90 else 0x80) (if ltb b 0xF4 then 0xBF else 0x8F)
        s in
    if ltb b 0x80
    then push_char b one
    else if in_range 0xC2 0xDF b
    then two
    else if in_range 0xE0 0xEF b
    then three
    else if in_range 0xF0 0xF4 b
    then four
    else none
decode_on (suc zero) c low high (b ∷ s) =
    let rest = decode_on 0 0 0x80 0xBF s in
    if in_range low high b then push_char (c * 64 + tail_of b) rest else none
decode_on (suc (suc n)) c low high (b ∷ s) =
    let rest = decode_on (suc n) (c * 64 + tail_of b) 0x80 0xBF s in
    if in_range low high b then rest else none

unfoldable pub from_utf8 : List ℕ → Option Str
unfolding decode_on
from_utf8 s = decode_on 0 0 0x80 0xBF s
