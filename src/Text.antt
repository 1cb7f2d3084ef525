-- ===== src/Text.antt =====
-- Text, as `&str` and `String` give it to the supervisor: a list of code points. The functions
-- are those of Rust's `str` that the sources call; the laws about them are in the modules below.
pub mod Split
pub mod Words
pub mod Decimal
pub mod Utf8
pub mod Order
use Prim.Native.Char.{code}
use Prim.Native.String.{String}
use vaultwarden_hummingbird.Base.{
  ℕ, zero, suc, ◌+◌, ◌-◌, ◌*◌, Bool, true, false, ◌&&◌, ◌||◌, Option, none, some, List, [], ◌∷◌,
  ◌++◌, ◌≡◌, ◌↔◌, refl, arith, reverse, ltb, leb, ◌==◌, if◌then◌else◌, All,
}

abbrev pub Str : Type 0
Str = List ℕ

-- The code points of a literal.
abbrev pub codes : String → Str
codes String.[] = []
codes (String.◌∷◌ c s) = code c ∷ codes s

abbrev pub is_empty : Str → Bool
is_empty [] = true
is_empty (c ∷ s) = false

unfoldable pub str_eq : Str → Str → Bool
str_eq [] [] = true
str_eq (a ∷ s) (b ∷ t) = a == b && str_eq s t
str_eq _ _ = false

pub str_eq_iff : (s t : Str) → (str_eq s t ≡ true) ↔ (s ≡ t)
unfolding str_eq
str_eq_iff (a ∷ s) (b ∷ t) = ground (arith, str_eq_iff s t)
str_eq_iff _ _ = ground arith

pub str_eq_refl : (s : Str) → str_eq s s ≡ true
str_eq_refl s = (str_eq_iff s s).1 refl

-- The order of `String` is that of its bytes, which for UTF-8 is the order of the code points.
unfoldable pub str_lt : Str → Str → Bool
str_lt [] [] = false
str_lt [] (b ∷ t) = true
str_lt (a ∷ s) [] = false
str_lt (a ∷ s) (b ∷ t) = ltb a b || (a == b && str_lt s t)

-- The length of a text in UTF-8, which is what `str::len` returns.
abbrev utf8_width : ℕ → ℕ
utf8_width c = if ltb c 0x80 then 1 else if ltb c 0x800 then 2 else if ltb c 0x10000 then 3 else 4

unfoldable pub byte_len : Str → ℕ
byte_len [] = 0
byte_len (c ∷ s) = utf8_width c + byte_len s

-- `str::strip_prefix` and `str::starts_with` with a text.
unfoldable pub strip_prefix : Str → Str → Option Str
strip_prefix [] s = some s
strip_prefix (p ∷ ps) [] = none
strip_prefix (p ∷ ps) (c ∷ s) = if p == c then strip_prefix ps s else none

unfoldable pub starts_with : Str → Str → Bool
starts_with [] s = true
starts_with (p ∷ ps) [] = false
starts_with (p ∷ ps) (c ∷ s) = p == c && starts_with ps s

-- `s.ends_with(p)`.
unfoldable pub ends_with : Str → Str → Bool
unfolding starts_with
ends_with p s = starts_with (reverse p) (reverse s)

-- `s.contains(p)` with a text.
unfoldable pub contains : Str → Str → Bool
unfolding starts_with
contains p [] = starts_with p []
contains p (c ∷ s) = starts_with p (c ∷ s) || contains p s

-- `s.contains(c)` with one character.
unfoldable pub contains_char : ℕ → Str → Bool
contains_char c [] = false
contains_char c (d ∷ s) = c == d || contains_char c s

-- The text does not hold the character.
abbrev pub Lacks : ℕ → Str → Type 0
Lacks c = All (λ d. (c == d) ≡ false)

-- `str::split_once` and `str::rsplit_once` with one character.
abbrev before : ℕ → Option (Str × Str) → Option (Str × Str)
before d none = none
before d (some (a, b)) = some (d ∷ a, b)

unfoldable pub split_once : ℕ → Str → Option (Str × Str)
split_once c [] = none
split_once c (d ∷ s) = if c == d then some ([], s) else before d (split_once c s)

abbrev pub at_last : ℕ → ℕ → Str → Option (Str × Str) → Option (Str × Str)
at_last c d s none = if c == d then some ([], s) else none
at_last c d s (some (a, b)) = some (d ∷ a, b)

unfoldable pub rsplit_once : ℕ → Str → Option (Str × Str)
rsplit_once c [] = none
rsplit_once c (d ∷ s) = at_last c d s (rsplit_once c s)

-- `str::splitn(n, c)`, all parts at once.
abbrev cut : (Str → List Str) → Str → Option (Str × Str) → List Str
cut more s none = s ∷ []
cut more s (some (a, b)) = a ∷ more b

unfoldable pub splitn : ℕ → ℕ → Str → List Str
unfolding split_once
splitn zero c s = []
splitn (suc zero) c s = s ∷ []
splitn (suc (suc n)) c s = cut (splitn (suc n) c) s (split_once c s)

-- Unicode `White_Space`, as `char::is_whitespace` has it.
unfoldable pub is_whitespace : ℕ → Bool
is_whitespace c =
    (leb 0x09 c && leb c 0x0d)
    || c == 0x20
    || c == 0x85
    || c == 0xa0
    || c == 0x1680
    || (leb 0x2000 c && leb c 0x200a)
    || c == 0x2028
    || c == 0x2029
    || c == 0x202f
    || c == 0x205f
    || c == 0x3000

unfoldable pub trim_start : Str → Str
unfolding is_whitespace
trim_start [] = []
trim_start (c ∷ s) = if is_whitespace c then trim_start s else c ∷ s

unfoldable pub trim_end : Str → Str
unfolding trim_start
trim_end s = reverse (trim_start (reverse s))

unfoldable pub trim : Str → Str
unfolding trim_end trim_start
trim s = trim_end (trim_start s)

-- `str::lines`: a line ends in "\n" or "\r\n"; what follows the last "\n" is a line if it is not
-- empty, and keeps its "\r".
abbrev pub strip_cr_on : Str → Str
strip_cr_on [] = []
strip_cr_on (c ∷ s) = if c == b'\r' then s else c ∷ s

unfoldable pub lines_on : Str → Str → List Str
lines_on acc [] = if is_empty acc then [] else reverse acc ∷ []
lines_on acc (c ∷ s) = elim (c == b'\n') [
  | true ↦ reverse (strip_cr_on acc) ∷ lines_on [] s
  | false ↦ lines_on (c ∷ acc) s
]

unfoldable pub lines : Str → List Str
unfolding lines_on
lines s = lines_on [] s

-- `str::split_whitespace`, all words at once.
abbrev word_on : Str → List Str → List Str
word_on [] rest = rest
word_on (c ∷ acc) rest = reverse (c ∷ acc) ∷ rest

unfoldable pub words_on : Str → Str → List Str
unfolding is_whitespace
words_on acc [] = word_on acc []
words_on acc (c ∷ s) = elim (is_whitespace c) [
  | true ↦ word_on acc (words_on [] s)
  | false ↦ words_on (c ∷ acc) s
]

unfoldable pub split_whitespace : Str → List Str
unfolding words_on
split_whitespace s = words_on [] s

-- `to_ascii_lowercase`.
unfoldable pub ascii_lower : Str → Str
ascii_lower [] = []
ascii_lower (c ∷ s) = (if leb b'A' c && leb c b'Z' then c + 32 else c) ∷ ascii_lower s

-- `c.is_ascii_hexdigit()`.
unfoldable pub is_hexdigit : ℕ → Bool
is_hexdigit c =
    (leb b'0' c && leb c b'9') || (leb b'a' c && leb c b'f') || (leb b'A' c && leb c b'F')

-- `str::parse` at an unsigned type whose largest value is `top`: one or more digits behind at most
-- one "+", and no overflow.
unfoldable pub scan : ℕ → Str → ℕ → Option ℕ
scan top [] n = some n
scan top (c ∷ s) n =
    let m = n * 10 + (c - b'0') in
    let rest = scan top s m in if leb b'0' c && leb c b'9' && leb m top then rest else none

unfoldable pub scan_some : ℕ → Str → Option ℕ
unfolding scan
scan_some top [] = none
scan_some top (c ∷ s) = scan top (c ∷ s) 0

unfoldable pub parse_uint : ℕ → Str → Option ℕ
unfolding scan_some
parse_uint top [] = none
parse_uint top (c ∷ s) = if c == b'+' then scan_some top s else scan_some top (c ∷ s)
