-- ===== src/Text/Decimal.antt =====
-- Decimal numbers: `to_decimal` is what `{}` prints, and `str::parse` reads it back.
use vaultwarden_hummingbird.Base.{
  ℕ, zero, suc, ◌+◌, ◌-◌, ◌*◌, ◌/◌, ◌%◌, ◌≤◌, ◌<◌, true, false, some, [], ◌∷◌, ◌≡◌, refl, arith,
  ltb, ◌==◌, if◌then◌else◌, All, All-map, ◌∙◌,
}
use vaultwarden_hummingbird.Text.{Str, Lacks, is_empty, is_whitespace, scan, parse_uint}
use vaultwarden_hummingbird.Text.Words.{IsWord}

digits_on : ℕ → ℕ → Str → Str
digits_on zero n out = out
digits_on (suc f) n out =
    let digit = b'0' + n % 10 in
    let more = digits_on f (n / 10) (digit ∷ out) in if ltb n 10 then digit ∷ out else more

-- `format!("{n}")`: the fuel is one more than `n`, and each round takes a digit off.
unfoldable pub to_decimal : ℕ → Str
unfolding digits_on
to_decimal n = digits_on (suc n) n []

abbrev pub IsDigit : ℕ → Type 0
IsDigit c = (b'0' ≤ c) × (c ≤ b'9')

digits_on-scan :
    (f n top : ℕ) (out : Str) → n < f → n ≤ top → scan top (digits_on f n out) 0 ≡ scan top out n
unfolding digits_on scan
digits_on-scan zero n top out h k = elim h [ ]
digits_on-scan (suc f) n top out h k =
    ground (arith, digits_on-scan f (n / 10) top ((b'0' + n % 10) ∷ out))

digits_on-IsDigit : (f n : ℕ) (out : Str) → All IsDigit out → All IsDigit (digits_on f n out)
unfolding digits_on
digits_on-IsDigit zero n out h = h
digits_on-IsDigit (suc f) n out h =
    ground (arith, digits_on-IsDigit f (n / 10) ((b'0' + n % 10) ∷ out))

pub to_decimal-IsDigit : (n : ℕ) → All IsDigit (to_decimal n)
unfolding to_decimal
to_decimal-IsDigit n = digits_on-IsDigit (suc n) n [] tt

digits_on-is_empty :
    (f n : ℕ) (out : Str) → is_empty out ≡ false → is_empty (digits_on f n out) ≡ false
unfolding digits_on
digits_on-is_empty zero n out h = h
digits_on-is_empty (suc f) n out h =
    ground (arith, digits_on-is_empty f (n / 10) ((b'0' + n % 10) ∷ out))

pub to_decimal-is_empty : (n : ℕ) → is_empty (to_decimal n) ≡ false
unfolding to_decimal
to_decimal-is_empty n = ground (arith, digits_on-is_empty n (n / 10) ((b'0' + n % 10) ∷ []))

parse_uint-scan :
    (top : ℕ) (s : Str) → is_empty s ≡ false → All IsDigit s → parse_uint top s ≡ scan top s 0
unfolding parse_uint scan
parse_uint-scan top [] e h = cc
parse_uint-scan top (c ∷ s) e h = ground arith

-- Printing a number and parsing it gives the number, if its type can hold it.
pub parse_uint-to_decimal : (n top : ℕ) → n ≤ top → parse_uint top (to_decimal n) ≡ some n
unfolding to_decimal
parse_uint-to_decimal n top h =
    parse_uint-scan top _ (to_decimal-is_empty n) (to_decimal-IsDigit n)
    ∙ digits_on-scan (suc n) n top [] (omega arith) h
    ∙ unfold scan in refl

-- What `str::parse` accepts fits the type.
scan_bound : (top : ℕ) (s : Str) (n : ℕ) {r : ℕ} → n ≤ top → scan top s n ≡ some r → r ≤ top
unfolding scan
scan_bound top [] n h e = ground arith
scan_bound top (c ∷ s) n {r} h e = ground (arith, scan_bound top s (n * 10 + (c - b'0')) {r = r})

pub parse_uint_bound : (top : ℕ) (s : Str) {r : ℕ} → parse_uint top s ≡ some r → r ≤ top
unfolding parse_uint
parse_uint_bound top [] e = cc
parse_uint_bound top (c ∷ []) {r} e = ground (arith, scan_bound top (c ∷ []) 0 {r = r})
parse_uint_bound top (c ∷ d ∷ s) {r} e =
    ground (arith, scan_bound top (c ∷ d ∷ s) 0 {r = r}, scan_bound top (d ∷ s) 0 {r = r})

IsDigit-NoSpace : (c : ℕ) → IsDigit c → is_whitespace c ≡ false
unfolding is_whitespace
IsDigit-NoSpace c h = ground arith

pub to_decimal-IsWord : (n : ℕ) → IsWord (to_decimal n)
to_decimal-IsWord n = (
  to_decimal-is_empty n,
  All-map IsDigit (λ c. is_whitespace c ≡ false) (to_decimal n) IsDigit-NoSpace
      (to_decimal-IsDigit n),
)

-- A digit is none of the separators of the line formats.
pub to_decimal-Lacks : (c n : ℕ) → ltb c b'0' ≡ true → Lacks c (to_decimal n)
to_decimal-Lacks c n h =
    All-map IsDigit (λ d. (c == d) ≡ false) (to_decimal n) (λ d k. ground arith)
      (to_decimal-IsDigit n)
