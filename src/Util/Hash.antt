-- ===== src/Util/Hash.antt =====
-- supervisor/src/util/hash.rs: the hexadecimal SHA-256 of a file. The hash itself is the crate sha2,
-- a parameter: `digest` gives the 32 bytes of a file's hash.
use vaultwarden_hummingbird.Base.{
  ℕ, suc, ◌+◌, ◌-◌, ◌*◌, ◌/◌, ◌%◌, ◌<◌, true, ◌&&◌, List, [], ◌∷◌, ◌≡◌, refl, arith, all, length,
  All, ltb, leb, subst, if◌then◌else◌,
}
use vaultwarden_hummingbird.Text.{Str, byte_len, is_hexdigit, ascii_lower}

-- One of the sixteen characters of the table.
abbrev pub hex_digit : ℕ → ℕ
hex_digit n = if ltb n 10 then b'0' + n else b'a' + n - 10

unfoldable pub hex : List ℕ → Str
hex [] = []
hex (byte ∷ bytes) = hex_digit (byte / 16) ∷ hex_digit (byte % 16) ∷ hex bytes

unfoldable pub sha256_file : (List ℕ → List ℕ) → List ℕ → Str
unfolding hex
sha256_file digest content = hex (digest content)

abbrev pub IsBytes : List ℕ → Type 0
IsBytes = All (λ b. b < 256)

-- Two lower-case hexadecimal digits for each byte.
pub record IsHex (n : ℕ) (s : Str) : Type 0 where
  pub width : byte_len s ≡ n
  pub digits : all is_hexdigit s ≡ true
  pub lower : ascii_lower s ≡ s

-- Reading a digit, and reading two digits for each byte, the high one first.
abbrev pub digit_value : ℕ → ℕ
digit_value c = if leb c b'9' then c - b'0' else c - b'a' + 10

abbrev pub unhex : Str → List ℕ
unhex (high ∷ low ∷ s) = (digit_value high * 16 + digit_value low) ∷ unhex s
unhex _ = []

-- One character of a digest.
record IsDigit (c : ℕ) : Type 0 where
  digit : is_hexdigit c ≡ true
  kept : (if leb b'A' c && leb c b'Z' then c + 32 else c) ≡ c
  narrow : c < 128

hex_digit-IsDigit : (n : ℕ) → n < 16 → IsDigit (hex_digit n)
unfolding is_hexdigit
hex_digit-IsDigit n h = record { digit = ground arith; kept = ground arith; narrow = ground arith }

cons-IsHex : (n c : ℕ) (s : Str) → IsDigit c → IsHex n s → IsHex (suc n) (c ∷ s)
unfolding byte_len ascii_lower
cons-IsHex n c s d h = record {
  width = ground (arith, d.narrow, h.width);
  digits = rw (d.digit, h.digits) refl;
  lower = rw (d.kept, h.lower) refl;
}

hex_digit-value : (n : ℕ) → n < 16 → digit_value (hex_digit n) ≡ n
hex_digit-value n h = ground arith

unhex-hex : (bytes : List ℕ) → IsBytes bytes → unhex (hex bytes) ≡ bytes
unfolding hex
unhex-hex [] h = refl
unhex-hex (b ∷ bytes) h =
    let high = hex_digit-value (b / 16) (omega (arith, h.0)) in
    let low = hex_digit-value (b % 16) (omega arith) in
    let byte : digit_value (hex_digit (b / 16)) * 16 + digit_value (hex_digit (b % 16)) ≡ b =
      omega (arith, high, low) in
    cc (byte, unhex-hex bytes h.1)

hex_shape : (bytes : List ℕ) → IsBytes bytes → IsHex (2 * length bytes) (hex bytes)
unfolding hex
hex_shape [] h = unfold byte_len ascii_lower in record { width = refl; digits = refl; lower = refl }
hex_shape (b ∷ bytes) h =
    subst (λ n. IsHex n (hex (b ∷ bytes))) (omega arith)
      (cons-IsHex _ _ _ (hex_digit-IsDigit (b / 16) (omega (arith, h.0)))
        (cons-IsHex _ _ _ (hex_digit-IsDigit (b % 16) (omega arith)) (hex_shape bytes h.1)))

-- The text of `n` bytes has `2 * n` bytes, all of them lower-case hexadecimal digits, and reading it
-- as two digits for each byte, the high one first, gives the bytes back.
pub hex-IsHex :
    (bytes : List ℕ)
    → IsBytes bytes
    → IsHex (2 * length bytes) (hex bytes) × (unhex (hex bytes) ≡ bytes)
hex-IsHex bytes h = (hex_shape bytes h, unhex-hex bytes h)
