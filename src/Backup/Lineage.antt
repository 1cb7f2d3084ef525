-- ===== src/Backup/Lineage.antt =====
-- supervisor/src/runtime/backup/lineage.rs: which generation of the bucket this database owns.
use vaultwarden_hummingbird.Base.{
  ℕ, ◌≤◌, Bool, Option, none, some, [], ◌∷◌, ◌++◌, ◌≡◌, refl, arith, leb, leb→le, ==_iff,
  Bool-cases, ◌==◌, if◌then◌else◌, ◌↔◌, ◌⊎◌, inl, inr,
}
use vaultwarden_hummingbird.Text.{Str, is_empty, trim, parse_uint}
use vaultwarden_hummingbird.Text.Decimal.{to_decimal, to_decimal-IsWord, parse_uint-to_decimal}
use vaultwarden_hummingbird.Text.Words.{trim_word_line}
use vaultwarden_hummingbird.Backup.Manifest.{u64_max}
use vaultwarden_hummingbird.Backup.World.{World, M, request}

pub data Known : Type 0 where
  generation : ℕ → Known
  legacy_name : Str → Known

abbrev known_value : Str → Option ℕ → Known
known_value value none = legacy_name value
known_value value (some g) = generation g

-- What a sidecar's text records.
unfoldable pub read_text : Str → Option Known
unfolding trim parse_uint
read_text contents =
    let value = trim contents in
    if is_empty value then none else some (known_value value (parse_uint u64_max value))

-- An unreadable sidecar is a missing one.
unfoldable pub read : World → Option Known
unfolding read_text
read w = elim w.sidecar [ none ↦ none | some contents ↦ read_text contents ]

abbrev pub line : Str → Str
line value = value ++ b'\n' ∷ []

-- Best-effort: what the caller does next does not depend on it.
unfoldable pub write : ℕ → M Bool
unfolding request to_decimal
write g = request (λ w. record w { sidecar = some (line (to_decimal g)) })

unfoldable pub write_name : Str → M Bool
unfolding request
write_name name = request (λ w. record w { sidecar = some (line name) })

pub data Verdict : Type 0 where
  proceed refuse : Verdict

unfoldable pub verdict : Option ℕ → ℕ → Verdict
verdict known bucket_latest =
    if bucket_latest == 0
    then proceed
    else elim known [ none ↦ refuse | some g ↦ if leb bucket_latest g then proceed else refuse ]

-- A push is let through exactly when the bucket has no generation, or this database's own is not
-- behind it.
pub verdict_proceed :
    (known : Option ℕ) (bucket_latest : ℕ)
    → (verdict known bucket_latest ≡ proceed)
      ↔ ((bucket_latest ≡ 0) ⊎ ((g : ℕ) × (known ≡ some g) × (bucket_latest ≤ g)))
unfolding verdict
verdict_proceed none l = (λ h. inl (ground arith), λ h. ground arith)
verdict_proceed (some g) l = (λ h. go l g h, λ h. ground arith)
  where
    go :
        (l g : ℕ) → verdict (some g) l ≡ proceed → (l ≡ 0) ⊎ ((k : ℕ) × (some g ≡ some k) × (l ≤ k))
    go l g h = elim (Bool-cases (l == 0)) [
      | inl e ↦ inl ((==_iff l 0).0 e)
      | inr e ↦ elim (Bool-cases (leb l g)) [
        | inl f ↦ inr (g, refl, leb→le l g f)
        | inr f ↦ absurd (ground (arith, h))
      ]
    ]

pub read_text-line : (g : ℕ) → g ≤ u64_max → read_text (line (to_decimal g)) ≡ some (generation g)
unfolding read_text
read_text-line g h =
    rw (trim_word_line (to_decimal g) (to_decimal-IsWord g))
      (rw ((to_decimal-IsWord g).0) (rw (parse_uint-to_decimal g u64_max h)))
