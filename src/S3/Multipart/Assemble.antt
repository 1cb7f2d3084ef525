-- ===== src/S3/Multipart/Assemble.antt =====
-- What the bucket makes of numbered parts and the list of their tags.
use vaultwarden_hummingbird.Base.{
  ℕ, ◌+◌, true, false, Option, none, some, List, [], ◌∷◌, ◌++◌, ◌≡◌, refl, sym, ap, ◌∙◌, arith,
  length, ◌==◌, append_assoc, append-nil,
}
use vaultwarden_hummingbird.Text.{Str, str_eq_iff}
use vaultwarden_hummingbird.S3.Multipart.{part_with, join, tagged, assemble}

join-some :
    (x y : Option (List ℕ)) {a : List ℕ}
    → join x y ≡ some a
    → (b : List ℕ) × (c : List ℕ) × (x ≡ some b) × (y ≡ some c) × (a ≡ b ++ c)
join-some none y e = cc e
join-some (some b) none e = cc e
join-some (some b) (some c) e = (b, c, refl, refl, sym (cc e))

module _ (etag : List ℕ → Str) where
  -- One more part, with the next number and its own tag, is put behind the others.
  pub assemble-append :
      (first number : ℕ) (tags : List Str) (parts : List (ℕ × List ℕ)) (chunk whole : List ℕ)
      → number ≡ length tags + first
      → assemble etag first tags parts ≡ some whole
      → assemble etag first (tags ++ etag chunk ∷ []) ((number, chunk) ∷ parts)
        ≡ some (whole ++ chunk)
  unfolding assemble part_with
  assemble-append first number [] parts chunk whole n e =
      let here : (number == first) ≡ true = ground (arith, n) in
      let none_before : [] ≡ whole = cc e in
      rw (here, (str_eq_iff (etag chunk) (etag chunk)).1 refl)
        (ap some (append-nil chunk) ∙ ap (λ x. some (x ++ chunk)) none_before)
  assemble-append first number (tag ∷ tags) parts chunk whole n e =
      let other : (number == first) ≡ false = ground (arith, n) in
      let (b, c, x, y, same) =
        join-some (tagged etag tag (part_with first parts)) (assemble etag (first + 1) tags parts)
          e in
      let rest = assemble-append (first + 1) number tags parts chunk c (omega (arith, n)) y in
      rw (other, x, rest) (ap some (sym (append_assoc b c chunk) ∙ ap (λ z. z ++ chunk) (sym same)))
