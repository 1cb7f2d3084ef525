-- ===== src/Text/Split.antt =====
-- Splitting a text at a character that its left (or right) part does not hold.
use vaultwarden_hummingbird.Base.{
  ℕ, true, none, some, [], ◌∷◌, ◌++◌, ◌≡◌, refl, arith, ◌∙◌, reverse, reverse_aux, reverse-reverse,
  Bool-cases, Option-cases, inl, inr, ==_iff, ◌==◌,
}
use vaultwarden_hummingbird.Text.{
  Str, Lacks, split_once, rsplit_once, splitn, strip_prefix, lines, lines_on, strip_cr_on,
}

pub ==_refl : (c : ℕ) → (c == c) ≡ true
==_refl c = ground arith

==_sym : (a b : ℕ) → (a == b) ≡ (b == a)
==_sym a b = ground arith

pub split_once-append : (c : ℕ) (l r : Str) → Lacks c l → split_once c (l ++ c ∷ r) ≡ some (l, r)
unfolding split_once
split_once-append c [] r h = ground arith
split_once-append c (d ∷ l) r h = rw (h.0, split_once-append c l r h.1)

pub split_once_sound : (c : ℕ) (s : Str) {a b : Str} → split_once c s ≡ some (a, b) → s ≡ a ++ c ∷ b
unfolding split_once
split_once_sound c [] e = cc
split_once_sound c (d ∷ s) {a} {b} e = elim (Bool-cases (c == d)) [
  | inl f ↦ cc ((==_iff c d).0 f, rw f at e)
  | inr f ↦ elim (Option-cases (split_once c s)) [
    | inl g ↦ cc (rw (f, g) at e)
    | inr ((x, y), g) ↦ cc (split_once_sound c s {a = x} {b = y} g, rw (f, g) at e)
  ]
]

pub rsplit_once-none : (c : ℕ) (r : Str) → Lacks c r → rsplit_once c r ≡ none
unfolding rsplit_once
rsplit_once-none c [] h = refl
rsplit_once-none c (d ∷ r) h = rw (rsplit_once-none c r h.1, h.0)

pub rsplit_once-append : (c : ℕ) (l r : Str) → Lacks c r → rsplit_once c (l ++ c ∷ r) ≡ some (l, r)
unfolding rsplit_once
rsplit_once-append c [] r h = rw (rsplit_once-none c r h, ==_refl c)
rsplit_once-append c (d ∷ l) r h = rw (rsplit_once-append c l r h)

pub strip_prefix-append : (p s : Str) → strip_prefix p (p ++ s) ≡ some s
unfolding strip_prefix
strip_prefix-append [] s = refl
strip_prefix-append (c ∷ p) s = rw (==_refl c, strip_prefix-append p s)

pub strip_prefix_sound : (p s : Str) {r : Str} → strip_prefix p s ≡ some r → s ≡ p ++ r
unfolding strip_prefix
strip_prefix_sound [] s e = ground arith
strip_prefix_sound (c ∷ p) [] e = cc
strip_prefix_sound (c ∷ p) (d ∷ s) {r} e = ground (arith, strip_prefix_sound p s {r = r})

-- The first line of a text, up to its "\n".
lines_on-append :
    (acc l r : Str)
    → Lacks b'\n' l
    → lines_on acc (l ++ b'\n' ∷ r) ≡ reverse (strip_cr_on (reverse_aux l acc)) ∷ lines_on [] r
unfolding lines_on
lines_on-append acc [] r h = refl
lines_on-append acc (c ∷ l) r h =
    rw (==_sym c b'\n' ∙ h.0, lines_on) (lines_on-append (c ∷ acc) l r h.1)

pub lines-append :
    (l r : Str)
    → Lacks b'\n' l
    → strip_cr_on (reverse l) ≡ reverse l
    → lines (l ++ b'\n' ∷ r) ≡ l ∷ lines r
unfolding lines
lines-append l r h e = lines_on-append [] l r h ∙ rw (e, reverse-reverse)

pub splitn_three :
    (c : ℕ) (a b r : Str)
    → Lacks c a
    → Lacks c b
    → splitn 3 c (a ++ c ∷ (b ++ c ∷ r)) ≡ a ∷ b ∷ r ∷ []
unfolding splitn
splitn_three c a b r h k = rw (split_once-append c a _ h, split_once-append c b r k)
