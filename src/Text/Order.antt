-- ===== src/Text/Order.antt =====
-- The order of texts.
use vaultwarden_hummingbird.Base.{true, false, [], ◌∷◌, ◌≡◌, refl, arith, Bool-cases, inl, inr}
use vaultwarden_hummingbird.Text.{Str, str_eq, str_eq_iff, str_lt}

pub str_lt-asym : (a b : Str) → str_lt a b ≡ true → (str_eq a b ≡ false) × (str_lt b a ≡ false)
unfolding str_lt str_eq
str_lt-asym [] [] h = cc
str_lt-asym [] (d ∷ b) h = (refl, refl)
str_lt-asym (c ∷ a) [] h = cc
str_lt-asym (c ∷ a) (d ∷ b) h = elim (Bool-cases (str_lt a b)) [
  | inl e ↦ let r = str_lt-asym a b e in (ground (arith, r.0), ground (arith, r.1))
  | inr e ↦ (ground (arith, h, e), ground (arith, h, e))
]

pub str_lt-total : (a b : Str) → str_eq b a ≡ false → str_lt a b ≡ false → str_lt b a ≡ true
unfolding str_lt str_eq
str_lt-total [] [] h k = cc
str_lt-total [] (d ∷ b) h k = cc
str_lt-total (c ∷ a) [] h k = refl
str_lt-total (c ∷ a) (d ∷ b) h k = ground (arith, h, k, str_lt-total a b)

pub str_lt_trans : (a b c : Str) → str_lt a b ≡ true → str_lt b c ≡ true → str_lt a c ≡ true
unfolding str_lt
str_lt_trans a [] [] h k = cc
str_lt_trans a (y ∷ b) [] h k = cc
str_lt_trans [] (y ∷ b) (z ∷ c) h k = refl
str_lt_trans (x ∷ a) (y ∷ b) (z ∷ c) h k = ground (arith, h, k, str_lt_trans a b c)
str_lt_trans [] [] (z ∷ c) h k = cc
str_lt_trans (x ∷ a) [] (z ∷ c) h k = cc

pub str_lt_same : (a : Str) → str_lt a a ≡ false
str_lt_same a = elim (Bool-cases (str_lt a a)) [ inl e ↦ (str_lt-asym a a e).1 | inr e ↦ e ]

-- Not being behind is transitive.
pub not_below : (z x y : Str) → str_lt z y ≡ false → str_lt y x ≡ false → str_lt z x ≡ false
not_below z x y h k = elim (Bool-cases (str_lt z x)) [
  | inr e ↦ e
  | inl e ↦ elim (Bool-cases (str_eq x y)) [
    | inl s ↦ cc (e, h, (str_eq_iff x y).0 s)
    | inr s ↦ cc (str_lt_trans z x y e (str_lt-total y x s k), h)
  ]
]
