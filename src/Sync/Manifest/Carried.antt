-- ===== src/Sync/Manifest/Carried.antt =====
-- The lines of the sync manifest, and what stands at their ends.
use vaultwarden_hummingbird.Base.{
  ℕ, false, [], ◌∷◌, ◌++◌, ◌≡◌, refl, ap, ◌∙◌, arith, ◌==◌, All, All-reverse, reverse,
  reverse-append, append_assoc, Bool-cases, Option-cases, ◌⊎◌, inl, inr,
}
use vaultwarden_hummingbird.Text.{
  Str, is_empty, lines_on, strip_cr_on, trim_start, trim_end, is_whitespace, Lacks, split_once,
  splitn,
}
use vaultwarden_hummingbird.Text.Split.{split_once_sound}
use vaultwarden_hummingbird.Sync.Manifest.Format.{IsPath}

-- A text without line breaks whose last character is no white space.
pub record IsCarried (s : Str) : Type 0 where
  pub start : Str
  pub final : ℕ
  pub ends : s ≡ start ++ final ∷ []
  pub solid : is_whitespace final ≡ false
  pub one_line : Lacks b'\n' s

pub IsCarried-IsPath : (s : Str) → IsCarried s → IsPath s
IsCarried-IsPath s h = record {
  start = h.start;
  end = h.final ∷ [];
  splits = h.ends;
  word = (refl, (h.solid, tt));
  one_line = h.one_line;
}

after-start :
    (p z start : Str) (c : ℕ)
    → is_empty z ≡ false
    → p ++ z ≡ start ++ c ∷ []
    → (t : Str) × (z ≡ t ++ c ∷ [])
after-start [] z start c n e = (start, e)
after-start (d ∷ p) z (b ∷ start) c n e = after-start p z start c n (cc e)
after-start (d ∷ []) [] [] c n e = cc n
after-start (d ∷ []) (b ∷ z) [] c n e = cc e
after-start (d ∷ b ∷ p) z [] c n e = cc e

Lacks-after : (c : ℕ) (p z : Str) → Lacks c (p ++ z) → Lacks c z
Lacks-after c [] z h = h
Lacks-after c (d ∷ p) z h = Lacks-after c p z h.1

pub IsCarried-after : (p z : Str) → is_empty z ≡ false → IsCarried (p ++ z) → IsCarried z
IsCarried-after p z n h =
    let r = after-start p z h.start h.final n h.ends in
    record {
      start = r.0;
      final = h.final;
      ends = r.1;
      solid = h.solid;
      one_line = Lacks-after b'\n' p z h.one_line;
    }

-- The last part of a line that is split.
-- The third part of a line is its end.
pub splitn_rest :
    (c : ℕ) (s : Str) {x y z : Str} → splitn 3 c s ≡ x ∷ y ∷ z ∷ [] → (p : Str) × (s ≡ p ++ z)
unfolding splitn
splitn_rest c s {x} {y} {z} e = elim (Option-cases (split_once c s)) [
  | inl f ↦ cc (rw f at e)
  | inr ((a, b), f) ↦ elim (Option-cases (split_once c b)) [
    | inl g ↦ cc (rw (f, g) at e)
    | inr ((u, v), g) ↦
        let same : v ≡ z = cc (rw (f, g) at e) in
        (
          a ++ c ∷ (u ++ c ∷ []),
          split_once_sound c s {a = a} {b = b} f
              ∙ ap (λ t. a ++ c ∷ t)
                  (split_once_sound c b {a = u} {b = v} g ∙ ap (λ t. u ++ c ∷ t) same)
              ∙ simp append_assoc,
        )
  ]
]

trim_start-cases :
    (s : Str)
    → Lacks b'\n' s
    → (trim_start s ≡ [])
      ⊎ ((c : ℕ) × (t : Str) × (trim_start s ≡ c ∷ t)
          × (is_whitespace c ≡ false)
          × Lacks b'\n' (c ∷ t))
unfolding trim_start
trim_start-cases [] h = inl refl
trim_start-cases (c ∷ s) h = elim (Bool-cases (is_whitespace c)) [
  | inl e ↦ rw e (trim_start-cases s h.1)
  | inr e ↦ rw e (inr (c, s, refl, e, h))
]

pub trim_end-IsCarried :
    (s : Str) → Lacks b'\n' s → is_empty (trim_end s) ≡ false → IsCarried (trim_end s)
unfolding trim_end
trim_end-IsCarried s h n = elim (trim_start-cases (reverse s) (All-reverse _ s h)) [
  | inl e ↦ cc (rw e at n)
  | inr (c, t, e, solid, l) ↦ rw e (record {
    start = reverse t;
    final = c;
    ends = reverse-append (c ∷ []) t;
    solid = solid;
    one_line = All-reverse _ (c ∷ t) l;
  })
]

strip_cr_on-Lacks : (s : Str) → Lacks b'\n' s → Lacks b'\n' (strip_cr_on s)
strip_cr_on-Lacks [] h = tt
strip_cr_on-Lacks (c ∷ s) h = elim (Bool-cases (c == b'\r')) [ inl e ↦ rw e h.1 | inr e ↦ rw e h ]

pub lines_on-Lacks : (acc s : Str) → Lacks b'\n' acc → All (Lacks b'\n') (lines_on acc s)
unfolding lines_on
lines_on-Lacks acc [] h = elim (Bool-cases (is_empty acc)) [
  | inl e ↦ rw e tt
  | inr e ↦ rw e (All-reverse _ acc h, tt)
]
lines_on-Lacks acc (c ∷ s) h = elim (Bool-cases (c == b'\n')) [
  | inl e ↦
      rw (e, lines_on)
        (All-reverse _ (strip_cr_on acc) (strip_cr_on-Lacks acc h), lines_on-Lacks [] s tt)
  | inr e ↦ rw (e, lines_on) (lines_on-Lacks (c ∷ acc) s (ground (arith, e), h))
]
