-- ===== src/Text/Words.antt =====
-- Trimming, and the words between white space.
use vaultwarden_hummingbird.Base.{
  ℕ, true, false, ◌&&◌, List, [], ◌∷◌, ◌++◌, ◌≡◌, refl, sym, ◌∙◌, ap, arith, reverse, reverse_aux,
  reverse-reverse, reverse-append, append_assoc, append-nil, Bool-cases, inl, inr, ◌==◌, ==_iff,
  All-map, All-append, subst, All, All-reverse,
}
use vaultwarden_hummingbird.Text.Split.{lines-append}
use vaultwarden_hummingbird.Text.{
  Str, is_empty, is_whitespace, trim_start, trim_end, trim, word_on, words_on, split_whitespace,
  Lacks, lines, strip_cr_on,
}

abbrev pub NoSpace : Str → Type 0
NoSpace = All (λ c. is_whitespace c ≡ false)

-- A word: some characters, none of them white space.
abbrev pub IsWord : Str → Type 0
IsWord w = (is_empty w ≡ false) × NoSpace w

is_empty-reverse_aux : (w acc : Str) → is_empty (reverse_aux w acc) ≡ (is_empty w && is_empty acc)
is_empty-reverse_aux [] acc = refl
is_empty-reverse_aux (c ∷ w) acc = is_empty-reverse_aux w (c ∷ acc) ∙ ground arith

IsWord-reverse : (w : Str) → IsWord w → IsWord (reverse w)
IsWord-reverse w (e, h) =
    (is_empty-reverse_aux w [] ∙ ground arith, All-reverse (λ c. is_whitespace c ≡ false) w h)

pub trim_start-append : (w r : Str) → IsWord w → trim_start (w ++ r) ≡ w ++ r
unfolding trim_start
trim_start-append [] r h = cc
trim_start-append (c ∷ w) r h = rw (h.1.0)

pub trim_end-append : (l w : Str) → IsWord w → trim_end (l ++ w) ≡ l ++ w
unfolding trim_end
trim_end-append l w h = rw reverse-append (
    rw (trim_start-append (reverse w) (reverse l) (IsWord-reverse w h))
      (ap reverse (sym (reverse-append l w)) ∙ reverse-reverse (l ++ w)))

-- A text that starts and ends with a word is its own trim.
pub trim-append : (w l v : Str) → IsWord w → IsWord v → trim (w ++ (l ++ v)) ≡ w ++ (l ++ v)
unfolding trim
trim-append w l v h k =
    ap trim_end (trim_start-append w (l ++ v) h)
    ∙ ap trim_end (sym (append_assoc w l v))
    ∙ trim_end-append (w ++ l) v k
    ∙ append_assoc w l v

word_on-cons :
    (acc : Str) (rest : List Str) → is_empty acc ≡ false → word_on acc rest ≡ reverse acc ∷ rest
word_on-cons [] rest e = cc
word_on-cons (c ∷ acc) rest e = refl

words_on-append :
    (acc w r : Str) → NoSpace w → words_on acc (w ++ r) ≡ words_on (reverse_aux w acc) r
unfolding words_on
words_on-append acc [] r h = refl
words_on-append acc (c ∷ w) r h = rw (h.0, words_on) (words_on-append (c ∷ acc) w r h.1)

pub split_whitespace-append :
    (w : Str) (c : ℕ) (r : Str)
    → IsWord w
    → is_whitespace c ≡ true
    → split_whitespace (w ++ c ∷ r) ≡ w ∷ split_whitespace r
unfolding split_whitespace words_on
split_whitespace-append w c r h k =
    words_on-append [] w (c ∷ r) h.1
    ∙ rw (k, words_on)
        (word_on-cons (reverse w) (words_on [] r) (IsWord-reverse w h).0 ∙ rw reverse-reverse)

pub split_whitespace_word : (w : Str) → IsWord w → split_whitespace w ≡ w ∷ []
unfolding split_whitespace words_on
split_whitespace_word w h =
    ap (words_on []) (sym (append-nil w))
    ∙ words_on-append [] w [] h.1
    ∙ word_on-cons (reverse w) [] (IsWord-reverse w h).0
    ∙ rw reverse-reverse

word_on-IsWord :
    (acc : Str) (rest : List Str) → NoSpace acc → All IsWord rest → All IsWord (word_on acc rest)
word_on-IsWord [] rest h k = k
word_on-IsWord (c ∷ acc) rest h k = (IsWord-reverse (c ∷ acc) (refl, h), k)

words_on-IsWord : (acc s : Str) → NoSpace acc → All IsWord (words_on acc s)
unfolding words_on
words_on-IsWord acc [] h = word_on-IsWord acc [] h tt
words_on-IsWord acc (c ∷ s) h = elim (Bool-cases (is_whitespace c)) [
  | inl e ↦ rw (e, words_on) (word_on-IsWord acc (words_on [] s) h (words_on-IsWord [] s tt))
  | inr e ↦ rw (e, words_on) (words_on-IsWord (c ∷ acc) s (e, h))
]

-- Every item of `split_whitespace` is a word.
pub split_whitespace-IsWord : (s : Str) → All IsWord (split_whitespace s)
unfolding split_whitespace
split_whitespace-IsWord s = words_on-IsWord [] s tt

not_space : (a c : ℕ) → is_whitespace a ≡ true → is_whitespace c ≡ false → (a == c) ≡ false
not_space a c h k = elim (Bool-cases (a == c)) [ inl e ↦ cc ((==_iff a c).0 e) | inr e ↦ e ]

-- No separator that is white space stands in a word.
pub NoSpace-Lacks : (c : ℕ) (w : Str) → is_whitespace c ≡ true → NoSpace w → Lacks c w
NoSpace-Lacks c w h k =
    All-map (λ d. is_whitespace d ≡ false) (λ d. (c == d) ≡ false) w (λ d e. not_space c d h e) k

strip_cr_on-IsWord : (w r : Str) → IsWord w → strip_cr_on (w ++ r) ≡ w ++ r
unfolding is_whitespace
strip_cr_on-IsWord [] r h = cc
strip_cr_on-IsWord (c ∷ w) r h = ground (arith, h.1.0)

-- The first line of a text, where that line ends in a word.
pub lines_word :
    (l w r : Str)
    → Lacks b'\n' (l ++ w)
    → IsWord w
    → lines ((l ++ w) ++ b'\n' ∷ r) ≡ (l ++ w) ∷ lines r
lines_word l w r h k =
    lines-append (l ++ w) r h
      (rw reverse-append (strip_cr_on-IsWord (reverse w) (reverse l) (IsWord-reverse w k)))

is_empty-append : (w r : Str) → is_empty w ≡ false → is_empty (w ++ r) ≡ false
is_empty-append [] r h = cc
is_empty-append (c ∷ w) r h = refl

-- A line of three words with single spaces between them.
abbrev pub three : Str → Str → Str → Str
three a b c = a ++ (b' ' ∷ (b ++ (b' ' ∷ c)))

-- The same line, bracketed before its last word.
three_regroup : (a b c : Str) → three a b c ≡ (a ++ (b' ' ∷ (b ++ b' ' ∷ []))) ++ c
three_regroup a b c = simp append_assoc

module _ (a b c : Str) (ha : IsWord a) (hb : IsWord b) (hc : IsWord c) where
  pub trim-three : trim (three a b c) ≡ three a b c
  trim-three =
      ap (λ l. trim (a ++ (b' ' ∷ l))) (sym (append_assoc b (b' ' ∷ []) c))
      ∙ trim-append a (b' ' ∷ (b ++ b' ' ∷ [])) c ha hc
      ∙ simp append_assoc

  pub is_empty-three : is_empty (three a b c) ≡ false
  is_empty-three = is_empty-append a _ ha.0

  pub split_whitespace-three : split_whitespace (three a b c) ≡ a ∷ b ∷ c ∷ []
  unfolding is_whitespace
  split_whitespace-three =
      split_whitespace-append a b' ' _ ha refl
      ∙ ap (◌∷◌ a)
          (split_whitespace-append b b' ' c hb refl ∙ ap (◌∷◌ b) (split_whitespace_word c hc))

  pub Lacks-three : Lacks b'\n' (three a b c)
  unfolding is_whitespace
  Lacks-three =
      All-append (λ d. (b'\n' == d) ≡ false) a _ (NoSpace-Lacks b'\n' a refl ha.1)
        (
          refl,
          All-append (λ d. (b'\n' == d) ≡ false) b _ (NoSpace-Lacks b'\n' b refl hb.1)
              (refl, NoSpace-Lacks b'\n' c refl hc.1),
        )

  pub lines-three : (r : Str) → lines (three a b c ++ b'\n' ∷ r) ≡ three a b c ∷ lines r
  lines-three r =
      let e = three_regroup a b c in
      ap (λ l. lines (l ++ b'\n' ∷ r)) e
      ∙ lines_word (a ++ (b' ' ∷ (b ++ b' ' ∷ []))) c r (subst (Lacks b'\n') e Lacks-three) hc
      ∙ ap (λ l. l ∷ lines r) (sym e)

-- A word behind which the line ends.
pub trim_word_line : (w : Str) → IsWord w → trim (w ++ b'\n' ∷ []) ≡ w
unfolding trim trim_end trim_start is_whitespace
trim_word_line w h =
    ap trim_end (trim_start-append w (b'\n' ∷ []) h)
    ∙ ap (λ s. reverse (trim_start s)) (reverse-append w (b'\n' ∷ []))
    ∙ ap (λ s. reverse (trim_start s)) (sym (append-nil (reverse w)))
    ∙ ap reverse (trim_start-append (reverse w) [] (IsWord-reverse w h))
    ∙ rw (append-nil, reverse-reverse)
