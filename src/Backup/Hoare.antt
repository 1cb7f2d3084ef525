-- ===== src/Backup/Hoare.antt =====
-- Rules for runs whose requests are all answered truthfully: an error means that nothing was done.
use vaultwarden_hummingbird.Base.{
  Bool, true, false, List, [], ◌∷◌, ◌≡◌, refl, All, subst, sym, if◌then◌else◌,
}
use vaultwarden_hummingbird.Backup.World.{
  Answer, served, refused, lost, World, M, request, settle, head_answer, tail_answers, ◌>>=◌, pure,
}

abbrev is_lost : Answer → Bool
is_lost lost = true
is_lost _ = false

-- No reply is lost.
abbrev pub IsTruthful : List Answer → Type 0
IsTruthful = All (λ a. is_lost a ≡ false)

-- From a world with `P`, a truthful run of `m` ends with `Q` of its result and its world.
pub record Step {A : Type 0} (P : World → Type 0) (m : M A) (Q : A → World → Type 0) : Type 0 where
  pub at : (w : World) → IsTruthful w.answers → P w → IsTruthful (m w).1.answers × Q (m w).0 (m w).1

pub Step-pure :
    {A : Type 0} {P : World → Type 0} {Q : A → World → Type 0} (a : A)
    → ((w : World) → P w → Q a w)
    → Step P (pure a) Q
Step-pure a h = record { at = λ w t p. (t, h w p) }

pub Step-bind :
    {A B : Type 0} {P : World → Type 0} {Q : A → World → Type 0} {R : B → World → Type 0} {m : M A}
    {f : A → M B}
    → Step P m Q
    → ((a : A) → Step (Q a) (f a) R)
    → Step P (m >>= f) R
Step-bind {m = m} hm hf = record {
  at = λ w t p. let r = hm.at w t p in (hf (m w).0).at (m w).1 r.0 r.1;
}

pub Step-if :
    {A : Type 0} {P : World → Type 0} {Q : A → World → Type 0} (b : Bool) {m n : M A}
    → (b ≡ true → Step P m Q)
    → (b ≡ false → Step P n Q)
    → Step P (if b then m else n) Q
Step-if true hm hn = hm refl
Step-if false hm hn = hn refl

head-IsTruthful : (l : List Answer) → IsTruthful l → is_lost (head_answer l) ≡ false
head-IsTruthful [] t = refl
head-IsTruthful (a ∷ l) t = t.0

pub tail-IsTruthful : (l : List Answer) → IsTruthful l → IsTruthful (tail_answers l)
tail-IsTruthful [] t = t
tail-IsTruthful (a ∷ l) t = t.1

module _ (P : World → Type 0) (Q : Bool → World → Type 0) (f : World → World)
    (frame : (w : World) → (f w).answers ≡ w.answers)
    (stable : (w : World) (l : List Answer) → P w → P (record w { answers = l }))
    (when_done : (w : World) → P w → Q true (f w)) (when_not : (w : World) → P w → Q false w) where
  settle_rule :
      (a : Answer) (w : World)
      → is_lost a ≡ false
      → IsTruthful w.answers
      → P w
      → IsTruthful (settle a f w).1.answers × Q (settle a f w).0 (settle a f w).1
  unfolding settle
  settle_rule served w h t p = (subst IsTruthful (sym (frame w)) t, when_done w p)
  settle_rule refused w h t p = (t, when_not w p)
  settle_rule lost w h t p = cc

  -- A request: its effect keeps the answers, and `P` does not look at them.
  pub Step-request : Step P (request f) Q
  unfolding request
  Step-request = record {
    at = λ w t p.
        settle_rule (head_answer w.answers) (record w { answers = tail_answers w.answers })
          (head-IsTruthful w.answers t) (tail-IsTruthful w.answers t)
          (stable w (tail_answers w.answers) p);
  }

-- Any run, from a weaker premise to a weaker conclusion.
pub Step-weaken :
    {A : Type 0} {P P' : World → Type 0} {Q Q' : A → World → Type 0} {m : M A}
    → ((w : World) → P' w → P w)
    → ((a : A) (w : World) → Q a w → Q' a w)
    → Step P m Q
    → Step P' m Q'
Step-weaken {m = m} hp hq h = record {
  at = λ w t p. let r = h.at w t (hp w p) in (r.0, hq (m w).0 (m w).1 r.1);
}
