-- ===== src/Sync/Run.antt =====
-- Rules for sync runs under any answers at all.
use vaultwarden_hummingbird.Base.{
  Bool, true, false, Option, none, List, ◌≡◌, refl, Bool-cases, inl, inr, if◌then◌else◌,
}
use vaultwarden_hummingbird.Backup.World.{Answer, head_answer, tail_answers}
use vaultwarden_hummingbird.Sync.World.{
  World, M, ◌>>=◌, pure, request, read, stopping, is_done, is_served, answered,
}

-- From a world with `P`, a run of `m` ends with `Q` of its result and its world.
pub record Run {A : Type 0} (P : World → Type 0) (m : M A) (Q : A → World → Type 0) : Type 0 where
  pub at : (w : World) → P w → Q (m w).0 (m w).1

pub Run-pure :
    {A : Type 0} {P : World → Type 0} {Q : A → World → Type 0} (a : A)
    → ((w : World) → P w → Q a w)
    → Run P (pure a) Q
Run-pure a h = record { at = λ w p. h w p }

pub Run-bind :
    {A B : Type 0} {P : World → Type 0} {Q : A → World → Type 0} {R : B → World → Type 0} {m : M A}
    {f : A → M B}
    → Run P m Q
    → ((a : A) → Run (Q a) (f a) R)
    → Run P (m >>= f) R
Run-bind {m = m} hm hf = record { at = λ w p. (hf (m w).0).at (m w).1 (hm.at w p) }

pub Run-if :
    {A : Type 0} {P : World → Type 0} {Q : A → World → Type 0} (b : Bool) {m n : M A}
    → (b ≡ true → Run P m Q)
    → (b ≡ false → Run P n Q)
    → Run P (if b then m else n) Q
Run-if true hm hn = hm refl
Run-if false hm hn = hn refl

module _ (P : World → Type 0)
    (stable : (w : World) (l : List Answer) → P w → P (record w { answers = l })) where
  -- A request: what is served is done, and what is not done is not served.
  pub Run-request :
      (Q : Bool → World → Type 0) (f : World → World)
      → ((w : World) → P w → Q true (f w) × Q false (f w))
      → ((w : World) → P w → Q false w)
      → Run P (request f) Q
  unfolding request
  Run-request Q f when_done when_not = record {
    at = λ w p. go (head_answer w.answers) (answered w) (stable w (tail_answers w.answers) p);
  }
    where
      go : (a : Answer) (w : World) → P w → Q (is_served a) (if is_done a then f w else w)
      go Answer.served w p = (when_done w p).0
      go Answer.refused w p = when_not w p
      go Answer.lost w p = (when_done w p).1

  pub Run-read :
      {A : Type 0} (f : World → Option A) (Q : Option A → World → Type 0)
      → ((w : World) (l : List Answer) → P w → Q (f w) (record w { answers = l }))
      → ((w : World) → P w → Q none w)
      → Run P (read f) Q
  unfolding read
  Run-read f Q found nothing = record {
    at = λ w p. elim (Bool-cases (is_served (head_answer w.answers))) [
      | inl e ↦ rw e (found w (tail_answers w.answers) p)
      | inr e ↦ rw e (nothing (answered w) (stable w (tail_answers w.answers) p))
    ];
  }

  pub Run-stopping : Run P stopping (λ _ w. P w)
  unfolding stopping
  Run-stopping = record { at = λ w p. stable w (tail_answers w.answers) p }
