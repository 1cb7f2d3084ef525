-- ===== src/Backup/Run.antt =====
-- Rules for runs under any answers at all.
use vaultwarden_hummingbird.Base.{Bool, true, false, if◌then◌else◌, List}
use vaultwarden_hummingbird.Backup.World.{
  Answer, served, refused, lost, World, M, head_answer, tail_answers, ◌>>=◌, pure,
}

-- A local operation is done, or not done and reported as an error.
unfoldable pub attempt : (World → World) → M Bool
attempt f w =
    let w' = record w { answers = tail_answers w.answers } in
    elim (head_answer w.answers) [
      | served ↦ (true, f w')
      | refused ↦ (false, w')
      | lost ↦ (false, w')
    ]

-- From a world with `P`, a run of `m` ends with `Q` of its result and its world.
pub record Run {A : Type 0} (P : World → Type 0) (m : M A) (Q : A → World → Type 0) : Type 0 where
  pub at : (w : World) → P w → Q (m w).0 (m w).1

pub Run-pure :
    {A : Type 0} {P : World → Type 0} {Q : A → World → Type 0} (a : A)
    → ((w : World) → P w → Q a w)
    → Run P (pure a) Q
Run-pure a h = record { at = λ w p. h w p }

pub Run-bind :
    {A B : Type 0} {P : World → Type 0} {Q : A → World → Type 0} {R : B → World → Type 0} {m : M A}
    {f : A → M B}
    → Run P m Q
    → ((a : A) → Run (Q a) (f a) R)
    → Run P (m >>= f) R
Run-bind {m = m} hm hf = record { at = λ w p. (hf (m w).0).at (m w).1 (hm.at w p) }

pub Run-if :
    {A : Type 0} {P : World → Type 0} {Q : A → World → Type 0} (b : Bool) {m n : M A}
    → Run P m Q
    → Run P n Q
    → Run P (if b then m else n) Q
Run-if true hm hn = hm
Run-if false hm hn = hn

-- A local operation; `P` and `Q` do not look at the answers.
pub Run-attempt :
    (P : World → Type 0) (Q : Bool → World → Type 0) (f : World → World)
    → ((w : World) (l : List Answer) → P w → P (record w { answers = l }))
    → ((w : World) → P w → Q true (f w))
    → ((w : World) → P w → Q false w)
    → Run P (attempt f) Q
unfolding attempt
Run-attempt P Q f stable when_done when_not = record {
  at = λ w p.
      go (head_answer w.answers) (record w { answers = tail_answers w.answers })
        (stable w (tail_answers w.answers) p);
}
  where
    go :
        (a : Answer) (w : World)
        → P w
        → (let r : Bool × World = elim a [
          | served ↦ (true, f w)
          | refused ↦ (false, w)
          | lost ↦ (false, w)
        ] in
            Q r.0 r.1)
    go served w p = when_done w p
    go refused w p = when_not w p
    go lost w p = when_not w p
