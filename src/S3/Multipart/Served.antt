-- ===== src/S3/Multipart/Served.antt =====
-- An upload whose requests are all served.
use vaultwarden_hummingbird.Base.{
  ℕ, zero, suc, ◌+◌, ◌*◌, ◌≤◌, Option, some, List, [], ◌∷◌, ◌++◌, ◌≡◌, refl, subst, arith, length,
  take, drop, length-drop,
}
use vaultwarden_hummingbird.Text.{Str}
use vaultwarden_hummingbird.Backup.World.{Answer, served, head_answer, tail_answers}
use vaultwarden_hummingbird.S3.Multipart.{Bucket, put_parts}

-- So many answers are `served`.
abbrev pub Served : ℕ → List Answer → Type 0
Served zero l = Unit
Served (suc n) l = (head_answer l ≡ served) × Served n (tail_answers l)

pub Served-fewer : (n k : ℕ) (l : List Answer) → n ≤ k → Served k l → Served n l
Served-fewer zero k l f h = tt
Served-fewer (suc n) zero l f h = absurd (omega (arith, f))
Served-fewer (suc n) (suc k) l f h = (h.0, Served-fewer n k (tail_answers l) (omega (arith, f)) h.1)

module _ (etag : List ℕ → Str) where
  -- What is left of the answers, and that the tags are there.
  pub record AllSent (n : ℕ) (r : Option (List Str) × Bucket) : Type 0 where
    pub tags : List Str
    pub sent : r.0 ≡ some tags
    pub rest : Served n r.1.answers

  -- Enough parts for the bytes, and two answers for each.
  pub put_parts-AllSent :
      (size left k n : ℕ) (tags : List Str) (bytes : List ℕ) (w : Bucket)
      → length bytes ≤ k * size
      → k ≤ left
      → Served (k * 2 + n) w.answers
      → AllSent n (put_parts etag size left tags bytes w)
  unfolding put_parts
  put_parts-AllSent size left k n tags [] w l f h = record {
    tags = tags;
    sent = refl;
    rest = Served-fewer n (k * 2 + n) w.answers (omega arith) h;
  }
  put_parts-AllSent size left zero n tags (b ∷ bytes) w l f h = absurd (omega (arith, l))
  put_parts-AllSent size zero (suc k) n tags (b ∷ bytes) w l f h = absurd (omega (arith, f))
  put_parts-AllSent size (suc left) (suc k) n tags (b ∷ bytes) w l f h =
      let h' : Served (suc (suc (k * 2 + n))) w.answers =
        subst (λ m. Served m w.answers) {y = suc (suc (k * 2 + n))} (omega arith) h in
      let shorter : length (drop size (b ∷ bytes)) ≤ k * size =
        omega (arith, l, length-drop size (b ∷ bytes)) in
      rw (h'.0, h'.1.0)
        (put_parts-AllSent size left k n (tags ++ etag (take size (b ∷ bytes)) ∷ [])
          (drop size (b ∷ bytes)) _ shorter (omega (arith, f)) h'.1.1)
