-- ===== src/S3/Multipart/Parts.antt =====
-- What the loop over the parts of a file leaves.
use vaultwarden_hummingbird.Base.{
  ℕ, zero, suc, ◌+◌, Bool, true, false, Option, none, some, length, List, [], ◌∷◌, ◌++◌, ◌≡◌, refl,
  sym, ap, ◌∙◌, subst, if◌then◌else◌, take, drop, append_assoc, append-nil, take-append-drop, inl,
  inr, Bool-cases,
}
use vaultwarden_hummingbird.Backup.World.{Answer, served, refused, lost, head_answer, tail_answers}
use vaultwarden_hummingbird.Text.{Str}
use vaultwarden_hummingbird.S3.Multipart.{
  Bucket, M, pure, settle, request, stopping, add_part, upload_part, put_parts, assemble,
}
use vaultwarden_hummingbird.S3.Multipart.Assemble.{assemble-append}

abbrev pub next : Bucket → Bucket
next w = record w { answers = tail_answers w.answers }

-- A request is done and says so, or reports an error and is done or not.
pub data Outcome (f : Bucket → Bucket) (w : Bucket) (r : Bool × Bucket) : Type 0 where
  done : r ≡ (true, f (next w)) → Outcome f w r
  unsure : r ≡ (false, f (next w)) → Outcome f w r
  undone : r ≡ (false, next w) → Outcome f w r

pub request-Outcome : (f : Bucket → Bucket) (w : Bucket) → Outcome f w (request f w)
unfolding request
request-Outcome f w = go (head_answer w.answers)
  where
    go : (a : Answer) → Outcome f w (settle a f (next w))
    go served = done refl
    go refused = undone refl
    go lost = unsure refl

-- The parts and their tags make up the whole, if the loop succeeds; the object is not touched.
pub record Parts (etag : List ℕ → Str) (before : Bucket) (whole : List ℕ)
    (r : Option (List Str) × Bucket) : Type 0 where
  pub untouched : r.1.object ≡ before.object
  pub complete :
      (tags : List Str)
      → r.0 ≡ some tags
      → (parts : List (ℕ × List ℕ)) × (r.1.pending ≡ some parts)
        × (assemble etag 1 tags parts ≡ some whole)

pub stopping_same : (w : Bucket) → (stopping w).1 ≡ next w
unfolding stopping request
stopping_same w = go (head_answer w.answers)
  where
    go : (a : Answer) → (settle a (λ v. v) (next w)).1 ≡ next w
    go served = refl
    go refused = refl
    go lost = refl

module _ (etag : List ℕ → Str) where
  -- One part that is stored, and what follows it.
  part_step :
      (number : ℕ) (chunk whole : List ℕ) (parts : List (ℕ × List ℕ)) (k : M (Option (List Str)))
      (w v : Bucket) (r : Bool × Bucket)
      → Outcome (λ u. record u { pending = add_part number chunk u.pending }) v r
      → v.pending ≡ some parts
      → v.object ≡ w.object
      → ((u : Bucket) → u.pending ≡ some ((number, chunk) ∷ parts) → Parts etag u whole (k u))
      → Parts etag w whole ((if r.0 then k else pure none) r.1)
  part_step number chunk whole parts k w v r (done e) p o ih =
      let u = record (next v) { pending = add_part number chunk v.pending } in
      let rest = ih u (ap (add_part number chunk) p) in
      subst (λ r. Parts etag w whole ((if r.0 then k else pure none) r.1)) (sym e)
        (record { untouched = rest.untouched ∙ o; complete = rest.complete })
  part_step number chunk whole parts k w v r (unsure e) p o ih =
      subst (λ r. Parts etag w whole ((if r.0 then k else pure none) r.1)) (sym e)
        (record { untouched = o; complete = λ t x. cc x })
  part_step number chunk whole parts k w v r (undone e) p o ih =
      subst (λ r. Parts etag w whole ((if r.0 then k else pure none) r.1)) (sym e)
        (record { untouched = o; complete = λ t x. cc x })

  pub put_parts-Parts :
      (size left : ℕ) (tags : List Str) (bytes a : List ℕ) (parts : List (ℕ × List ℕ)) (w : Bucket)
      → w.pending ≡ some parts
      → assemble etag 1 tags parts ≡ some a
      → Parts etag w (a ++ bytes) (put_parts etag size left tags bytes w)
  unfolding put_parts
  put_parts-Parts size left tags [] a parts w p m = record {
    untouched = refl;
    complete = λ t e.
        let same : tags ≡ t = cc e in
        (
          parts,
          p,
          subst (λ t. assemble etag 1 t parts ≡ some (a ++ [])) same
              (m ∙ ap some (sym (append-nil a))),
        );
  }
  put_parts-Parts size zero tags (b ∷ bytes) a parts w p m = record {
    untouched = ap (λ v. v.object) (stopping_same w);
    complete = λ t e. cc e;
  }
  put_parts-Parts size (suc left) tags (b ∷ bytes) a parts w p m =
      let v = (stopping w).1 in
      let number = length tags + 1 in
      let chunk = take size (b ∷ bytes) in
      let rest = drop size (b ∷ bytes) in
      let same = stopping_same w in
      let joined : (a ++ chunk) ++ rest ≡ a ++ b ∷ bytes =
        append_assoc a chunk rest ∙ ap (λ x. a ++ x) (take-append-drop size (b ∷ bytes)) in
      elim (Bool-cases (stopping w).0) [
        | inl e ↦ rw e (record { untouched = ap (λ u. u.object) same; complete = λ t x. cc x })
        | inr e ↦ rw e (
            part_step number chunk (a ++ b ∷ bytes) parts
              (put_parts etag size left (tags ++ etag chunk ∷ []) rest) w v
              (upload_part number chunk v)
              (unfold upload_part in
                request-Outcome (λ u. record u { pending = add_part number chunk u.pending }) v)
              (ap (λ u. u.pending) same ∙ p) (ap (λ u. u.object) same)
              (λ u q.
                subst
                  (λ x. Parts etag u x (put_parts etag size left (tags ++ etag chunk ∷ []) rest u))
                  joined
                  (put_parts-Parts size left (tags ++ etag chunk ∷ []) rest (a ++ chunk)
                    ((number, chunk) ∷ parts) u q
                    (assemble-append etag 1 number tags parts chunk a refl m))))
      ]
