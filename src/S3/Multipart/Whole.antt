-- ===== src/S3/Multipart/Whole.antt =====
-- What an upload in parts leaves under its key.
use vaultwarden_hummingbird.Base.{
  ℕ, suc, ◌+◌, ◌*◌, ◌≤◌, Bool, true, false, Option, none, some, length, arith, List, [], ◌≡◌, refl,
  sym, ap, ◌∙◌, subst, ◌⊎◌, inl, inr, Bool-cases,
}
use vaultwarden_hummingbird.Backup.World.{Answer, served, refused, lost, head_answer, tail_answers}
use vaultwarden_hummingbird.Text.{Str}
use vaultwarden_hummingbird.S3.Multipart.{
  Bucket, settle, request, stopping, put_parts, max_parts, assemble, create_upload, abort_upload,
  complete_upload, Refusal, as_error, as_redirect, in_body, reads_as_done, with_object, completed,
  on_completed, on_complete, on_uploaded, on_created, put_multipart,
}
use vaultwarden_hummingbird.S3.Multipart.Served.{Served, Served-fewer, AllSent, put_parts-AllSent}
use vaultwarden_hummingbird.S3.Multipart.Parts.{
  next, Outcome, done, unsure, undone, request-Outcome, Parts, stopping_same, put_parts-Parts,
}

-- What an upload may leave: the object as it was or the whole file, and the file if it reports so;
-- and it does, where `k` parts are enough for the file and are not too many, and all requests and
-- looks at the stop request are answered.
pub record Whole (size : ℕ) (before : Bucket) (bytes : List ℕ) (r : Bool × Bucket) : Type 0 where
  pub object : (r.1.object ≡ before.object) ⊎ (r.1.object ≡ some bytes)
  pub reported : r.0 ≡ true → r.1.object ≡ some bytes
  pub succeeds :
      (k : ℕ)
      → length bytes ≤ k * size
      → k ≤ max_parts
      → Served (k * 2 + 3) before.answers
      → r.0 ≡ true

-- Giving up after an abort reports no success and leaves the object.
abort_same : (w : Bucket) → (abort_upload w).1.object ≡ w.object
unfolding abort_upload
abort_same w = go (request-Outcome (λ u. record u { pending = none }) w)
  where
    go :
        {r : Bool × Bucket} → Outcome (λ u. record u { pending = none }) w r → r.1.object ≡ w.object
    go (done e) = ap (λ r. r.1.object) e
    go (unsure e) = ap (λ r. r.1.object) e
    go (undone e) = ap (λ r. r.1.object) e

-- What is known of an upload before the completing request's outcome is looked at.
record Completed (before : Bucket) (bytes : List ℕ) (r : Bool × Bucket) : Type 0 where
  object : (r.1.object ≡ before.object) ⊎ (r.1.object ≡ some bytes)
  reported : r.0 ≡ true → r.1.object ≡ some bytes

module _ (etag : List ℕ → Str) (refusal : Refusal) (fair : ¬ (refusal ≡ in_body)) where
  honest : reads_as_done refusal ≡ false
  honest = go refusal fair
    where
      go : (r : Refusal) → ¬ (r ≡ in_body) → reads_as_done r ≡ false
      go as_error f = refl
      go as_redirect f = refl
      go in_body f = absurd (f refl)

  complete_upload-Completed :
      (before v : Bucket) (bytes : List ℕ) (tags : List Str) (parts : List (ℕ × List ℕ))
      → v.object ≡ before.object
      → v.pending ≡ some parts
      → assemble etag 1 tags parts ≡ some bytes
      → Completed before bytes (complete_upload etag refusal tags v)
        × (head_answer v.answers ≡ served → (complete_upload etag refusal tags v).0 ≡ true)
  unfolding complete_upload
  complete_upload-Completed before v bytes tags parts o p m =
      let made : completed etag tags (next v) v.pending
          ≡ some (record (next v) { object = some bytes; pending = none }) =
        subst
          (λ x.
            completed etag tags (next v) x
            ≡ some (record (next v) { object = some bytes; pending = none }))
          (sym p) (ap (with_object etag (next v)) m) in
      subst
        (λ x.
          let r = on_completed etag refusal (head_answer v.answers) (next v) x in
          Completed before bytes r × (head_answer v.answers ≡ served → r.0 ≡ true))
        (sym made) (go (head_answer v.answers))
    where
      go :
          (a : Answer)
          → (let r =
                on_completed etag refusal a
                  (next v)
                  (some (record (next v) { object = some bytes; pending = none })) in
              Completed before bytes r × (a ≡ served → r.0 ≡ true))
      go served = (record { object = inr refl; reported = λ e. refl }, λ e. refl)
      go refused = (record { object = inl o; reported = λ e. cc (e, honest) }, λ e. cc e)
      go lost = (record { object = inr refl; reported = λ e. cc e }, λ e. cc e)

  on_complete-Completed :
      (before : Bucket) (bytes : List ℕ) (r : Bool × Bucket)
      → Completed before bytes r
      → Completed before bytes (on_complete etag refusal r.0 r.1)
  unfolding on_complete
  on_complete-Completed before bytes (true, v) c = c
  on_complete-Completed before bytes (false, v) c = go refusal
    where
      go : (x : Refusal) → Completed before bytes (on_complete etag x false v)
      go as_error = record { object = c.object; reported = λ e. cc e }
      go in_body = record { object = c.object; reported = λ e. cc e }
      go as_redirect = record {
        object = elim c.object [ inl e ↦ inl (abort_same v ∙ e) | inr e ↦ inr (abort_same v ∙ e) ];
        reported = λ e. cc e;
      }

  on_complete-done : (r : Bool × Bucket) → r.0 ≡ true → (on_complete etag refusal r.0 r.1).0 ≡ true
  unfolding on_complete
  on_complete-done (true, v) e = refl
  on_complete-done (false, v) e = cc e

  on_uploaded-Completed :
      (before : Bucket) (bytes : List ℕ) (r : Option (List Str) × Bucket)
      → Parts etag before bytes r
      → Completed before bytes (on_uploaded etag refusal r.0 r.1)
        × (AllSent etag 1 r → (on_uploaded etag refusal r.0 r.1).0 ≡ true)
  unfolding on_uploaded
  on_uploaded-Completed before bytes (none, v) h =
      (record { object = inl (abort_same v ∙ h.untouched); reported = λ e. cc e }, λ s. cc s.sent)
  on_uploaded-Completed before bytes (some tags, v) h =
      let (parts, p, m) = h.complete tags refl in
      let c = complete_upload-Completed before v bytes tags parts h.untouched p m in
      (
        on_complete-Completed before bytes (complete_upload etag refusal tags v) c.0,
        λ s. on_complete-done (complete_upload etag refusal tags v) (c.1 s.rest.0),
      )

  on_created-Completed :
      (size : ℕ) (before : Bucket) (bytes : List ℕ) (r : Bool × Bucket)
      → r.1.object ≡ before.object
      → (r.0 ≡ true → r.1.pending ≡ some [])
      → Completed before bytes (on_created etag refusal size bytes r.0 r.1)
        × (r.0 ≡ true
            → AllSent etag 1 (put_parts etag size max_parts [] bytes r.1)
            → (on_created etag refusal size bytes r.0 r.1).0 ≡ true)
  unfolding on_created
  on_created-Completed size before bytes (false, v) o p =
      (record { object = inl o; reported = λ e. cc e }, λ e. cc e)
  on_created-Completed size before bytes (true, v) o p =
      let parts =
        put_parts-Parts etag size max_parts [] bytes [] [] v (p refl) (unfold assemble in refl) in
      let c =
        on_uploaded-Completed before bytes (put_parts etag size max_parts [] bytes v)
          (record { untouched = parts.untouched ∙ o; complete = parts.complete }) in
      (c.0, λ e. c.1)

  create_upload_sound :
      (v : Bucket)
      → ((create_upload v).1.object ≡ v.object)
        × ((create_upload v).0 ≡ true → (create_upload v).1.pending ≡ some [])
        × (head_answer v.answers ≡ served
            → create_upload v ≡ (true, record (next v) { pending = some [] }))
  unfolding create_upload request
  create_upload_sound v = go (head_answer v.answers)
    where
      go :
          (a : Answer)
          → (let r = settle a (λ u. record u { pending = some [] }) (next v) in
              (r.1.object ≡ v.object)
              × (r.0 ≡ true → r.1.pending ≡ some [])
              × (a ≡ served → r ≡ (true, record (next v) { pending = some [] })))
      go served = (refl, (λ e. refl), (λ e. refl))
      go refused = (refl, (λ e. cc e), (λ e. cc e))
      go lost = (refl, (λ e. cc e), (λ e. cc e))

-- Where the bucket never refuses to complete an upload with a status 200: an upload in parts leaves
-- the object under its key as it was or leaves the whole file there, never a part of it, whatever is
-- answered; if it reports success the whole file is there; and it does report success if all requests
-- are served, no stop request is seen and the file needs at most 10,000 parts. The bucket makes the
-- object of the parts by their numbers, and only if each has the tag that is sent for it. This is for
-- every part size and every file.
pub put_multipart-Whole :
    (etag : List ℕ → Str) (refusal : Refusal) (size : ℕ) (bytes : List ℕ) (w : Bucket)
    → ¬ (refusal ≡ in_body)
    → Whole size w bytes (put_multipart etag refusal size bytes w)
unfolding put_multipart
put_multipart-Whole etag refusal size bytes w fair = elim (Bool-cases (stopping w).0) [
  | inl e ↦ rw e (record {
    object = inl (ap (λ u. u.object) (stopping_same w));
    reported = λ x. cc x;
    succeeds = λ k l f h.
        let going : (stopping w).0 ≡ false = unfold stopping request in rw (h0 k h) refl in
        cc (going, e);
  })
  | inr e ↦ rw e (go (stopping w).1 (stopping_same w))
]
  where
    h0 : (k : ℕ) → Served (k * 2 + 3) w.answers → head_answer w.answers ≡ served
    h0 k h = (Served-fewer 1 (k * 2 + 3) w.answers (omega arith) h).0

    go :
        (v : Bucket)
        → v ≡ next w
        → Whole size w bytes
            (on_created etag refusal size bytes (create_upload v).0 (create_upload v).1)
    go v same =
        let made = create_upload_sound etag refusal fair v in
        let c =
          on_created-Completed etag refusal fair size w bytes (create_upload v)
            (made.0 ∙ ap (λ u. u.object) same) made.1 in
        record {
          object = c.0.object;
          reported = c.0.reported;
          succeeds = λ k l f h.
              let all : Served (suc (suc (k * 2 + 1))) w.answers =
                subst (λ n. Served n w.answers) {y = suc (suc (k * 2 + 1))} (omega arith) h in
              let start = record (next v) { pending = some [] } in
              let created : create_upload v ≡ (true, start) =
                made.2 (ap (λ u. head_answer u.answers) same ∙ all.1.0) in
              let left : Served (k * 2 + 1) start.answers =
                subst (λ u. Served (k * 2 + 1) (tail_answers u.answers)) (sym same) all.1.1 in
              let sent : AllSent etag 1
                  (put_parts etag size max_parts [] bytes (create_upload v).1) =
                subst (λ r. AllSent etag 1 (put_parts etag size max_parts [] bytes r.1))
                  (sym created)
                  (put_parts-AllSent etag size max_parts k 1 [] bytes start l f left) in
              c.1 (ap (λ r. r.0) created) sent;
        }
