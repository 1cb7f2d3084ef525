-- ===== src/S3/Multipart.antt =====
-- supervisor/src/s3/client.rs: the upload of a large file in parts, `put_multipart` and `put_parts`.
-- The bucket's state is the object under the key and the parts of the pending upload; each request is
-- answered as in Backup.World, all of its retries being one request. Looking at the stop request uses
-- an answer too, any but `served` being a stop. The file stays as it is during the upload. `etag` is the
-- tag that the bucket gives a part; a reply without one counts as `lost`.
pub mod Assemble
pub mod Served
pub mod Parts
pub mod Whole
use vaultwarden_hummingbird.Base.{
  ℕ, zero, suc, ◌+◌, ◌*◌, Bool, true, false, Option, none, some, List, [], ◌∷◌, ◌++◌, if◌then◌else◌,
  take, drop, length, ◌==◌,
}
use vaultwarden_hummingbird.Text.{Str, str_eq}
use vaultwarden_hummingbird.Backup.World.{Answer, served, refused, lost, head_answer, tail_answers}

pub record Bucket : Type 0 where
  pub object : Option (List ℕ)
  -- the numbered parts of an upload that is neither completed nor aborted, the last one first
  pub pending : Option (List (ℕ × List ℕ))
  pub answers : List Answer

abbrev pub M : Type 0 → Type 0
M A = Bucket → A × Bucket

infixl 5 ◌>>=◌ ◌>>◌
abbrev pub ◌>>=◌ : {A B : Type 0} → M A → (A → M B) → M B
◌>>=◌ m f w = let (a, w') = m w in f a w'

abbrev pub ◌>>◌ : {A B : Type 0} → M A → M B → M B
m >> k = m >>= λ _. k

abbrev pub pure : {A : Type 0} → A → M A
pure a w = (a, w)

-- The outcome of a request, given its answer and the bucket behind that answer.
abbrev pub settle : Answer → (Bucket → Bucket) → Bucket → Bool × Bucket
settle served f w = (true, f w)
settle refused f w = (false, w)
settle lost f w = (false, f w)

unfoldable pub request : (Bucket → Bucket) → M Bool
request f w = settle (head_answer w.answers) f (record w { answers = tail_answers w.answers })

unfoldable pub stopping : M Bool
unfolding request
stopping = do going ← request (λ w. w); pure (if going then false else true)

abbrev pub max_parts : ℕ
max_parts = 10000

abbrev pub part_size : ℕ
part_size = 8 * 1024 * 1024

-- A part takes the place of an earlier one with its number.
abbrev pub add_part : ℕ → List ℕ → Option (List (ℕ × List ℕ)) → Option (List (ℕ × List ℕ))
add_part number chunk none = none
add_part number chunk (some parts) = some ((number, chunk) ∷ parts)

unfoldable pub upload_part : ℕ → List ℕ → M Bool
unfolding request
upload_part number chunk = request (λ w. record w { pending = add_part number chunk w.pending })

unfoldable pub create_upload : M Bool
unfolding request
create_upload = request (λ w. record w { pending = some [] })

unfoldable pub abort_upload : M Bool
unfolding request
abort_upload = request (λ w. record w { pending = none })

-- The part with a number.
unfoldable pub part_with : ℕ → List (ℕ × List ℕ) → Option (List ℕ)
part_with number [] = none
part_with number ((n, chunk) ∷ parts) =
    let rest = part_with number parts in if n == number then some chunk else rest

abbrev pub join : Option (List ℕ) → Option (List ℕ) → Option (List ℕ)
join (some a) (some b) = some (a ++ b)
join _ _ = none

-- How the bucket says that it does not complete an upload: by a status that is an error, by one that
-- the HTTP library takes for no error, or by a status 200 with the error in the body.
pub data Refusal : Type 0 where
  as_error as_redirect in_body : Refusal

abbrev pub reads_as_done : Refusal → Bool
reads_as_done in_body = true
reads_as_done _ = false

module _ (etag : List ℕ → Str) where
  abbrev pub tagged : Str → Option (List ℕ) → Option (List ℕ)
  tagged tag none = none
  tagged tag (some chunk) = if str_eq (etag chunk) tag then some chunk else none

  -- The object that the bucket makes of a list of tags, numbered in their order: of each number the
  -- part, if it has the tag.
  unfoldable pub assemble : ℕ → List Str → List (ℕ × List ℕ) → Option (List ℕ)
  unfolding part_with str_eq
  assemble number [] parts = some []
  assemble number (tag ∷ tags) parts =
      join (tagged tag (part_with number parts)) (assemble (number + 1) tags parts)

  abbrev pub with_object : Bucket → Option (List ℕ) → Option Bucket
  with_object w none = none
  with_object w (some bytes) = some (record w { object = some bytes; pending = none })

  abbrev pub completed : List Str → Bucket → Option (List (ℕ × List ℕ)) → Option Bucket
  completed tags w none = none
  completed tags w (some parts) = with_object w (assemble 1 tags parts)

  abbrev pub on_completed : Refusal → Answer → Bucket → Option Bucket → Bool × Bucket
  on_completed refusal served w (some w') = (true, w')
  on_completed refusal lost w (some w') = (false, w')
  on_completed refusal _ w _ = (reads_as_done refusal, w)

  -- The completing request; what it replies is not read beyond its status.
  unfoldable pub complete_upload : Refusal → List Str → M Bool
  unfolding assemble
  complete_upload refusal tags w =
      let v = record w { answers = tail_answers w.answers } in
      on_completed refusal (head_answer w.answers) v (completed tags v v.pending)

  -- The loop: `left` is how many parts are still allowed, the tags are those so far, and the list is
  -- what is behind the offset.
  unfoldable pub put_parts : ℕ → ℕ → List Str → List ℕ → M (Option (List Str))
  unfolding stopping upload_part
  put_parts size left tags [] = pure (some tags)
  put_parts size zero tags (b ∷ bytes) = do stopping; pure none
  put_parts size (suc left) tags (b ∷ bytes) = do
    stop ← stopping
    if stop then pure none else do
      let chunk = take size (b ∷ bytes)
      done ← upload_part (length tags + 1) chunk
      if done
          then put_parts size left (tags ++ etag chunk ∷ []) (drop size (b ∷ bytes))
          else pure none

  -- Only for an answer that the HTTP library takes for no error is the upload aborted.
  unfoldable pub on_complete : Refusal → Bool → M Bool
  unfolding abort_upload
  on_complete refusal true = pure true
  on_complete as_redirect false = do abort_upload; pure false
  on_complete _ false = pure false

  unfoldable pub on_uploaded : Refusal → Option (List Str) → M Bool
  unfolding abort_upload complete_upload on_complete
  on_uploaded refusal (some tags) = do done ← complete_upload refusal tags; on_complete refusal done
  on_uploaded refusal none = do abort_upload; pure false

  unfoldable pub on_created : Refusal → ℕ → List ℕ → Bool → M Bool
  unfolding put_parts on_uploaded
  on_created refusal size bytes true = do
    uploaded ← put_parts size max_parts [] bytes
    on_uploaded refusal uploaded
  on_created refusal size bytes false = pure false

  unfoldable pub put_multipart : Refusal → ℕ → List ℕ → M Bool
  unfolding stopping create_upload on_created
  put_multipart refusal size bytes = do
    stop ← stopping
    if stop then pure false else do created ← create_upload; on_created refusal size bytes created
