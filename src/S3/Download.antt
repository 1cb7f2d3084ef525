-- ===== src/S3/Download.antt =====
-- supervisor/src/s3/client.rs: a download that is resumed, `Client::get`, with `resumed_offset`. The
-- bucket is a list of replies, one for each attempt, each a function of the offset that the request
-- asks for; an attempt without a reply fails for good. The file system does what it is asked to.
pub mod Refines
use vaultwarden_hummingbird.Base.{
  ℕ, zero, suc, ◌+◌, ◌-◌, Bool, true, false, not, ◌&&◌, ◌||◌, Option, none, some, List, [], ◌∷◌,
  ◌++◌, ◌==◌, ltb, leb, if◌then◌else◌, length,
}
use vaultwarden_hummingbird.Sync.Pull.{Expect, size_met, hash_met}

-- How the reading of a body ends: at its end, in an error, or at a stop request.
pub data End : Type 0 where
  closed broken stopped : End

pub record Response : Type 0 where
  -- the status is 206, and not 200
  pub partial_content : Bool
  pub declared : Option ℕ
  pub chunks : List (List ℕ)
  pub end : End

-- What becomes of one attempt: a stop request before it, an error that may be worth another attempt
-- or is not, a status that is no success, or a response.
pub data Reply : Type 0 where
  aborted : Reply
  failed : Bool → Reply
  rejected : Reply
  answered : Response → Reply

abbrev pub max_download_attempts : ℕ
max_download_attempts = 3

abbrev len_of : Option (List ℕ) → ℕ
len_of none = 0
len_of (some bytes) = length bytes

abbrev pub reaches : Option ℕ → ℕ → Bool
reaches none n = false
reaches (some size) n = leb size n

-- How many bytes of a partial file a download starts from.
unfoldable pub resumed_offset : Option (List ℕ) → Option ℕ → ℕ
resumed_offset part size = if reaches size (len_of part) then 0 else len_of part

abbrev pub exceeds : Expect → ℕ → Bool
exceeds e total = ltb e.max_bytes total || (elim e.size [ none ↦ false | some n ↦ ltb n total ])

-- The loop over the body: whether it came to the body's end, the running total, and the file.
unfoldable pub stream : Expect → ℕ → List ℕ → List (List ℕ) → Bool × ℕ × List ℕ
stream e total file [] = (true, total, file)
stream e total file ([] ∷ chunks) = (true, total, file)
stream e total file ((b ∷ bs) ∷ chunks) =
    let total' = total + length (b ∷ bs) in
    let rest = stream e total' (file ++ b ∷ bs) chunks in
    if exceeds e total' then (false, total', file) else rest

abbrev pub opened : ℕ → Option (List ℕ) → List ℕ
opened start none = []
opened start (some file) = if start == 0 then [] else file

abbrev pub is_declared : Option ℕ → ℕ → Bool
is_declared none n = true
is_declared (some d) n = n == d

abbrev pub is_closed : End → Bool
is_closed closed = true
is_closed _ = false

abbrev pub is_stopped : End → Bool
is_stopped stopped = true
is_stopped _ = false

-- One response: whether it is complete, its total, and the partial file behind it.
unfoldable pub receive : Expect → ℕ → Option (List ℕ) → Response → Bool × ℕ × List ℕ
unfolding stream
receive e start part r =
    let s = stream e start (opened start part) r.chunks in
    (s.0 && is_closed r.end && is_declared r.declared (s.1 - start), s.1, s.2)

-- A server that ignored the range, or an object that changed, answers 200: start again.
abbrev pub start_of : ℕ → Response → ℕ
start_of offset r = if ltb 0 offset && not r.partial_content then 0 else offset

-- The staged total, or none for an error, and the partial file; `left` counts the attempts.
unfoldable pub attempts :
    ℕ → Expect → ℕ → Option (List ℕ) → List (ℕ → Reply) → Option ℕ × Option (List ℕ)
unfolding receive
attempts zero e offset part replies = (none, part)
attempts (suc left) e offset part [] = (none, part)
attempts (suc left) e offset part (reply ∷ replies) = elim (reply offset) [
  | aborted ↦ (none, part)
  | rejected ↦ (none, part)
  | failed again ↦
      (let rest = attempts left e offset part replies in
        if again && ltb 0 left then rest else (none, part))
  | answered r ↦
      (let s = receive e (start_of offset r) part r in
        let rest = attempts left e (length s.2) (some s.2) replies in
        if s.0
        then (some s.1, some s.2)
        else if ltb 0 left && not (is_stopped r.end) && not (reaches e.size (length s.2))
        then rest
        else (none, some s.2))
]

pub record Disk : Type 0 where
  pub target : Option (List ℕ)
  pub part : Option (List ℕ)

module _ (digest : List ℕ → List ℕ) where
  abbrev pub is_expected : Expect → ℕ → List ℕ → Bool
  is_expected e total file =
      (elim e.size [ none ↦ true | some n ↦ total == n ]) && hash_met digest e.sha256 file

  -- The checks on the staged file, and its place: a file that fails is removed.
  unfoldable pub settle : Expect → Option (List ℕ) → Option ℕ × Option (List ℕ) → Bool × Disk
  settle e target (some total, some file) =
      if is_expected e total file
      then (true, record { target = some file; part = none })
      else (false, record { target = target; part = none })
  settle e target _ = (false, record { target = target; part = none })

  -- `stop` is the look at the stop request before anything is done.
  unfoldable pub get_file : Bool → Expect → Disk → List (ℕ → Reply) → Bool × Disk
  unfolding attempts resumed_offset settle
  get_file true e disk replies = (false, disk)
  get_file false e disk replies =
      settle e disk.target
        (attempts max_download_attempts e (resumed_offset disk.part e.size) disk.part replies)
