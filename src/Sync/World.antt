-- ===== src/Sync/World.antt =====
-- What a sync run reads and writes, and how its surroundings answer, as in Backup.World: the bucket,
-- the files under /data, and the supervisor's own files there. The files stay as they are while a run
-- reads them, but for what the run itself writes.
use vaultwarden_hummingbird.Base.{ℕ, Bool, true, false, Option, none, List, if◌then◌else◌}
use vaultwarden_hummingbird.Text.{Str}
use vaultwarden_hummingbird.BTree.{BTreeMap}
use vaultwarden_hummingbird.Backup.World.{
  Answer, served, refused, Object, head_answer, tail_answers,
}

pub record File : Type 0 where
  pub bytes : List ℕ
  pub mtime : ℕ
  pub ctime : ℕ

pub record World : Type 0 where
  pub objects : BTreeMap Object
  -- the time at which the bucket says that a key was modified
  pub modified : Str → Str
  -- regular files, by their path relative to /data
  pub files : BTreeMap File
  -- the time that a file is given which is written now
  pub clock : ℕ
  -- .sync-repair, .sync-pending-manifest and .sync-cache
  pub repair : Option Str
  pub shadow : Option Str
  pub cache : Option Str
  pub answers : List Answer

abbrev pub M {ℓ} : Type ℓ → Type ℓ
M A = World → A × World

infixl 5 ◌>>=◌ ◌>>◌
abbrev pub ◌>>=◌ : {A B : Type 0} → M A → (A → M B) → M B
◌>>=◌ m f w = let (a, w') = m w in f a w'

abbrev pub ◌>>◌ : {A B : Type 0} → M A → M B → M B
m >> k = m >>= λ _. k

abbrev pub pure : {A : Type 0} → A → M A
pure a w = (a, w)

-- The world once its next answer is used up.
abbrev pub answered : World → World
answered w = record w { answers = tail_answers w.answers }

abbrev pub is_served : Answer → Bool
is_served served = true
is_served _ = false

abbrev pub is_done : Answer → Bool
is_done refused = false
is_done _ = true

-- A request with an effect on the world, and the success that is reported: a lost one is done, but
-- reported as an error.
unfoldable pub request : (World → World) → M Bool
request f w =
    let a = head_answer w.answers in (is_served a, if is_done a then f (answered w) else answered w)

-- A request that only reads.
unfoldable pub read {ℓ} : {A : Type ℓ} → (World → Option A) → M (Option A)
read f w = (if is_served (head_answer w.answers) then f w else none, answered w)

-- `abort()`: the stop request is looked at.
unfoldable pub stopping : M Bool
stopping w = (elim (head_answer w.answers) [ served ↦ false | _ ↦ true ], answered w)
