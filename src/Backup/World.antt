-- ===== src/Backup/World.antt =====
-- What a backup run reads and writes, and how its surroundings answer.
-- The bucket, the file system and sqlite are not in the repository. A run meets them one request at
-- a time; `answers` says in advance what becomes of each request, so that a theorem over all
-- `answers` covers every failure, and a run cut short after any request (all later ones refused).
use vaultwarden_hummingbird.Base.{ℕ, Bool, true, false, Option, List, [], ◌∷◌}
use vaultwarden_hummingbird.Text.{Str}
use vaultwarden_hummingbird.BTree.{BTreeMap}

-- `served`: done, and reported so. `refused`: not done, and reported as an error. `lost`: done, but
-- reported as an error, as when the reply to an upload never arrives.
pub data Answer : Type 0 where
  served refused lost : Answer

-- Objects are a manifest's text or the bytes of a dump.
pub data Object : Type 0 where
  text : Str → Object
  dump : List ℕ → Object

-- The live database: its file is missing, is no readable database, or holds a number of user
-- tables and is copied by `VACUUM INTO` to these bytes.
pub data Live : Type 0 where
  missing corrupt : Live
  tables : ℕ → List ℕ → Live

pub record World : Type 0 where
  pub objects : BTreeMap Object
  pub live : Live
  -- the lineage sidecar and the retained dump, files beside the database
  pub sidecar : Option Str
  pub retained : Option (List ℕ)
  -- the staged dump, in the staging directory
  pub staged : Option (List ℕ)
  -- whether the database's files `-wal` and `-shm` are there
  pub wal : Bool
  pub shm : Bool
  pub answers : List Answer

abbrev pub M : Type 0 → Type 0
M A = World → A × World

infixl 5 ◌>>=◌ ◌>>◌
abbrev pub ◌>>=◌ : {A B : Type 0} → M A → (A → M B) → M B
◌>>=◌ m f w = let (a, w') = m w in f a w'

abbrev pub ◌>>◌ : {A B : Type 0} → M A → M B → M B
m >> k = m >>= λ _. k

abbrev pub pure : {A : Type 0} → A → M A
pure a w = (a, w)

abbrev pub head_answer : List Answer → Answer
head_answer [] = refused
head_answer (a ∷ rest) = a

abbrev pub tail_answers : List Answer → List Answer
tail_answers [] = []
tail_answers (a ∷ rest) = rest

-- One request: its answer is the next one, and every request is refused once there is none.
unfoldable pub ask : M Answer
ask w = (head_answer w.answers, record w { answers = tail_answers w.answers })

-- What is reported, and the world after the request.
unfoldable pub settle : Answer → (World → World) → World → Bool × World
settle served f w = (true, f w)
settle refused f w = (false, w)
settle lost f w = (false, f w)

-- A request with an effect on the world, and the success that is reported.
unfoldable pub request : (World → World) → M Bool
unfolding settle
request f w = settle (head_answer w.answers) f (record w { answers = tail_answers w.answers })
