-- ===== src/Backup/Restore.antt =====
-- supervisor/src/runtime/backup/restore.rs and sqlite/restore.rs: the boot-time restore and the
-- adoption of a lineage. Sqlite is not in the repository: `opens` says of a file's bytes whether
-- `PRAGMA integrity_check` reports "ok", and with how many user tables.
pub mod Order
pub mod Offers
pub mod Boot
use vaultwarden_hummingbird.Base.{
  ℕ, ◌+◌, ◌*◌, ◌/◌, ◌%◌, Bool, true, false, not, Option, none, some, List, [], ◌∷◌, ◌++◌, map,
  reverse, last, ltb, leb, ◌==◌, ◌&&◌, if◌then◌else◌, length, Result, ok, err,
}
use vaultwarden_hummingbird.Text.{Str, rsplit_once}
use vaultwarden_hummingbird.Text.Utf8.{as_bytes}
use vaultwarden_hummingbird.BTree.{get}
use vaultwarden_hummingbird.Config.Spec.{DbBackupConfig, backup_prefix}
use vaultwarden_hummingbird.Backup.Manifest.{Entry, Manifest, newest_first, latest, is_bare}
use vaultwarden_hummingbird.Backup.World.{
  Object, text, dump, Live, missing, corrupt, tables, World, M, Answer, served, refused, lost, ask,
  ◌>>=◌, ◌>>◌, pure,
}
use vaultwarden_hummingbird.Backup.Run.{attempt}
use vaultwarden_hummingbird.Backup.Lineage
use vaultwarden_hummingbird.Backup.Bucket.{Trouble, load_manifest, list_objects}
use vaultwarden_hummingbird.Backup.Tick.{is_empty_db, remove_staged}

pub record Candidate : Type 0 where
  pub key : Str
  pub size : ℕ
  pub generation : Option ℕ

pub data RestoreOutcome : Type 0 where
  ready failed aborted : RestoreOutcome

pub data ImportError : Type 0 where
  invalid publication : ImportError

pub data Attempt : Type 0 where
  imported not_usable not_published : Attempt

-- The bytes of an object.
unfoldable pub body : Object → List ℕ
unfolding as_bytes
body (text t) = as_bytes t
body (dump bytes) = bytes

abbrev pub max_db_object_bytes : ℕ
max_db_object_bytes = 4 * 1024 * 1024 * 1024

-- What a served download of a candidate puts in place: an object of the expected size.
unfoldable pub fetched : Candidate → Option Object → Option (List ℕ)
unfolding body
fetched c none = none
fetched c (some o) =
    if length (body o) == c.size && leb (length (body o)) max_db_object_bytes
    then some (body o)
    else none

-- `abort()`: the stop request is looked at.
unfoldable pub stopping : M Bool
unfolding ask
stopping w = let (a, w') = ask w in (elim a [ served ↦ false | refused ↦ true | lost ↦ true ], w')

unfoldable pub download : Candidate → M (Option (List ℕ))
unfolding ask fetched
download c w =
    let (a, w') = ask w in
    let bytes : Option (List ℕ) = elim a [
      | served ↦ fetched c (get c.key w.objects)
      | refused ↦ none
      | lost ↦ none
    ] in
    (bytes, record w' { staged = bytes })

module _ (opens : List ℕ → Option ℕ) where
  -- What the replaced file left beside it; both are tried.
  unfoldable pub remove_siblings : M Bool
  unfolding attempt
  remove_siblings = do
    attempt (λ w. record w { wal = false })
    attempt (λ w. record w { shm = false })

  -- `hard_link`, of a file with `n` tables.
  unfoldable pub link : ℕ → List ℕ → M (Result ImportError (Unit {0}))
  unfolding attempt remove_siblings
  link n bytes = do
    linked ← attempt (λ w. record w { live = tables n bytes })
    if linked then (remove_siblings >> pure (ok tt)) else pure (err publication)

  -- The live path is cleared only if its file is provably empty.
  unfoldable pub clear_and_link : ℕ → List ℕ → Live → M (Result ImportError (Unit {0}))
  unfolding link attempt
  clear_and_link n bytes missing = link n bytes
  clear_and_link n bytes corrupt = pure (err publication)
  clear_and_link n bytes (tables k old) =
      if k == 0
      then (do
        cleared ← attempt (λ w. record w { live = missing })
        if cleared then link n bytes else pure (err publication))
      else pure (err publication)

  unfoldable pub place : ℕ → List ℕ → M (Result ImportError (Unit {0}))
  unfolding clear_and_link
  place n bytes w = clear_and_link n bytes w.live w

  -- `import`, by the outcome of the integrity check.
  unfoldable pub import_checked : List ℕ → Option ℕ → M (Result ImportError (Unit {0}))
  unfolding place attempt
  import_checked bytes none = pure (err invalid)
  import_checked bytes (some n) = do
    secured ← attempt (λ w. w)
    if secured then place n bytes else pure (err publication)

  unfoldable pub import_db : List ℕ → M (Result ImportError (Unit {0}))
  unfolding import_checked
  import_db bytes = import_checked bytes (opens bytes)

  -- The lineage of what was imported.
  abbrev bare_name : Str → Str
  bare_name key = elim (rsplit_once b'/' key) [ none ↦ key | some (d, n) ↦ n ]

  unfoldable pub write_lineage : Str → Option ℕ → M Bool
  unfolding Lineage.write Lineage.write_name rsplit_once
  write_lineage key none = Lineage.write_name (bare_name key)
  write_lineage key (some g) = Lineage.write g

  unfoldable pub record_lineage : Candidate → M Bool
  unfolding write_lineage
  record_lineage c = write_lineage c.key c.generation

  unfoldable pub on_import : Candidate → Result ImportError (Unit {0}) → M Attempt
  unfolding record_lineage
  on_import c (ok _) = do record_lineage c; pure imported
  on_import c (err invalid) = pure not_usable
  on_import c (err publication) = pure not_published

  unfoldable pub on_download : Candidate → Option (List ℕ) → M Attempt
  unfolding import_db on_import remove_staged
  on_download c none = pure not_published
  on_download c (some bytes) = do r ← import_db bytes; remove_staged; on_import c r

  unfoldable pub restore_object : Candidate → M Attempt
  unfolding on_download download attempt
  restore_object c = do
    swept ← attempt (λ w. record w { staged = none })
    if swept then (do bytes ← download c; on_download c bytes) else pure not_published

  unfoldable pub on_attempt : M RestoreOutcome → Attempt → M RestoreOutcome
  unfolding stopping
  on_attempt older imported = pure ready
  on_attempt older not_usable = older
  on_attempt older not_published = do stop ← stopping; if stop then pure aborted else pure failed

  -- The loop over the candidates.
  unfoldable pub try_all : List Candidate → M RestoreOutcome
  unfolding stopping restore_object on_attempt
  try_all [] = pure failed
  try_all (c ∷ older) = do
    stop ← stopping
    if stop then pure aborted else do r ← restore_object c; on_attempt (try_all older) r

  unfoldable pub from_entry : DbBackupConfig → Entry → Candidate
  unfolding backup_prefix
  from_entry cfg e = record {
    key = backup_prefix cfg ++ e.name;
    size = e.size;
    generation = some e.generation;
  }

  unfoldable pub from_listed : DbBackupConfig → Str × ℕ → Candidate
  unfolding backup_prefix
  from_listed cfg (name, size) = record {
    key = backup_prefix cfg ++ name;
    size = size;
    generation = none;
  }

  abbrev legacy_of :
      DbBackupConfig → Result Trouble (List (Str × ℕ)) → Result Trouble (List Candidate)
  legacy_of cfg (ok listed) = ok (map (from_listed cfg) (reverse listed))
  legacy_of cfg (err e) = err e

  unfoldable pub legacy_candidates : DbBackupConfig → M (Result Trouble (List Candidate))
  unfolding list_objects from_listed
  legacy_candidates cfg = do listed ← list_objects cfg; pure (legacy_of cfg listed)

  unfoldable pub on_loaded :
      DbBackupConfig → Result Trouble (Option Manifest) → M (Result Trouble (List Candidate))
  unfolding legacy_candidates newest_first from_entry
  on_loaded cfg (ok (some m)) = pure (ok (map (from_entry cfg) (newest_first m)))
  on_loaded cfg (ok none) = legacy_candidates cfg
  on_loaded cfg (err e) = legacy_candidates cfg

  unfoldable pub candidates : DbBackupConfig → M (Result Trouble (List Candidate))
  unfolding load_manifest on_loaded
  candidates cfg = do loaded ← load_manifest cfg; on_loaded cfg loaded

  unfoldable pub on_candidates : Result Trouble (List Candidate) → M RestoreOutcome
  unfolding try_all stopping
  on_candidates (ok []) = pure ready
  on_candidates (ok (c ∷ cs)) = try_all (c ∷ cs)
  on_candidates (err e) = do stop ← stopping; if stop then pure aborted else pure failed

  unfoldable pub on_empty : DbBackupConfig → Option Bool → M RestoreOutcome
  unfolding candidates on_candidates attempt
  on_empty cfg none = pure failed
  on_empty cfg (some false) = pure ready
  on_empty cfg (some true) = do
    connected ← attempt (λ w. w)
    if connected then (do cs ← candidates cfg; on_candidates cs) else pure ready

  unfoldable pub restore_if_empty : DbBackupConfig → M RestoreOutcome
  unfolding on_empty is_empty_db
  restore_if_empty cfg w = if cfg.restore then on_empty cfg (is_empty_db w.live) w else (ready, w)

-- `adopt_lineage`.
abbrev newest_listed : Result Trouble (List (Str × ℕ)) → M Bool
newest_listed (ok listed) = elim (last listed) [
  | none ↦ pure false
  | some n ↦ Lineage.write_name n.0
]
newest_listed (err e) = pure false

unfoldable pub adopt_listed : DbBackupConfig → M Bool
unfolding list_objects Lineage.write_name
adopt_listed cfg = do listed ← list_objects cfg; newest_listed listed

unfoldable pub adopt_from : DbBackupConfig → Result Trouble (Option Manifest) → M Bool
unfolding adopt_listed Lineage.write latest is_bare
adopt_from cfg (ok (some m)) =
    if not (is_bare m) then Lineage.write (latest m) else adopt_listed cfg
adopt_from cfg (ok none) = adopt_listed cfg
adopt_from cfg (err e) = pure false

abbrev if_filled : Option Bool → M Bool → M Bool
if_filled (some false) m = m
if_filled (some true) m = pure false
if_filled none m = pure false

unfoldable pub adopt_lineage : DbBackupConfig → M Bool
unfolding adopt_from is_empty_db load_manifest attempt
adopt_lineage cfg w =
    if cfg.restore
    then if_filled (is_empty_db w.live)
        (do
          connected ← attempt (λ w. w)
          if connected then (do loaded ← load_manifest cfg; adopt_from cfg loaded) else pure false)
        w
    else (false, w)
