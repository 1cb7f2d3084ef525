-- ===== src/Backup/Tick.antt =====
-- supervisor/src/runtime/backup/dump.rs: one periodic backup cycle, sweep, dump, push, manifest, prune.
pub mod Sound
pub mod Publish
pub mod Safety
pub mod Listed
pub mod Cycle
pub mod Guards
pub mod Lost
pub mod Continuity
use vaultwarden_hummingbird.Base.{
  ℕ, Bool, true, false, not, ◌&&◌, Option, none, some, List, [], ◌∷◌, ◌++◌, ltb, ◌==◌,
  if◌then◌else◌, length, Result, ok, err,
}
use vaultwarden_hummingbird.Text.{Str, codes, str_eq}
use vaultwarden_hummingbird.Config.Spec.{DbBackupConfig, backup_prefix, db_label, db_ext}
use vaultwarden_hummingbird.Backup.Manifest.{
  Entry, Manifest, latest, next_generation, find_name, push, retain, from_listing,
}
use vaultwarden_hummingbird.Backup.World.{
  Object, dump, Live, missing, corrupt, tables, World, M, request, ◌>>=◌, ◌>>◌, pure,
}
use vaultwarden_hummingbird.Backup.Lineage.{
  Known, generation, legacy_name, Verdict, proceed, refuse, verdict,
}
use vaultwarden_hummingbird.Backup.Lineage
use vaultwarden_hummingbird.Backup.Bucket.{
  Trouble, put, delete, load_manifest, store_manifest, list_objects, prune,
}

-- Where the cycle returned, by the message that it logs there.
pub data Outcome : Type 0 where
  aborted empty_db undecidable_db no_client list_failed manifest_failed : Outcome
  shadow_refused exhausted sweep_failed dump_failed not_private redundant : Outcome
  push_failed unpublished : Outcome
  pushed : ℕ → Outcome

-- `check::is_empty`, on the outcome of looking at the database.
unfoldable pub is_empty_db : Live → Option Bool
is_empty_db missing = some true
is_empty_db corrupt = none
is_empty_db (tables n bytes) = some (n == 0)

unfoldable pub resolve_known : Option Known → Manifest → Option ℕ
unfolding find_name
resolve_known none m = none
resolve_known (some (generation g)) m = some g
resolve_known (some (legacy_name name)) m = elim (find_name m name) [
  | none ↦ none
  | some e ↦ some e.generation
]

unfoldable pub upload_is_redundant : Option ℕ → ℕ → Bool → Bool
upload_is_redundant none newest unchanged = false
upload_is_redundant (some g) newest unchanged = ltb 0 newest && g == newest && unchanged

unfoldable pub object_name : DbBackupConfig → Str → Str
unfolding db_label db_ext
object_name cfg ts = db_label cfg ++ (codes "-" ++ (ts ++ (codes "." ++ db_ext cfg)))

-- `sweep_staging`, `sqlite::dump` and `make_private` of the staged dump, each one local request.
unfoldable pub sweep_staging : M Bool
sweep_staging = request (λ w. record w { staged = none })

abbrev pub dumped : Live → Option (List ℕ)
dumped missing = none
dumped corrupt = none
dumped (tables n bytes) = some bytes

unfoldable pub copy_into_staging : Option (List ℕ) → M Bool
unfolding request
copy_into_staging none = pure false
copy_into_staging (some bytes) = request (λ w. record w { staged = some bytes })

unfoldable pub sqlite_dump : M Bool
unfolding copy_into_staging
sqlite_dump w = copy_into_staging (dumped w.live) w

unfoldable pub remove_staged : M (Unit {0})
remove_staged w = (tt, record w { staged = none })

-- `unchanged::retain`: a rename, or else the staged dump is removed.
unfoldable pub retain_dump : M (Unit {0})
unfolding remove_staged
retain_dump = do request (λ w. record w { retained = w.staged }); remove_staged

abbrev pub staged_bytes : World → List ℕ
staged_bytes w = elim w.staged [ none ↦ [] | some bytes ↦ bytes ]

-- `unchanged::is_repeat`: a missing retained dump is no repeat.
abbrev pub is_repeat : World → Bool
is_repeat w = elim w.retained [ none ↦ false | some bytes ↦ str_eq (staged_bytes w) bytes ]

-- After the manifest's upload: record the lineage, keep the dump, and only then forget what was
-- evicted; or take the dump back.
unfoldable pub finish : DbBackupConfig → Entry → List Entry → Bool → M Outcome
unfolding Lineage.write retain_dump prune delete remove_staged
finish cfg e evicted true = do
  (Lineage.write e.generation >> retain_dump)
  prune cfg evicted
  pure (pushed e.generation)
finish cfg e evicted false = do
  remove_staged
  delete (backup_prefix cfg ++ e.name)
  pure unpublished

unfoldable pub publish : DbBackupConfig → Manifest → Entry → M Outcome
unfolding push retain store_manifest finish
publish cfg m e = do
  let grown = retain (push m e) cfg.keep
  stored ← store_manifest cfg grown.0
  finish cfg e grown.1 stored

unfoldable pub put_done : DbBackupConfig → Manifest → Entry → Bool → M Outcome
unfolding publish remove_staged
put_done cfg m e true = publish cfg m e
put_done cfg m e false = do remove_staged; pure push_failed

unfoldable pub push_dump : DbBackupConfig → Manifest → Entry → List ℕ → M Outcome
unfolding put put_done backup_prefix
push_dump cfg m e bytes = do
  done ← put (backup_prefix cfg ++ e.name) (dump bytes)
  put_done cfg m e done

-- With the dump staged and private: nothing to do if it repeats the newest one.
unfoldable pub upload_if : DbBackupConfig → Manifest → Entry → List ℕ → Bool → M Outcome
unfolding push_dump remove_staged
upload_if cfg m e bytes true = do remove_staged; pure redundant
upload_if cfg m e bytes false = push_dump cfg m e bytes

unfoldable pub upload : DbBackupConfig → Manifest → Option ℕ → ℕ → Str → M Outcome
unfolding upload_if upload_is_redundant latest str_eq
upload cfg m known g name w =
    let bytes = staged_bytes w in
    upload_if cfg m (record { generation = g; name = name; size = length bytes }) bytes
      (upload_is_redundant known (latest m) (is_repeat w)) w

-- Stage the dump: sweep, copy, restrict.
unfoldable pub restrict : M Bool
unfolding request
restrict = request (λ w. w)

unfoldable pub stage : DbBackupConfig → Manifest → Option ℕ → ℕ → Str → M Outcome
unfolding upload sweep_staging sqlite_dump remove_staged restrict
stage cfg m known g name = do
  swept ← sweep_staging
  if not swept then pure sweep_failed else do
    copied ← sqlite_dump
    if not copied then pure dump_failed else do
      restricted ← restrict
      if not restricted then (do remove_staged; pure not_private) else upload cfg m known g name

-- The guards on lineage and generation, with the manifest at hand.
unfoldable pub on_next : DbBackupConfig → Str → Manifest → Option ℕ → Option ℕ → M Outcome
unfolding stage object_name
on_next cfg ts m known none = pure exhausted
on_next cfg ts m known (some g) = stage cfg m known g (object_name cfg ts)

unfoldable pub on_verdict : DbBackupConfig → Str → Manifest → Option ℕ → Verdict → M Outcome
unfolding on_next next_generation
on_verdict cfg ts m known refuse = pure shadow_refused
on_verdict cfg ts m known proceed = on_next cfg ts m known (next_generation m)

unfoldable pub guard_push : DbBackupConfig → Str → Manifest → M Outcome
unfolding on_verdict resolve_known Lineage.read verdict latest
guard_push cfg ts m w =
    let known = resolve_known (Lineage.read w) m in
    on_verdict cfg ts m known (verdict known (latest m)) w

unfoldable pub on_listed : DbBackupConfig → Str → Result Trouble (List (Str × ℕ)) → M Outcome
unfolding guard_push from_listing
on_listed cfg ts (ok listed) = guard_push cfg ts (from_listing listed)
on_listed cfg ts (err e) = pure list_failed

unfoldable pub with_manifest : DbBackupConfig → Str → Result Trouble (Option Manifest) → M Outcome
unfolding on_listed list_objects
with_manifest cfg ts (err e) = pure manifest_failed
with_manifest cfg ts (ok (some m)) = guard_push cfg ts m
with_manifest cfg ts (ok none) = do listed ← list_objects cfg; on_listed cfg ts listed

unfoldable pub connect : M Bool
unfolding request
connect = request (λ w. w)

unfoldable pub on_emptiness : DbBackupConfig → Str → Option Bool → M Outcome
unfolding with_manifest load_manifest connect
on_emptiness cfg ts none = pure undecidable_db
on_emptiness cfg ts (some true) = pure empty_db
on_emptiness cfg ts (some false) = do
  connected ← connect
  if not connected
      then pure no_client
      else do loaded ← load_manifest cfg; with_manifest cfg ts loaded

-- `tick`: `stop` is the stop request that it looks at first, and `ts` the timestamp of this run.
unfoldable pub tick : DbBackupConfig → Str → Bool → M Outcome
unfolding on_emptiness is_empty_db
tick cfg ts true w = (aborted, w)
tick cfg ts false w = on_emptiness cfg ts (is_empty_db w.live) w
