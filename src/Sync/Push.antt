-- ===== src/Sync/Push.antt =====
-- supervisor/src/runtime/sync/state.rs: a push of the synced files, `sync_state_at`. The hash of a
-- file's bytes is that of Util.Hash, over the parameter `digest`.
pub mod Held
pub mod Sound
pub mod Publish
pub mod Safety
use vaultwarden_hummingbird.Base.{
  ℕ, ◌+◌, Bool, true, false, not, ◌&&◌, Option, none, some, List, [], ◌∷◌, ◌++◌, ◌==◌, ltb,
  if◌then◌else◌, length, Result, ok, err, any,
}
use vaultwarden_hummingbird.Text.{Str, str_eq, is_empty, contains_char, lines}
use vaultwarden_hummingbird.BTree.{BTreeMap, get, insert, remove}
use vaultwarden_hummingbird.Config.Spec.{SyncConfig, sync_prefix}
use vaultwarden_hummingbird.Backup.World.{dump}
use vaultwarden_hummingbird.Util.Hash.{sha256_file}
use vaultwarden_hummingbird.Sync.Manifest.{Entry, Manifest, get_entry, insert_entry, parse, render}
use vaultwarden_hummingbird.Sync.Objects.{object_key}
use vaultwarden_hummingbird.Sync.Cache.{Cache, empty_cache, hash_of, record_hash, saved}
use vaultwarden_hummingbird.Sync.Cache
use vaultwarden_hummingbird.Sync.Local.{local_synced_files}
use vaultwarden_hummingbird.Sync.World.{File, World, M, ◌>>=◌, ◌>>◌, pure, request, read, stopping}
use vaultwarden_hummingbird.Sync.Client.{
  Failed, connect, load_manifest, store_manifest, put, remote_only_files,
}

-- `BTreeSet<String>`.
abbrev pub BTreeSet : Type 0
BTreeSet = BTreeMap (Unit {0})

abbrev pub has : Str → BTreeSet → Bool
has rel set = elim (get rel set) [ none ↦ false | some _ ↦ true ]

abbrev set_of : List Str → BTreeSet
set_of [] = []
set_of (rel ∷ rels) = insert rel tt (set_of rels)

abbrev pub text_lines : Option Str → BTreeSet
text_lines none = []
text_lines (some text) = set_of (lines text)

-- A file that cannot be read gives an empty list.
unfoldable pub read_repair : M BTreeSet
unfolding read insert lines
read_repair = do text ← read (λ w. w.repair); pure (text_lines text)

unfoldable pub repair_text : BTreeSet → Str
unfolding contains_char
repair_text [] = []
repair_text ((rel, _) ∷ set) =
    let rest = repair_text set in if contains_char b'\n' rel then rest else rel ++ b'\n' ∷ rest

abbrev pub repair_file : BTreeSet → Option Str
repair_file [] = none
repair_file (r ∷ set) = some (repair_text (r ∷ set))

unfoldable pub write_repair : BTreeSet → M Bool
unfolding request repair_text
write_repair set = request (λ w. record w { repair = repair_file set })

abbrev pub no_entries : Manifest
no_entries = record { entries = [] }

abbrev pub shadow_of : Option Str → Manifest
shadow_of none = no_entries
shadow_of (some text) = elim (parse text) [ ok m ↦ m | err e ↦ no_entries ]

unfoldable pub load_shadow : M Manifest
unfolding read parse
load_shadow = do text ← read (λ w. w.shadow); pure (shadow_of text)

unfoldable pub store_shadow : Manifest → M Bool
unfolding request render
store_shadow m = request (λ w. record w { shadow = some (render m) })

unfoldable pub remove_shadow : M Bool
unfolding request
remove_shadow = request (λ w. record w { shadow = none })

abbrev pub cache_of : Option Str → Cache
cache_of none = empty_cache
cache_of (some text) = Cache.parse text

unfoldable pub load_cache : M Cache
unfolding read Cache.parse
load_cache = do text ← read (λ w. w.cache); pure (cache_of text)

unfoldable pub write_cache : Option Str → M Bool
unfolding request
write_cache none = pure true
write_cache (some text) = request (λ w. record w { cache = some text })

unfoldable pub save_cache : Cache → M Bool
unfolding write_cache saved
save_cache cache = write_cache (saved cache)

-- The locals that the loop over the files changes.
pub record Progress : Type 0 where
  pub manifest : Manifest
  pub repair : BTreeSet
  pub cache : Cache
  pub pushed : ℕ
  pub failed : Bool

abbrev pub fail : Progress → Progress
fail s = record s { failed = true }

-- Whether the manifest has a file of this hash and size at the path.
abbrev has_entry : Option Entry → Str → ℕ → Bool
has_entry none hash size = false
has_entry (some e) hash size = str_eq e.sha256 hash && e.size == size

abbrev pub is_listed : Progress → Str → Str → ℕ → Bool
is_listed s rel hash size = has_entry (get_entry s.manifest rel) hash size

abbrev is_cached : Progress → Str → File → Bool
is_cached s rel f = elim (hash_of s.cache rel (length f.bytes) f.mtime f.ctime) [
  | none ↦ false
  | some hash ↦ is_listed s rel hash (length f.bytes)
]

abbrev remember : Progress → Str → File → Str → Progress
remember s rel f hash = record s {
  cache = record_hash s.cache rel (length f.bytes) f.mtime f.ctime hash;
}

-- The file is in the bucket now.
unfoldable pub uploaded : Progress → Str → File → Str → Progress
unfolding insert_entry record_hash remove
uploaded s rel f hash = record {
  manifest = insert_entry s.manifest rel (record { size = length f.bytes; sha256 = hash });
  repair = remove rel s.repair;
  cache = record_hash s.cache rel (length f.bytes) f.mtime f.ctime hash;
  pushed = s.pushed + 1;
  failed = s.failed;
}

unfoldable pub upload_key : SyncConfig → Bool → Str → Str → Str
unfolding object_key sync_prefix
upload_key cfg publish rel hash =
    if publish then sync_prefix cfg ++ object_key rel hash else sync_prefix cfg ++ rel

unfoldable pub upload : SyncConfig → Bool → Str → Progress → File → Str → M Progress
unfolding put upload_key uploaded
upload cfg publish rel s f hash = do
  done ← put (upload_key cfg publish rel hash) (dump f.bytes)
  pure (if done then uploaded s rel f hash else fail s)

unfoldable pub on_hash : SyncConfig → Bool → Str → Progress → File → Option Str → M Progress
unfolding upload get_entry str_eq record_hash
on_hash cfg publish rel s f none = pure (fail s)
on_hash cfg publish rel s f (some hash) =
    if not (has rel s.repair) && is_listed s rel hash (length f.bytes)
    then pure (remember s rel f hash)
    else upload cfg publish rel s f hash

-- What was pushed is made known: by the manifest, or in the legacy layout by the shadow.
unfoldable pub record_pushed : SyncConfig → Bool → Progress → M Progress
unfolding store_manifest remove_shadow store_shadow
record_pushed cfg true s = do
  stored ← store_manifest cfg s.manifest
  if stored then (do remove_shadow; pure s) else pure (fail s)
record_pushed cfg false s = do store_shadow s.manifest; pure s

abbrev pub keep_present : List Str → BTreeSet → BTreeSet
keep_present files [] = []
keep_present files ((rel, u) ∷ set) =
    let rest = keep_present files set in
    if any (λ f. str_eq f rel) files then (rel, u) ∷ rest else rest

unfoldable pub close : List Str → Progress → M Bool
unfolding write_repair save_cache str_eq
close files s = do
  write_repair (keep_present files s.repair)
  save_cache s.cache
  pure (not s.failed)

unfoldable pub on_pushed : SyncConfig → Bool → List Str → Option Progress → M Bool
unfolding record_pushed close
on_pushed cfg publish files none = pure false
on_pushed cfg publish files (some s) = do
  s' ← if ltb 0 s.pushed then record_pushed cfg publish s else pure s
  close files s'

module _ (digest : List ℕ → List ℕ) where
  unfoldable pub hash_file : File → M (Option Str)
  unfolding read sha256_file
  hash_file f = read (λ w. some (sha256_file digest f.bytes))

  unfoldable pub on_metadata : SyncConfig → Bool → Str → Progress → Option File → M Progress
  unfolding hash_file on_hash hash_of get_entry str_eq
  on_metadata cfg publish rel s none = pure (fail s)
  on_metadata cfg publish rel s (some f) =
      if not (has rel s.repair) && is_cached s rel f
      then pure s
      else do hash ← hash_file f; on_hash cfg publish rel s f hash

  -- One round of the loop.
  unfoldable pub push_file : SyncConfig → Bool → Str → Progress → M Progress
  unfolding read get on_metadata
  push_file cfg publish rel s = do
    metadata ← read (λ w. get rel w.files)
    on_metadata cfg publish rel s metadata

  -- The loop: a stop request ends it, and the run, before the next file.
  unfoldable pub push_files : SyncConfig → Bool → List Str → Progress → M (Option Progress)
  unfolding push_file stopping
  push_files cfg publish [] s = pure (some s)
  push_files cfg publish (rel ∷ rest) s = do
    stop ← stopping
    if stop then pure none else do s' ← push_file cfg publish rel s; push_files cfg publish rest s'

  -- With the manifest that the run starts from.
  unfoldable pub push_with : SyncConfig → Bool → List Str → Manifest → M Bool
  unfolding read_repair load_cache push_files on_pushed
  push_with cfg publish files manifest = do
    repair ← read_repair
    cache ← load_cache
    let s : Progress = record {
      manifest = manifest;
      repair = repair;
      cache = cache;
      pushed = 0;
      failed = false;
    }
    pushed ← push_files cfg publish files s
    on_pushed cfg publish files pushed

  unfoldable pub push_legacy : SyncConfig → List Str → M Bool
  unfolding load_shadow push_with
  push_legacy cfg files = do shadow ← load_shadow; push_with cfg false files shadow

  -- Without a manifest, one is only published if nothing in the bucket is missing from the volume.
  unfoldable pub on_missing : SyncConfig → List Str → Option BTreeSet → M Bool
  unfolding push_with push_legacy
  on_missing cfg files (some []) = push_with cfg true files no_entries
  on_missing cfg files _ = push_legacy cfg files

  unfoldable pub rebuild : SyncConfig → List Str → M Bool
  unfolding remote_only_files on_missing
  rebuild cfg files = do missing ← remote_only_files cfg; on_missing cfg files missing

  unfoldable pub on_manifest : SyncConfig → List Str → Result Failed (Option Manifest) → M Bool
  unfolding push_with rebuild
  on_manifest cfg files (ok (some m)) = push_with cfg true files m
  on_manifest cfg files _ = rebuild cfg files

  unfoldable pub push_all : SyncConfig → List Str → M Bool
  unfolding load_manifest on_manifest
  push_all cfg [] = pure true
  push_all cfg (rel ∷ files) = do loaded ← load_manifest cfg; on_manifest cfg (rel ∷ files) loaded

  unfoldable pub sync_state : SyncConfig → M Bool
  unfolding connect local_synced_files push_all
  sync_state cfg = do
    connected ← connect
    if not connected then pure false else λ w.
        push_all cfg (local_synced_files w.files cfg.state_file) w
