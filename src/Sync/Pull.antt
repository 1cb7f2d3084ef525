-- ===== src/Sync/Pull.antt =====
-- supervisor/src/runtime/sync/state.rs: a pull of the synced files at boot, `restore_state_at`, with
-- `clear_partials` of synced.rs and the client's `get`, which puts a file in place only if the object
-- is all that was expected.
pub mod Fill
use vaultwarden_hummingbird.Base.{
  ℕ, ◌+◌, ◌*◌, Bool, true, false, not, ◌&&◌, ◌||◌, Option, none, some, List, [], ◌∷◌, ◌++◌, ◌==◌,
  leb, if◌then◌else◌, length, Result, ok, err, any, map,
}
use vaultwarden_hummingbird.Text.{
  Str, codes, str_eq, starts_with, ends_with, contains_char, strip_prefix,
}
use vaultwarden_hummingbird.BTree.{BTreeMap, get, insert, remove}
use vaultwarden_hummingbird.Config.Spec.{SyncConfig, sync_prefix}
use vaultwarden_hummingbird.Backup.World.{Object, head_answer}
use vaultwarden_hummingbird.Backup.Restore.{body}
use vaultwarden_hummingbird.Util.Hash.{sha256_file}
use vaultwarden_hummingbird.Sync.Manifest.{Entry, Manifest}
use vaultwarden_hummingbird.Sync.Synced.{trees, is_synced_file}
use vaultwarden_hummingbird.Sync.Objects.{object_key}
use vaultwarden_hummingbird.Sync.Local.{paths}
use vaultwarden_hummingbird.Sync.World.{
  File, World, M, ◌>>=◌, ◌>>◌, pure, request, read, stopping, answered, is_served,
}
use vaultwarden_hummingbird.Sync.Client.{Failed, Listed, exists, connect, load_manifest, list}

-- Partial downloads: in /data itself, and anywhere below the trees.
abbrev pub is_partial : Str → Bool
is_partial rel =
    ends_with (codes ".part") rel
    && (not (contains_char b'/' rel) || any (λ t. starts_with (t ++ b'/' ∷ []) rel) trees)

-- How many were removed.
unfoldable pub clear : List Str → M ℕ
unfolding request remove ends_with contains_char starts_with
clear [] = pure 0
clear (rel ∷ rels) =
    if is_partial rel
    then (do
      removed ← request (λ w. record w { files = remove rel w.files })
      n ← clear rels
      pure (if removed then n + 1 else n))
    else clear rels

unfoldable pub clear_partials : M ℕ
unfolding clear
clear_partials w = clear (paths w.files) w

abbrev pub max_sync_object_bytes : ℕ
max_sync_object_bytes = 1024 * 1024 * 1024

pub record Expect : Type 0 where
  pub size : Option ℕ
  pub sha256 : Option Str
  pub max_bytes : ℕ

abbrev pub size_met : Option ℕ → List ℕ → Bool
size_met none bytes = true
size_met (some n) bytes = length bytes == n

pub record Target : Type 0 where
  pub rel : Str
  pub size : Option ℕ
  pub sha256 : Option Str

pub record Tally : Type 0 where
  pub ok : Bool
  pub pulled : ℕ
  pub kept : ℕ

abbrev pub fault : Tally → Tally
fault t = record t { ok = false }

unfoldable pub targets_of : BTreeMap Entry → List Target
targets_of [] = []
targets_of ((rel, e) ∷ m) =
    record { rel = rel; size = some e.size; sha256 = some e.sha256 } ∷ targets_of m

abbrev pub legacy_target : Option Str → ℕ → List Target → List Target
legacy_target none size rest = rest
legacy_target (some rel) size rest =
    if str_eq rel (codes "manifest") || starts_with (codes "objects/") rel
    then rest
    else record { rel = rel; size = some size; sha256 = none } ∷ rest

unfoldable pub listed_targets : SyncConfig → List Listed → List Target
unfolding strip_prefix sync_prefix str_eq starts_with
listed_targets cfg [] = []
listed_targets cfg (item ∷ listed) =
    legacy_target (strip_prefix (sync_prefix cfg) item.key) item.size (listed_targets cfg listed)

unfoldable pub legacy_key : SyncConfig → Str → Str
unfolding sync_prefix
legacy_key cfg rel = sync_prefix cfg ++ rel

unfoldable pub primary_key : SyncConfig → Str → Option Str → Str
unfolding sync_prefix object_key legacy_key
primary_key cfg rel none = legacy_key cfg rel
primary_key cfg rel (some sha256) = sync_prefix cfg ++ object_key rel sha256

abbrev is_some : Option Str → Bool
is_some none = false
is_some (some s) = true

abbrev pub expected : Target → Expect
expected t = record { size = t.size; sha256 = t.sha256; max_bytes = max_sync_object_bytes }

-- `create_dir_all` of the folder of a file.
unfoldable pub create_parent : M Bool
unfolding request
create_parent = request (λ w. w)

module _ (digest : List ℕ → List ℕ) where
  abbrev pub hash_met : Option Str → List ℕ → Bool
  hash_met none bytes = true
  hash_met (some sha256) bytes = str_eq (sha256_file digest bytes) sha256

  unfoldable pub meets : Expect → List ℕ → Bool
  unfolding str_eq sha256_file
  meets expect bytes =
      leb (length bytes) expect.max_bytes
      && size_met expect.size bytes
      && hash_met expect.sha256 bytes

  -- What a served download leaves: the object's bytes, at the time of the download.
  abbrev pub publish : Str → Expect → Option Object → World → Bool × World
  publish rel expect none w = (false, w)
  publish rel expect (some o) w =
      if meets expect (body o)
      then (
        true,
        record w {
          files = insert rel (record { bytes = body o; mtime = w.clock; ctime = w.clock }) w.files;
        },
      )
      else (false, w)

  unfoldable pub fetch : Str → Str → Expect → M Bool
  unfolding get insert meets body
  fetch key rel expect w =
      if is_served (head_answer w.answers)
      then publish rel expect (get key w.objects) (answered w)
      else (false, answered w)

  -- The legacy key is tried where the entry may have been inherited.
  unfoldable pub fallback : SyncConfig → Target → Expect → Bool → M Bool
  unfolding fetch legacy_key primary_key str_eq
  fallback cfg t expect true = pure true
  fallback cfg t expect false =
      if is_some t.sha256 && not (str_eq (primary_key cfg t.rel t.sha256) (legacy_key cfg t.rel))
      then fetch (legacy_key cfg t.rel) t.rel expect
      else pure false

  unfoldable pub download : SyncConfig → Target → M Bool
  unfolding fetch fallback primary_key
  download cfg t = do
    done ← fetch (primary_key cfg t.rel t.sha256) t.rel (expected t)
    fallback cfg t (expected t) done

  unfoldable pub pull_missing : SyncConfig → Target → Tally → M Tally
  unfolding create_parent download
  pull_missing cfg t n = do
    created ← create_parent
    if not created then pure (fault n) else do
      done ← download cfg t
      pure (if done then record n { pulled = n.pulled + 1 } else fault n)

  unfoldable pub pull_absent : SyncConfig → Target → Tally → Bool → M Tally
  unfolding pull_missing
  pull_absent cfg t n true = pure (record n { kept = n.kept + 1 })
  pull_absent cfg t n false = pull_missing cfg t n

  -- One target: outside the set it is an error, and a file that is there is kept.
  unfoldable pub pull_target : SyncConfig → Target → Tally → M Tally
  unfolding is_synced_file exists pull_absent
  pull_target cfg t n = if not (is_synced_file t.rel cfg.state_file) then pure (fault n) else λ w.
      pull_absent cfg t n (exists t.rel w.files) w

  -- The loop: a stop request ends it.
  unfoldable pub pull_targets : SyncConfig → List Target → Tally → M (Option Tally)
  unfolding stopping pull_target
  pull_targets cfg [] n = pure (some n)
  pull_targets cfg (t ∷ ts) n = do
    stop ← stopping
    if stop then pure none else do n' ← pull_target cfg t n; pull_targets cfg ts n'
