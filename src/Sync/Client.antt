-- ===== src/Sync/Client.antt =====
-- The S3 client (supervisor/src/s3/client.rs: `put`, `put_bytes`, `get_optional_text`, `list`) as sync
-- runs meet it, each operation one request, and what runtime/sync/state.rs asks of it: the manifest,
-- and the listing. An error that the client reports by itself (a stop request, a size cap) is a
-- refused request. What an error says is only logged.
use vaultwarden_hummingbird.Base.{
  ℕ, Bool, false, not, ◌||◌, Option, none, some, List, [], ◌∷◌, ◌++◌, leb, if◌then◌else◌, length,
  Result, ok, err, any,
}
use vaultwarden_hummingbird.Text.{Str, codes, byte_len, strip_prefix, starts_with, str_eq}
use vaultwarden_hummingbird.BTree.{BTreeMap, get, insert}
use vaultwarden_hummingbird.Config.Spec.{SyncConfig, sync_prefix}
use vaultwarden_hummingbird.Backup.World.{Object, text, dump}
use vaultwarden_hummingbird.Backup.Restore.{body}
use vaultwarden_hummingbird.Sync.Manifest.{Manifest, ParseError, parse, render, max_manifest_bytes}
use vaultwarden_hummingbird.Sync.Synced.{is_synced_file}
use vaultwarden_hummingbird.Sync.Objects.{split_object_key}
use vaultwarden_hummingbird.Sync.World.{File, M, ◌>>=◌, pure, request, read}

unfoldable pub connect : M Bool
unfolding request
connect = request (λ w. w)

unfoldable pub manifest_key : SyncConfig → Str
unfolding sync_prefix
manifest_key cfg = sync_prefix cfg ++ codes "manifest"

-- A download or a parse that failed.
pub data Failed : Type 0 where
  failed : Failed

-- A missing object is no error.
abbrev pub text_of : Option Object → Option (Option Str)
text_of none = some none
text_of (some (text t)) = if leb (byte_len t) max_manifest_bytes then some (some t) else none
text_of (some (dump bytes)) = none

unfoldable pub get_optional_text : Str → M (Option (Option Str))
unfolding read get
get_optional_text key = read (λ w. text_of (get key w.objects))

abbrev pub parsed : Result ParseError Manifest → Result Failed (Option Manifest)
parsed (ok m) = ok (some m)
parsed (err e) = err failed

abbrev pub manifest_of : Option (Option Str) → Result Failed (Option Manifest)
manifest_of none = err failed
manifest_of (some none) = ok none
manifest_of (some (some t)) = parsed (parse t)

unfoldable pub load_manifest : SyncConfig → M (Result Failed (Option Manifest))
unfolding get_optional_text manifest_key parse
load_manifest cfg = do t ← get_optional_text (manifest_key cfg); pure (manifest_of t)

unfoldable pub put : Str → Object → M Bool
unfolding request insert
put key object = request (λ w. record w { objects = insert key object w.objects })

unfoldable pub store_manifest : SyncConfig → Manifest → M Bool
unfolding put manifest_key render
store_manifest cfg m =
    if leb (byte_len (render m)) max_manifest_bytes
    then put (manifest_key cfg) (text (render m))
    else pure false

pub record Listed : Type 0 where
  pub key : Str
  pub size : ℕ
  pub last_modified : Str

-- The objects under a prefix in the order of their keys, `modified` being the times that the
-- bucket reports.
unfoldable pub listing : (Str → Str) → Str → BTreeMap Object → List Listed
unfolding starts_with body
listing modified prefix [] = []
listing modified prefix ((key, o) ∷ rest) =
    let more = listing modified prefix rest in
    if starts_with prefix key
    then record { key = key; size = length (body o); last_modified = modified key } ∷ more
    else more

unfoldable pub list : Str → M (Option (List Listed))
unfolding read listing
list prefix = read (λ w. some (listing w.modified prefix w.objects))

-- `Path::exists` under /data: a file, or a directory that holds one.
unfoldable pub exists : Str → BTreeMap File → Bool
unfolding starts_with str_eq
exists rel files = any (λ f. str_eq f.0 rel || starts_with (rel ++ b'/' ∷ []) f.0) files

-- The path that a listed key stands for, in either layout.
abbrev rel_or : Option (Str × Str) → Option Str → Option Str
rel_or (some (rel, sha256)) legacy = some rel
rel_or none legacy = legacy

unfoldable pub rel_of : SyncConfig → Str → Option Str
unfolding split_object_key strip_prefix sync_prefix
rel_of cfg key =
    rel_or (split_object_key key (sync_prefix cfg)) (strip_prefix (sync_prefix cfg) key)

abbrev is_missing : SyncConfig → BTreeMap File → Option Str → Bool
is_missing cfg files none = false
is_missing cfg files (some rel) =
    if str_eq rel (codes "manifest") || not (is_synced_file rel cfg.state_file)
    then false
    else not (exists rel files)

abbrev add_missing : Option Str → BTreeMap (Unit {0}) → BTreeMap (Unit {0})
add_missing none missing = missing
add_missing (some rel) missing = insert rel tt missing

-- The paths in the bucket that no file stands at, sorted and each once.
unfoldable pub missing_of : SyncConfig → BTreeMap File → List Listed → BTreeMap (Unit {0})
unfolding rel_of is_synced_file exists insert str_eq
missing_of cfg files [] = []
missing_of cfg files (item ∷ rest) =
    let more = missing_of cfg files rest in
    let rel = rel_of cfg item.key in if is_missing cfg files rel then add_missing rel more else more

abbrev pub missing_in :
    SyncConfig → BTreeMap File → Option (List Listed) → Option (BTreeMap (Unit {0}))
missing_in cfg files none = none
missing_in cfg files (some listed) = some (missing_of cfg files listed)

unfoldable pub remote_only_files : SyncConfig → M (Option (BTreeMap (Unit {0})))
unfolding list missing_of sync_prefix
remote_only_files cfg = do listed ← list (sync_prefix cfg); λ w. (missing_in cfg w.files listed, w)
