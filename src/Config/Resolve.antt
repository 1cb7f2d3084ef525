-- ===== src/Config/Resolve.antt =====
-- supervisor/src/config/sync/resolve.rs, sync/spec.rs, backup/resolve.rs and dburl.rs: from the knobs
-- to the records. `knob` looks a name up, with a default. What is logged is left out.
pub mod Bounds
use vaultwarden_hummingbird.Base.{
  ℕ, ◌+◌, ◌-◌, ◌*◌, Bool, true, false, not, ◌&&◌, ◌||◌, Option, none, some, List, [], ◌∷◌, ◌++◌,
  any, ltb, leb, ◌==◌, if◌then◌else◌,
}
use vaultwarden_hummingbird.Text.{
  Str, codes, str_eq, is_empty, is_whitespace, trim, split_once, strip_prefix,
}
use vaultwarden_hummingbird.Text.Utf8.{as_bytes, from_utf8}
use vaultwarden_hummingbird.Backup.Manifest.{u64_max}
use vaultwarden_hummingbird.Config.Spec.{RemoteSpec, SyncConfig, DbBackupConfig}
use vaultwarden_hummingbird.Config.Knobs.{parse_count, parse_flag, unwrap_or, non_empty}

abbrev pub sync_interval_default : ℕ
sync_interval_default = 3600

abbrev pub backup_interval_default : ℕ
backup_interval_default = 21600

abbrev pub backup_keep_default : ℕ
backup_keep_default = 3

abbrev pub max_interval_secs : ℕ
max_interval_secs = 7 * 24 * 3600

abbrev pub max_backup_keep : ℕ
max_backup_keep = 1000

unfoldable pub trim_slashes : Str → Str
trim_slashes [] = []
trim_slashes (c ∷ s) = let rest = trim_slashes s in if c == b'/' then rest else c ∷ s

abbrev as_prefix : Str → Str
as_prefix p = if is_empty p then [] else p ++ b'/' ∷ []

abbrev bad_bucket : Str → Bool
bad_bucket bucket = is_empty bucket || any (λ c. is_whitespace c || c == b':' || c == b'/') bucket

abbrev spec_of : Str → Str → Str → Str → Str → Option RemoteSpec
spec_of bucket prefix key_id key_secret endpoint =
    if bad_bucket bucket
    then none
    else some (record {
      bucket = bucket;
      prefix = as_prefix (trim_slashes prefix);
      key_id = key_id;
      key_secret = key_secret;
      endpoint = endpoint;
    })

abbrev path_spec : Str → Str → Str → Str → Option (Str × Str) → Option RemoteSpec
path_spec path key_id key_secret endpoint none = spec_of path [] key_id key_secret endpoint
path_spec path key_id key_secret endpoint (some (bucket, prefix)) =
    spec_of bucket prefix key_id key_secret endpoint

unfoldable pub parse_remote : Str → Str → Str → Str → Option RemoteSpec
unfolding split_once trim trim_slashes is_whitespace
parse_remote remote key_id key_secret endpoint = elim (split_once b':' remote) [
  | none ↦ none
  | some (name, path) ↦
      path_spec (trim path) key_id key_secret endpoint (split_once b'/' (trim path))
]

abbrev config_of : Str → ℕ → Option RemoteSpec → Option SyncConfig
config_of remote interval none = none
config_of remote interval (some target) =
    some (record { remote = remote; target = target; interval = interval; state_file = none })

unfoldable pub new_sync : Str → Str → Str → Str → ℕ → Option SyncConfig
unfolding parse_remote
new_sync remote key_id key_secret endpoint interval =
    if is_empty endpoint
    then none
    else config_of remote interval (parse_remote remote key_id key_secret endpoint)

-- A count over its cap is replaced by the default.
abbrev capped : ℕ → ℕ → ℕ → ℕ
capped cap default s = if ltb cap s then default else s

abbrev positive : ℕ → ℕ → ℕ → ℕ
positive cap default s = if s == 0 then default else capped cap default s

unfoldable pub resolve_sync : (Str → Str → Str) → Option SyncConfig
unfolding new_sync parse_count
resolve_sync knob =
    let remote = knob (codes "SUPERVISOR_S3_REMOTE") [] in
    let key_id = knob (codes "SUPERVISOR_S3_ACCESS_KEY_ID") [] in
    let key_secret = knob (codes "SUPERVISOR_S3_SECRET_ACCESS_KEY") [] in
    if is_empty remote
    then none
    else if is_empty key_id || is_empty key_secret
    then none
    else new_sync remote key_id key_secret (knob (codes "SUPERVISOR_S3_ENDPOINT") []) (
        capped max_interval_secs sync_interval_default (
          parse_count u64_max (knob (codes "SUPERVISOR_S3_SYNC_INTERVAL") [])
            sync_interval_default))

unfoldable pub hex_value : ℕ → Option ℕ
hex_value b =
    if leb b'0' b && leb b b'9'
    then some (b - b'0')
    else if leb b'a' b && leb b b'f'
    then some (b - b'a' + 10)
    else if leb b'A' b && leb b b'F'
    then some (b - b'A' + 10)
    else none

abbrev escaped : Option ℕ → Option ℕ → Option ℕ
escaped (some hi) (some lo) = some (hi * 16 + lo)
escaped (some hi) none = none
escaped none lo = none

-- The bytes up to the first "?" or "#".
unfoldable pub cut_query : List ℕ → List ℕ
cut_query [] = []
cut_query (b ∷ s) = let rest = cut_query s in if b == b'?' || b == b'#' then [] else b ∷ rest

abbrev plain : ℕ → List ℕ → List ℕ
plain b rest = if b == 0 then [] else b ∷ rest

abbrev on_escape : ℕ → Option ℕ → List ℕ → List ℕ → List ℕ
on_escape b none rest after = plain b rest
on_escape b (some d) rest after = if d == 0 then [] else d ∷ after

-- `%HH` is decoded once; a NUL, decoded or not, ends the path.
unfoldable pub percent_decode : List ℕ → List ℕ
unfolding hex_value
percent_decode [] = []
percent_decode (b ∷ []) = plain b []
percent_decode (b ∷ h ∷ []) = let rest = percent_decode (h ∷ []) in plain b rest
percent_decode (b ∷ h ∷ l ∷ s) =
    let rest = percent_decode (h ∷ l ∷ s) in
    let after = percent_decode s in
    if b == b'%' then on_escape b (escaped (hex_value h) (hex_value l)) rest after else plain b rest

unfoldable pub sqlite_uri_path : Str → Str
unfolding percent_decode cut_query as_bytes from_utf8
sqlite_uri_path rest = unwrap_or (from_utf8 (percent_decode (cut_query (as_bytes rest)))) []

-- `raw.split_once("://")`.
unfoldable pub split_scheme : Str → Option (Str × Str)
unfolding strip_prefix
split_scheme [] = none
split_scheme (c ∷ s) =
    let later = split_scheme s in
    elim (strip_prefix (codes "://") (c ∷ s)) [
      | some rest ↦ some ([], rest)
      | none ↦ elim later [ none ↦ none | some (a, b) ↦ some (c ∷ a, b) ]
    ]

abbrev scheme_path : Str → Option (Str × Str) → Option Str
scheme_path raw none = non_empty (some raw)
scheme_path raw (some (scheme, rest)) =
    if str_eq scheme (codes "sqlite") then non_empty (some (sqlite_uri_path rest)) else none

unfoldable pub sqlite_path : Str → Option Str
unfolding trim split_scheme sqlite_uri_path str_eq
sqlite_path raw =
    let url = trim raw in if is_empty url then none else scheme_path url (split_scheme url)

abbrev trimmed : Option Str → Option Str
trimmed none = none
trimmed (some u) = non_empty (some (trim u))

abbrev db_path_of : Option Str → Option Str
db_path_of none = some (codes "/data/db.sqlite3")
db_path_of (some url) = sqlite_path url

abbrev backup_of : Bool → Bool → ℕ → ℕ → SyncConfig → Option Str → Option DbBackupConfig
backup_of periodic restore interval keep sync none = none
backup_of periodic restore interval keep sync (some db_path) = some (record {
  sync = sync;
  db_path = db_path;
  periodic = periodic;
  interval = interval;
  keep = keep;
  restore = restore;
  staging = codes "/data/db-backups";
})

abbrev with_sync : (SyncConfig → Option DbBackupConfig) → Option SyncConfig → Option DbBackupConfig
with_sync f none = none
with_sync f (some sync) = f sync

unfoldable pub resolve_backup :
    (Str → Str → Str) → Option SyncConfig → Option Str → Option DbBackupConfig
unfolding parse_flag parse_count trim sqlite_path
resolve_backup knob sync db_url =
    let periodic = parse_flag (knob (codes "SUPERVISOR_DB_BACKUP") []) false in
    let restore = parse_flag (knob (codes "SUPERVISOR_DB_BACKUP_RESTORE") []) false in
    let interval = positive max_interval_secs backup_interval_default (
      parse_count u64_max (knob (codes "SUPERVISOR_DB_BACKUP_INTERVAL") [])
        backup_interval_default) in
    let keep =
      positive max_backup_keep backup_keep_default
        (parse_count u64_max (knob (codes "SUPERVISOR_DB_BACKUP_KEEP") []) backup_keep_default) in
    if not periodic && not restore
    then none
    else with_sync (λ s. backup_of periodic restore interval keep s (db_path_of (trimmed db_url)))
        sync
