-- ===== src/Config/Resolve/Bounds.antt =====
-- What every resolved configuration satisfies.
use vaultwarden_hummingbird.Base.{
  ℕ, ◌≤◌, ◌<◌, Bool, true, false, not, ◌&&◌, ◌||◌, Option, none, some, [], ◌∷◌, ◌++◌, ◌≡◌, refl,
  ◌⊎◌, inl, inr, arith, if◌then◌else◌, Bool-cases, ◌∙◌, ap,
}
use vaultwarden_hummingbird.Text.{Str, codes, is_empty, split_once, trim, str_eq}
use vaultwarden_hummingbird.Backup.Manifest.{u64_max}
use vaultwarden_hummingbird.Config.Spec.{RemoteSpec, SyncConfig, DbBackupConfig}
use vaultwarden_hummingbird.Config.Knobs.{parse_count, parse_flag, non_empty}
use vaultwarden_hummingbird.Config.Resolve.{
  max_interval_secs, max_backup_keep, sync_interval_default, backup_interval_default,
  backup_keep_default, bad_bucket, spec_of, as_prefix, path_spec, trim_slashes, parse_remote,
  config_of, new_sync, capped, positive, resolve_sync, db_path_of, backup_of, with_sync, trimmed,
  sqlite_path, scheme_path, split_scheme, sqlite_uri_path, resolve_backup,
}

-- The prefix of the keys is empty or ends in "/", and the bucket's name is usable.
pub record IsRemote (r : RemoteSpec) : Type 0 where
  pub directory : (r.prefix ≡ []) ⊎ ((p : Str) × (r.prefix ≡ p ++ b'/' ∷ []))
  pub bucket : bad_bucket r.bucket ≡ false

pub record IsSync (cfg : SyncConfig) : Type 0 where
  pub remote : IsRemote cfg.target
  pub endpoint : is_empty cfg.target.endpoint ≡ false
  pub interval : cfg.interval ≤ max_interval_secs

pub record IsBackup (cfg : DbBackupConfig) : Type 0 where
  pub keep : (0 < cfg.keep) × (cfg.keep ≤ max_backup_keep)
  pub interval : (0 < cfg.interval) × (cfg.interval ≤ max_interval_secs)
  pub armed : (cfg.periodic || cfg.restore) ≡ true
  pub path : is_empty cfg.db_path ≡ false

-- A property of what is there.
abbrev pub OnSome : {A : Type 0} → (A → Type 0) → Option A → Type 0
OnSome P none = Unit
OnSome P (some a) = P a

as_prefix-directory : (p : Str) → (as_prefix p ≡ []) ⊎ ((q : Str) × (as_prefix p ≡ q ++ b'/' ∷ []))
as_prefix-directory [] = inl refl
as_prefix-directory (c ∷ p) = inr (c ∷ p, refl)

abbrev IsAt : Str → RemoteSpec → Type 0
IsAt endpoint r = IsRemote r × (r.endpoint ≡ endpoint)

spec_of-IsAt :
    (bucket prefix key_id key_secret endpoint : Str)
    → OnSome (IsAt endpoint) (spec_of bucket prefix key_id key_secret endpoint)
spec_of-IsAt bucket prefix key_id key_secret endpoint = elim (Bool-cases (bad_bucket bucket)) [
  | inl e ↦ rw e tt
  | inr e ↦
      rw e (record { directory = as_prefix-directory (trim_slashes prefix); bucket = e }, refl)
]

path_spec-IsAt :
    (path key_id key_secret endpoint : Str) (o : Option (Str × Str))
    → OnSome (IsAt endpoint) (path_spec path key_id key_secret endpoint o)
path_spec-IsAt path key_id key_secret endpoint none =
    spec_of-IsAt path [] key_id key_secret endpoint
path_spec-IsAt path key_id key_secret endpoint (some (b, p)) =
    spec_of-IsAt b p key_id key_secret endpoint

parse_remote-IsAt :
    (remote key_id key_secret endpoint : Str)
    → OnSome (IsAt endpoint) (parse_remote remote key_id key_secret endpoint)
unfolding parse_remote
parse_remote-IsAt remote key_id key_secret endpoint = go (split_once b':' remote)
  where
    go :
        (o : Option (Str × Str))
        → OnSome (IsAt endpoint) (elim o [
          | none ↦ none
          | some (name, path) ↦
              path_spec (trim path) key_id key_secret endpoint (split_once b'/' (trim path))
        ])
    go none = tt
    go (some (name, path)) =
        path_spec-IsAt (trim path) key_id key_secret endpoint (split_once b'/' (trim path))

config_of-IsSync :
    (remote endpoint : Str) (interval : ℕ) (o : Option RemoteSpec)
    → is_empty endpoint ≡ false
    → interval ≤ max_interval_secs
    → OnSome (IsAt endpoint) o
    → OnSome IsSync (config_of remote interval o)
config_of-IsSync remote endpoint interval none h i a = tt
config_of-IsSync remote endpoint interval (some r) h i a = record {
  remote = a.0;
  endpoint = ap is_empty a.1 ∙ h;
  interval = i;
}

new_sync-IsSync :
    (remote key_id key_secret endpoint : Str) (interval : ℕ)
    → interval ≤ max_interval_secs
    → OnSome IsSync (new_sync remote key_id key_secret endpoint interval)
unfolding new_sync
new_sync-IsSync remote key_id key_secret endpoint interval i =
    elim (Bool-cases (is_empty endpoint)) [
      | inl e ↦ rw e tt
      | inr e ↦ rw e (
          config_of-IsSync remote endpoint interval _ e i
            (parse_remote-IsAt remote key_id key_secret endpoint))
    ]

capped-le : (cap default s : ℕ) → default ≤ cap → capped cap default s ≤ cap
capped-le cap default s h = ground (arith, h)

positive-le :
    (cap default s : ℕ)
    → 0 < default
    → default ≤ cap
    → (0 < positive cap default s) × (positive cap default s ≤ cap)
positive-le cap default s p h = (ground (arith, h, p), ground (arith, h, p))

OnSome-if :
    {A : Type 0} (P : A → Type 0) (b : Bool) (o : Option A)
    → OnSome P o
    → OnSome P (if b then none else o)
OnSome-if P true o h = tt
OnSome-if P false o h = h

-- State sync, where it is configured at all, has a bucket name that holds no white space, "/" or ":",
-- a key prefix that is empty or ends in "/", an endpoint, and an interval of at most a week.
pub resolve_sync-IsSync : (knob : Str → Str → Str) → OnSome IsSync (resolve_sync knob)
unfolding resolve_sync
resolve_sync-IsSync knob =
    let raw = knob (codes "SUPERVISOR_S3_SYNC_INTERVAL") [] in
    let secs = parse_count u64_max raw sync_interval_default in
    OnSome-if IsSync (is_empty (knob (codes "SUPERVISOR_S3_REMOTE") [])) _ (
      OnSome-if IsSync
        (is_empty (knob (codes "SUPERVISOR_S3_ACCESS_KEY_ID") [])
          || is_empty (knob (codes "SUPERVISOR_S3_SECRET_ACCESS_KEY") []))
        _
        (new_sync-IsSync (knob (codes "SUPERVISOR_S3_REMOTE") [])
          (knob (codes "SUPERVISOR_S3_ACCESS_KEY_ID") [])
          (knob (codes "SUPERVISOR_S3_SECRET_ACCESS_KEY") [])
          (knob (codes "SUPERVISOR_S3_ENDPOINT") [])
          (capped max_interval_secs sync_interval_default secs)
          (capped-le max_interval_secs sync_interval_default secs (omega arith))))

abbrev Filled : Str → Type 0
Filled s = is_empty s ≡ false

non_empty-Filled : (o : Option Str) → OnSome Filled (non_empty o)
non_empty-Filled none = tt
non_empty-Filled (some []) = tt
non_empty-Filled (some (c ∷ s)) = refl

scheme_path-Filled : (raw : Str) (o : Option (Str × Str)) → OnSome Filled (scheme_path raw o)
scheme_path-Filled raw none = non_empty-Filled (some raw)
scheme_path-Filled raw (some (scheme, rest)) = elim (Bool-cases (str_eq scheme (codes "sqlite"))) [
  | inl e ↦ rw e (non_empty-Filled (some (sqlite_uri_path rest)))
  | inr e ↦ rw e tt
]

db_path_of-Filled : (o : Option Str) → OnSome Filled (db_path_of o)
db_path_of-Filled none = refl
db_path_of-Filled (some url) =
    unfold sqlite_path in
    OnSome-if Filled (is_empty (trim url)) _
      (scheme_path-Filled (trim url) (split_scheme (trim url)))

backup_of-IsBackup :
    (periodic restore : Bool) (interval keep : ℕ) (sync : SyncConfig) (o : Option Str)
    → (periodic || restore) ≡ true
    → (0 < interval) × (interval ≤ max_interval_secs)
    → (0 < keep) × (keep ≤ max_backup_keep)
    → OnSome Filled o
    → OnSome IsBackup (backup_of periodic restore interval keep sync o)
backup_of-IsBackup periodic restore interval keep sync none a i k p = tt
backup_of-IsBackup periodic restore interval keep sync (some path) a i k p = record {
  keep = k;
  interval = i;
  armed = a;
  path = p;
}

with_sync-OnSome :
    (f : SyncConfig → Option DbBackupConfig) (o : Option SyncConfig)
    → ((s : SyncConfig) → OnSome IsBackup (f s))
    → OnSome IsBackup (with_sync f o)
with_sync-OnSome f none h = tt
with_sync-OnSome f (some s) h = h s

if_armed :
    (periodic restore : Bool) (o : Option DbBackupConfig)
    → ((periodic || restore) ≡ true → OnSome IsBackup o)
    → OnSome IsBackup (if not periodic && not restore then none else o)
if_armed true r o h = h refl
if_armed false true o h = h refl
if_armed false false o h = tt

-- A backup, where it is configured at all, keeps between 1 and 1000 dumps, runs at an interval
-- between a second and a week, is armed for dumps or for restore, and has a database path.
pub resolve_backup-IsBackup :
    (knob : Str → Str → Str) (sync : Option SyncConfig) (db_url : Option Str)
    → OnSome IsBackup (resolve_backup knob sync db_url)
unfolding resolve_backup
resolve_backup-IsBackup knob sync db_url =
    let periodic = parse_flag (knob (codes "SUPERVISOR_DB_BACKUP") []) false in
    let restore = parse_flag (knob (codes "SUPERVISOR_DB_BACKUP_RESTORE") []) false in
    if_armed periodic restore _ (λ a. with_sync-OnSome _ sync (λ s.
      backup_of-IsBackup periodic restore _ _ s (db_path_of (trimmed db_url)) a
        (positive-le max_interval_secs backup_interval_default
          (parse_count u64_max (knob (codes "SUPERVISOR_DB_BACKUP_INTERVAL") [])
            backup_interval_default)
          (omega arith) (omega arith))
        (positive-le max_backup_keep backup_keep_default
          (parse_count u64_max (knob (codes "SUPERVISOR_DB_BACKUP_KEEP") []) backup_keep_default)
          (omega arith) (omega arith))
        (db_path_of-Filled (trimmed db_url))))
