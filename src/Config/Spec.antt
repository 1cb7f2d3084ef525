-- ===== src/Config/Spec.antt =====
-- The configuration records: supervisor/src/s3/remote.rs, config/sync/spec.rs and
-- config/backup/spec.rs. A `Duration` is its whole seconds, which is all the knobs can set.
use vaultwarden_hummingbird.Base.{ℕ, Bool, Option, ◌++◌}
use vaultwarden_hummingbird.Text.{Str, codes, strip_prefix}

pub record RemoteSpec : Type 0 where
  pub bucket : Str
  pub prefix : Str
  pub key_id : Str
  pub key_secret : Str
  pub endpoint : Str

pub record SyncConfig : Type 0 where
  pub remote : Str
  pub target : RemoteSpec
  pub interval : ℕ
  pub state_file : Option Str

unfoldable pub sync_prefix : SyncConfig → Str
sync_prefix cfg = cfg.target.prefix

unfoldable pub set_state_file : SyncConfig → Str → SyncConfig
unfolding strip_prefix
set_state_file cfg state = record cfg { state_file = strip_prefix (codes "/data/") state }

pub record DbBackupConfig : Type 0 where
  pub sync : SyncConfig
  pub db_path : Str
  pub periodic : Bool
  pub interval : ℕ
  pub keep : ℕ
  pub restore : Bool
  pub staging : Str

unfoldable pub backup_prefix : DbBackupConfig → Str
unfolding sync_prefix
backup_prefix cfg = sync_prefix cfg.sync ++ codes "db/"

unfoldable pub db_label : DbBackupConfig → Str
db_label cfg = codes "sqlite"

unfoldable pub db_ext : DbBackupConfig → Str
db_ext cfg = codes "sqlite3"
