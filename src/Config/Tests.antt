-- ===== src/Config/Tests.antt =====
-- Concrete inputs for the theorems of the configuration modules.
use vaultwarden_hummingbird.Base.{Option, some, List, [], ◌∷◌}
use vaultwarden_hummingbird.Text.{Str, codes}
use vaultwarden_hummingbird.BTree.{get}
use vaultwarden_hummingbird.Config.Knobs.{unwrap_or}
use vaultwarden_hummingbird.Config.Dotenv.{
  Item, pair, skipped, no_file, load_from, IsRouted, load_from-IsRouted,
}
use vaultwarden_hummingbird.Config.Resolve.{resolve_sync, resolve_backup}
use vaultwarden_hummingbird.Config.Resolve.Bounds.{
  OnSome, IsSync, IsBackup, resolve_sync-IsSync, resolve_backup-IsBackup,
}
use vaultwarden_hummingbird.Config.Merge.{build, IsBootable, build-IsBootable}

abbrev table : List (Str × Str)
table =
    (codes "SUPERVISOR_S3_REMOTE", codes "r2:vw/db")
    ∷ (codes "SUPERVISOR_S3_ACCESS_KEY_ID", codes "id")
    ∷ (codes "SUPERVISOR_S3_SECRET_ACCESS_KEY", codes "secret")
    ∷ (codes "SUPERVISOR_S3_ENDPOINT", codes "https://e")
    ∷ (codes "SUPERVISOR_DB_BACKUP", codes "on")
    ∷ (codes "SUPERVISOR_DB_BACKUP_KEEP", codes "5")
    ∷ []

abbrev lookup : Str → Option Str
lookup key = get key table

abbrev knob : Str → Str → Str
knob key default = unwrap_or (lookup key) default

resolve_sync-IsSync_example : OnSome IsSync (resolve_sync knob)
resolve_sync-IsSync_example = resolve_sync-IsSync knob

resolve_backup-IsBackup_example :
    OnSome IsBackup (resolve_backup knob (resolve_sync knob) (some (codes "sqlite:///data/v.db")))
resolve_backup-IsBackup_example =
    resolve_backup-IsBackup knob (resolve_sync knob) (some (codes "sqlite:///data/v.db"))

build-IsBootable_example : OnSome (IsBootable no_file lookup) (build no_file lookup)
build-IsBootable_example = build-IsBootable no_file lookup

abbrev items : Str → List Item
items text =
    pair (codes "VAULTWARDEN_DOMAIN") text
    ∷ skipped
    ∷ pair (codes "VAULTWARDEN_SUPERVISOR_X") text
    ∷ pair (codes "VAULTWARDEN_PORT") text
    ∷ []

load_from-IsRouted_example : IsRouted (load_from items (some (some (codes "9000"))))
load_from-IsRouted_example = load_from-IsRouted items (some (some (codes "9000")))
