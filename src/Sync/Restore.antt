-- ===== src/Sync/Restore.antt =====
-- supervisor/src/runtime/sync/state.rs: the whole pull, `restore_state_at`.
pub mod Safety
pub mod Restored
use vaultwarden_hummingbird.Base.{
  ℕ, ◌+◌, Bool, true, false, not, Option, none, some, List, if◌then◌else◌, Result, ok, err,
}
use vaultwarden_hummingbird.Config.Spec.{SyncConfig, sync_prefix}
use vaultwarden_hummingbird.Sync.Manifest.{Manifest}
use vaultwarden_hummingbird.Sync.World.{World, M, ◌>>=◌, ◌>>◌, pure}
use vaultwarden_hummingbird.Sync.Client.{Failed, Listed, connect, load_manifest, list}
use vaultwarden_hummingbird.Sync.Pull.{
  clear_partials, Target, Tally, targets_of, listed_targets, pull_targets,
}
use vaultwarden_hummingbird.Sync.Recover.{reconcile_objects}

-- An unreadable manifest counts as none.
abbrev pub usable : Result Failed (Option Manifest) → Option Manifest
usable (ok m) = m
usable (err e) = none

module _ (digest : List ℕ → List ℕ) where
  -- Behind the loop: a run that was stopped reports success at once.
  unfoldable pub finish_pull : SyncConfig → Option Manifest → Option Tally → M Bool
  unfolding reconcile_objects
  finish_pull cfg m none = pure true
  finish_pull cfg m (some n) = do reconcile_objects digest cfg m; pure n.ok

  unfoldable pub pull_from : SyncConfig → Option Manifest → List Target → M Bool
  unfolding pull_targets finish_pull
  pull_from cfg m targets = do
    n ← pull_targets digest cfg targets (record { ok = true; pulled = 0; kept = 0 })
    finish_pull cfg m n

  unfoldable pub pull_listed : SyncConfig → Option (List Listed) → M Bool
  unfolding pull_from listed_targets
  pull_listed cfg none = pure false
  pull_listed cfg (some listed) = pull_from cfg none (listed_targets cfg listed)

  unfoldable pub pull_with : SyncConfig → Option Manifest → M Bool
  unfolding pull_from targets_of list pull_listed sync_prefix
  pull_with cfg (some m) = pull_from cfg (some m) (targets_of m.entries)
  pull_with cfg none = do listed ← list (sync_prefix cfg); pull_listed cfg listed

  unfoldable pub restore_state : SyncConfig → M Bool
  unfolding connect clear_partials load_manifest pull_with
  restore_state cfg = do
    connected ← connect
    if not connected
        then pure false
        else do clear_partials; loaded ← load_manifest cfg; pull_with cfg (usable loaded)
