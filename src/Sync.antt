-- ===== src/Sync.antt =====
-- supervisor/src/runtime/sync: the files of /data that are kept in the bucket, and their manifest.
pub mod Synced
pub mod Manifest
pub mod Objects
pub mod Cache
pub mod World
pub mod Run
pub mod Local
pub mod Push
pub mod Pull
pub mod Recover
pub mod Restore
pub mod Client
mod Tests
