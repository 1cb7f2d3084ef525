-- ===== src/Backup.antt =====
-- supervisor/src/runtime/backup: the dumps of the vault's database and their bucket-side manifest.
pub mod Manifest
pub mod World
pub mod Lineage
pub mod Bucket
pub mod Hoare
pub mod Run
pub mod Restore
pub mod Tick
mod Tests
