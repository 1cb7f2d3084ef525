-- ===== src/Config.antt =====
-- supervisor/src/config: the records of the resolved configuration and how it is resolved.
pub mod Spec
pub mod Schema
pub mod Knobs
pub mod Dotenv
pub mod Resolve
pub mod Merge
mod Tests
