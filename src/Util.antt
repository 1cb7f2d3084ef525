-- ===== src/Util.antt =====
-- supervisor/src/util: the helpers that the other parts of the supervisor call.
pub mod Hash
mod Tests
