-- ===== src/Gate.antt =====
-- supervisor/src/runtime/gate: the exposed port, which answers `/alive` and refuses all else.
pub mod Limiter
pub mod Server
mod Tests
