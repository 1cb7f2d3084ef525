-- ===== src/Services.antt =====
-- supervisor/src/runtime/services: the children.
pub mod Grant
mod Tests
