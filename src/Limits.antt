-- ===== src/Limits.antt =====
-- The in-memory state that bounds what one client can ask for.
pub mod Login
pub mod Cache
pub mod Export
mod Tests
