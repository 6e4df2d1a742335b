-- ===== src/Core.antt =====
-- core/: what the packages share.
pub mod Result
pub mod Time
pub mod Enums
