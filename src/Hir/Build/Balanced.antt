-- ===== src/Hir/Build/Balanced.antt =====
-- The scopes, the helpers that are entered and the file are at the end of the walk what they were at its beginning.
pub mod At
pub mod Helpers
pub mod Walk
