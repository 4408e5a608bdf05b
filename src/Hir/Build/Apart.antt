-- ===== src/Hir/Build/Apart.antt =====
-- The walk leaves no two literals side by side, so the assertion of `build` holds.
pub mod Buffer
pub mod Helpers
pub mod Walk
