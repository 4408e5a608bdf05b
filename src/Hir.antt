-- ===== src/Hir.antt =====
-- Lowering (yarte_hir).
pub mod Scope
pub mod Rust
pub mod Validator
pub mod Generator
pub mod Constants
pub mod Chain
pub mod Blocks
pub mod Conditions
pub mod Lower
pub mod Yields
pub mod Build
pub mod Meaning
pub mod Whole
pub mod Path
pub mod Resolve
pub mod LoopVar
pub mod PartialArgs
pub mod Extends
pub mod Visitor
