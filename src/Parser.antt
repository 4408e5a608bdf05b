-- ===== src/Parser.antt =====
-- The template parser (yarte_parser).
pub mod Result
pub mod Cursor
pub mod Advances
pub mod Syntax
pub mod SourceMap
pub mod Trim
pub mod Tags
pub mod Expressions
pub mod Raw
pub mod Eater
pub mod PrePartials
mod Tests
