-- ===== src/Dom.antt =====
-- HTML output (yarte_dom).
pub mod Names
pub mod Writer
pub mod Serializer
pub mod Serialize
pub mod Sink
pub mod Tree
pub mod Fmt
