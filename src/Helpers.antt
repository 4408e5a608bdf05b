-- ===== src/Helpers.antt =====
-- Reading the files of a template (yarte_helpers).
pub mod Read
