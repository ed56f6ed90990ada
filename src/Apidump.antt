-- ===== src/Apidump.antt =====
-- apidump/: what a capture selects and what it tells at its end.
pub mod Summary
pub mod Net
