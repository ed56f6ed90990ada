-- ===== src/Learn.antt =====
-- learn/: what the parser of HTTP messages does to texts.
pub mod Luhn
pub mod Preprocessor
