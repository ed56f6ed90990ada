-- ===== src/Apispec.antt =====
-- apispec/: traffic that is read from HAR files.
pub mod Har
