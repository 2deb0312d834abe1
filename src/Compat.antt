-- ===== src/Compat.antt =====
-- api/compat: the cloud edge, its catalogue of errors and the translation of its requests.
pub mod Errors
pub mod Translate
pub mod Tests
