-- ===== src/Lifecycle.antt =====
-- api/lifecycle: the readiness of the engine and the container that it runs in.
pub mod Readiness
pub mod Controller
mod Tests
