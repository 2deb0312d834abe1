-- ===== src/Routes.antt =====
-- api/app/routes: what the HTTP handlers make of the jobs, the artifacts and the cloud requests.
pub mod Body
pub mod Cloud
pub mod Header
pub mod Files
pub mod Health
pub mod Native
mod Tests
