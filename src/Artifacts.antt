-- ===== src/Artifacts.antt =====
-- api/jobs/artifacts.py: where artifacts lie, how they are written, and how they are served.
pub mod Ids
pub mod Paths
pub mod Disk
pub mod Sidecar
pub mod Writing
pub mod Serving
pub mod Listing
pub mod Crash
pub mod Settled
pub mod Tests
