-- ===== src/Jobs.antt =====
-- api/jobs: job records and their log of events, and the runner with its single slot.
pub mod Events
pub mod Store
pub mod Slot
pub mod Runner
pub mod Loop
pub mod Frozen
pub mod Logs
pub mod Endings
pub mod SingleFlight
pub mod Tests
pub mod Steps
