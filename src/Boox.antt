-- ===== src/Boox.antt =====
-- internal/booxpipeline: the notes of a Boox device and the queue of jobs that recognise them.
pub mod Rows
pub mod Notes
pub mod Queue
pub mod Dates
pub mod Steps
pub mod Linked
pub mod Paths
pub mod Integrity
pub mod Lifecycle
pub mod Claim
pub mod Rename
pub mod Recovery
pub mod Tests
