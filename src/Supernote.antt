-- ===== src/Supernote.antt =====
-- internal/notestore and internal/processor: the notes of a Supernote directory and the queue of jobs
-- that recognise them.
pub mod Rows
pub mod Queue
pub mod Notes
pub mod Steps
pub mod Integrity
pub mod Moves
pub mod Invariant
pub mod Claim
pub mod Visits
pub mod Scan
pub mod Tests
