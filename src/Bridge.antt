-- ===== src/Bridge.antt =====
-- internal/syncbridge: the pages that a synchronization has changed, from the queue to the index, the
-- vectors and the text that goes back to the devices.
pub mod Queue
pub mod Offered
pub mod Reads
pub mod Pages
pub mod Invariant
pub mod Dropped
pub mod Tests
