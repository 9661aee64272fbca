-- ===== src/Worker.antt =====
-- The report worker, app/workers.
pub mod Settings
pub mod Columns
pub mod Store
pub mod Claim
pub mod Reconcile
pub mod Lease
pub mod Failure
pub mod Persist
pub mod Process
pub mod Lifecycle
pub mod Follows
pub mod Fencing
pub mod Enqueue
pub mod System
pub mod Heartbeat
pub mod Runner
pub mod Sample
mod Tests
