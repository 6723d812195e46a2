-- ===== src/Grinder.antt =====
-- src/leasepool/grinder.py: the WorkGrinder, which batches work onto leases.
pub mod State
pub mod Queue
pub mod Batch
pub mod Lifecycle
pub mod Steps
pub mod Settling
pub mod Accounted
pub mod Effects
pub mod Kept
pub mod Ending
pub mod Turning
pub mod Results
pub mod Crash
pub mod Stopping
pub mod WindingDown
pub mod Soundness
pub mod Delivery
pub mod Idle
