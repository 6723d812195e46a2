-- ===== src/Manager.antt =====
-- src/leasepool/manager.py: the pool of leased executors.
pub mod Config
pub mod State
pub mod Table
pub mod Sizing
pub mod Pool
pub mod Leases
pub mod Acquire
pub mod LogBridge
pub mod Handle
pub mod Stats
pub mod Checker
pub mod Waiting
pub mod Cancelling
pub mod Lifecycle
pub mod Steps
pub mod Ledger
pub mod Growth
pub mod Waking
pub mod Rounds
pub mod Sleeping
pub mod Balance
pub mod Releasing
pub mod Stopping
pub mod Submitting
pub mod Revoking
pub mod Writes
pub mod Expired
pub mod Identity
pub mod Retirement
pub mod Losing
pub mod LeaseUse
pub mod Demand
pub mod Observing
pub mod Forwarding
pub mod Draining
pub mod Drained
pub mod Settled
pub mod Acquiring
pub mod Queueing
pub mod Serving
pub mod Ownership
pub mod Alerting
pub mod Crashing
