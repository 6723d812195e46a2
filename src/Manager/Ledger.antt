-- ===== src/Manager/Ledger.antt =====
-- Where each executor is (src/leasepool/manager.py): idle, leased, waiting for its shutdown or shut
-- down, and how many the manager holds.
pub mod Count
pub mod Pool
pub mod Sizes
pub mod Table
pub mod Leases
pub mod Release
pub mod Methods
pub mod Acquire
pub mod Lifecycle
pub mod Reach
