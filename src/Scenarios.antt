-- ===== src/Scenarios.antt =====
-- Concrete managers: the inputs of the tests and of the instances of the theorems.
mod Pools
mod Batches
mod Values
mod Leases
mod Waits
mod Forwarding
mod Systems
